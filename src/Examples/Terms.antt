-- ===== src/Examples/Terms.antt =====
-- The positional hash of two strings.
use setrixdb.Base.{u64, ℕ, ◌≡◌, refl, List, [], ◌∷◌}
use setrixdb.Std.Utf8.{range_from, decode_rune}
use setrixdb.Addb.Hash.{
  compute_deterministic_id, hash_loop, polynomial, compute_deterministic_id-polynomial,
}

-- The bytes of "ação", in which two runes take two bytes each.
abbrev word : List ℕ
word = 97 ∷ 0xC3 ∷ 0xA7 ∷ 0xC3 ∷ 0xA3 ∷ 111 ∷ []

word_test : range_from 0 0 word ≡ (0, 97) ∷ (1, 231) ∷ (3, 227) ∷ (5, 111) ∷ []
unfolding range_from decode_rune
word_test = refl

compute_deterministic_id-polynomial_example :
    compute_deterministic_id word ≡ u64 (polynomial (range_from 0 0 word))
compute_deterministic_id-polynomial_example = compute_deterministic_id-polynomial word

-- "aBb" and "Bba" have the same letters and the same hash.
anagrams_test :
    compute_deterministic_id (97 ∷ 66 ∷ 98 ∷ []) ≡ compute_deterministic_id (66 ∷ 98 ∷ 97 ∷ [])
unfolding compute_deterministic_id hash_loop range_from decode_rune
anagrams_test = refl
