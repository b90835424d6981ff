-- ===== src/Persist/Soundness.antt =====
-- `ReadFile` accepts no file that does not begin as `WriteFile` writes it.
use native.Mathlib.Nat.{mod-eq_of_lt}
use mathlib.Core.List.{append_assoc}
use setrixdb.Base.{
  Option, none, ℕ, ◌*◌, ◌/◌, ◌≤◌, ◌<◌, ◌≡◌, refl, sym, ◌∙◌, ap, ap₂, Bool, true, false, ◌||◌, not,
  some, List, [], ◌∷◌, ◌++◌, length, get_or, take, drop, ltb, ◌==◌, if◌then◌else◌, arith, u64,
  u64_mod, IsStrict, Below, length-drop, drop-drop, take-append-drop, drop-get_or, take-Below,
  drop-Below, length-take, get_or,
}
use setrixdb.Std.Endian.{put_le, get_le, put_le-get_le, get_le-lt}
use setrixdb.IdSet.{IdSet}
use setrixdb.Persist.{
  ReadError, file_magic, loaded, failed, not_sxset, unsupported_kind, truncated, not_ascending,
  bytes_eq, read_ids, is_ascending, read_file,
}
use setrixdb.Persist.Writing.{encode, words_of}
use setrixdb.Persist.Reading.{length-read_ids, words_of-read_ids, is_ascending-IsStrict}

bytes_eq_sound : (xs ys : List ℕ) → bytes_eq xs ys ≡ true → xs ≡ ys
unfolding bytes_eq
bytes_eq_sound [] [] h = refl
bytes_eq_sound [] (y ∷ ys) h = cc
bytes_eq_sound (x ∷ xs) [] h = cc
bytes_eq_sound (x ∷ xs) (y ∷ ys) h = ground (arith, bytes_eq_sound xs ys)

abbrev stored_ids : List ℕ → List ℕ
stored_ids bytes = read_ids (get_le (take 8 (drop 7 bytes))) 0 (drop 15 bytes)

passed_tests :
    (a b c d : Bool) (s t : IdSet)
    → (if a
        then failed not_sxset
        else (if b
            then failed unsupported_kind
            else (if c then failed truncated else (if d then loaded s else failed not_ascending))))
      ≡ loaded t
    → (a ≡ false) × (b ≡ false) × (c ≡ false) × (d ≡ true) × (t ≡ s)
passed_tests true b c d s t h = cc
passed_tests false true c d s t h = cc
passed_tests false false true d s t h = cc
passed_tests false false false false s t h = cc
passed_tests false false false true s t h = (refl, refl, refl, refl, cc)

not_ltb : (a b : ℕ) → ltb a b ≡ false → b ≤ a
not_ltb a b h = ground arith

not-not_eq : (a b : ℕ) → not (a == b) ≡ false → a ≡ b
not-not_eq a b h = ground arith

neither_test : (a b : Bool) → (a || not b) ≡ false → (a ≡ false) × (b ≡ true)
neither_test a b h = ground arith

word_lt : (word : List ℕ) → length word ≡ 8 → Below 256 word → get_le word < u64_mod
word_lt word full h = rw full at (get_le-lt word h)

-- What the tests of `ReadFile` have seen of a file that it accepts.
accepted :
    (bytes : List ℕ) (t : IdSet)
    → read_file (some bytes) ≡ loaded t
    → (15 ≤ length bytes)
      × (bytes_eq (take 6 bytes) file_magic ≡ true)
      × (get_or bytes 6 0 ≡ 0x53)
      × (get_le (take 8 (drop 7 bytes)) ≤ length (drop 15 bytes) / 8)
      × (is_ascending (stored_ids bytes) ≡ true)
      × (t ≡ record { ids = stored_ids bytes; sorted = true })
unfolding read_file
accepted bytes t h =
    let n = get_le (take 8 (drop 7 bytes)) in
    let (front, kind, whole, ascending, same) =
      passed_tests (ltb (length bytes) 15 || not (bytes_eq (take 6 bytes) file_magic))
        (not (get_or bytes 6 0 == 0x53)) (ltb (length (drop 15 bytes) / 8) n)
        (is_ascending (stored_ids bytes)) (record { ids = stored_ids bytes; sorted = true }) t h in
    let (long, magic) =
      neither_test (ltb (length bytes) 15) (bytes_eq (take 6 bytes) file_magic) front in
    (
      not_ltb (length bytes) 15 long,
      magic,
      not-not_eq (get_or bytes 6 0) 0x53 kind,
      not_ltb (length (drop 15 bytes) / 8) n whole,
      ascending,
      same,
    )

header_split :
    (bytes : List ℕ)
    → 15 ≤ length bytes
    → take 6 bytes ≡ file_magic
    → get_or bytes 6 0 ≡ 0x53
    → bytes ≡ file_magic ++ (0x53 ∷ (take 8 (drop 7 bytes) ++ drop 15 bytes))
header_split bytes long magic kind =
    sym (take-append-drop 6 bytes)
    ∙ ap₂ ◌++◌ magic (
        drop-get_or 6 bytes 0 (omega arith)
        ∙ ap₂ ◌∷◌ kind (
            sym (take-append-drop 8 (drop 7 bytes))
            ∙ ap (◌++◌ (take 8 (drop 7 bytes))) (drop-drop 8 7 bytes)))

-- An accepted file gives a valid set that says so, with strictly ascending IDs, and begins with what
-- `WriteFile` writes for that set.
pub read_file_sound :
    (bytes : List ℕ) (t : IdSet)
    → Below 256 bytes
    → read_file (some bytes) ≡ loaded t
    → (t.sorted ≡ true) × IsStrict t.ids × ((rest : List ℕ) × (bytes ≡ encode t.ids ++ rest))
read_file_sound bytes t h e =
    let (long, magic, kind, whole, ascending, same) = accepted bytes t e in
    let body = drop 15 bytes in
    let word = take 8 (drop 7 bytes) in
    let n = get_le word in
    let full : length word ≡ 8 = omega (arith, length-take 8 (drop 7 bytes), length-drop 7 bytes) in
    let bytes_word : Below 256 word = take-Below 8 256 (drop 7 bytes) (drop-Below 7 256 bytes h) in
    let small : n < u64_mod = word_lt word full bytes_word in
    let count : put_le 8 (u64 (length (stored_ids bytes))) ≡ word =
      ap (put_le 8) (ap u64 (length-read_ids n 0 body) ∙ mod-eq_of_lt small)
      ∙ ap (λ (k : ℕ). put_le k n) (sym full)
      ∙ put_le-get_le word bytes_word in
    let stored : words_of (stored_ids bytes) ≡ take (n * 8) body =
      words_of-read_ids n 0 body (drop-Below 15 256 bytes h) (omega arith) in
    let rest = drop (n * 8) body in
    let tail : word ++ body
        ≡ put_le 8 (u64 (length (stored_ids bytes))) ++ words_of (stored_ids bytes) ++ rest =
      ap₂ ◌++◌ (sym count)
        (sym (take-append-drop (n * 8) body) ∙ ap (λ (l : List ℕ). l ++ rest) (sym stored))
      ∙ sym (
          append_assoc (put_le 8 (u64 (length (stored_ids bytes)))) (words_of (stored_ids bytes))
            rest) in
    rw same (
      refl,
      is_ascending-IsStrict (stored_ids bytes) ascending,
      (
        rest,
        header_split bytes long (bytes_eq_sound _ _ magic) kind
            ∙ ap (λ (l : List ℕ). file_magic ++ (0x53 ∷ l)) tail,
      ),
    )

-- Whatever `ReadFile` accepts is sorted and strictly ascending.
pub read_file-IsStrict :
    (content : Option (List ℕ)) (t : IdSet)
    → read_file content ≡ loaded t
    → (t.sorted ≡ true) × IsStrict t.ids
read_file-IsStrict none t e = absurd (unfold read_file in failed_ne_loaded e)
  where
    failed_ne_loaded : {r : ReadError} → failed r ≡ loaded t → ⊥
    failed_ne_loaded e = cc
read_file-IsStrict (some bytes) t e =
    let (_, _, _, _, ascending, same) = accepted bytes t e in
    rw same (refl, is_ascending-IsStrict (stored_ids bytes) ascending)
