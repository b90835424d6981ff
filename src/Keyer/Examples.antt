-- ===== src/Keyer/Examples.antt =====
-- A keyer over three terms, small and over a perfect hash, and an index of three keys.
use setrixdb.Base.{
  length, has_str, ℕ, ◌*◌, ◌/◌, ◌≡◌, refl, ◌≢◌, true, ◌&&◌, not, none, some, List, [], ◌∷◌, arith,
}
use mathlib.Core.List.Perm
use setrixdb.IdSet.Laws.{IsValid, member}
use setrixdb.Std.Bits.{ones_count64, len32}
use setrixdb.Std.Utf8.{range_from, decode_rune}
use setrixdb.Addb.Hash.{compute_deterministic_id, hash_loop}
use setrixdb.Mphf
use setrixdb.Index.{Index, build_index}
use setrixdb.Mphf.{Chd, hash_mod, mix, ones_from, h1, h2, gval, read_bits, bit_set, set_bit, rank}
use setrixdb.Mphf.Build.{
  Sizes, bump, count_keys, starts_from, fill_keys, nonempty_from, clashes, all_free,
  find_displacement, occupy, bucket_size, place_all, max_of, or_at, put_bits, pack_loop, width_of,
  pack_g, rank_blocks, build_rank, group_keys, attempt_with, finish, attempts, build, slot,
  build_opts,
}
use setrixdb.Mphf.Build.Correct.{IsAccurate}
use setrixdb.Keyer.{
  Keyer, ok, build_keyer, hash_keyer, small_keyer, put_small, unicos, id_set, term,
}
use setrixdb.Keyer.Exact.{IsExact}
use setrixdb.Keyer.Hashed.{hash_keyer-IsExact}
use setrixdb.Keyer.Built.{build_keyer-IsExact, build_keyer_small}
use setrixdb.Keyer.Sets.{is_listed, member-id_set}

-- The terms "ab", "c", "ab", "ba".
abbrev terms : List (List ℕ)
terms = (97 ∷ 98 ∷ []) ∷ (99 ∷ []) ∷ (97 ∷ 98 ∷ []) ∷ (98 ∷ 97 ∷ []) ∷ []

unfoldable as_listed : List ℕ → List ℕ
as_listed xs = xs

abbrev sizes : Sizes
sizes = record { arrange = as_listed; buckets = λ n. n / 3; table = λ n. n * 123 / 100 }

sizes-IsAccurate : IsAccurate sizes
unfolding as_listed
sizes-IsAccurate = record {
  rearranges = λ xs. Perm.rfl;
  buckets_le = λ n h. omega arith;
  table_le = λ n h. omega arith;
}

abbrev hashed : Keyer
hashed = record {
  c = some (record {
    n = 3;
    m = 4;
    nb = 2;
    gpack = 8 ∷ 0 ∷ [];
    gw = 2;
    max_d = 2;
    words = 11 ∷ [];
    l1 = 0 ∷ 3 ∷ [];
    seed1 = 44507;
    seed2 = 12144215827735614841;
  });
  small = none;
  terms = (98 ∷ 97 ∷ []) ∷ (99 ∷ []) ∷ (97 ∷ 98 ∷ []) ∷ [];
  max_probe = 0;
  colisoes = 0;
}

hash_keyer_test : hash_keyer sizes (unicos [] terms) ≡ ok hashed
unfolding hash_keyer unicos as_listed compute_deterministic_id hash_loop range_from decode_rune
    ones_count64 len32 Mphf.lookup hash_mod mix ones_from h1 h2 gval read_bits bit_set set_bit rank
    bump count_keys starts_from fill_keys nonempty_from clashes all_free find_displacement occupy
    bucket_size place_all max_of or_at put_bits pack_loop width_of pack_g rank_blocks build_rank
    group_keys attempt_with finish attempts build slot build_opts
hash_keyer_test = refl

few_terms : length (unicos [] terms) ≡ 3
unfolding unicos
few_terms = refl

hash_keyer-IsExact_example : IsExact hashed terms × ((t : List ℕ) → has_str t terms ≡ true → t ≢ [])
hash_keyer-IsExact_example =
    hash_keyer-IsExact sizes terms hashed sizes-IsAccurate (omega (arith, few_terms))
      hash_keyer_test

abbrev small : Keyer
small = record {
  c = none;
  small = some ((98 ∷ 97 ∷ [], 2) ∷ (99 ∷ [], 1) ∷ (97 ∷ 98 ∷ [], 0) ∷ []);
  terms = (97 ∷ 98 ∷ []) ∷ (99 ∷ []) ∷ (98 ∷ 97 ∷ []) ∷ [];
  max_probe = 0;
  colisoes = 0;
}

build_keyer_test : build_keyer sizes terms ≡ ok small
unfolding build_keyer unicos small_keyer put_small
build_keyer_test = refl

build_keyer-IsExact_example : IsExact small terms
build_keyer-IsExact_example =
    build_keyer-IsExact sizes terms small sizes-IsAccurate (omega (arith, few_terms))
      build_keyer_test

build_keyer_small_example : (k : Keyer) × (build_keyer sizes terms ≡ ok k) × IsExact k terms
build_keyer_small_example = build_keyer_small sizes terms (omega (arith, few_terms))

hashed-IsExact : IsExact hashed terms
hashed-IsExact =
    (hash_keyer-IsExact sizes terms hashed sizes-IsAccurate (omega (arith, few_terms))
      hash_keyer_test).0

-- The terms "c", "d" and "ab".
abbrev asked : List (List ℕ)
asked = (99 ∷ []) ∷ (100 ∷ []) ∷ (97 ∷ 98 ∷ []) ∷ []

member-id_set_example :
    IsValid (id_set hashed asked).0
    × ((q : ℕ) → member (id_set hashed asked).0 q ≡ is_listed asked (term hashed q))
    × ((t : List ℕ)
        → has_str t (id_set hashed asked).1 ≡ (has_str t asked && not (has_str t terms)))
member-id_set_example = member-id_set hashed terms hashed-IsExact asked

abbrev index_keys : List ℕ
index_keys = 10 ∷ 20 ∷ 30 ∷ []

abbrev index : Index
index = record {
  c = record {
    n = 3;
    m = 4;
    nb = 2;
    gpack = 0 ∷ 0 ∷ [];
    gw = 1;
    max_d = 0;
    words = 11 ∷ [];
    l1 = 0 ∷ 3 ∷ [];
    seed1 = 44507;
    seed2 = 12144215827735614841;
  };
}

build_index_test : build_index sizes index_keys ≡ some index
unfolding build_index as_listed ones_count64 len32 hash_mod mix ones_from bit_set set_bit bump
    count_keys starts_from fill_keys nonempty_from clashes all_free find_displacement occupy
    bucket_size place_all max_of or_at put_bits pack_loop width_of pack_g rank_blocks build_rank
    group_keys attempt_with finish attempts build slot build_opts
build_index_test = refl
