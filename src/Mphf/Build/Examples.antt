-- ===== src/Mphf/Build/Examples.antt =====
-- A perfect hash of three keys, as `BuildOpts` has it for buckets of three keys and a slack of 0.23.
use setrixdb.Base.{u32_mod, ℕ, zero, suc, ◌≡◌, refl, none, some, List, [], ◌∷◌, arith}
use mathlib.Core.List.{Perm}
use mathlib.Core.List.Perm
use setrixdb.Std.Bits.{ones_count64, len32}
use setrixdb.Mphf.{Chd, read_bits, hash_mod, mix, bit_set, set_bit, ones_from}
use setrixdb.Mphf.Build.{
  build_opts, pack_g, width_of, build_rank, rank_blocks, group_keys, count_keys, bump, starts_from,
  fill_keys, nonempty_from, attempts, attempt_with, place_all, find_displacement, all_free, clashes,
  slot, occupy, bucket_size, finish, pack_loop, put_bits, or_at, max_of,
}
use setrixdb.Mphf.Build.Pack.{AllLt, read_bits-pack_g}
use setrixdb.Mphf.Build.Perfect.{IsPerfect}
use setrixdb.Mphf.Build.Correct.{build_opts-IsPerfect, build_opts_repeated}

abbrev keys : List ℕ
keys = 10 ∷ 20 ∷ 30 ∷ []

unfoldable as_listed : List ℕ → List ℕ
as_listed xs = xs

as_listed-perm : (xs : List ℕ) → Perm (as_listed xs) xs
unfolding as_listed
as_listed-perm xs = Perm.rfl

abbrev built : Chd
built = record {
  n = 3;
  m = 4;
  nb = 2;
  gpack = 0 ∷ 0 ∷ [];
  gw = 1;
  max_d = 0;
  words = 11 ∷ [];
  l1 = 0 ∷ 3 ∷ [];
  seed1 = 44507;
  seed2 = 12144215827735614841;
}

build_opts_test : build_opts as_listed keys 1 3 44507 ≡ some built
unfolding build_opts as_listed hash_mod mix group_keys count_keys bump starts_from fill_keys
    nonempty_from attempts attempt_with place_all find_displacement all_free clashes slot bit_set
    occupy set_bit bucket_size finish pack_g pack_loop put_bits or_at width_of max_of build_rank
    rank_blocks ones_from ones_count64 len32
build_opts_test = refl

build_opts-IsPerfect_example : IsPerfect built keys
build_opts-IsPerfect_example =
    build_opts-IsPerfect as_listed as_listed-perm keys 1 3 44507 built (omega arith) (omega arith)
      (omega arith) build_opts_test

build_opts_repeated_example : build_opts as_listed (10 ∷ 20 ∷ 10 ∷ []) 1 3 44507 ≡ none
build_opts_repeated_example =
    build_opts_repeated as_listed as_listed-perm (10 ∷ 20 ∷ 10 ∷ []) 1 3 44507 0 2 (omega arith)
      (omega arith) (omega arith) (omega arith) (omega arith) refl

abbrev displacements : List ℕ
displacements = 5 ∷ 0 ∷ 19 ∷ []

displacements-AllLt : AllLt u32_mod displacements
displacements-AllLt zero = omega arith
displacements-AllLt (suc zero) = omega arith
displacements-AllLt (suc (suc zero)) = omega arith
displacements-AllLt (suc (suc (suc i))) = omega arith

read_bits-pack_g_example : read_bits (pack_g 3 displacements) (width_of displacements) 2 ≡ 19
read_bits-pack_g_example = read_bits-pack_g 3 displacements 2 displacements-AllLt (omega arith)

built_blocks : built.l1 ≡ build_rank (11 ∷ [])
unfolding build_rank rank_blocks ones_from ones_count64
built_blocks = refl
