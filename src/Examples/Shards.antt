-- ===== src/Examples/Shards.antt =====
-- internal/addb's sharded bitsets: a space of 200 IDs in three shards.
use mathlib.Core.List.{reverse, reverse_perm}
use setrixdb.Base.{
  ℕ, ◌+◌, ◌-◌, ◌≤◌, ◌≡◌, refl, ◌∙◌, [], ◌∷◌, ◌||◌, ◌&&◌, false, true, some, ◌==◌, arith,
}
use setrixdb.Addb.Bitset.{Bitset, new_bitset}
use setrixdb.Addb.Bitset.Laws.{has_id, has_id-cons_high}
use setrixdb.Addb.Sharded.{ShardedBitset, set_sharded, intersect_count, intersect_count_serial}
use setrixdb.Addb.Sharded.Laws.{
  IsWellFormed, member, made, made-IsWellFormed, replaced, replaced-IsWellFormed, has_id_of_zeros,
  member-set_sharded,
}
use setrixdb.Addb.Sharded.Parallel.{intersect_count-intersect_count_serial}

abbrev space : ShardedBitset
space = made 200 3 (omega arith) (omega arith) (omega arith)

space-IsWellFormed : IsWellFormed space
space-IsWellFormed = made-IsWellFormed 200 3 (omega arith) (omega arith) (omega arith)

member-set_sharded_example :
    (s' : ShardedBitset) × (set_sharded space 70 ≡ some s')
    × IsWellFormed s'
    × ((j : ℕ) → member s' j ≡ ((70 == j && true) || member space j))
member-set_sharded_example = member-set_sharded space 70 space-IsWellFormed (omega arith)

-- Shard 1 with the ID 70, which has place 3 there.
abbrev third_place : Bitset
third_place = record { words = 8 ∷ 0 ∷ [] }

third_place-bounded : (q : ℕ) → 67 ≤ q → has_id third_place.words q ≡ false
third_place-bounded q h =
    let place : q ≡ 64 + (q - 64) = omega arith in
    rw place (has_id-cons_high 8 (0 ∷ []) (q - 64) ∙ has_id_of_zeros 1 (q - 64))

abbrev with_seventy : ShardedBitset
with_seventy = replaced space 1 third_place space-IsWellFormed (omega arith)

with_seventy-IsWellFormed : IsWellFormed with_seventy
unfolding new_bitset
with_seventy-IsWellFormed =
    replaced-IsWellFormed space 1 third_place space-IsWellFormed (omega arith) refl
      third_place-bounded

intersect_count-intersect_count_serial_example :
    intersect_count 2 reverse with_seventy space ≡ intersect_count_serial with_seventy space
intersect_count-intersect_count_serial_example =
    intersect_count-intersect_count_serial with_seventy space with_seventy-IsWellFormed
      space-IsWellFormed refl refl 2 reverse (λ ws. reverse_perm ws)
