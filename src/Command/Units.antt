-- ===== src/Command/Units.antt =====
-- The unit of a size, and the order of `normalize`.
use setrixdb.Base.{
  ltb, leb, ◌==◌, ltb→lt, suc-==-zero, Bool-cases, length, get_or, set, ℕ, zero, suc, ◌+◌, ◌-◌, ◌*◌,
  ◌/◌, ◌^◌, ◌≤◌, ◌<◌, ◌≡◌, refl, inl, inr, false, ◌||◌, not, Option, none, some, List, [], ◌∷◌,
  arith,
}
use setrixdb.Std.Sort.{sort_slice}
use setrixdb.IdSet.{new_set, finalize, finalize_loop, sorted_ids}
use setrixdb.Command.Sets.{normalize, normalize_loop, unit_loop, human_unit}

-- The unit of plain bytes below 1000, and otherwise the power of 1000 below the size, whose letter
-- exists.
abbrev pub IsUnit : ℕ → Option (Option (ℕ × ℕ)) → Type 0
IsUnit b none = ⊥
IsUnit b (some none) = b < 1000
IsUnit b (some (some (div, exp))) =
    (div ≡ 1000 ^ (exp + 1)) × (div ≤ b) × (b < div * 1000) × (exp < 6)

-- Every size of an int64 has a unit: the loop of `humanBytes` ends, and its letter is in "kMGTPE".
pub human_unit-IsUnit : (b : ℕ) → b < 2 ^ 63 → IsUnit b (human_unit b)
unfolding human_unit unit_loop
human_unit-IsUnit b h = elim (Bool-cases (ltb b 1000)) [
  | inl e ↦ rw e (ltb→lt b 1000 e)
  | inr e ↦ rw e (elim (Bool-cases (leb 1000 (b / 1000))) [
    | inr small ↦ rw small (ground arith)
    | inl big ↦ rw big (elim (Bool-cases (leb 1000 (b / 1000 / 1000))) [
      | inr small ↦ rw small (ground arith)
      | inl big ↦ rw big (elim (Bool-cases (leb 1000 (b / 1000 / 1000 / 1000))) [
        | inr small ↦ rw small (ground arith)
        | inl big ↦ rw big (elim (Bool-cases (leb 1000 (b / 1000 / 1000 / 1000 / 1000))) [
          | inr small ↦ rw small (ground arith)
          | inl big ↦ rw big (elim (Bool-cases (leb 1000 (b / 1000 / 1000 / 1000 / 1000 / 1000))) [
            | inr small ↦ rw small (ground arith)
            | inl big ↦ rw big (
                let small : leb 1000 (b / 1000 / 1000 / 1000 / 1000 / 1000 / 1000) ≡ false =
                  ground arith in
                rw small (ground arith))
          ])
        ])
      ])
    ])
  ])
]

normalize_loop-finalize_loop :
    (left i w : ℕ) (ids : List ℕ) → normalize_loop left i w ids ≡ finalize_loop left i w ids
unfolding normalize_loop finalize_loop
normalize_loop-finalize_loop zero i w ids = refl
normalize_loop-finalize_loop (suc left) i w ids =
    elim (Bool-cases (w == 0 || not (get_or ids i 0 == get_or ids (w - 1) 0))) [
      | inl e ↦
          rw e (normalize_loop-finalize_loop left (i + 1) (w + 1) (set ids w (get_or ids i 0)))
      | inr e ↦ rw e (normalize_loop-finalize_loop left (i + 1) w ids)
    ]

-- `normalize` of the command line gives what `IDs` of a new set of the same IDs gives.
pub normalize-sorted_ids : (ids : List ℕ) → normalize ids ≡ (sorted_ids (new_set ids)).0
unfolding normalize sorted_ids finalize new_set
normalize-sorted_ids [] = refl
normalize-sorted_ids (x ∷ xs) =
    rw (suc-==-zero (length xs))
      (normalize_loop-finalize_loop (length (sort_slice (x ∷ xs))) 0 0 (sort_slice (x ∷ xs)))
