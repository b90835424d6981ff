-- ===== src/Addb/Kernel/Merge.antt =====
-- `mergeUnique` keeps the first occurrence of each ID of the concatenated parts.
use setrixdb.Base.{
  ℕ, ◌≡◌, refl, sym, ◌∙◌, ap, true, false, not, ◌&&◌, List, [], ◌∷◌, ◌++◌, elem, ◌==◌, ==_iff,
  ==_refl, arith, inl, inr, Bool-cases, select, unique, select-select, select_ext,
}
use mathlib.Core.List.{append-nil, append_assoc, flatten}
use setrixdb.Addb.Kernel.{merge_part, merge_parts, merge_unique}

-- `out` with the new IDs of `ids` behind it, each once.
abbrev fresh : List ℕ → List ℕ → List ℕ
fresh seen ids = select (λ q. not (elem q seen)) (unique ids)

fresh-cons_seen :
    (x : ℕ) (ids seen : List ℕ) → elem x seen ≡ true → fresh seen (x ∷ ids) ≡ fresh seen ids
fresh-cons_seen x ids seen e = rw e (
    select-select (λ q. not (elem q seen)) (λ q. not (q == x)) (unique ids)
    ∙ select_ext (λ q. not (q == x) && not (elem q seen)) (λ q. not (elem q seen)) (unique ids)
        (λ q _. elim (Bool-cases (q == x)) [
          | inl s ↦ let same = (==_iff q x).0 s in rw (same, e, ==_refl x)
          | inr d ↦ rw d
        ]))

fresh-cons_new :
    (x : ℕ) (ids seen : List ℕ)
    → elem x seen ≡ false
    → fresh seen (x ∷ ids) ≡ x ∷ fresh (x ∷ seen) ids
fresh-cons_new x ids seen e = rw e (
    ap (◌∷◌ x) (
      select-select (λ q. not (elem q seen)) (λ q. not (q == x)) (unique ids)
      ∙ select_ext (λ q. not (q == x) && not (elem q seen)) (λ q. not (elem q (x ∷ seen)))
          (unique ids) (λ q _. ground arith)))

merge_part_seen :
    (x : ℕ) (ids seen out : List ℕ)
    → elem x seen ≡ true
    → merge_part (x ∷ ids) seen out ≡ merge_part ids seen out
unfolding merge_part
merge_part_seen x ids seen out e = rw e

merge_part_new :
    (x : ℕ) (ids seen out : List ℕ)
    → elem x seen ≡ false
    → merge_part (x ∷ ids) seen out ≡ merge_part ids (x ∷ seen) (out ++ x ∷ [])
unfolding merge_part
merge_part_new x ids seen out e = rw e

merge_part_lem : (ids seen out : List ℕ) → (merge_part ids seen out).1 ≡ out ++ fresh seen ids
merge_part_lem [] seen out = unfold merge_part in sym (append-nil out)
merge_part_lem (x ∷ ids) seen out = elim (Bool-cases (elem x seen)) [
  | inl e ↦
      ap (λ (r : List ℕ × List ℕ). r.1) (merge_part_seen x ids seen out e)
      ∙ merge_part_lem ids seen out
      ∙ ap (◌++◌ out) (sym (fresh-cons_seen x ids seen e))
  | inr e ↦
      ap (λ (r : List ℕ × List ℕ). r.1) (merge_part_new x ids seen out e)
      ∙ merge_part_lem ids (x ∷ seen) (out ++ x ∷ [])
      ∙ append_assoc out (x ∷ []) (fresh (x ∷ seen) ids)
      ∙ ap (◌++◌ out) (sym (fresh-cons_new x ids seen e))
]

merge_part-append :
    (p r seen out : List ℕ)
    → merge_part (p ++ r) seen out
      ≡ merge_part r (merge_part p seen out).0 (merge_part p seen out).1
unfolding merge_part
merge_part-append [] r seen out = refl
merge_part-append (x ∷ p) r seen out = elim (Bool-cases (elem x seen)) [
  | inl e ↦ rw e (merge_part-append p r seen out)
  | inr e ↦ rw e (merge_part-append p r (x ∷ seen) (out ++ x ∷ []))
]

merge_parts-flatten :
    (parts : List (List ℕ)) (seen out : List ℕ)
    → merge_parts parts seen out ≡ (merge_part (flatten parts) seen out).1
unfolding merge_parts flatten
merge_parts-flatten [] seen out = unfold merge_part in refl
merge_parts-flatten (p ∷ parts) seen out =
    merge_parts-flatten parts (merge_part p seen out).0 (merge_part p seen out).1
    ∙ ap (λ (r : List ℕ × List ℕ). r.1) (sym (merge_part-append p (flatten parts) seen out))

select_all : (ids : List ℕ) → select (λ q. not (elem q [])) ids ≡ ids
select_all [] = refl
select_all (x ∷ ids) = ap (◌∷◌ x) (select_all ids)

-- Merging keeps the first occurrence of each ID of the parts, in their order.
pub merge_unique-unique : (parts : List (List ℕ)) → merge_unique parts ≡ unique (flatten parts)
unfolding merge_unique
merge_unique-unique parts =
    merge_parts-flatten parts [] []
    ∙ merge_part_lem (flatten parts) [] []
    ∙ select_all (unique (flatten parts))
