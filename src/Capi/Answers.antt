-- ===== src/Capi/Answers.antt =====
-- What the queries answer after any sequence of calls.
use setrixdb.Base.{
  ℕ, ◌≡◌, refl, ◌∙◌, ap, Option, none, some, List, [], ◌∷◌, arith, elem, select, unique,
  length_of_same_elems, unique-IsUnique, select-IsUnique, elem-unique, elem-select,
}
use setrixdb.IdSet.{IdSet, intersect}
use setrixdb.IdSet.Laws.{has-member, len-unique}
use setrixdb.IdSet.Algebra.{AllValid, member-intersect}
use setrixdb.Capi.{
  length_of, Registry, initial, has_found, sx_set_has, sx_intersect_many, intersect_found, Call,
  run,
}
use setrixdb.Capi.Refinement.{
  empty_store, run_store, asked, common_count, Matches, Refines-run, initial-Refines,
}

has_found-asked :
    (r : Registry) (h id : ℕ) (found : Option IdSet) (l : Option (List ℕ))
    → Matches found l
    → (has_found r h id found).0 ≡ asked l id
unfolding has_found
has_found-asked r h id none none rel = refl
has_found-asked r h id none (some l) rel = absurd rel
has_found-asked r h id (some s) none rel = absurd rel
has_found-asked r h id (some s) (some l) (valid, same) =
    let (answer, _, _) = has-member s id valid in ap some (answer ∙ same id)

-- After any sequence of calls, `sx_set_has` answers what a store answers that only keeps, behind each
-- handle, the list of the IDs added to it: -1 for a handle never given out or freed, and otherwise
-- whether the ID was added.
pub sx_set_has-run_store :
    (calls : List Call) (h id : ℕ)
    → (sx_set_has (run initial calls) h id).0 ≡ asked ((run_store empty_store calls).lists h) id
unfolding sx_set_has
sx_set_has-run_store calls h id =
    let (_, all) = Refines-run calls initial empty_store initial-Refines in
    has_found-asked (run initial calls) h id ((run initial calls).reg h)
      ((run_store empty_store calls).lists h) (all h)

intersect_found-counted :
    (r : Registry) (a b : ℕ) (found found' : Option IdSet) (l l' : Option (List ℕ))
    → Matches found l
    → Matches found' l'
    → length_of (intersect_found r a b found found').0 ≡ common_count l l'
unfolding intersect_found length_of
intersect_found-counted r a b none found' none l' rel rel' = refl
intersect_found-counted r a b none found' (some l) l' rel rel' = absurd rel
intersect_found-counted r a b (some sa) found' none l' rel rel' = absurd rel
intersect_found-counted r a b (some sa) none (some l) none rel rel' = refl
intersect_found-counted r a b (some sa) none (some l) (some l') rel rel' = absurd rel'
intersect_found-counted r a b (some sa) (some sb) (some l) none rel rel' = absurd rel'
intersect_found-counted r a b (some sa) (some sb) (some l) (some l') (va, same) (vb, same') =
    let s = (intersect (sa ∷ sb ∷ [])).0 in
    let both : AllValid (sa ∷ sb ∷ []) = (va, (vb, tt)) in
    let (valid, members, _, _) = member-intersect sa (sb ∷ []) both in
    ap some (
      len-unique s valid
      ∙ length_of_same_elems (unique s.ids) (select (λ q. elem q l') (unique l))
          (unique-IsUnique s.ids) (select-IsUnique (λ q. elem q l') (unique l) (unique-IsUnique l))
          (λ q.
            elem-unique q s.ids
            ∙ members q
            ∙ ground (
              arith,
              same q,
              same' q,
              elem-unique q l,
              elem-select (λ p. elem p l') q (unique l),
            )))

-- After any sequence of calls, `sx_intersect_many` answers the number of different IDs that were added
-- behind both handles, and -1 where one of them is unknown.
pub sx_intersect_many-run_store :
    (calls : List Call) (a b : ℕ)
    → (sx_intersect_many (run initial calls) a b).0
      ≡ common_count ((run_store empty_store calls).lists a) ((run_store empty_store calls).lists b)
unfolding sx_intersect_many
sx_intersect_many-run_store calls a b =
    let (_, all) = Refines-run calls initial empty_store initial-Refines in
    intersect_found-counted (run initial calls) a b ((run initial calls).reg a)
      ((run initial calls).reg b) ((run_store empty_store calls).lists a)
      ((run_store empty_store calls).lists b) (all a) (all b)
