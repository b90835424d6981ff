-- ===== src/Capi/Refinement.antt =====
-- The registry is a store of sets in which the queries change nothing: what a set holds is what was
-- added to it, although the code sorts it behind the handle.
use setrixdb.Base.{
  ℕ, ◌+◌, ◌≡◌, refl, ◌∙◌, ap, Bool, Option, none, some, List, [], ◌∷◌, ◌++◌, take, ◌==◌,
  if◌then◌else◌, inl, inr, Bool-cases, ==_iff, arith, u64, elem, elem-append, length, select,
  unique,
}
use setrixdb.IdSet.{IdSet, new_set, add, len, has, intersect, finalize}
use setrixdb.IdSet.Laws.{
  IsValid, member, finalize_lem, finalize-IsValid, member-add, member-new_set, has-member,
}
use setrixdb.IdSet.Algebra.{AllValid, SameMembers, member-intersect}
use setrixdb.Capi.{
  Registry, initial, put, keep, add_found, len_found, has_found, sx_set_new, sx_set_add_many,
  sx_set_len, sx_set_has, sx_set_free, sx_intersect_many, sx_intersect_ids, intersect_found,
  keep_both, Call, call_new, call_add_many, call_len, call_has, call_intersect_many,
  call_intersect_ids, call_free, step, run,
}

-- The abstract store: behind each handle, the IDs in the order in which they were added.
pub record Store : Type 0 where
  pub lists : ℕ → Option (List ℕ)
  pub fresh : ℕ

unfoldable pub empty_store : Store
empty_store = record { lists = λ h. none; fresh = 1 }

add_to : Store → ℕ → List ℕ → ℕ → Option (List ℕ) → Store
add_to t h ids n none = t
add_to t h ids n (some l) =
    if n == 0 then t else record { lists = put t.lists h (some (l ++ take n ids)); fresh = t.fresh }

store_step : Store → Call → Store
unfolding add_to
store_step t call_new = record { lists = put t.lists t.fresh (some []); fresh = u64 (t.fresh + 1) }
store_step t (call_add_many h ids n) = add_to t h ids n (t.lists h)
store_step t (call_free h) = record { lists = put t.lists h none; fresh = t.fresh }
store_step t (call_len h) = t
store_step t (call_has h id) = t
store_step t (call_intersect_many a b) = t
store_step t (call_intersect_ids a b) = t

unfoldable pub run_store : Store → List Call → Store
unfolding store_step
run_store t [] = t
run_store t (call ∷ calls) = run_store (store_step t call) calls

-- What a membership query answers on the store.
abbrev pub asked : Option (List ℕ) → ℕ → Option Bool
asked none id = none
asked (some l) id = some (elem id l)

-- The number of IDs that both lists have, for an intersection query.
abbrev pub common_count : Option (List ℕ) → Option (List ℕ) → Option ℕ
common_count none l' = none
common_count (some l) none = none
common_count (some l) (some l') = some (length (select (λ q. elem q l') (unique l)))

abbrev pub Matches : Option IdSet → Option (List ℕ) → Type 0
Matches none none = Unit
Matches none (some l) = ⊥
Matches (some s) none = ⊥
Matches (some s) (some l) = IsValid s × ((q : ℕ) → member s q ≡ elem q l)

abbrev pub Refines : Registry → Store → Type 0
Refines r t = (r.next ≡ t.fresh) × ((h : ℕ) → Matches (r.reg h) (t.lists h))

Matches-put :
    (m : ℕ → Option IdSet) (m' : ℕ → Option (List ℕ)) (k : ℕ) (v : Option IdSet)
    (v' : Option (List ℕ))
    → ((h : ℕ) → Matches (m h) (m' h))
    → Matches v v'
    → (h : ℕ) → Matches (put m k v h) (put m' k v' h)
Matches-put m m' k v v' all new h = elim (Bool-cases (h == k)) [
  | inl e ↦ rw e new
  | inr e ↦ rw e (all h)
]

-- A set replaced by one with the same members.
Matches-put_left :
    (m : ℕ → Option IdSet) (m' : ℕ → Option (List ℕ)) (k : ℕ) (v : Option IdSet)
    → ((h : ℕ) → Matches (m h) (m' h))
    → Matches v (m' k)
    → (h : ℕ) → Matches (put m k v h) (m' h)
Matches-put_left m m' k v all new h = elim (Bool-cases (h == k)) [
  | inl e ↦ let same : h ≡ k = (==_iff h k).0 e in rw (e, same) new
  | inr e ↦ rw e (all h)
]

Matches-same :
    (s s' : IdSet) (l : Option (List ℕ))
    → Matches (some s) l
    → IsValid s'
    → ((q : ℕ) → member s' q ≡ member s q)
    → Matches (some s') l
Matches-same s s' none rel valid same = rel
Matches-same s s' (some l) rel valid same = (valid, λ q. same q ∙ rel.1 q)

Matches-IsValid : (s : IdSet) (l : Option (List ℕ)) → Matches (some s) l → IsValid s
Matches-IsValid s none rel = absurd rel
Matches-IsValid s (some l) rel = rel.0

Refines-keep :
    (r : Registry) (t : Store) (h : ℕ) (s : IdSet)
    → Refines r t
    → Matches (some s) (t.lists h)
    → Refines (keep r h s) t
unfolding keep
Refines-keep r t h s (same, all) rel = (same, Matches-put_left r.reg t.lists h (some s) all rel)

Refines-len_found :
    (r : Registry) (t : Store) (h : ℕ) (found : Option IdSet)
    → Refines r t
    → Matches found (t.lists h)
    → Refines (len_found r h found).1 t
unfolding len_found len
Refines-len_found r t h none ref rel = ref
Refines-len_found r t h (some s) ref rel =
    let valid = Matches-IsValid s (t.lists h) rel in
    let (_, _, same) = finalize_lem s valid in
    Refines-keep r t h (finalize s) ref
      (Matches-same s (finalize s) (t.lists h) rel (finalize-IsValid s valid) same)

Refines-has_found :
    (r : Registry) (t : Store) (h id : ℕ) (found : Option IdSet)
    → Refines r t
    → Matches found (t.lists h)
    → Refines (has_found r h id found).1 t
unfolding has_found
Refines-has_found r t h id none ref rel = ref
Refines-has_found r t h id (some s) ref rel =
    let (_, valid, same) = has-member s id (Matches-IsValid s (t.lists h) rel) in
    Refines-keep r t h (has s id).1 ref (Matches-same s (has s id).1 (t.lists h) rel valid same)

Refines-keep_both :
    (r : Registry) (t : Store) (a b : ℕ) (sa sb : IdSet) (sets : List IdSet)
    → Refines r t
    → Matches (some sa) (t.lists a)
    → Matches (some sb) (t.lists b)
    → AllValid sets
    → SameMembers sets (sa ∷ sb ∷ [])
    → Refines (keep_both r a b sets) t
unfolding keep_both
Refines-keep_both r t a b sa sb (sa' ∷ sb' ∷ []) ref rel rel' (valid, (valid', _))
      (same, (same', _)) =
    Refines-keep (keep r a sa') t b sb'
      (Refines-keep r t a sa' ref (Matches-same sa sa' (t.lists a) rel valid same))
      (Matches-same sb sb' (t.lists b) rel' valid' same')
Refines-keep_both r t a b sa sb [] ref rel rel' valids sames = ref
Refines-keep_both r t a b sa sb (s ∷ []) ref rel rel' valids sames = ref
Refines-keep_both r t a b sa sb (s ∷ s' ∷ s'' ∷ sets) ref rel rel' valids sames = ref

Refines-intersect_found :
    (r : Registry) (t : Store) (a b : ℕ) (found found' : Option IdSet)
    → Refines r t
    → Matches found (t.lists a)
    → Matches found' (t.lists b)
    → Refines (intersect_found r a b found found').1 t
unfolding intersect_found
Refines-intersect_found r t a b none found' ref rel rel' = ref
Refines-intersect_found r t a b (some sa) none ref rel rel' = ref
Refines-intersect_found r t a b (some sa) (some sb) ref rel rel' =
    let both : AllValid (sa ∷ sb ∷ []) =
      (Matches-IsValid sa (t.lists a) rel, (Matches-IsValid sb (t.lists b) rel', tt)) in
    let (_, _, valids, sames) = member-intersect sa (sb ∷ []) both in
    Refines-keep_both r t a b sa sb (intersect (sa ∷ sb ∷ [])).1 ref rel rel' valids sames

Matches-added :
    (s : IdSet) (ids l : List ℕ)
    → Matches (some s) (some l)
    → Matches (some (add s ids)) (some (l ++ ids))
Matches-added s ids l (valid, same) =
    let (valid', added) = member-add s ids valid in
    (valid', λ q. added q ∙ ground (arith, same q, elem-append q l ids))

Refines-add_found :
    (r : Registry) (t : Store) (h n : ℕ) (ids : List ℕ) (found : Option IdSet) (l : Option (List ℕ))
    → Refines r t
    → Matches found l
    → Refines (add_found r h ids n found).1 (add_to t h ids n l)
unfolding add_found add_to keep
Refines-add_found r t h n ids none none ref rel = ref
Refines-add_found r t h n ids none (some l) ref rel = absurd rel
Refines-add_found r t h n ids (some s) none ref rel = absurd rel
Refines-add_found r t h n ids (some s) (some l) ref rel = elim (Bool-cases (n == 0)) [
  | inl e ↦ rw e ref
  | inr e ↦ rw e (
    ref.0,
    Matches-put r.reg t.lists h (some (add s (take n ids))) (some (l ++ take n ids)) ref.1
        (Matches-added s (take n ids) l rel),
  )
]

Refines-step :
    (r : Registry) (t : Store) (call : Call)
    → Refines r t
    → Refines (step r call) (store_step t call)
unfolding step store_step sx_set_new sx_set_add_many sx_set_len sx_set_has sx_set_free
    sx_intersect_many sx_intersect_ids
Refines-step r t call_new (same, all) =
    let (valid, members) = member-new_set [] in
    (
      ap (λ (n : ℕ). u64 (n + 1)) same,
      rw same
          (Matches-put r.reg t.lists t.fresh (some (new_set [])) (some []) all (valid, members)),
    )
Refines-step r t (call_add_many h ids n) ref =
    Refines-add_found r t h n ids (r.reg h) (t.lists h) ref (ref.1 h)
Refines-step r t (call_len h) ref = Refines-len_found r t h (r.reg h) ref (ref.1 h)
Refines-step r t (call_has h id) ref = Refines-has_found r t h id (r.reg h) ref (ref.1 h)
Refines-step r t (call_intersect_many a b) ref =
    Refines-intersect_found r t a b (r.reg a) (r.reg b) ref (ref.1 a) (ref.1 b)
Refines-step r t (call_intersect_ids a b) ref =
    Refines-intersect_found r t a b (r.reg a) (r.reg b) ref (ref.1 a) (ref.1 b)
Refines-step r t (call_free h) (same, all) = (same, Matches-put r.reg t.lists h none none all tt)

pub Refines-run :
    (calls : List Call) (r : Registry) (t : Store)
    → Refines r t
    → Refines (run r calls) (run_store t calls)
unfolding run run_store
Refines-run [] r t ref = ref
Refines-run (call ∷ calls) r t ref =
    Refines-run calls (step r call) (store_step t call) (Refines-step r t call ref)

pub initial-Refines : Refines initial empty_store
unfolding initial empty_store
initial-Refines = (refl, λ h. tt)
