-- ===== src/Server/Keeping.antt =====
-- Every request keeps the store and the catalogue in step.
use setrixdb.Base.{
  ℕ, ◌≡◌, refl, sym, ◌∙◌, subst, Option, none, some, List, [], ◌∷◌, if◌then◌else◌, str_eq, str_eq→≡,
  find_str, Bool-cases, inl, inr,
}
use setrixdb.Std.Strings.{Str}
use setrixdb.IdSet.{IdSet, new_set, finalize}
use setrixdb.IdSet.Laws.{IsValid, member, finalize_lem, finalize-IsValid, member-new_set}
use setrixdb.Server.Maps.{put_key, delete_key, find-put_key, find-delete_key}
use setrixdb.IdSet.Algebra.{AllValid, SameMembers}
use setrixdb.Server.Routes.{Parts, parts, missing, add_to_parts, add_named, parts_of, put_parts}
use setrixdb.Server.Catalog.{Catalog, Agrees, Holds}

-- A set put under a name whose IDs it represents.
pub put_key-Holds :
    (sets : List (Str × IdSet)) (m : Catalog) (name : Str) (set : IdSet) (v : Option (List ℕ))
    → Holds sets m
    → Agrees (some set) v
    → Holds (put_key name set sets) (λ q. if str_eq name q then v else m q)
put_key-Holds sets m name set v h a q =
    rw (find-put_key q name set sets)
      (elim (Bool-cases (str_eq name q)) [ inl e ↦ rw e a | inr e ↦ rw e (h q) ])

pub delete_key-Holds :
    (sets : List (Str × IdSet)) (m : Catalog) (name : Str)
    → Holds sets m
    → Holds (delete_key name sets) (λ q. if str_eq name q then none else m q)
delete_key-Holds sets m name h q =
    rw (find-delete_key q name sets)
      (elim (Bool-cases (str_eq name q)) [ inl e ↦ rw e tt | inr e ↦ rw e (h q) ])

-- A set put back under its name.
pub put_key-kept :
    (sets : List (Str × IdSet)) (m : Catalog) (name : Str) (set : IdSet)
    → Holds sets m
    → Agrees (some set) (m name)
    → Holds (put_key name set sets) m
put_key-kept sets m name set h a q =
    rw (find-put_key q name set sets) (elim (Bool-cases (str_eq name q)) [
      | inl e ↦ rw (e, sym (str_eq→≡ name q e)) a
      | inr e ↦ rw e (h q)
    ])

-- A set with the same members represents the same IDs.
pub Agrees-same :
    (set set' : IdSet) (v : Option (List ℕ))
    → Agrees (some set) v
    → IsValid set'
    → ((q : ℕ) → member set' q ≡ member set q)
    → Agrees (some set') v
Agrees-same set set' none a v same = a
Agrees-same set set' (some ids) a v same = (v, λ p. same p ∙ a.1 p)

pub Agrees-IsValid : (set : IdSet) (v : Option (List ℕ)) → Agrees (some set) v → IsValid set
Agrees-IsValid set none a = absurd a
Agrees-IsValid set (some ids) a = a.0

pub Agrees-finalize :
    (set : IdSet) (v : Option (List ℕ)) → Agrees (some set) v → Agrees (some (finalize set)) v
Agrees-finalize set v a =
    let (_, _, same) = finalize_lem set (Agrees-IsValid set v a) in
    Agrees-same set (finalize set) v a (finalize-IsValid set (Agrees-IsValid set v a)) same

pub Agrees-new_set : (ids : List ℕ) → Agrees (some (new_set ids)) (some ids)
Agrees-new_set ids = member-new_set ids

-- What is found under a name represents what the catalogue has there.
pub Holds-found :
    (sets : List (Str × IdSet)) (m : Catalog) (name : Str) (o : Option IdSet)
    → Holds sets m
    → find_str name sets ≡ o
    → Agrees o (m name)
Holds-found sets m name o h e = subst (λ o. Agrees o (m name)) e (h name)

abbrev pub unknown_or : Str → Option (List ℕ) → Option Str → Option Str
unknown_or n none rest = some n
unknown_or n (some ids) rest = rest

-- The first name that the catalogue does not have.
abbrev pub first_unknown : Catalog → List Str → Option Str
first_unknown m [] = none
first_unknown m (n ∷ names) = unknown_or n (m n) (first_unknown m names)

abbrev pub RepresentAll : Catalog → List Str → List IdSet → Type 0
RepresentAll m [] [] = Unit
RepresentAll m [] (set ∷ sets) = ⊥
RepresentAll m (n ∷ names) [] = ⊥
RepresentAll m (n ∷ names) (set ∷ sets) = Agrees (some set) (m n) × RepresentAll m names sets

abbrev pub AreParts : Catalog → List Str → Parts → Type 0
AreParts m names (parts sets) = (first_unknown m names ≡ none) × RepresentAll m names sets
AreParts m names (missing n) = first_unknown m names ≡ some n

add_named-AreParts :
    (m : Catalog) (n : Str) (names : List Str) (o : Option IdSet) (v : Option (List ℕ))
    (rest : Parts)
    → Agrees o v
    → m n ≡ v
    → AreParts m names rest
    → AreParts m (n ∷ names) (add_named n o rest)
unfolding add_named add_to_parts
add_named-AreParts m n names none none rest a e h = rw e
add_named-AreParts m n names none (some ids) rest a e h = absurd a
add_named-AreParts m n names (some set) none rest a e h = absurd a
add_named-AreParts m n names (some set) (some ids) (parts sets) a e h = rw e (h.0, (a, h.1))
add_named-AreParts m n names (some set) (some ids) (missing k) a e h = rw e h

pub parts_of-AreParts :
    (sets : List (Str × IdSet)) (m : Catalog) (names : List Str)
    → Holds sets m
    → AreParts m names (parts_of sets names)
unfolding parts_of
parts_of-AreParts sets m [] h = (refl, tt)
parts_of-AreParts sets m (n ∷ names) h =
    add_named-AreParts m n names (find_str n sets) (m n) (parts_of sets names) (h n) refl
      (parts_of-AreParts sets m names h)

pub RepresentAll-AllValid :
    (m : Catalog) (names : List Str) (sets : List IdSet) → RepresentAll m names sets → AllValid sets
RepresentAll-AllValid m [] [] h = tt
RepresentAll-AllValid m [] (set ∷ sets) h = absurd h
RepresentAll-AllValid m (n ∷ names) [] h = tt
RepresentAll-AllValid m (n ∷ names) (set ∷ sets) h =
    (Agrees-IsValid set (m n) h.0, RepresentAll-AllValid m names sets h.1)

pub RepresentAll-same :
    (m : Catalog) (names : List Str) (used sets : List IdSet)
    → RepresentAll m names sets
    → AllValid used
    → SameMembers used sets
    → RepresentAll m names used
RepresentAll-same m [] [] [] h v s = tt
RepresentAll-same m [] (u ∷ used) [] h v s = absurd s
RepresentAll-same m names [] (set ∷ sets) h v s = absurd s
RepresentAll-same m [] (u ∷ used) (set ∷ sets) h v s = absurd h
RepresentAll-same m (n ∷ names) used [] h v s = absurd h
RepresentAll-same m (n ∷ names) (u ∷ used) (set ∷ sets) h v s =
    (Agrees-same set u (m n) h.0 v.0 s.0, RepresentAll-same m names used sets h.1 v.1 s.1)

pub put_parts-Holds :
    (m : Catalog) (names : List Str) (used : List IdSet) (sets : List (Str × IdSet))
    → Holds sets m
    → RepresentAll m names used
    → Holds (put_parts names used sets) m
unfolding put_parts
put_parts-Holds m [] used sets h r = h
put_parts-Holds m (n ∷ names) [] sets h r = h
put_parts-Holds m (n ∷ names) (u ∷ used) sets h r =
    put_parts-Holds m names used (put_key n u sets) (put_key-kept sets m n u h r.0) r.1
