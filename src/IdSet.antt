-- ===== src/IdSet.antt =====
-- setrixdb.go: the public `Set`, its operations and the algebra on sets. A method that finalizes its
-- receiver returns the new receiver with its result; a function on several sets finalizes each of
-- them, and returns the sets as it leaves them.
pub mod Laws
pub mod Algebra
use setrixdb.Base.{
  ℕ, zero, suc, ◌+◌, ◌-◌, Bool, true, false, ◌||◌, not, List, [], ◌∷◌, ◌++◌, length, get_or, set,
  take, ◌==◌, if◌then◌else◌,
}
use setrixdb.Std.Sort.{sort_slice}
use setrixdb.Addb.SetOps.{contains_sorted, intersect_many}

pub record IdSet : Type 0 where
  pub ids : List ℕ
  pub sorted : Bool

pub add : IdSet → List ℕ → IdSet
add s ids = if length ids == 0 then s else record { ids = s.ids ++ ids; sorted = false }

unfoldable pub new_set : List ℕ → IdSet
unfolding add
new_set ids = add (record { ids = []; sorted = false }) ids

-- `for i := range s.ids { if w == 0 || s.ids[i] != s.ids[w-1] { s.ids[w] = s.ids[i]; w++ } }`
-- with so many rounds left, then `s.ids[:w]`.
unfoldable pub finalize_loop : ℕ → ℕ → ℕ → List ℕ → List ℕ
finalize_loop zero i w ids = take w ids
finalize_loop (suc left) i w ids =
    let kept = finalize_loop left (i + 1) (w + 1) (set ids w (get_or ids i 0)) in
    let same = finalize_loop left (i + 1) w ids in
    if w == 0 || not (get_or ids i 0 == get_or ids (w - 1) 0) then kept else same

unfoldable pub finalize : IdSet → IdSet
unfolding finalize_loop
finalize s =
    let ids = sort_slice s.ids in
    if s.sorted then s else record { ids = finalize_loop (length ids) 0 0 ids; sorted = true }

unfoldable pub len : IdSet → ℕ × IdSet
len s = let s' = finalize s in (length s'.ids, s')

pub has : IdSet → ℕ → Bool × IdSet
has s id = let s' = finalize s in (contains_sorted s'.ids id, s')

-- `IDs`: a sorted copy.
unfoldable pub sorted_ids : IdSet → List ℕ × IdSet
sorted_ids s = let s' = finalize s in (s'.ids, s')

-- `for i, s := range sets { raw[i] = s.IDs() }`
pub raw_ids : List IdSet → List (List ℕ) × List IdSet
raw_ids [] = ([], [])
raw_ids (s ∷ sets) =
    let (ids, s') = sorted_ids s in let (raw, sets') = raw_ids sets in (ids ∷ raw, s' ∷ sets')

unfoldable pub intersect : List IdSet → IdSet × List IdSet
unfolding raw_ids sorted_ids
intersect [] = (record { ids = []; sorted = true }, [])
intersect (s ∷ sets) =
    let (raw, sets') = raw_ids (s ∷ sets) in
    (record { ids = intersect_many raw; sorted = true }, sets')

-- `for _, s := range sets { out.ids = append(out.ids, s.IDs()...) }`
pub append_ids : List ℕ → List IdSet → List ℕ × List IdSet
append_ids out [] = (out, [])
append_ids out (s ∷ sets) =
    let (ids, s') = sorted_ids s in
    let (out', sets') = append_ids (out ++ ids) sets in (out', s' ∷ sets')

unfoldable pub union : List IdSet → IdSet × List IdSet
unfolding append_ids sorted_ids
union sets =
    let (out, sets') = append_ids [] sets in
    (finalize (record { ids = out; sorted = false }), sets')

unfoldable pub filter : IdSet → IdSet → IdSet × List IdSet
filter base mask = intersect (base ∷ mask ∷ [])
