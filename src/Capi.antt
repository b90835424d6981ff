-- ===== src/Capi.antt =====
-- cmd/setrixdb-capi/main.go: the registry of sets behind the C interface, for calls that do not overlap.
-- A handle is the bit pattern of an `int64`.
pub mod Refinement
pub mod Answers
use setrixdb.Base.{
  ℕ, ◌+◌, Bool, Option, none, some, List, [], ◌∷◌, length, take, ◌==◌, if◌then◌else◌, u64,
}
use setrixdb.IdSet.{IdSet, new_set, add, len, has, sorted_ids, intersect}

-- `reg` and `next`.
pub record Registry : Type 0 where
  pub reg : ℕ → Option IdSet
  pub next : ℕ

pub initial : Registry
initial = record { reg = λ h. none; next = 1 }

-- An assignment to the map, or a `delete` for `none`.
abbrev pub put {ℓ} : {A : Type ℓ} → (ℕ → Option A) → ℕ → Option A → ℕ → Option A
put m k v i = if i == k then v else m i

-- The set behind a handle as a call leaves it.
pub keep : Registry → ℕ → IdSet → Registry
keep r h s = record { reg = put r.reg h (some s); next = r.next }

unfoldable pub sx_set_new : Registry → ℕ × Registry
sx_set_new r =
    (r.next, record { reg = put r.reg r.next (some (new_set [])); next = u64 (r.next + 1) })

pub add_found : Registry → ℕ → List ℕ → ℕ → Option IdSet → ℕ × Registry
unfolding keep
add_found r h ids n none = (0, r)
add_found r h ids n (some s) = if n == 0 then (0, r) else (1, keep r h (add s (take n ids)))

-- `ids` is the memory at the pointer; an `n` below 0 is taken for 0, for which the call does the same.
unfoldable pub sx_set_add_many : Registry → ℕ → List ℕ → ℕ → ℕ × Registry
unfolding add_found
sx_set_add_many r h ids n = add_found r h ids n (r.reg h)

pub len_found : Registry → ℕ → Option IdSet → Option ℕ × Registry
unfolding keep
len_found r h none = (none, r)
len_found r h (some s) = let (n, s') = len s in (some n, keep r h s')

-- The answer -1 is `none`, here and below.
unfoldable pub sx_set_len : Registry → ℕ → Option ℕ × Registry
unfolding len_found
sx_set_len r h = len_found r h (r.reg h)

pub has_found : Registry → ℕ → ℕ → Option IdSet → Option Bool × Registry
unfolding keep
has_found r h id none = (none, r)
has_found r h id (some s) = let (b, s') = has s id in (some b, keep r h s')

-- 1 is `true` and 0 `false`.
unfoldable pub sx_set_has : Registry → ℕ → ℕ → Option Bool × Registry
unfolding has_found
sx_set_has r h id = has_found r h id (r.reg h)

-- `Intersect(sa, sb)` leaves both sets finalized.
pub keep_both : Registry → ℕ → ℕ → List IdSet → Registry
unfolding keep
keep_both r a b (sa ∷ sb ∷ []) = keep (keep r a sa) b sb
keep_both r a b [] = r
keep_both r a b (sa ∷ []) = r
keep_both r a b (sa ∷ sb ∷ sc ∷ sets) = r

pub intersect_found : Registry → ℕ → ℕ → Option IdSet → Option IdSet → Option IdSet × Registry
unfolding keep_both
intersect_found r a b none sb = (none, r)
intersect_found r a b (some sa) none = (none, r)
intersect_found r a b (some sa) (some sb) =
    let (s, sets) = intersect (sa ∷ sb ∷ []) in (some s, keep_both r a b sets)

pub length_of : Option IdSet → Option ℕ
length_of none = none
length_of (some s) = some ((len s).0)

ids_of : Option IdSet → Option (List ℕ)
ids_of none = none
ids_of (some s) = some ((sorted_ids s).0)

unfoldable pub sx_intersect_many : Registry → ℕ → ℕ → Option ℕ × Registry
unfolding intersect_found length_of
sx_intersect_many r a b =
    let (s, r') = intersect_found r a b (r.reg a) (r.reg b) in (length_of s, r')

-- The IDs that the call copies to `*out`; the answer 0 is `none`.
unfoldable pub sx_intersect_ids : Registry → ℕ → ℕ → Option (List ℕ) × Registry
unfolding intersect_found ids_of
sx_intersect_ids r a b = let (s, r') = intersect_found r a b (r.reg a) (r.reg b) in (ids_of s, r')

was_there : Option IdSet → ℕ
was_there none = 0
was_there (some s) = 1

unfoldable pub sx_set_free : Registry → ℕ → ℕ × Registry
unfolding was_there
sx_set_free r h = (was_there (r.reg h), record { reg = put r.reg h none; next = r.next })

-- One call of the interface.
pub data Call : Type 0 where
  call_new : Call
  call_add_many : ℕ → List ℕ → ℕ → Call
  call_len : ℕ → Call
  call_has : ℕ → ℕ → Call
  call_intersect_many call_intersect_ids : ℕ → ℕ → Call
  call_free : ℕ → Call

pub step : Registry → Call → Registry
unfolding sx_set_new sx_set_add_many sx_set_len sx_set_has sx_intersect_many sx_intersect_ids
    sx_set_free
step r call_new = (sx_set_new r).1
step r (call_add_many h ids n) = (sx_set_add_many r h ids n).1
step r (call_len h) = (sx_set_len r h).1
step r (call_has h id) = (sx_set_has r h id).1
step r (call_intersect_many a b) = (sx_intersect_many r a b).1
step r (call_intersect_ids a b) = (sx_intersect_ids r a b).1
step r (call_free h) = (sx_set_free r h).1

-- The registry after a sequence of calls.
pub run : Registry → List Call → Registry
unfolding step
run r [] = r
run r (call ∷ calls) = run (step r call) calls
