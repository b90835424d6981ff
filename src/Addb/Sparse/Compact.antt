-- ===== src/Addb/Sparse/Compact.antt =====
-- In-place compaction of a sorted slice drops the repetitions and nothing else.
use mathlib.Core.List.{append-nil, append_assoc}
use setrixdb.Base.{
  ℕ, suc, ◌+◌, ◌-◌, ◌≤◌, ◌<◌, ◌≡◌, refl, sym, ◌∙◌, ap, ap₂, ◌≢◌, ==_refl, ==_ne, ==_iff, ◌||◌, List,
  [], ◌∷◌, ◌++◌, length, get_or, set, take, ◌==◌, if◌then◌else◌, arith, inl, inr, Bool-cases, elem,
  Above, AtLeast, IsStrict, IsSorted, length-append, get_or-append_right, get_or-append_left,
}
use setrixdb.Addb.Sparse.{compact_loop}

-- What is left of `xs` behind an `l` when each run of equal neighbours gives one element.
pub dedup : ℕ → List ℕ → List ℕ
dedup l [] = []
dedup l (x ∷ xs) = if x == l then dedup l xs else x ∷ dedup x xs

pub dedup-empty : (l : ℕ) → dedup l [] ≡ []
unfolding dedup
dedup-empty l = refl

pub elem-dedup : (q l : ℕ) (xs : List ℕ) → (l == q || elem q (dedup l xs)) ≡ (l == q || elem q xs)
unfolding dedup
elem-dedup q l [] = refl
elem-dedup q l (x ∷ xs) = ground (arith, elem-dedup q l xs, elem-dedup q x xs)

Above-dedup : (n l : ℕ) (xs : List ℕ) → n ≤ l → AtLeast l xs → IsSorted xs → Above n (dedup l xs)
unfolding dedup
Above-dedup n l [] h p s = tt
Above-dedup n l (x ∷ xs) h p s = elim (Bool-cases (x == l)) [
  | inl e ↦ rw e (Above-dedup n l xs h p.1 s.1)
  | inr e ↦ rw e (ground arith, Above-dedup n x xs (omega arith) s.0 s.1)
]

pub dedup-IsStrict : (l : ℕ) (xs : List ℕ) → AtLeast l xs → IsSorted xs → IsStrict (l ∷ dedup l xs)
unfolding dedup
dedup-IsStrict l [] p s = (tt, tt)
dedup-IsStrict l (x ∷ xs) p s = elim (Bool-cases (x == l)) [
  | inl e ↦ rw e (dedup-IsStrict l xs p.1 s.1)
  | inr e ↦ rw e ((ground arith, Above-dedup l x xs p.0 s.0 s.1), dedup-IsStrict x xs s.0 s.1)
]

set-append_right : (xs ys : List ℕ) (y v : ℕ) → set (xs ++ y ∷ ys) (length xs) v ≡ xs ++ v ∷ ys
set-append_right [] ys y v = refl
set-append_right (x ∷ xs) ys y v = ap (◌∷◌ x) (set-append_right xs ys y v)

take-append_left : (xs ys : List ℕ) → take (length xs) (xs ++ ys) ≡ xs
take-append_left [] ys = refl
take-append_left (x ∷ xs) ys = ap (◌∷◌ x) (take-append_left xs ys)

get_or-middle : (xs : List ℕ) (y : ℕ) (ys : List ℕ) → get_or (xs ++ y ∷ ys) (length xs) 0 ≡ y
get_or-middle [] y ys = refl
get_or-middle (x ∷ xs) y ys = get_or-middle xs y ys

last-append : (xs : List ℕ) (x : ℕ) → get_or (xs ++ x ∷ []) (length (xs ++ x ∷ []) - 1) 0 ≡ x
last-append xs x =
    ap (λ (i : ℕ). get_or (xs ++ x ∷ []) i 0) {x = length (xs ++ x ∷ []) - 1} {y = length xs}
      (omega (arith, length-append xs (x ∷ [])))
    ∙ get_or-middle xs x []

-- The slice during the loop: what is kept, what was passed over, what is left.
abbrev laid_out : List ℕ → List ℕ → List ℕ → List ℕ
laid_out kept mid rest = kept ++ (mid ++ rest)

module _ (kept mid : List ℕ) (x : ℕ) (rest : List ℕ) where
  at_r : get_or (laid_out kept mid (x ∷ rest)) (length kept + length mid) 0 ≡ x
  at_r = get_or-append_right kept (mid ++ x ∷ rest) (length mid) 0 ∙ get_or-middle mid x rest

  at_w :
      0 < length kept
      → get_or (laid_out kept mid (x ∷ rest)) (length kept - 1) 0 ≡ get_or kept (length kept - 1) 0
  at_w h = get_or-append_left kept (mid ++ x ∷ rest) (length kept - 1) 0 (omega arith)

  passed : laid_out kept mid (x ∷ rest) ≡ laid_out kept (mid ++ x ∷ []) rest
  passed = ap (◌++◌ kept) (sym (append_assoc mid (x ∷ []) rest))

-- The passed-over elements after a move: the write goes over the first of them.
moved_mid : List ℕ → ℕ → List ℕ
moved_mid [] x = []
moved_mid (m ∷ mid) x = mid ++ x ∷ []

length-moved_mid : (mid : List ℕ) (x : ℕ) → length (moved_mid mid x) ≡ length mid
unfolding moved_mid
length-moved_mid [] x = refl
length-moved_mid (m ∷ mid) x = omega (arith, length-append mid (x ∷ []))

moved :
    (kept mid : List ℕ) (x : ℕ) (rest : List ℕ)
    → set (laid_out kept mid (x ∷ rest)) (length kept) x
      ≡ laid_out (kept ++ x ∷ []) (moved_mid mid x) rest
unfolding moved_mid
moved kept [] x rest = set-append_right kept rest x x ∙ sym (append_assoc kept (x ∷ []) rest)
moved kept (m ∷ mid) x rest =
    set-append_right kept (mid ++ x ∷ rest) m x
    ∙ sym (
        append_assoc kept (x ∷ []) ((mid ++ x ∷ []) ++ rest)
        ∙ ap (λ (t : List ℕ). kept ++ x ∷ t) (append_assoc mid (x ∷ []) rest))

compact_loop_same :
    (left r w : ℕ) (ids : List ℕ)
    → get_or ids r 0 ≡ get_or ids (w - 1) 0
    → compact_loop (suc left) r w ids ≡ compact_loop left (r + 1) w ids
unfolding compact_loop
compact_loop_same left r w ids e = rw (e, ==_refl (get_or ids (w - 1) 0))

compact_loop_moved :
    (left r w : ℕ) (ids : List ℕ)
    → get_or ids r 0 ≢ get_or ids (w - 1) 0
    → compact_loop (suc left) r w ids
      ≡ compact_loop left (r + 1) (w + 1) (set ids w (get_or ids r 0))
unfolding compact_loop
compact_loop_moved left r w ids ne = rw (==_ne (get_or ids r 0) (get_or ids (w - 1) 0) ne)

-- Every round of the loop by the contents of the slice.
module _ (x : ℕ) (rest kept mid : List ℕ) (filled : 0 < length kept) where
  abbrev start : List ℕ
  start = laid_out kept mid (x ∷ rest)

  round_same :
      x ≡ get_or kept (length kept - 1) 0
      → compact_loop (suc (length rest)) (length kept + length mid) (length kept) start
        ≡ compact_loop
            (length rest)
            (length kept + length (mid ++ x ∷ []))
            (length kept)
            (laid_out kept (mid ++ x ∷ []) rest)
  round_same e =
      let r : length kept + length mid + 1 ≡ length kept + length (mid ++ x ∷ []) =
        omega (arith, length-append mid (x ∷ [])) in
      compact_loop_same (length rest) (length kept + length mid) (length kept) start
        (at_r kept mid x rest ∙ e ∙ sym (at_w kept mid x rest filled))
      ∙ ap₂ (λ (i : ℕ) (ids : List ℕ). compact_loop (length rest) i (length kept) ids) r
          (passed kept mid x rest)

  round_moved :
      x ≢ get_or kept (length kept - 1) 0
      → compact_loop (suc (length rest)) (length kept + length mid) (length kept) start
        ≡ compact_loop
            (length rest)
            (length (kept ++ x ∷ []) + length (moved_mid mid x))
            (length (kept ++ x ∷ []))
            (laid_out (kept ++ x ∷ []) (moved_mid mid x) rest)
  round_moved ne =
      let w : length kept + 1 ≡ length (kept ++ x ∷ []) =
        omega (arith, length-append kept (x ∷ [])) in
      let r : length kept + length mid + 1 ≡ length (kept ++ x ∷ []) + length (moved_mid mid x) =
        omega (arith, length-append kept (x ∷ []), length-moved_mid mid x) in
      compact_loop_moved (length rest) (length kept + length mid) (length kept) start
        (λ e. ne (sym (at_r kept mid x rest) ∙ e ∙ at_w kept mid x rest filled))
      ∙ ap₂
          (λ (i : ℕ) (v : ℕ).
            compact_loop (length rest) i (length kept + 1) (set start (length kept) v))
          r (at_r kept mid x rest)
      ∙ ap₂
          (λ (i : ℕ) (ids : List ℕ).
            compact_loop (length rest) (length (kept ++ x ∷ []) + length (moved_mid mid x)) i ids)
          w (moved kept mid x rest)

compact_loop-dedup :
    (rest kept mid : List ℕ) (l : ℕ)
    → 0 < length kept
    → get_or kept (length kept - 1) 0 ≡ l
    → compact_loop (length rest) (length kept + length mid) (length kept) (laid_out kept mid rest)
      ≡ kept ++ dedup l rest
unfolding dedup
compact_loop-dedup [] kept mid l pos last =
    unfold compact_loop in take-append_left kept (mid ++ []) ∙ sym (append-nil kept)
compact_loop-dedup (x ∷ rest) kept mid l pos last = elim (Bool-cases (x == l)) [
  | inl e ↦
      round_same x rest kept mid pos ((==_iff x l).0 e ∙ sym last)
      ∙ compact_loop-dedup rest kept (mid ++ x ∷ []) l pos last
      ∙ rw e
  | inr e ↦
      round_moved x rest kept mid pos (λ s. ground arith)
      ∙ compact_loop-dedup rest (kept ++ x ∷ []) (moved_mid mid x) x
          (omega (arith, length-append kept (x ∷ []))) (last-append kept x)
      ∙ append_assoc kept (x ∷ []) (dedup x rest)
      ∙ rw e
]

-- Compaction of a slice with a first element, as the code starts it.
pub compact_loop_lem :
    (x : ℕ) (xs : List ℕ) → compact_loop (length xs) 1 1 (x ∷ xs) ≡ x ∷ dedup x xs
compact_loop_lem x xs =
    ap (λ (r : ℕ). compact_loop (length xs) r 1 (x ∷ xs)) {x = 1} {y = 1 + 0} refl
    ∙ compact_loop-dedup xs (x ∷ []) [] x (omega arith) refl
