-- ===== src/Keyer/Terms.antt =====
-- The terms of a vocabulary, each once, and the map of a small one.
use setrixdb.Base.{
  Bool-cases, none_ne_some, some_inj, length, get_or, str_eq, has_str, find_str, AreUnique,
  str_eq_refl, str_eq→≡, ℕ, zero, suc, ◌+◌, ◌<◌, ◌≡◌, refl, sym, ap, ◌∙◌, ◌↔◌, inl, inr, true,
  false, ◌&&◌, not, some, List, [], ◌∷◌, arith,
}
use setrixdb.Keyer.{unicos, put_small}

pub has_str-at :
    (t : List ℕ) (terms : List (List ℕ))
    → has_str t terms ≡ true
    → (i : ℕ) × (i < length terms) × (get_or terms i [] ≡ t)
has_str-at t [] h = cc
has_str-at t (s ∷ terms) h = elim (Bool-cases (str_eq s t)) [
  | inl e ↦ (0, omega arith, str_eq→≡ s t e)
  | inr e ↦ let (i, low, at) = has_str-at t terms (ground arith) in (suc i, omega arith, at)
]

pub has_str-get_or :
    (terms : List (List ℕ)) (i : ℕ) → i < length terms → has_str (get_or terms i []) terms ≡ true
has_str-get_or [] i h = absurd (omega arith)
has_str-get_or (s ∷ terms) zero h = ground (arith, str_eq_refl s)
has_str-get_or (s ∷ terms) (suc i) h = ground (arith, has_str-get_or terms i)

pub AreUnique-at :
    (terms : List (List ℕ)) (i j : ℕ)
    → AreUnique terms
    → i < length terms
    → j < length terms
    → get_or terms i [] ≡ get_or terms j []
    → i ≡ j
AreUnique-at [] i j u h h' e = absurd (omega arith)
AreUnique-at (s ∷ terms) zero zero u h h' e = refl
AreUnique-at (s ∷ terms) zero (suc j) u h h' e =
    let again = has_str-get_or terms j (omega arith) in let clear = u.0 in absurd (cc)
AreUnique-at (s ∷ terms) (suc i) zero u h h' e =
    let again = has_str-get_or terms i (omega arith) in let clear = u.0 in absurd (cc)
AreUnique-at (s ∷ terms) (suc i) (suc j) u h h' e =
    ap suc (AreUnique-at terms i j u.1 (omega arith) (omega arith) e)

-- `unicos` has the terms that were not seen before, each once.
has_str-unicos :
    (vistos terms : List (List ℕ)) (t : List ℕ)
    → has_str t (unicos vistos terms) ≡ (has_str t terms && not (has_str t vistos))
unfolding unicos
has_str-unicos vistos [] t = refl
has_str-unicos vistos (s ∷ terms) t =
    let rest = has_str-unicos vistos terms t in
    let marked = has_str-unicos (s ∷ vistos) terms t in
    elim (Bool-cases (str_eq s t)) [
      | inl e ↦ let same : s ≡ t = str_eq→≡ s t e in rw same (ground (arith, str_eq_refl t))
      | inr e ↦ ground arith
    ]

unicos-AreUnique : (vistos terms : List (List ℕ)) → AreUnique (unicos vistos terms)
unfolding unicos
unicos-AreUnique vistos [] = tt
unicos-AreUnique vistos (s ∷ terms) = elim (Bool-cases (has_str s vistos)) [
  | inl e ↦ rw e (unicos-AreUnique vistos terms)
  | inr e ↦ rw e (
    ground (arith, has_str-unicos (s ∷ vistos) terms s, str_eq_refl s),
    unicos-AreUnique (s ∷ vistos) terms,
  )
]

-- The vocabulary is the set of the terms given.
pub unicos_lem :
    (terms : List (List ℕ))
    → AreUnique (unicos [] terms) × ((t : List ℕ) → has_str t (unicos [] terms) ≡ has_str t terms)
unicos_lem terms = (unicos-AreUnique [] terms, λ t. ground (arith, has_str-unicos [] terms t))

find_str-put_small_other :
    (i : ℕ) (terms : List (List ℕ)) (small : List (List ℕ × ℕ)) (t : List ℕ)
    → has_str t terms ≡ false
    → find_str t (put_small i terms small) ≡ find_str t small
unfolding put_small
find_str-put_small_other i [] small t h = refl
find_str-put_small_other i (s ∷ terms) small t h =
    find_str-put_small_other (i + 1) terms ((s, i) ∷ small) t (ground arith) ∙ ground arith

find_str-put_small_at :
    (i : ℕ) (terms : List (List ℕ)) (small : List (List ℕ × ℕ)) (j : ℕ)
    → AreUnique terms
    → j < length terms
    → find_str (get_or terms j []) (put_small i terms small) ≡ some (i + j)
unfolding put_small
find_str-put_small_at i [] small j u h = absurd (omega arith)
find_str-put_small_at i (s ∷ terms) small zero u h =
    find_str-put_small_other (i + 1) terms ((s, i) ∷ small) s u.0
    ∙ rw (str_eq_refl s) (ap some {x = i} {y = i + 0} (omega arith))
find_str-put_small_at i (s ∷ terms) small (suc j) u h =
    find_str-put_small_at (i + 1) terms ((s, i) ∷ small) j u.1 (omega arith)
    ∙ ap some {x = i + 1 + j} {y = i + suc j} (omega arith)

-- The map has the place of each term, and of no other.
pub find_str-put_small :
    (terms : List (List ℕ)) (t : List ℕ) (id : ℕ)
    → AreUnique terms
    → (find_str t (put_small 0 terms []) ≡ some id)
      ↔ ((id < length terms) × (get_or terms id [] ≡ t))
find_str-put_small terms t id u = (
  λ e. elim (Bool-cases (has_str t terms)) [
    | inl h ↦
        let (i, low, at) = has_str-at t terms h in
        let same : 0 + i ≡ id = some_inj (0 + i) id (
          sym (find_str-put_small_at 0 terms [] i u low)
          ∙ ap (λ (s : List ℕ). find_str s (put_small 0 terms [])) at
          ∙ e) in
        let place : i ≡ id = omega arith in (omega arith, rw (← place) at)
    | inr h ↦ absurd (none_ne_some id (sym (find_str-put_small_other 0 terms [] t h) ∙ e))
  ],
  λ (low, at).
      ap (λ (s : List ℕ). find_str s (put_small 0 terms [])) (sym at)
      ∙ find_str-put_small_at 0 terms [] id u low
      ∙ ap some {x = 0 + id} {y = id} (omega arith),
)
