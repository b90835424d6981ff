-- ===== src/Base/Strings.antt =====
-- Strings as lists of bytes: equality, membership, and a map from strings as its writes, latest first.
use Prim.Native.Nat.{ℕ}
use mathlib.Core.Path.{◌≡◌, refl, ap₂}
use mathlib.Core.Bool.{Bool, true, false, ◌||◌, ◌&&◌}
use mathlib.Core.Logic.{inl, inr, ◌≢◌}
use mathlib.Core.Option.{Option, none, some}
use mathlib.Core.List.{List, [], ◌∷◌}
use native.Mathlib.Omega.{arith}
use setrixdb.Base.Tests.{◌==◌, ==_refl, Bool-cases, if◌then◌else◌}

abbrev pub str_eq : List ℕ → List ℕ → Bool
str_eq [] [] = true
str_eq [] (b ∷ t) = false
str_eq (a ∷ s) [] = false
str_eq (a ∷ s) (b ∷ t) = a == b && str_eq s t

abbrev pub has_str : List ℕ → List (List ℕ) → Bool
has_str t [] = false
has_str t (s ∷ strings) = str_eq s t || has_str t strings

abbrev pub find_str {ℓ} : {A : Type ℓ} → List ℕ → List (List ℕ × A) → Option A
find_str t [] = none
find_str t ((s, v) ∷ writes) = if str_eq s t then some v else find_str t writes

-- No string occurs twice.
abbrev pub AreUnique : List (List ℕ) → Type 0
AreUnique [] = Unit
AreUnique (t ∷ strings) = (has_str t strings ≡ false) × AreUnique strings

pub str_eq_refl : (s : List ℕ) → str_eq s s ≡ true
str_eq_refl [] = refl
str_eq_refl (a ∷ s) = ground (arith, ==_refl a, str_eq_refl s)

pub str_eq→≡ : (s t : List ℕ) → str_eq s t ≡ true → s ≡ t
str_eq→≡ [] [] h = refl
str_eq→≡ [] (b ∷ t) h = cc
str_eq→≡ (a ∷ s) [] h = cc
str_eq→≡ (a ∷ s) (b ∷ t) h =
    let first : a ≡ b = ground arith in
    let rest : str_eq s t ≡ true = ground (arith, ==_refl b) in ap₂ ◌∷◌ first (str_eq→≡ s t rest)

pub str_eq_ne : (s t : List ℕ) → s ≢ t → str_eq s t ≡ false
str_eq_ne s t h = elim (Bool-cases (str_eq s t)) [ inl e ↦ absurd (h (str_eq→≡ s t e)) | inr e ↦ e ]
