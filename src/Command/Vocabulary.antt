-- ===== src/Command/Vocabulary.antt =====
-- What `keyer` prints.
use setrixdb.Base.{has_str, ℕ, Bool, true, false, Option, none, some, List, [], ◌∷◌}
use setrixdb.Std.Strings.{Str}
use setrixdb.Keyer.{Keyer, build_keyer}
use setrixdb.Keyer

abbrev pub is_some {ℓ} : {A : Type ℓ} → Option A → Bool
is_some none = false
is_some (some a) = true

-- Which of the terms asked for have an ID.
abbrev pub answered : List (Str × Option ℕ) → List (Str × Bool)
answered [] = []
answered ((t, id) ∷ answers) = (t, is_some id) ∷ answered answers

abbrev pub asked_in : List Str → List Str → List (Str × Bool)
asked_in terms [] = []
asked_in terms (t ∷ targets) = (t, has_str t terms) ∷ asked_in terms targets
