-- ===== src/Server/Maps.antt =====
-- A Go map from strings, as the list of its entries.
use setrixdb.Base.{
  ◌≡◌, refl, true, false, none, some, List, [], ◌∷◌, if◌then◌else◌, Bool-cases, inl, inr, str_eq,
  str_eq→≡, find_str, has_str,
}
use setrixdb.Std.Strings.{Str}

apart : (n q name : Str) → str_eq n name ≡ false → str_eq n q ≡ true → str_eq name q ≡ false
apart n q name e f = elim (Bool-cases (str_eq name q)) [
  | inl g ↦ absurd (cc (e, f, str_eq→≡ name q g))
  | inr g ↦ g
]

module _ {ℓ} {A : Type ℓ} where
  -- `m[name] = v`
  unfoldable pub put_key : Str → A → List (Str × A) → List (Str × A)
  put_key name v [] = (name, v) ∷ []
  put_key name v ((n, w) ∷ m) = if str_eq n name then (name, v) ∷ m else (n, w) ∷ put_key name v m

  -- `delete(m, name)`
  unfoldable pub delete_key : Str → List (Str × A) → List (Str × A)
  delete_key name [] = []
  delete_key name ((n, w) ∷ m) =
      let rest = delete_key name m in if str_eq n name then rest else (n, w) ∷ rest

  unfoldable pub map_keys : List (Str × A) → List Str
  map_keys [] = []
  map_keys ((n, w) ∷ m) = n ∷ map_keys m

  pub find-put_key :
      (q name : Str) (v : A) (m : List (Str × A))
      → find_str q (put_key name v m) ≡ (if str_eq name q then some v else find_str q m)
  unfolding put_key
  find-put_key q name v [] = refl
  find-put_key q name v ((n, w) ∷ m) = elim (Bool-cases (str_eq n name)) [
    | inl e ↦
        rw (e, str_eq→≡ n name e)
          (elim (Bool-cases (str_eq name q)) [ inl f ↦ rw f | inr f ↦ rw f ])
    | inr e ↦
        rw (e, find-put_key q name v m)
          (elim (Bool-cases (str_eq n q)) [ inl f ↦ rw (f, apart n q name e f) | inr f ↦ rw f ])
  ]

  pub find-delete_key :
      (q name : Str) (m : List (Str × A))
      → find_str q (delete_key name m) ≡ (if str_eq name q then none else find_str q m)
  unfolding delete_key
  find-delete_key q name [] = elim (Bool-cases (str_eq name q)) [ inl e ↦ rw e | inr e ↦ rw e ]
  find-delete_key q name ((n, w) ∷ m) = elim (Bool-cases (str_eq n name)) [
    | inl e ↦
        rw (e, find-delete_key q name m, str_eq→≡ n name e)
          (elim (Bool-cases (str_eq name q)) [ inl f ↦ rw f | inr f ↦ rw f ])
    | inr e ↦
        rw (e, find-delete_key q name m)
          (elim (Bool-cases (str_eq n q)) [ inl f ↦ rw (f, apart n q name e f) | inr f ↦ rw f ])
  ]

  -- The keys are those that are found.
  pub has_str-map_keys :
      (q : Str) (m : List (Str × A))
      → has_str q (map_keys m) ≡ elim (find_str q m) [ none ↦ false | some v ↦ true ]
  unfolding map_keys
  has_str-map_keys q [] = refl
  has_str-map_keys q ((n, w) ∷ m) = elim (Bool-cases (str_eq n q)) [
    | inl e ↦ rw e
    | inr e ↦ rw (e) (has_str-map_keys q m)
  ]
