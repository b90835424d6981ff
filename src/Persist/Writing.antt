-- ===== src/Persist/Writing.antt =====
-- What `WriteFile` leaves on disk when it reports no error.
use setrixdb.Base.{length, u64, ℕ, ◌≡◌, refl, sym, ap, ◌∙◌, Option, none, some, List, [], ◌∷◌, ◌++◌}
use mathlib.Core.List.{append-nil, append_assoc}
use setrixdb.Std.Endian.{put_le}
use setrixdb.IdSet.{IdSet, sorted_ids}
use setrixdb.Persist.{FileSystem, file_magic, ◌>>=◌, write_ids, write_content, write_file}

-- The IDs as words, one behind the other.
abbrev pub words_of : List ℕ → List ℕ
words_of [] = []
words_of (id ∷ ids) = put_le 8 id ++ words_of ids

-- The `.sxset` format: the magic, the kind, the count and the IDs.
abbrev pub encode : List ℕ → List ℕ
encode ids = file_magic ++ (0x53 ∷ (put_le 8 (u64 (length ids)) ++ words_of ids))

>>=-eq-some {ℓ κ} :
    {A : Type ℓ} {B : Type κ} (m : Option A) (f : A → Option B) {b : B}
    → (m >>= f) ≡ some b
    → (a : A) × (m ≡ some a) × (f a ≡ some b)
>>=-eq-some none f h = cc
>>=-eq-some (some a) f h = (a, refl, h)

module _ (fs : FileSystem) where
  open fs use {Writer, create, write, flush, written, create_empty, write_appends, flush_keeps}

  write_ids-words :
      (ids : List ℕ) (w w' : Writer)
      → write_ids fs w ids ≡ some w'
      → written w' ≡ written w ++ words_of ids
  unfolding write_ids
  write_ids-words [] w w' h =
      let same : w' ≡ w = cc in ap written same ∙ sym (append-nil (written w))
  write_ids-words (id ∷ ids) w w' h =
      let (w₁, e, rest) = >>=-eq-some (write w (put_le 8 id)) _ h in
      write_ids-words ids w₁ w' rest
      ∙ ap (λ (t : List ℕ). t ++ words_of ids) (write_appends w w₁ (put_le 8 id) e)
      ∙ append_assoc (written w) (put_le 8 id) (words_of ids)

  write_content-encode :
      (ids content : List ℕ) → write_content fs ids ≡ some content → content ≡ encode ids
  unfolding write_content
  write_content-encode ids content h =
      let (w, e, h₀) = >>=-eq-some create _ h in
      let (w₁, e₁, h₁) = >>=-eq-some (write w file_magic) _ h₀ in
      let (w₂, e₂, h₂) = >>=-eq-some (write w₁ (0x53 ∷ [])) _ h₁ in
      let (w₃, e₃, h₃) = >>=-eq-some (write w₂ (put_le 8 (u64 (length ids)))) _ h₂ in
      let (w₄, e₄, h₄) = >>=-eq-some (write_ids fs w₃ ids) _ h₃ in
      let count = put_le 8 (u64 (length ids)) in
      let start =
        write_appends w w₁ file_magic e₁
        ∙ ap (λ (t : List ℕ). t ++ file_magic) (create_empty w e) in
      let kind = write_appends w₁ w₂ (0x53 ∷ []) e₂ ∙ ap (λ (t : List ℕ). t ++ 0x53 ∷ []) start in
      let counted = write_appends w₂ w₃ count e₃ ∙ ap (λ (t : List ℕ). t ++ count) kind in
      flush_keeps w₄ content h₄
      ∙ write_ids-words ids w₃ w₄ e₄
      ∙ ap (λ (t : List ℕ). t ++ words_of ids) counted

-- When `WriteFile` reports no error, the file holds the set's sorted IDs in the `.sxset` format.
pub write_file-encode :
    (fs : FileSystem) (s : IdSet) (content : List ℕ)
    → (write_file fs s).0 ≡ some content
    → content ≡ encode (sorted_ids s).0
unfolding write_file
write_file-encode fs s content h = write_content-encode fs (sorted_ids s).0 content h

-- Where every call of the file system succeeds, so does `WriteFile`.
module _ (fs : FileSystem) (creates : (w : fs.Writer) × (fs.create ≡ some w))
    (writes : (w : fs.Writer) (bytes : List ℕ) → (w' : fs.Writer) × (fs.write w bytes ≡ some w'))
    (flushes : (w : fs.Writer) → (content : List ℕ) × (fs.flush w ≡ some content)) where
  write_ids-some :
      (w : fs.Writer) (ids : List ℕ) → (w' : fs.Writer) × (write_ids fs w ids ≡ some w')
  unfolding write_ids
  write_ids-some w [] = (w, refl)
  write_ids-some w (id ∷ ids) =
      let (w₁, e) = writes w (put_le 8 id) in let (w', e') = write_ids-some w₁ ids in (w', rw e e')

  write_content-some : (ids : List ℕ) → (content : List ℕ) × (write_content fs ids ≡ some content)
  unfolding write_content
  write_content-some ids =
      let (w, e) = creates in
      let (w₁, e₁) = writes w file_magic in
      let (w₂, e₂) = writes w₁ (0x53 ∷ []) in
      let (w₃, e₃) = writes w₂ (put_le 8 (u64 (length ids))) in
      let (w₄, e₄) = write_ids-some w₃ ids in
      let (content, e₅) = flushes w₄ in (content, rw e (rw e₁ (rw e₂ (rw e₃ (rw e₄ e₅)))))

  pub write_file-some : (s : IdSet) → (content : List ℕ) × ((write_file fs s).0 ≡ some content)
  unfolding write_file
  write_file-some s = write_content-some (sorted_ids s).0
