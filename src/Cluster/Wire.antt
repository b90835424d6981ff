-- ===== src/Cluster/Wire.antt =====
-- What is written on a connection is read back.
use setrixdb.Base.{
  zero, suc, ltb, Bool-cases, none_ne_some, some_inj, length, take, drop, length-append,
  length-take, length-drop, drop-drop, take-append-drop, subst, ◌↔◌, take_front, drop_front, Below,
  u64_mod, u32, ℕ, ◌+◌, ◌*◌, ◌/◌, ◌%◌, ◌^◌, ◌≤◌, ◌<◌, ◌≡◌, refl, sym, ap, ap₂, ◌∙◌, inl, inr, some,
  List, [], ◌∷◌, ◌++◌, arith,
}
use setrixdb.Std.Endian.{
  put_be-get_be, put_le, get_le, put_be, get_be, length-put_le, length-put_be, get_le-put_le,
  get_be-put_be,
}
use setrixdb.Cluster.{
  write_msg, read_msg, bytes_view, words_view, words_from, write_name, read_name, max_msg,
}

pub append_assoc : (a b c : List ℕ) → (a ++ b) ++ c ≡ a ++ (b ++ c)
append_assoc [] b c = refl
append_assoc (x ∷ a) b c = ap (◌∷◌ x) (append_assoc a b c)

-- A message of at most 2 ^ 30 bytes is read back from its bytes, and what follows it is left.
pub read_msg-write_msg :
    (payload rest : List ℕ)
    → length payload ≤ max_msg
    → read_msg (write_msg payload ++ rest) ≡ some (payload, rest)
unfolding read_msg write_msg
read_msg-write_msg payload rest h =
    let header = put_be 4 (u32 (length payload)) in
    let four : length header ≡ 4 = length-put_be 4 (u32 (length payload)) in
    let size : get_be 0 header ≡ length payload =
      get_be-put_be 4 (u32 (length payload)) (omega arith) ∙ omega arith in
    let bytes : (header ++ payload) ++ rest ≡ header ++ (payload ++ rest) =
      append_assoc header payload rest in
    let whole = length-append header (payload ++ rest) in
    let parts = length-append payload rest in
    rw
      (
        bytes,
        take_front 4 header (payload ++ rest) four,
        drop_front 4 header (payload ++ rest) four,
        size,
      )
      (rw
        (
          take_front (length payload) payload rest refl,
          drop_front (length payload) payload rest refl,
        )
        (ground (arith, whole, parts, four)))

-- The lengths of a message that is read and of what follows it.
pub read_msg_bounds :
    (bytes msg rest : List ℕ)
    → read_msg bytes ≡ some (msg, rest)
    → (length msg ≤ max_msg) × (length bytes ≡ 4 + length msg + length rest)
unfolding read_msg
read_msg_bounds bytes msg rest h =
    let n = get_be 0 (take 4 bytes) in
    elim (Bool-cases (ltb (length bytes) 4)) [
      | inl a ↦ absurd (none_ne_some _ (rw a at h))
      | inr a ↦
          let step = rw a at h in
          elim (Bool-cases (ltb max_msg n)) [
            | inl b ↦ absurd (none_ne_some _ (rw b at step))
            | inr b ↦
                let last = rw b at step in
                elim (Bool-cases (ltb (length (drop 4 bytes)) n)) [
                  | inl c ↦ absurd (none_ne_some _ (rw c at last))
                  | inr c ↦
                      let same = some_inj _ _ (rw c at last) in
                      let front = ap (λ (p : List ℕ × List ℕ). length p.0) same in
                      let tail = ap (λ (p : List ℕ × List ℕ). length p.1) same in
                      let cut = length-take n (drop 4 bytes) in
                      let left = length-drop n (drop 4 bytes) in
                      (
                        ground (arith, front, cut),
                        ground (arith, front, tail, cut, left, length-drop 4 bytes),
                      )
                ]
          ]
    ]

Below-take : (n : ℕ) (bytes : List ℕ) → Below 256 bytes → Below 256 (take n bytes)
Below-take zero bytes h = tt
Below-take (suc n) [] h = tt
Below-take (suc n) (b ∷ bytes) h = (h.0, Below-take n bytes h.1)

write_msg-cut :
    (bytes msg rest : List ℕ) (n : ℕ)
    → Below 256 bytes
    → length (take 4 bytes) ≡ 4
    → n ≡ get_be 0 (take 4 bytes)
    → n ≤ max_msg
    → length msg ≡ n
    → msg ++ rest ≡ drop 4 bytes
    → write_msg msg ++ rest ≡ bytes
unfolding write_msg
write_msg-cut bytes msg rest n h four e small size body =
    let value : u32 (length msg) ≡ get_be 0 (take 4 bytes) = omega arith in
    let header : put_be 4 (get_be 0 (take 4 bytes)) ≡ take 4 bytes =
      subst (λ k. put_be k (get_be 0 (take 4 bytes)) ≡ take 4 bytes) four
        (put_be-get_be (take 4 bytes) (Below-take 4 bytes h)) in
    append_assoc (put_be 4 (u32 (length msg))) msg rest
    ∙ rw (value, header, body) (take-append-drop 4 bytes)

read_msg-bytes :
    (bytes msg rest : List ℕ)
    → Below 256 bytes
    → read_msg bytes ≡ some (msg, rest)
    → (write_msg msg ++ rest ≡ bytes) × (length msg ≤ max_msg)
unfolding read_msg
read_msg-bytes bytes msg rest h found =
    let n = get_be 0 (take 4 bytes) in
    elim (Bool-cases (ltb (length bytes) 4)) [
      | inl a ↦ absurd (none_ne_some _ (rw a at found))
      | inr a ↦
          let step = rw a at found in
          elim (Bool-cases (ltb max_msg n)) [
            | inl b ↦ absurd (none_ne_some _ (rw b at step))
            | inr b ↦
                let last = rw b at step in
                elim (Bool-cases (ltb (length (drop 4 bytes)) n)) [
                  | inl c ↦ absurd (none_ne_some _ (rw c at last))
                  | inr c ↦
                      let same = some_inj _ _ (rw c at last) in
                      let front : take n (drop 4 bytes) ≡ msg = ap (λ p. p.0) same in
                      let tail : drop n (drop 4 bytes) ≡ rest = ap (λ p. p.1) same in
                      let size : length msg ≡ n =
                        sym (ap length front) ∙ ground (arith, length-take n (drop 4 bytes)) in
                      let body : msg ++ rest ≡ drop 4 bytes =
                        sym (ap₂ ◌++◌ front tail) ∙ take-append-drop n (drop 4 bytes) in
                      let four : length (take 4 bytes) ≡ 4 = ground (arith, length-take 4 bytes) in
                      let small : n ≤ max_msg = ground arith in
                      (
                        write_msg-cut bytes msg rest n h four refl small size body,
                        omega (arith, small, size),
                      )
                ]
          ]
    ]

-- From a list of bytes a message is read, with what is left, exactly where the list is that message as it
-- is written with the rest after it, and the message is of at most 2 ^ 30 bytes.
pub read_msg-write_msg_iff :
    (bytes msg rest : List ℕ)
    → Below 256 bytes
    → (read_msg bytes ≡ some (msg, rest))
      ↔ ((write_msg msg ++ rest ≡ bytes) × (length msg ≤ max_msg))
read_msg-write_msg_iff bytes msg rest h = (
  λ found. read_msg-bytes bytes msg rest h found,
  λ (whole, short).
      subst (λ bs. read_msg bs ≡ some (msg, rest)) whole (read_msg-write_msg msg rest short),
)

-- A name shorter than 2 ^ 16 bytes is read back, and what follows it is left.
pub read_name-write_name :
    (name rest : List ℕ)
    → length name < 2 ^ 16
    → read_name (write_name [] name ++ rest) ≡ some (name, rest)
unfolding read_name write_name
read_name-write_name name rest h =
    let header = put_le 2 (length name % 2 ^ 16) in
    let two : length header ≡ 2 = length-put_le 2 (length name % 2 ^ 16) in
    let size : get_le header ≡ length name =
      get_le-put_le 2 (length name % 2 ^ 16) (omega arith) ∙ omega arith in
    let bytes : (header ++ name) ++ rest ≡ header ++ (name ++ rest) =
      append_assoc header name rest in
    let whole = length-append header (name ++ rest) in
    let parts = length-append name rest in
    let skip : drop (2 + length name) (header ++ (name ++ rest)) ≡ rest =
      sym (drop-drop (length name) 2 (header ++ (name ++ rest)))
      ∙ rw (drop_front 2 header (name ++ rest) two) (drop_front (length name) name rest refl) in
    rw
      (
        bytes,
        take_front 2 header (name ++ rest) two,
        drop_front 2 header (name ++ rest) two,
        size,
        skip,
      )
      (rw (take_front (length name) name rest refl) (ground (arith, whole, parts, two)))

pub length-bytes_view : (words : List ℕ) → length (bytes_view words) ≡ 8 * length words
unfolding bytes_view
length-bytes_view [] = omega arith
length-bytes_view (w ∷ words) =
    length-append (put_le 8 w) (bytes_view words)
    ∙ omega (arith, length-put_le 8 w, length-bytes_view words)

words_from-bytes_view :
    (words : List ℕ) → Below u64_mod words → words_from (length words) (bytes_view words) ≡ words
unfolding words_from bytes_view
words_from-bytes_view [] h = refl
words_from-bytes_view (w ∷ words) h =
    let eight = length-put_le 8 w in
    rw
      (
        take_front 8 (put_le 8 w) (bytes_view words) eight,
        drop_front 8 (put_le 8 w) (bytes_view words) eight,
      )
      (ap₂ ◌∷◌ (get_le-put_le 8 w (omega (arith, h.0))) (words_from-bytes_view words h.1))

-- Words are read back from their bytes.
pub words_view-bytes_view :
    (words : List ℕ) → Below u64_mod words → words_view (bytes_view words) ≡ words
unfolding words_view
words_view-bytes_view words h =
    let size = length-bytes_view words in
    let count : length (bytes_view words) / 8 ≡ length words = omega arith in
    rw count (elim (Bool-cases (ltb (length (bytes_view words)) 8)) [
      | inl e ↦ rw e (nothing words (ground arith))
      | inr e ↦ rw e (words_from-bytes_view words h)
    ])
  where
    nothing : (words : List ℕ) → length words ≡ 0 → [] ≡ words
    nothing [] h = refl
    nothing (w ∷ words) h = absurd (omega arith)
