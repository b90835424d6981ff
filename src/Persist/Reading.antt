-- ===== src/Persist/Reading.antt =====
-- `ReadFile` gives back what `WriteFile` wrote.
use native.Mathlib.Nat.{mod-eq_of_lt}
use mathlib.Core.List.{append_assoc}
use setrixdb.Base.{
  ℕ, zero, suc, ◌+◌, ◌*◌, ◌/◌, ◌≤◌, ◌<◌, ◌≡◌, refl, sym, ◌∙◌, ap, ap₂, true, false, some, List, [],
  ◌∷◌, ◌++◌, length, take, drop, ltb, leb, arith, inl, inr, Bool-cases, u64, u64_mod, IsStrict,
  Below, length-append, length-drop, take_front, drop_front, drop-drop, Above-trans, take-Below,
  drop-Below, take-add, length-take,
}
use setrixdb.Std.Endian.{put_le, get_le, length-put_le, get_le-put_le, put_le-get_le}
use setrixdb.IdSet.{IdSet, sorted_ids}
use setrixdb.IdSet.Laws.{IsValid, sorted_ids_lem}
use setrixdb.Persist.{FileSystem, write_file, loaded, read_ids, is_ascending, read_file}
use setrixdb.Persist.Writing.{encode, words_of, write_file-encode}

pub is_ascending-IsStrict : (xs : List ℕ) → is_ascending xs ≡ true → IsStrict xs
unfolding is_ascending
is_ascending-IsStrict [] h = tt
is_ascending-IsStrict (x ∷ []) h = (tt, tt)
is_ascending-IsStrict (x ∷ y ∷ xs) h = elim (Bool-cases (leb y x)) [
  | inl e ↦ absurd (ground arith)
  | inr e ↦
      let rest = is_ascending-IsStrict (y ∷ xs) (rw e at h) in
      ((ground arith, Above-trans x y xs (ground arith) rest.0), rest)
]

IsStrict-is_ascending : (xs : List ℕ) → IsStrict xs → is_ascending xs ≡ true
unfolding is_ascending
IsStrict-is_ascending [] s = refl
IsStrict-is_ascending (x ∷ []) s = refl
IsStrict-is_ascending (x ∷ y ∷ xs) s = ground (arith, IsStrict-is_ascending (y ∷ xs) s.1)

length-words_of : (ids : List ℕ) → length (words_of ids) ≡ 8 * length ids
length-words_of [] = refl
length-words_of (id ∷ ids) =
    omega
      (arith, length-append (put_le 8 id) (words_of ids), length-put_le 8 id, length-words_of ids)

read_ids-words_of :
    (ids rest : List ℕ) (i : ℕ) (body : List ℕ)
    → Below u64_mod ids
    → drop (i * 8) body ≡ words_of ids ++ rest
    → read_ids (length ids) i body ≡ ids
unfolding read_ids
read_ids-words_of [] rest i body h e = refl
read_ids-words_of (id ∷ ids) rest i body h e =
    let front : drop (i * 8) body ≡ put_le 8 id ++ (words_of ids ++ rest) =
      e ∙ append_assoc (put_le 8 id) (words_of ids) rest in
    let word : take 8 (drop (i * 8) body) ≡ put_le 8 id =
      ap (take 8) front ∙ take_front 8 (put_le 8 id) (words_of ids ++ rest) (length-put_le 8 id) in
    let behind : drop ((i + 1) * 8) body ≡ words_of ids ++ rest =
      ap (λ (k : ℕ). drop k body) {x = (i + 1) * 8} {y = i * 8 + 8} (omega arith)
      ∙ sym (drop-drop 8 (i * 8) body)
      ∙ ap (drop 8) front
      ∙ drop_front 8 (put_le 8 id) (words_of ids ++ rest) (length-put_le 8 id) in
    ap₂ ◌∷◌ (ap get_le word ∙ get_le-put_le 8 id h.0)
      (read_ids-words_of ids rest (i + 1) body h.1 behind)

pub length-read_ids : (n i : ℕ) (body : List ℕ) → length (read_ids n i body) ≡ n
unfolding read_ids
length-read_ids zero i body = refl
length-read_ids (suc n) i body = ap suc (length-read_ids n (i + 1) body)

pub words_of-read_ids :
    (n i : ℕ) (body : List ℕ)
    → Below 256 body
    → (i + n) * 8 ≤ length body
    → words_of (read_ids n i body) ≡ take (n * 8) (drop (i * 8) body)
unfolding read_ids
words_of-read_ids zero i body h fits = refl
words_of-read_ids (suc n) i body h fits =
    let word = take 8 (drop (i * 8) body) in
    let full : length word ≡ 8 =
      omega (arith, length-take 8 (drop (i * 8) body), length-drop (i * 8) body) in
    let back : put_le 8 (get_le word) ≡ word =
      ap (λ (k : ℕ). put_le k (get_le word)) (sym full)
      ∙ put_le-get_le word (take-Below 8 256 _ (drop-Below (i * 8) 256 body h)) in
    let behind : drop ((i + 1) * 8) body ≡ drop 8 (drop (i * 8) body) =
      ap (λ (k : ℕ). drop k body) {x = (i + 1) * 8} {y = i * 8 + 8} (omega arith)
      ∙ sym (drop-drop 8 (i * 8) body) in
    ap₂ ◌++◌ back (words_of-read_ids n (i + 1) body h (omega arith) ∙ ap (take (n * 8)) behind)
    ∙ sym (take-add 8 (n * 8) (drop (i * 8) body))
    ∙ ap (λ (k : ℕ). take k (drop (i * 8) body)) {x = 8 + n * 8} {y = suc n * 8} (omega arith)

read_file-encode :
    (ids rest : List ℕ)
    → Below u64_mod ids
    → length ids < u64_mod
    → IsStrict ids
    → read_file (some (encode ids ++ rest)) ≡ loaded (record { ids = ids; sorted = true })
unfolding read_file
read_file-encode ids rest h short strict =
    let tail = put_le 8 (u64 (length ids)) ++ words_of ids ++ rest in
    let front : tail ≡ put_le 8 (u64 (length ids)) ++ (words_of ids ++ rest) =
      append_assoc (put_le 8 (u64 (length ids))) (words_of ids) rest in
    let word : take 8 tail ≡ put_le 8 (u64 (length ids)) =
      ap (take 8) front ∙ take_front 8 _ (words_of ids ++ rest) (length-put_le 8 _) in
    let body : drop 8 tail ≡ words_of ids ++ rest =
      ap (drop 8) front ∙ drop_front 8 _ (words_of ids ++ rest) (length-put_le 8 _) in
    let count : get_le (take 8 tail) ≡ length ids =
      ap get_le word ∙ get_le-put_le 8 _ (omega arith) ∙ mod-eq_of_lt short in
    let size : length (words_of ids ++ rest) ≡ 8 * length ids + length rest =
      omega (arith, length-append (words_of ids) rest, length-words_of ids) in
    let long : 8 ≤ length tail = omega (
      arith,
      ap length front,
      length-append (put_le 8 (u64 (length ids))) (words_of ids ++ rest),
      length-put_le 8 (u64 (length ids)),
    ) in
    let all_there : ltb (length (words_of ids ++ rest) / 8) (length ids) ≡ false =
      ground (arith, size) in
    let header : ltb (length (encode ids ++ rest)) 15 ≡ false = ground arith in
    rw (
      header,
      body,
      count,
      all_there,
      read_ids-words_of ids rest 0 (words_of ids ++ rest) h refl,
      IsStrict-is_ascending ids strict,
    )

-- A valid set of 64-bit IDs, fewer than 2 ^ 64, is read back from the file that was written without
-- an error, whatever bytes follow: the same IDs, already sorted.
pub read_file-write_file :
    (fs : FileSystem) (s : IdSet) (content rest : List ℕ)
    → IsValid s
    → Below u64_mod (sorted_ids s).0
    → length (sorted_ids s).0 < u64_mod
    → (write_file fs s).0 ≡ some content
    → read_file (some (content ++ rest)) ≡ loaded (record { ids = (sorted_ids s).0; sorted = true })
read_file-write_file fs s content rest v below short h =
    ap (λ (c : List ℕ). read_file (some (c ++ rest))) (write_file-encode fs s content h)
    ∙ read_file-encode (sorted_ids s).0 rest below short (sorted_ids_lem s v).0
