-- ===== src/Persist.antt =====
-- persist.go: the `.sxset` file. A byte is a number below 256.
pub mod Reading
pub mod Soundness
pub mod Writing
use setrixdb.Base.{
  ℕ, zero, suc, ◌+◌, ◌*◌, ◌/◌, ◌≡◌, Bool, true, false, ◌||◌, ◌&&◌, not, Option, none, some, List,
  [], ◌∷◌, ◌++◌, length, get_or, take, drop, ltb, leb, ◌==◌, if◌then◌else◌, u64,
}
use setrixdb.Std.Endian.{put_le, get_le}
use setrixdb.IdSet.{IdSet, sorted_ids}

-- "SXSET1".
abbrev pub file_magic : List ℕ
file_magic = 0x53 ∷ 0x58 ∷ 0x53 ∷ 0x45 ∷ 0x54 ∷ 0x31 ∷ []

-- `os.Create` and the buffered writer on the file, which are not the program's. Each call may fail;
-- where none does, the file holds what was written, in order.
pub record FileSystem : Type 1 where
  pub Writer : Type 0
  pub create : Option Writer
  pub write : Writer → List ℕ → Option Writer
  pub flush : Writer → Option (List ℕ)
  pub written : Writer → List ℕ
  pub create_empty : (w : Writer) → create ≡ some w → written w ≡ []
  pub write_appends :
      (w w' : Writer) (bytes : List ℕ) → write w bytes ≡ some w' → written w' ≡ written w ++ bytes
  pub flush_keeps : (w : Writer) (content : List ℕ) → flush w ≡ some content → content ≡ written w

infixl 5 ◌>>=◌
abbrev pub ◌>>=◌ {ℓ κ} : {A : Type ℓ} {B : Type κ} → Option A → (A → Option B) → Option B
none >>= f = none
some a >>= f = f a

module _ (fs : FileSystem) where
  open fs use {Writer, create, write, flush}

  -- `for _, id := range ids { … bw.Write(buf[:]) … }`
  write_ids : Writer → List ℕ → Option Writer
  write_ids w [] = some w
  write_ids w (id ∷ ids) = do w' ← write w (put_le 8 id); write_ids w' ids

  write_content : List ℕ → Option (List ℕ)
  write_content ids = do
    w ← create
    w₁ ← write w file_magic
    w₂ ← write w₁ (0x53 ∷ [])
    w₃ ← write w₂ (put_le 8 (u64 (length ids)))
    w₄ ← write_ids w₃ ids
    flush w₄

  -- The content of the file, or `none` for an error; and the finalized set.
  unfoldable pub write_file : IdSet → Option (List ℕ) × IdSet
  unfolding write_ids write_content
  write_file s = let (ids, s') = sorted_ids s in (write_content ids, s')

pub data ReadError : Type 0 where
  unreadable not_sxset unsupported_kind truncated not_ascending : ReadError

pub data ReadResult : Type 0 where
  loaded : IdSet → ReadResult
  failed : ReadError → ReadResult

bytes_eq : List ℕ → List ℕ → Bool
bytes_eq [] [] = true
bytes_eq [] (y ∷ ys) = false
bytes_eq (x ∷ xs) [] = false
bytes_eq (x ∷ xs) (y ∷ ys) = x == y && bytes_eq xs ys

-- `for i := uint64(0); i < n; i++ { ids[i] = …Uint64(body[i*8 : i*8+8]) }`, with so many rounds left.
pub read_ids : ℕ → ℕ → List ℕ → List ℕ
read_ids zero i body = []
read_ids (suc left) i body = get_le (take 8 (drop (i * 8) body)) ∷ read_ids left (i + 1) body

-- `for i := 1; i < len(ids); i++ { if ids[i-1] >= ids[i] { return … } }`
pub is_ascending : List ℕ → Bool
is_ascending [] = true
is_ascending (x ∷ []) = true
is_ascending (x ∷ y ∷ rest) = if leb y x then false else is_ascending (y ∷ rest)

-- What `os.ReadFile` gives: the bytes of the file, or `none` for an error.
unfoldable pub read_file : Option (List ℕ) → ReadResult
unfolding bytes_eq read_ids is_ascending
read_file none = failed unreadable
read_file (some bytes) =
    let n = get_le (take 8 (drop 7 bytes)) in
    let body = drop 15 bytes in
    let ids = read_ids n 0 body in
    if ltb (length bytes) 15 || not (bytes_eq (take 6 bytes) file_magic)
    then failed not_sxset
    else (if not (get_or bytes 6 0 == 0x53)
        then failed unsupported_kind
        else (if ltb (length body / 8) n
            then failed truncated
            else (if is_ascending ids
                then loaded (record { ids = ids; sorted = true })
                else failed not_ascending)))
