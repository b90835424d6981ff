-- ===== src/Examples/Files.antt =====
-- persist.go, on a file system whose calls never fail.
use setrixdb.Base.{
  ℕ, ◌≡◌, ◌<◌, refl, sym, ap, true, false, none, some, Option, List, [], ◌∷◌, ◌++◌, length, arith,
  Below, IsStrict, u64_mod,
}
use setrixdb.Std.Sort.{sort_slice}
use setrixdb.Std.Endian.{put_le, get_le}
use setrixdb.IdSet.{IdSet, sorted_ids, finalize}
use setrixdb.IdSet.Laws.{IsValid}
use setrixdb.Persist.{FileSystem, write_file, read_file, loaded}
use setrixdb.Persist.Writing.{encode}
use setrixdb.Persist.Reading.{read_file-write_file}
use setrixdb.Persist.Soundness.{read_file_sound}

contents : Option (List ℕ) → List ℕ
contents (some bytes) = bytes
contents none = []

pub some-inj : (a b : List ℕ) → some a ≡ some b → a ≡ b
unfolding contents
some-inj a b e = ap contents e

abbrev pub in_memory : FileSystem
in_memory = record {
  Writer = List ℕ;
  create = some [];
  write = λ w bytes. some (w ++ bytes);
  flush = λ w. some w;
  written = λ w. w;
  create_empty = λ w e. sym (some-inj [] w e);
  write_appends = λ w w' bytes e. sym (some-inj (w ++ bytes) w' e);
  flush_keeps = λ w content e. sym (some-inj w content e);
}

abbrev pair : IdSet
pair = record { ids = 258 ∷ 3 ∷ 258 ∷ []; sorted = false }

abbrev pub file_bytes : List ℕ
file_bytes =
    0x53 ∷ 0x58 ∷ 0x53 ∷ 0x45 ∷ 0x54 ∷ 0x31 ∷ 0x53 ∷ 2 ∷ 0 ∷ 0 ∷ 0 ∷ 0 ∷ 0 ∷ 0 ∷ 0 ∷ 3 ∷ 0 ∷ 0 ∷ 0
    ∷ 0 ∷ 0 ∷ 0 ∷ 0 ∷ 2 ∷ 1 ∷ 0 ∷ 0 ∷ 0 ∷ 0 ∷ 0 ∷ 0 ∷ []

pair-written : (write_file in_memory pair).0 ≡ some file_bytes
unfolding write_file sorted_ids finalize sort_slice put_le
pair-written = refl

pair-IsValid : IsValid pair
pair-IsValid = λ e. absurd (cc)

pair-Below : Below u64_mod (sorted_ids pair).0
unfolding sorted_ids finalize sort_slice
pair-Below = ground arith

pair-few : length (sorted_ids pair).0 < u64_mod
unfolding sorted_ids finalize sort_slice
pair-few = omega arith

read_file-write_file_example :
    read_file (some (file_bytes ++ 9 ∷ []))
    ≡ loaded (record { ids = (sorted_ids pair).0; sorted = true })
read_file-write_file_example =
    read_file-write_file in_memory pair file_bytes (9 ∷ []) pair-IsValid pair-Below pair-few
      pair-written

abbrev restored : IdSet
restored = record { ids = 3 ∷ 258 ∷ []; sorted = true }

bytes-Below : Below 256 file_bytes
bytes-Below = ground arith

bytes-restored : read_file (some file_bytes) ≡ loaded restored
unfolding read_file get_le
bytes-restored = refl

read_file_sound_example :
    (true ≡ true)
    × IsStrict (3 ∷ 258 ∷ [])
    × ((rest : List ℕ) × (file_bytes ≡ encode (3 ∷ 258 ∷ []) ++ rest))
read_file_sound_example = read_file_sound file_bytes restored bytes-Below bytes-restored
