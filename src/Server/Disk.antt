-- ===== src/Server/Disk.antt =====
-- cmd/setrixdb-server/main.go: the store, and the files that keep its sets. A file is known by its path,
-- as `filepath.Join` gives it.
use setrixdb.Base.{
  ◌≡◌, str_eq, find_str, ℕ, Bool, false, ◌||◌, not, Option, none, some, List, [], ◌∷◌, ◌++◌,
  if◌then◌else◌,
}
use setrixdb.Std.Strings.{Str, is_empty, has_suffix, trim_suffix}
use setrixdb.Std.FilePath.{join}
use setrixdb.IdSet.{IdSet}
use setrixdb.Persist.{FileSystem, write_file, read_file, ReadResult, loaded, failed}
use setrixdb.Server.Maps.{put_key, delete_key}

-- The lock is left out; `files` is what the file system holds, by path.
pub record SetStore : Type 0 where
  pub sets : List (Str × IdSet)
  pub data_dir : Str
  pub token : Str
  pub files : List (Str × List ℕ)

-- The calls of os during one request: whether `os.MkdirAll` succeeds, the file system as `WriteFile` sees
-- it for a path, what a failed `WriteFile` leaves of the files, where it touches that file only, and
-- whether `os.Remove` succeeds.
pub record System : Type 1 where
  pub make_dir : Bool
  pub file : Str → FileSystem
  pub broken : Str → List (Str × List ℕ) → List (Str × List ℕ)
  pub removes : Str → Bool
  pub broken_keeps :
      (file other : Str) (files : List (Str × List ℕ))
      → str_eq file other ≡ false
      → find_str other (broken file files) ≡ find_str other files

-- ".sxset"
abbrev pub extension : Str
extension = b'.' ∷ b's' ∷ b'x' ∷ b's' ∷ b'e' ∷ b't' ∷ []

-- `filepath.Join(s.dataDir, name+".sxset")`
abbrev pub file_of : Str → Str → Str
file_of dir name = join dir (name ++ extension)

unfoldable pub after_write :
    System → Str → Option (List ℕ) → List (Str × List ℕ) → List (Str × List ℕ)
after_write os file none files = os.broken file files
after_write os file (some content) files = put_key file content files

-- The set as `WriteFile` leaves it, and the files.
unfoldable pub persist : System → SetStore → Str → IdSet → IdSet × List (Str × List ℕ)
unfolding after_write
persist os s name set =
    let file = file_of s.data_dir name in
    let (content, set') = write_file (os.file file) set in
    if is_empty s.data_dir || not os.make_dir
    then (set, s.files)
    else (set', after_write os file content s.files)

unfoldable pub forget : System → SetStore → Str → List (Str × List ℕ)
forget os s name =
    let file = file_of s.data_dir name in
    if is_empty s.data_dir || not (os.removes file) then s.files else delete_key file s.files

-- An entry of `os.ReadDir`, with what `os.ReadFile` gives for it.
pub record DirEntry : Type 0 where
  pub entry_name : Str
  pub is_dir : Bool
  pub content : Option (List ℕ)

unfoldable pub keep_loaded : Str → ReadResult → List (Str × IdSet) → List (Str × IdSet)
keep_loaded name (failed e) sets = sets
keep_loaded name (loaded set) sets = put_key name set sets

unfoldable pub load_entry : DirEntry → List (Str × IdSet) → List (Str × IdSet)
unfolding keep_loaded
load_entry e sets =
    if e.is_dir || not (has_suffix e.entry_name extension)
    then sets
    else keep_loaded (trim_suffix e.entry_name extension) (read_file e.content) sets

unfoldable pub load_entries : List DirEntry → List (Str × IdSet) → List (Str × IdSet)
load_entries [] sets = sets
load_entries (e ∷ entries) sets = load_entries entries (load_entry e sets)

-- The directory as `os.ReadDir` gives it, or `none` for an error.
unfoldable pub load_from_disk : Str → Option (List DirEntry) → List (Str × IdSet)
unfolding load_entries load_entry
load_from_disk data_dir none = []
load_from_disk data_dir (some entries) = if is_empty data_dir then [] else load_entries entries []

unfoldable pub new_store : Str → Str → Option (List DirEntry) → List (Str × List ℕ) → SetStore
unfolding load_from_disk
new_store data_dir token listing files = record {
  sets = load_from_disk data_dir listing;
  data_dir = data_dir;
  token = token;
  files = files;
}
