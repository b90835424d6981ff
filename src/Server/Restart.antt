-- ===== src/Server/Restart.antt =====
-- A restart of the server on the files that it left.
use setrixdb.Base.{
  set, unique, find_str, AreUnique, ℕ, ◌≡◌, refl, sym, ◌∙◌, subst, false, Option, none, some, List,
  [], ◌∷◌, ◌++◌,
}
use setrixdb.Std.Strings.{Str, is_empty}
use setrixdb.Std.Strings.Laws.{HasNone}
use setrixdb.Std.FilePath.{is_slash}
use setrixdb.Persist.{read_file}
use setrixdb.Server.Request.{Request, Json}
use setrixdb.Server.Disk.{SetStore, System, DirEntry, extension, file_of, new_store, load_from_disk}
use setrixdb.Server.Handler.{handle_request}
use setrixdb.Server.Catalog.{Catalog, Change, effect_of, apply_change, run_requests, Agrees, Holds}
use setrixdb.Server.Steps.{handle_request-Holds}
use setrixdb.Server.Fixed.{handle_request-IsFixed}
use setrixdb.Server.Files.{FileAgrees, Works, IsApart, handle_request-FileAgrees}
use setrixdb.Server.Loading.{entry_names, listed_content, or_kept, find-load_entries}
use setrixdb.Server.Asking.{AllSay, catalog_of, ArePlain, effect_of-Says}
use setrixdb.Server.Plain.{ArePlain-IsApart}

-- The calls of os succeed for the file in every request.
abbrev pub AllWork : Str → List (System × Request) → Type 1
AllWork file [] = Unit
AllWork file ((os, r) ∷ requests) = Works os file × AllWork file requests

-- The file of the name follows one request.
step-FileAgrees :
    (os : System) (json : Json) (r : Request) (c : Change) (s : SetStore) (m : Catalog) (q : Str)
    → effect_of json s.token r ≡ c
    → IsApart s.data_dir q c
    → Works os (file_of s.data_dir q)
    → is_empty s.data_dir ≡ false
    → Holds s.sets m
    → FileAgrees (find_str (file_of s.data_dir q) s.files) (m q)
    → FileAgrees
        (find_str (file_of s.data_dir q) (handle_request os json s r).1.files)
        (apply_change c m q)
step-FileAgrees os json r c s m q same apart w kept held h =
    subst
      (λ d.
        FileAgrees (find_str (file_of s.data_dir q) (handle_request os json s r).1.files)
          (apply_change d m q))
      same
      (handle_request-FileAgrees os s m q w kept h json r held
        (subst (IsApart s.data_dir q) (sym same) apart))

run_requests-FileAgrees :
    (json : Json) (requests : List (System × Request)) (changes : List Change) (token dir : Str)
    (s : SetStore) (m : Catalog) (q : Str)
    → s.token ≡ token
    → s.data_dir ≡ dir
    → AllSay json token requests changes
    → ArePlain changes
    → HasNone is_slash q
    → AllWork (file_of dir q) requests
    → is_empty dir ≡ false
    → Holds s.sets m
    → FileAgrees (find_str (file_of dir q) s.files) (m q)
    → FileAgrees
        (find_str (file_of dir q) (run_requests json requests s).files)
        (catalog_of changes m q)
unfolding run_requests
run_requests-FileAgrees json [] [] token dir s m q et ed say plain free w kept held h = h
run_requests-FileAgrees json [] (c ∷ changes) token dir s m q et ed say plain free w kept held h =
    absurd say
run_requests-FileAgrees json ((os, r) ∷ requests) [] token dir s m q et ed say plain free w kept
      held h =
    absurd say
run_requests-FileAgrees json ((os, r) ∷ requests) (c ∷ changes) token dir s m q et ed (says, say)
      plain free (w, works) kept held h =
    let s' = (handle_request os json s r).1 in
    let (token_same, dir_same) = handle_request-IsFixed os json s r in
    let same : effect_of json s.token r ≡ c =
      subst (λ t. effect_of json t r ≡ c) (sym et) (effect_of-Says json token r c says) in
    let (apart, rest) = ArePlain-IsApart dir q c changes free plain in
    let held' : Holds s'.sets (apply_change c m) =
      subst (λ d. Holds s'.sets (apply_change d m)) same
        (handle_request-Holds os json s m r held) in
    let h' : FileAgrees (find_str (file_of dir q) s'.files) (apply_change c m q) =
      subst
        (λ d.
          IsApart d q c
          → Works os (file_of d q)
          → is_empty d ≡ false
          → FileAgrees (find_str (file_of d q) s.files) (m q)
          → FileAgrees (find_str (file_of d q) s'.files) (apply_change c m q))
        ed (λ a₁ w₁ k₁ h₁. step-FileAgrees os json r c s m q same a₁ w₁ k₁ held h₁) apart w kept
        h in
    run_requests-FileAgrees json requests changes token dir s' (apply_change c m) q
      (token_same ∙ et) (dir_same ∙ ed) say rest free works kept held' h'

read_back : (o v : Option (List ℕ)) → FileAgrees o v → Agrees (or_kept (read_file o) none) v
unfolding or_kept
read_back none none a = unfold read_file in tt
read_back none (some ids) a = absurd a
read_back (some content) none a = absurd a
read_back (some content) (some ids) (set, e, a) = rw e a

-- A server with a directory, which holds a catalogue, can be restarted after any list of requests, where
-- the changes are what the requests say, by their tokens, methods, paths and bodies of 64 MiB at most, and
-- no name that they change has a '/'. For a name without '/' whose file the
-- calls of os serve throughout: where the directory lists that file as the server left it, and no entry
-- twice, the new server has under the name exactly the IDs of the latest PUT to it with the token, no
-- set if a DELETE with the token came after, and what the name had before if there was neither, the
-- file agreeing with the catalogue then.
pub new_store-run_requests :
    (json : Json) (requests : List (System × Request)) (changes : List Change) (s : SetStore)
    (m : Catalog) (q : Str) (entries : List DirEntry) (files : List (Str × List ℕ))
    → AllSay json s.token requests changes
    → ArePlain changes
    → HasNone is_slash q
    → AllWork (file_of s.data_dir q) requests
    → is_empty s.data_dir ≡ false
    → Holds s.sets m
    → FileAgrees (find_str (file_of s.data_dir q) s.files) (m q)
    → AreUnique (entry_names entries)
    → listed_content (q ++ extension) entries
      ≡ find_str (file_of s.data_dir q) (run_requests json requests s).files
    → Agrees
        (find_str q (new_store s.data_dir s.token (some entries) files).sets)
        (catalog_of changes m q)
unfolding new_store load_from_disk
new_store-run_requests json requests changes s m q entries files say plain free w kept held h unique
      listed =
    rw (kept, find-load_entries q entries [] unique)
      (read_back (listed_content (q ++ extension) entries) (catalog_of changes m q) (
        subst (λ o. FileAgrees o (catalog_of changes m q)) (sym listed)
          (run_requests-FileAgrees json requests changes s.token s.data_dir s m q refl refl say
            plain free w kept held h)))
