-- ===== src/Command/Terms.antt =====
-- cmd/setrixdb/main.go: the commands on terms, and the sets of `bench`. The figures of time and of bits for
-- a key are left out.
use setrixdb.Base.{length, take, ℕ, ◌/◌, min, Option, none, some, List, [], ◌∷◌}
use setrixdb.Std.Strings.{Str}
use setrixdb.Addb.Hash.{compute_deterministic_id}
use setrixdb.Addb.SetOps.{intersect_many}
use setrixdb.Mphf.Build.{Sizes}
use setrixdb.Keyer.{Keyer, KeyerError, Outcome, build_keyer}
use setrixdb.Keyer
use setrixdb.Command.Lines.{read_terms}
use setrixdb.Command.Sets.{
  Files, Ended, done, fails, usage, unreadable_terms, no_terms, no_keyer, normalize,
}

ids_of_terms : List Str → List (Str × ℕ)
ids_of_terms [] = []
ids_of_terms (t ∷ terms) = (t, compute_deterministic_id t) ∷ ids_of_terms terms

unfoldable pub cmd_id : List Str → Ended (List (Str × ℕ))
unfolding ids_of_terms
cmd_id [] = fails usage
cmd_id (t ∷ terms) = done (ids_of_terms (t ∷ terms))

-- What `keyer` prints: the number of terms, the size of the index in KiB, the hashes that were told apart, and
-- the ID of each term asked for.
pub record KeyerReport : Type 0 where
  pub terms : ℕ
  pub kibibytes : ℕ
  pub collisions : ℕ
  pub answers : List (Str × Option ℕ)

unfoldable pub answers_of : Keyer → List Str → List (Str × Option ℕ)
answers_of k [] = []
answers_of k (t ∷ targets) = (t, Keyer.lookup k t) ∷ answers_of k targets

-- The terms asked for, or the first five of the file.
unfoldable pub targets_of : List Str → List Str → List Str
targets_of [] terms = take (min 5 (length terms)) terms
targets_of (t ∷ targets) terms = t ∷ targets

unfoldable pub keyer_built : List Str → List Str → Outcome Keyer → Ended KeyerReport
unfolding answers_of targets_of
keyer_built targets terms (Outcome.failed e) = fails (no_keyer e)
keyer_built targets terms (Outcome.ok k) = done (record {
  terms = Keyer.len k;
  kibibytes = Keyer.byte_size k / 1024;
  collisions = k.colisoes;
  answers = answers_of k (targets_of targets terms);
})

unfoldable pub keyer_read : Sizes → List Str → Option (List Str) → Ended KeyerReport
unfolding keyer_built
keyer_read sizes targets none = fails unreadable_terms
keyer_read sizes targets (some []) = fails no_terms
keyer_read sizes targets (some (t ∷ terms)) =
    keyer_built targets (t ∷ terms) (build_keyer sizes (t ∷ terms))

unfoldable pub cmd_keyer : Sizes → Files → List Str → Ended KeyerReport
unfolding keyer_read
cmd_keyer sizes files [] = fails usage
cmd_keyer sizes files (path ∷ targets) = keyer_read sizes targets (read_terms (files path))

-- What `bench` prints of its two random slices: their sizes, and that of the intersection.
unfoldable pub cmd_bench : List ℕ → List ℕ → ℕ × ℕ × ℕ
cmd_bench a b =
    let a' = normalize a in
    let b' = normalize b in (length a', length b', length (intersect_many (a' ∷ b' ∷ [])))
