-- ===== src/Addb/Synonyms.antt =====
-- internal/addb/synonyms.go: the flat storage of synonyms. Offsets and lengths are `uint32`. A nil
-- storage is `none`; a slice expression out of range panics, the outcome `panicked`.
pub mod Laws
use setrixdb.Base.{
  ℕ, ◌+◌, ◌-◌, not, ◌||◌, Option, none, some, List, [], ◌∷◌, ◌++◌, length, take, drop, ltb, ◌==◌,
  if◌then◌else◌, u32,
}

pub record SynonymEntry : Type 0 where
  pub term : ℕ
  pub synonyms : List ℕ

pub record FlatSynonymStorage : Type 0 where
  pub synonym_ids : List ℕ
  pub offsets : List ℕ
  pub lengths : List ℕ
  pub terms : List ℕ

-- The loop over the entries: four appends for each.
store_entries : FlatSynonymStorage → List SynonymEntry → FlatSynonymStorage
store_entries s [] = s
store_entries s (e ∷ entries) =
    store_entries
      (record {
        synonym_ids = s.synonym_ids ++ e.synonyms;
        offsets = s.offsets ++ u32 (length s.synonym_ids) ∷ [];
        lengths = s.lengths ++ u32 (length e.synonyms) ∷ [];
        terms = s.terms ++ e.term ∷ [];
      })
      entries

unfoldable pub new_synonym_storage : List SynonymEntry → FlatSynonymStorage
unfolding store_entries
new_synonym_storage entries =
    store_entries (record { synonym_ids = []; offsets = []; lengths = []; terms = [] }) entries

pub data Slice : Type 0 where
  slice : List ℕ → Slice
  panicked : Slice

-- `s.SynonymIDs[lo:hi]`
slice_range : List ℕ → ℕ → ℕ → Slice
slice_range xs lo hi =
    if ltb hi lo || ltb (length xs) hi then panicked else slice (take (hi - lo) (drop lo xs))

-- `for k, t := range s.Terms { … }`: the three parallel slices from `k` on.
find_term : List ℕ → ℕ → List ℕ → List ℕ → List ℕ → Slice
find_term xs term [] offsets lengths = slice []
find_term xs term (t ∷ terms) [] lengths = panicked
find_term xs term (t ∷ terms) (lo ∷ offsets) [] = panicked
find_term xs term (t ∷ terms) (lo ∷ offsets) (n ∷ lengths) =
    let rest = find_term xs term terms offsets lengths in
    if not (t == term) then rest else slice_range xs lo (u32 (lo + n))

unfoldable pub synonyms : Option FlatSynonymStorage → ℕ → Slice
unfolding slice_range find_term
synonyms none term = slice []
synonyms (some s) term = find_term s.synonym_ids term s.terms s.offsets s.lengths

pub len : Option FlatSynonymStorage → ℕ
len none = 0
len (some s) = length s.terms
