-- ===== src/Addb/Synonyms/Laws.antt =====
-- A lookup gives the synonyms of the first entry with the term.
use mathlib.Core.List.{append-nil, append_assoc}
use native.Mathlib.Nat.{mod-eq_of_lt}
use setrixdb.Base.{
  ℕ, ◌+◌, ◌-◌, ◌<◌, ◌≡◌, refl, sym, ◌∙◌, inl, inr, some, List, [], ◌∷◌, ◌++◌, length, ◌==◌,
  if◌then◌else◌, arith, Bool-cases, u32, u32_mod, length-append, take_front, drop_front,
}
use setrixdb.Addb.Synonyms.{
  SynonymEntry, FlatSynonymStorage, store_entries, new_synonym_storage, slice, slice_range,
  find_term, synonyms,
}

-- The synonyms of all entries, one after the other.
abbrev pub all_synonyms : List SynonymEntry → List ℕ
all_synonyms [] = []
all_synonyms (e ∷ entries) = e.synonyms ++ all_synonyms entries

-- The synonyms of the first entry with the term; none without such an entry.
abbrev pub first_synonyms : ℕ → List SynonymEntry → List ℕ
first_synonyms term [] = []
first_synonyms term (e ∷ entries) =
    if e.term == term then e.synonyms else first_synonyms term entries

abbrev offsets_from : ℕ → List SynonymEntry → List ℕ
offsets_from base [] = []
offsets_from base (e ∷ entries) = u32 base ∷ offsets_from (base + length e.synonyms) entries

abbrev lengths_of : List SynonymEntry → List ℕ
lengths_of [] = []
lengths_of (e ∷ entries) = u32 (length e.synonyms) ∷ lengths_of entries

abbrev terms_of : List SynonymEntry → List ℕ
terms_of [] = []
terms_of (e ∷ entries) = e.term ∷ terms_of entries

store_entries-flat :
    (s : FlatSynonymStorage) (entries : List SynonymEntry)
    → store_entries s entries ≡ record {
      synonym_ids = s.synonym_ids ++ all_synonyms entries;
      offsets = s.offsets ++ offsets_from (length s.synonym_ids) entries;
      lengths = s.lengths ++ lengths_of entries;
      terms = s.terms ++ terms_of entries;
    }
unfolding store_entries
store_entries-flat s [] =
    rw (append-nil s.synonym_ids, append-nil s.offsets, append-nil s.lengths, append-nil s.terms)
store_entries-flat s (e ∷ entries) =
    store_entries-flat
      (record {
        synonym_ids = s.synonym_ids ++ e.synonyms;
        offsets = s.offsets ++ u32 (length s.synonym_ids) ∷ [];
        lengths = s.lengths ++ u32 (length e.synonyms) ∷ [];
        terms = s.terms ++ e.term ∷ [];
      })
      entries
    ∙ rw (
      length-append s.synonym_ids e.synonyms,
      append_assoc s.synonym_ids e.synonyms (all_synonyms entries),
      append_assoc s.offsets (u32 (length s.synonym_ids) ∷ [])
          (offsets_from (length s.synonym_ids + length e.synonyms) entries),
      append_assoc s.lengths (u32 (length e.synonyms) ∷ []) (lengths_of entries),
      append_assoc s.terms (e.term ∷ []) (terms_of entries),
    )

-- The slice expression on the part in the middle.
slice_middle :
    (before part after : List ℕ) (lo n : ℕ)
    → lo ≡ length before
    → n ≡ length part
    → lo + n < u32_mod
    → slice_range (before ++ (part ++ after)) lo (u32 (lo + n)) ≡ slice part
unfolding slice_range
slice_middle before part after lo n at_lo count fit =
    let whole : u32 (lo + n) ≡ lo + n = mod-eq_of_lt fit in
    let width : lo + n - lo ≡ n = omega arith in
    rw
      (
        whole,
        width,
        drop_front lo before (part ++ after) (sym at_lo),
        take_front n part after (sym count),
      )
      (ground (arith, length-append before (part ++ after), length-append part after))

find_term-first_synonyms :
    (before : List ℕ) (term : ℕ) (entries : List SynonymEntry)
    → length before + length (all_synonyms entries) < u32_mod
    → find_term
        (before ++ all_synonyms entries)
        term
        (terms_of entries)
        (offsets_from (length before) entries)
        (lengths_of entries)
      ≡ slice (first_synonyms term entries)
unfolding find_term
find_term-first_synonyms before term [] fit = refl
find_term-first_synonyms before term (e ∷ entries) fit =
    let sizes = length-append e.synonyms (all_synonyms entries) in
    let base : u32 (length before) ≡ length before = mod-eq_of_lt (omega arith) in
    let count : u32 (length e.synonyms) ≡ length e.synonyms = mod-eq_of_lt (omega (arith, sizes)) in
    let rest =
      find_term-first_synonyms (before ++ e.synonyms) term entries
        (omega (arith, sizes, length-append before e.synonyms)) in
    elim (Bool-cases (e.term == term)) [
      | inl found ↦
          rw (found, base, count)
            (slice_middle before e.synonyms (all_synonyms entries) (length before)
              (length e.synonyms) refl refl (omega (arith, sizes)))
      | inr other ↦ rw other (
          rw
            (append_assoc before e.synonyms (all_synonyms entries), length-append before e.synonyms)
            at rest)
    ]

-- While all synonyms together are fewer than 2 ^ 32, a lookup does not panic and gives the synonyms
-- of the first entry with the term, and the empty slice where no entry has it.
pub synonyms-first_synonyms :
    (entries : List SynonymEntry) (term : ℕ)
    → length (all_synonyms entries) < u32_mod
    → synonyms (some (new_synonym_storage entries)) term ≡ slice (first_synonyms term entries)
unfolding synonyms new_synonym_storage
synonyms-first_synonyms entries term fit =
    rw
      (store_entries-flat (record { synonym_ids = []; offsets = []; lengths = []; terms = [] })
        entries)
      (find_term-first_synonyms [] term entries (omega arith))
