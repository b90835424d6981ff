-- ===== src/Examples/Bitsets.antt =====
-- internal/addb's bitsets and their extraction, at small inputs.
use setrixdb.Base.{◌≡◌, [], ◌∷◌, arith}
use setrixdb.Addb.Bitset.{Bitset}
use setrixdb.Addb.Extract.{extract_set, extract_set_generic}
use setrixdb.Addb.Extract.Agreement.{extract_set_generic-extract_set}

-- The IDs 0, 2 and 64.
abbrev two_words : Bitset
two_words = record { words = 5 ∷ 1 ∷ [] }

extract_set_generic-extract_set_example :
    extract_set_generic (5 ∷ 1 ∷ []) ≡ extract_set (5 ∷ 1 ∷ [])
extract_set_generic-extract_set_example =
    extract_set_generic-extract_set (5 ∷ 1 ∷ []) (ground arith) (omega arith)
