-- ===== src/Cluster.antt =====
-- internal/cluster/cluster.go: the messages between a coordinator and its nodes, and what a node does
-- with them. A connection carries a list of bytes each way; the end of the list is the end of what
-- has been sent.
pub mod Wire
pub mod Coordinator
pub mod Serve
pub mod Sharded
mod Examples
use setrixdb.Base.{
  ltb, ◌==◌, if◌then◌else◌, length, get_or, take, drop, replicate, u64, u32, find_str, ℕ, zero, suc,
  ◌+◌, ◌/◌, ◌%◌, ◌^◌, bit_and, Option, none, some, List, [], ◌∷◌, ◌++◌,
}
use setrixdb.Std.Bits.{ones_count64}
use setrixdb.Std.Endian.{put_le, get_le, put_be, get_be}

abbrev pub op_load_set : ℕ
op_load_set = 0

abbrev pub op_and_stored : ℕ
op_and_stored = 1

abbrev pub op_and_query : ℕ
op_and_query = 2

abbrev pub max_msg : ℕ
max_msg = 2 ^ 30

-- The bytes that `writeMsg` sends.
unfoldable pub write_msg : List ℕ → List ℕ
write_msg payload = put_be 4 (u32 (length payload)) ++ payload

-- The message and the bytes after it; `none` for an error.
unfoldable pub read_msg : List ℕ → Option (List ℕ × List ℕ)
read_msg bytes =
    let n = get_be 0 (take 4 bytes) in
    let rest = drop 4 bytes in
    if ltb (length bytes) 4
    then none
    else (if ltb max_msg n
        then none
        else (if ltb (length rest) n then none else some (take n rest, drop n rest)))

unfoldable pub bytes_view : List ℕ → List ℕ
bytes_view [] = []
bytes_view (w ∷ words) = put_le 8 w ++ bytes_view words

-- So many words.
words_from : ℕ → List ℕ → List ℕ
words_from zero bytes = []
words_from (suc n) bytes = get_le (take 8 bytes) ∷ words_from n (drop 8 bytes)

unfoldable pub words_view : List ℕ → List ℕ
unfolding words_from
words_view bytes = if ltb (length bytes) 8 then [] else words_from (length bytes / 8) bytes

unfoldable pub write_name : List ℕ → List ℕ → List ℕ
write_name buf name = (buf ++ put_le 2 (length name % 2 ^ 16)) ++ name

unfoldable pub read_name : List ℕ → Option (List ℕ × List ℕ)
read_name b =
    let n = get_le (take 2 b) in
    if ltb (length b) 2
    then none
    else (if ltb (length b) (2 + n) then none else some (take n (drop 2 b), drop (2 + n) b))

-- `for i := …; i < m; i++ { c += … }` at `i`, with so many rounds left.
and_loop : List ℕ → List ℕ → ℕ → ℕ → ℕ → ℕ
and_loop a b zero i c = c
and_loop a b (suc left) i c =
    and_loop a b left (i + 1) (u64 (c + ones_count64 (bit_and (get_or a i 0) (get_or b i 0))))

unfoldable pub and_count : List ℕ → List ℕ → ℕ
unfolding and_loop
and_count a b =
    let m = if ltb (length b) (length a) then length b else length a in and_loop a b m 0 0

-- `n.sets`, as the writes to it; nil for a name without a set.
abbrev pub Sets : Type 0
Sets = List (List ℕ × List ℕ)

unfoldable pub words_of : Sets → List ℕ → List ℕ
words_of sets name = elim (find_str name sets) [ none ↦ [] | some words ↦ words ]

-- What a node does with a message: it sends 8 bytes, it goes on without an answer, or it closes the
-- connection.
pub data Action : Type 0 where
  sends : List ℕ → Sets → Action
  goes_on : Action
  closes : Action

pub load : Sets → Option (List ℕ × List ℕ) → Action
load sets none = goes_on
load sets (some (name, rest)) = sends (replicate 8 0) ((name, words_view rest) ∷ sets)

pub and_second : Sets → List ℕ → Option (List ℕ × List ℕ) → Action
and_second sets a none = goes_on
and_second sets a (some (b, rest)) =
    sends (put_le 8 (and_count (words_of sets a) (words_of sets b))) sets

pub and_stored : Sets → Option (List ℕ × List ℕ) → Action
unfolding and_second
and_stored sets none = goes_on
and_stored sets (some (a, rest)) = and_second sets a (read_name rest)

pub and_query : Sets → Option (List ℕ × List ℕ) → Action
and_query sets none = goes_on
and_query sets (some (name, rest)) =
    sends (put_le 8 (and_count (words_of sets name) (words_view rest))) sets

-- The body of the loop of `handle` for a message.
unfoldable pub act : Sets → List ℕ → Action
unfolding load and_stored and_query
act sets [] = goes_on
act sets (op ∷ rest) =
    if op == op_load_set
    then load sets (read_name rest)
    else (if op == op_and_stored
        then and_stored sets (read_name rest)
        else (if op == op_and_query then and_query sets (read_name rest) else closes))

-- The loop of `handle` over what has been sent, with fuel: the sets and the bytes it sends.
pub handle : ℕ → Sets → List ℕ → Sets × List ℕ
unfolding act
handle zero sets bytes = (sets, [])
handle (suc fuel) sets bytes = elim (read_msg bytes) [
  | none ↦ (sets, [])
  | some (msg, rest) ↦ elim (act sets msg) [
    | closes ↦ (sets, [])
    | goes_on ↦ handle fuel sets rest
    | sends answer next ↦
        let (after, sent) = handle fuel next rest in (after, write_msg answer ++ sent)
  ]
]

-- Every message takes four bytes at least.
unfoldable pub serve : Sets → List ℕ → Sets × List ℕ
unfolding handle
serve sets bytes = handle (length bytes) sets bytes
