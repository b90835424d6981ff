-- ===== src/Cluster/Coordinator/Answers.antt =====
-- The answer of a node to each message of a coordinator.
use setrixdb.Base.{
  ltb, if◌then◌else◌, length, get_or, set, replicate, take_all, Below, u64_mod, u64, ℕ, zero, suc,
  ◌+◌, ◌*◌, ◌%◌, ◌^◌, ◌≤◌, ◌<◌, min, bit_and, ◌≡◌, refl, sym, ap, ◌∙◌, Option, none, some, List, [],
  ◌∷◌, ◌++◌, arith,
}
use setrixdb.Std.Endian.{put_le, length-put_le, get_le-put_le}
use setrixdb.Std.Bits.{count_below, ones_count64}
use setrixdb.Addb.Bitset.{count_loop}
use setrixdb.Addb.Bitset.Laws.{both, count_loop-count_below}
use setrixdb.Cluster.{
  Sets, Action, sends, write_msg, read_msg, bytes_view, write_name, read_name, words_of, and_loop,
  and_count, load, and_stored, and_second, and_query, act, serve, max_msg,
}
use setrixdb.Cluster.Wire.{
  append_assoc, read_msg-write_msg, read_name-write_name, words_view-bytes_view,
}
use setrixdb.Cluster.Serve.{serve-write_msg, after_action}
use setrixdb.Cluster.Coordinator.{
  Nodes, exchange, load_payload, stored_payload, query_payload, count_of,
}

pub append-nil : (xs : List ℕ) → xs ++ [] ≡ xs
append-nil [] = refl
append-nil (x ∷ xs) = ap (◌∷◌ x) (append-nil xs)

and_loop-count_loop :
    (a b : List ℕ) (left i c : ℕ) → and_loop a b left i c ≡ count_loop a b left i c
unfolding and_loop count_loop
and_loop-count_loop a b zero i c = refl
and_loop-count_loop a b (suc left) i c =
    and_loop-count_loop a b left (i + 1)
      (u64 (c + ones_count64 (bit_and (get_or a i 0) (get_or b i 0))))

-- The node's loop counts the IDs that both slices have.
pub and_count-count_below :
    (a b : List ℕ) → and_count a b ≡ u64 (count_below (64 * min (length a) (length b)) (both a b))
unfolding and_count
and_count-count_below a b =
    let m = if ltb (length b) (length a) then length b else length a in
    let shorter : m ≡ min (length a) (length b) = ground arith in
    and_loop-count_loop a b m 0 0
    ∙ ap (λ (n : ℕ). count_loop a b n 0 0) shorter
    ∙ count_loop-count_below a b (min (length a) (length b))

-- A node stores the words of a set under its name, and answers with 8 zero bytes.
pub act-load_payload :
    (sets : Sets) (name words : List ℕ)
    → length name < 2 ^ 16
    → Below u64_mod words
    → act sets (load_payload name words) ≡ sends (replicate 8 0) ((name, words) ∷ sets)
unfolding act load load_payload write_name
act-load_payload sets name words short fit =
    ap (load sets) (read_name-write_name name (bytes_view words) short)
    ∙ ap (λ (w : List ℕ). sends (replicate 8 0) ((name, w) ∷ sets))
        (words_view-bytes_view words fit)

pub act-stored_payload :
    (sets : Sets) (a b : List ℕ)
    → length a < 2 ^ 16
    → length b < 2 ^ 16
    → act sets (stored_payload a b)
      ≡ sends (put_le 8 (and_count (words_of sets a) (words_of sets b))) sets
unfolding act and_stored and_second stored_payload write_name
act-stored_payload sets a b short short' =
    let first = write_name [] a in
    let second = write_name [] b in
    let bytes : (first ++ put_le 2 (length b % 2 ^ 16)) ++ b ≡ first ++ second =
      append_assoc first (put_le 2 (length b % 2 ^ 16)) b in
    let last : read_name second ≡ some (b, []) =
      ap read_name (sym (append-nil second)) ∙ read_name-write_name b [] short' in
    ap (λ (w : List ℕ). and_stored sets (read_name w)) bytes
    ∙ ap (and_stored sets) (read_name-write_name a second short)
    ∙ ap (and_second sets a) last

pub act-query_payload :
    (sets : Sets) (name words : List ℕ)
    → length name < 2 ^ 16
    → Below u64_mod words
    → act sets (query_payload name words)
      ≡ sends (put_le 8 (and_count (words_of sets name) words)) sets
unfolding act and_query query_payload write_name
act-query_payload sets name words short fit =
    ap (and_query sets) (read_name-write_name name (bytes_view words) short)
    ∙ ap (λ (w : List ℕ). sends (put_le 8 (and_count (words_of sets name) w)) sets)
        (words_view-bytes_view words fit)

-- One exchange with a node that answers.
pub exchange_lem :
    (nodes : Nodes) (a : ℕ) (payload : List ℕ) (sets now : Sets) (answer : List ℕ)
    → get_or nodes a none ≡ some sets
    → length payload ≤ max_msg
    → act sets payload ≡ sends answer now
    → exchange nodes a payload ≡ some (set nodes a (some now), write_msg answer)
unfolding exchange serve
exchange_lem nodes a payload sets now answer there h own =
    let served : serve sets (write_msg payload) ≡ (now, write_msg answer) =
      ap (serve sets) (sym (append-nil (write_msg payload)))
      ∙ serve-write_msg sets payload [] h
      ∙ ap (λ (action : Action). after_action action sets (λ s. serve s [])) own
      ∙ ap (λ (w : List ℕ). (now, w)) (append-nil (write_msg answer)) in
    let found : Option Sets → Option (Nodes × List ℕ) = λ o. elim o [
      | none ↦ none
      | some s ↦
          let (after, sent) = serve s (write_msg payload) in some (set nodes a (some after), sent)
    ] in
    ap found there ∙ ap (λ (r : Sets × List ℕ). some (set nodes a (some r.0), r.1)) served

pub count_of-answer : (n : ℕ) → n < u64_mod → count_of (read_msg (write_msg (put_le 8 n))) ≡ some n
unfolding count_of
count_of-answer n h =
    let eight = length-put_le 8 n in
    let read : read_msg (write_msg (put_le 8 n)) ≡ some (put_le 8 n, []) =
      ap read_msg (sym (append-nil (write_msg (put_le 8 n))))
      ∙ read_msg-write_msg (put_le 8 n) [] (omega arith) in
    rw read (rw (eight, take_all 8 (put_le 8 n) (omega arith)) (ap some (get_le-put_le 8 n h)))
