-- ===== src/Cluster/Coordinator/Intersect.antt =====
-- `IntersectStored` and `IntersectQuery` count what one count over the whole would.
use setrixdb.Base.{
  ◌==◌, some_inj, length, get_or, set, drop, length-append, length-take, length-drop, get_or-take,
  get_or-drop, bit, Below, u64_mod, u64, ℕ, zero, suc, ◌+◌, ◌-◌, ◌*◌, ◌/◌, ◌%◌, ◌^◌, ◌≤◌, ◌<◌, min,
  ◌≡◌, refl, sym, ap, ap₂, ◌∙◌, ◌&&◌, Option, none, some, List, [], ◌∷◌, ◌++◌, map, arith,
}
use setrixdb.Std.Endian.{put_le, length-put_le}
use setrixdb.Std.Bits.{count_below, count_below_ext, count_below-add}
use setrixdb.Addb.Bitset.Laws.{has_id, both}
use setrixdb.Cluster.{
  Sets, sends, read_msg, bytes_view, write_name, words_of, act, max_msg, and_count,
}
use setrixdb.Cluster.Wire.{length-bytes_view}
use setrixdb.Cluster.Coordinator.{
  Nodes, Link, stored_payload, query_payload, query_message, count_of, ask, ask_all, total, gather,
  intersect_stored, intersect_query,
}
use setrixdb.Cluster.Coordinator.Answers.{
  act-stored_payload, act-query_payload, exchange_lem, count_of-answer, and_count-count_below,
}
use setrixdb.Cluster.Coordinator.Loading.{part, Holds, AllFit, length-part, part-Below, slice-part}

-- The parts of the links follow one another from a word to the last.
abbrev pub Covers : ℕ → ℕ → List Link → Type 0
Covers lo size [] = lo ≡ size
Covers lo size (l ∷ links) = (l.lo ≡ lo) × (l.lo ≤ l.hi) × (l.hi ≤ size) × Covers l.hi size links

-- Every link's answer, with the nodes as they were.
abbrev AllAnswer : Nodes → (Link → Option (List ℕ)) → (Link → ℕ) → List Link → Type 0
AllAnswer nodes send count [] = Unit
AllAnswer nodes send count (l ∷ links) =
    (ask nodes l.node (send l) ≡ (nodes, some (count l))) × AllAnswer nodes send count links

abbrev pub sum_of : {A : Type 0} → (A → ℕ) → List A → ℕ
sum_of count [] = 0
sum_of count (l ∷ links) = count l + sum_of count links

pub total-sum_of :
    {A : Type 0} (count : A → ℕ) (sum : ℕ) (links : List A)
    → sum < u64_mod
    → total sum (map (λ (l : A). some (count l)) links) ≡ some (u64 (sum + sum_of count links))
unfolding total
total-sum_of count sum [] h = ap some (omega arith)
total-sum_of count sum (l ∷ links) h =
    total-sum_of count (u64 (sum + count l)) links (omega arith) ∙ ap some (omega arith)

ask_all-sum_of :
    (nodes : Nodes) (send : Link → Option (List ℕ)) (count : Link → ℕ) (links : List Link)
    → AllAnswer nodes send count links
    → ask_all nodes links send ≡ (nodes, map (λ (l : Link). some (count l)) links)
unfolding ask_all
ask_all-sum_of nodes send count [] h = refl
ask_all-sum_of nodes send count (l ∷ links) h =
    let rest = ask_all-sum_of nodes send count links h.1 in
    ap (λ (r : Nodes × Option ℕ). ((ask_all r.0 links send).0, r.1 ∷ (ask_all r.0 links send).1))
      h.0
    ∙ ap (λ (r : Nodes × List (Option ℕ)). (r.0, some (count l) ∷ r.1)) rest

gather-sum_of :
    (nodes : Nodes) (send : Link → Option (List ℕ)) (count : Link → ℕ) (links : List Link)
    → AllAnswer nodes send count links
    → gather nodes links send ≡ (nodes, some (u64 (sum_of count links)))
unfolding gather
gather-sum_of nodes send count links h =
    ap (λ (r : Nodes × List (Option ℕ)). (r.0, total 0 r.1))
      (ask_all-sum_of nodes send count links h)
    ∙ ap (λ (t : Option ℕ). (nodes, t))
        (total-sum_of count 0 links (omega arith) ∙ ap some (omega arith))

set_same :
    (nodes : Nodes) (a : ℕ) (sets : Sets)
    → get_or nodes a none ≡ some sets
    → set nodes a (some sets) ≡ nodes
set_same [] a sets h = refl
set_same (n ∷ nodes) zero sets h = ap (λ (m : Option Sets). m ∷ nodes) (sym h)
set_same (n ∷ nodes) (suc a) sets h = ap (◌∷◌ n) (set_same nodes a sets h)

-- A node that keeps its sets and answers with a count.
pub ask_count :
    (nodes : Nodes) (a : ℕ) (payload : List ℕ) (sets : Sets) (count : ℕ)
    → get_or nodes a none ≡ some sets
    → length payload ≤ max_msg
    → act sets payload ≡ sends (put_le 8 count) sets
    → count < u64_mod
    → ask nodes a (some payload) ≡ (nodes, some count)
unfolding ask
ask_count nodes a payload sets count there h own small =
    let Asked : Option (Nodes × List ℕ) → Nodes × Option ℕ = λ o. elim o [
      | none ↦ (nodes, none)
      | some (after, sent) ↦ (after, count_of (read_msg sent))
    ] in
    ap Asked (exchange_lem nodes a payload sets sets (put_le 8 count) there h own)
    ∙ ap₂ (λ (n : Nodes) (c : Option ℕ). (n, c)) (set_same nodes a sets there)
        (count_of-answer count small)

has_id-part :
    (global : List ℕ) (l : Link) (q : ℕ)
    → q < 64 * (l.hi - l.lo)
    → has_id (part global l) q ≡ has_id global (64 * l.lo + q)
unfolding has_id
has_id-part global l q h =
    let place : (64 * l.lo + q) / 64 ≡ l.lo + q / 64 = omega arith in
    let digit : (64 * l.lo + q) % 64 ≡ q % 64 = omega arith in
    rw (place, digit)
      (ap (λ (w : ℕ). bit w (q % 64) == 1)
        (get_or-take (l.hi - l.lo) (drop l.lo global) (q / 64) 0 (omega arith)
          ∙ get_or-drop l.lo global (q / 64) 0))

-- The count of a link is that of its range of IDs.
link_count :
    (a b : List ℕ) (l : Link)
    → l.hi ≤ length a
    → l.hi ≤ length b
    → and_count (part a l) (part b l)
      ≡ u64 (count_below (64 * (l.hi - l.lo)) (λ q. both a b (64 * l.lo + q)))
link_count a b l h h' =
    let n = l.hi - l.lo in
    let size : min (length (part a l)) (length (part b l)) ≡ n = omega (
      arith,
      length-take n (drop l.lo a),
      length-drop l.lo a,
      length-take n (drop l.lo b),
      length-drop l.lo b,
    ) in
    and_count-count_below (part a l) (part b l)
    ∙ ap (λ (k : ℕ). u64 (count_below (64 * k) (both (part a l) (part b l)))) size
    ∙ ap u64 (
        count_below_ext (64 * n) (both (part a l) (part b l)) (λ q. both a b (64 * l.lo + q))
          (λ q low. ap₂ ◌&&◌ (has_id-part a l q low) (has_id-part b l q low)))

sum_of-count_below :
    (a b : List ℕ) (lo : ℕ) (links : List Link)
    → length a ≡ length b
    → Covers lo (length a) links
    → u64 (count_below (64 * lo) (both a b) + sum_of (λ l. and_count (part a l) (part b l)) links)
      ≡ u64 (count_below (64 * length a) (both a b))
sum_of-count_below a b lo [] same covers =
    ap (λ (k : ℕ). u64 (count_below (64 * k) (both a b) + 0)) covers
    ∙ ap u64 {x = count_below (64 * length a) (both a b) + 0} (omega arith)
sum_of-count_below a b lo (l ∷ links) same (first, up, within, rest) =
    let here = link_count a b l within (omega arith) in
    let place : 64 * l.hi ≡ 64 * l.lo + 64 * (l.hi - l.lo) = omega arith in
    let joined : count_below (64 * l.hi) (both a b)
        ≡ count_below (64 * lo) (both a b)
          + count_below (64 * (l.hi - l.lo)) (λ q. both a b (64 * l.lo + q)) =
      rw (place, ← first) (count_below-add (64 * l.lo) (64 * (l.hi - l.lo)) (both a b)) in
    let tail = sum_of-count_below a b l.hi links same rest in omega (arith, here, joined, tail)

pub whole :
    (a b : List ℕ) (links : List Link)
    → length a ≡ length b
    → Covers 0 (length a) links
    → u64 (sum_of (λ l. and_count (part a l) (part b l)) links) ≡ and_count a b
whole a b links same covers =
    let size : min (length a) (length b) ≡ length a = omega arith in
    ap u64 {x = sum_of (λ l. and_count (part a l) (part b l)) links}
      {y = 0 + sum_of (λ l. and_count (part a l) (part b l)) links} (omega arith)
    ∙ sum_of-count_below a b 0 links same covers
    ∙ sym (and_count-count_below a b ∙ ap (λ (k : ℕ). u64 (count_below (64 * k) (both a b))) size)

pub and_count-lt : (a b : List ℕ) → and_count a b < u64_mod
and_count-lt a b = omega (arith, and_count-count_below a b)

pub length-stored_payload : (a b : List ℕ) → length (stored_payload a b) ≡ 5 + length a + length b
unfolding stored_payload write_name
length-stored_payload a b =
    let first = put_le 2 (length a % 2 ^ 16) in
    let second = put_le 2 (length b % 2 ^ 16) in
    omega (
      arith,
      length-append ((first ++ a) ++ second) b,
      length-append (first ++ a) second,
      length-append first a,
      length-put_le 2 (length a % 2 ^ 16),
      length-put_le 2 (length b % 2 ^ 16),
    )

stored_answers :
    (nodes : Nodes) (links : List Link) (a b x y : List ℕ)
    → length a < 2 ^ 16
    → length b < 2 ^ 16
    → Holds nodes links a x
    → Holds nodes links b y
    → AllAnswer nodes (λ l. some (stored_payload a b)) (λ l. and_count (part x l) (part y l)) links
stored_answers nodes [] a b x y short short' h h' = tt
stored_answers nodes (l ∷ links) a b x y short short' h h' =
    let (sets, there, own) = h.0 in
    let (sets', there', own') = h'.0 in
    let same : sets' ≡ sets = some_inj sets' sets (sym there' ∙ there) in
    let counts : and_count (words_of sets a) (words_of sets b) ≡ and_count (part x l) (part y l) =
      ap₂ and_count own (ap (λ (s : Sets). words_of s b) (sym same) ∙ own') in
    (
      ask_count nodes l.node (stored_payload a b) sets (and_count (part x l) (part y l)) there
          (omega (arith, length-stored_payload a b))
          (act-stored_payload sets a b short short'
            ∙ ap (λ (n : ℕ). sends (put_le 8 n) sets) counts)
          (and_count-lt (part x l) (part y l)),
      stored_answers nodes links a b x y short short' h.1 h'.1,
    )

-- Over nodes that hold their parts of two sets of as many words, the parts one after another making up
-- the whole, the count of `IntersectStored` is the count over the whole sets, and no node changes.
pub intersect_stored-and_count :
    (nodes : Nodes) (links : List Link) (a b x y : List ℕ)
    → length a < 2 ^ 16
    → length b < 2 ^ 16
    → length x ≡ length y
    → Covers 0 (length x) links
    → Holds nodes links a x
    → Holds nodes links b y
    → intersect_stored nodes links a b ≡ (nodes, some (and_count x y))
unfolding intersect_stored
intersect_stored-and_count nodes links a b x y short short' same covers h h' =
    gather-sum_of nodes (λ l. some (stored_payload a b)) (λ l. and_count (part x l) (part y l))
      links (stored_answers nodes links a b x y short short' h h')
    ∙ ap (λ (n : ℕ). (nodes, some n)) (whole x y links same covers)

length-query_payload :
    (name words : List ℕ) → length (query_payload name words) ≡ 3 + length name + 8 * length words
unfolding query_payload write_name
length-query_payload name words =
    let size = put_le 2 (length name % 2 ^ 16) in
    omega (
      arith,
      length-append (size ++ name) (bytes_view words),
      length-append size name,
      length-put_le 2 (length name % 2 ^ 16),
      length-bytes_view words,
    )

query_answers :
    (nodes : Nodes) (links : List Link) (name x query : List ℕ)
    → length name < 2 ^ 16
    → Below u64_mod query
    → AllFit (length query) (3 + length name) links
    → Holds nodes links name x
    → AllAnswer nodes (query_message name query) (λ l. and_count (part x l) (part query l)) links
unfolding query_message
query_answers nodes [] name x query short words fit h = tt
query_answers nodes (l ∷ links) name x query short words fit h =
    let (sets, there, own) = h.0 in
    let asked =
      ask_count nodes l.node (query_payload name (part query l)) sets
        (and_count (part x l) (part query l)) there
        (omega (arith, length-query_payload name (part query l), length-part query l, fit.0))
        (act-query_payload sets name (part query l) short (part-Below u64_mod query l words)
          ∙ ap (λ (w : List ℕ). sends (put_le 8 (and_count w (part query l))) sets) own)
        (and_count-lt (part x l) (part query l)) in
    let Sent : Option (List ℕ) → Option (List ℕ) =
      λ o. elim o [ none ↦ none | some cut ↦ some (query_payload name cut) ] in
    (
      ap (λ (o : Option (List ℕ)). ask nodes l.node (Sent o)) (slice-part query l fit.0.0) ∙ asked,
      query_answers nodes links name x query short words fit.1 h.1,
    )

-- Over nodes that hold their parts of a set, and for a query of as many words whose parts fit a
-- message, the count of `IntersectQuery` is the count over the whole, and no node changes.
pub intersect_query-and_count :
    (nodes : Nodes) (links : List Link) (name x query : List ℕ)
    → length name < 2 ^ 16
    → Below u64_mod query
    → length x ≡ length query
    → AllFit (length query) (3 + length name) links
    → Covers 0 (length x) links
    → Holds nodes links name x
    → intersect_query nodes links name query ≡ (nodes, some (and_count x query))
unfolding intersect_query
intersect_query-and_count nodes links name x query short words same fit covers h =
    gather-sum_of nodes (query_message name query) (λ l. and_count (part x l) (part query l)) links
      (query_answers nodes links name x query short words fit h)
    ∙ ap (λ (n : ℕ). (nodes, some n)) (whole x query links same covers)
