-- ===== src/Cluster/Coordinator/Loading.antt =====
-- `LoadSet`: every node holds its part of the set afterwards.
use setrixdb.Base.{
  ltb, ◌==◌, if◌then◌else◌, ltb→lt, ==_refl, Bool-cases, none_ne_some, some_inj, length, get_or,
  set, take, drop, replicate, length-append, get_or-set_self, get_or-set_ne, get_or_out,
  length-take, elem, Below, take-Below, drop-Below, IsUnique, u64_mod, str_eq, find_str,
  str_eq_refl, ℕ, ◌+◌, ◌-◌, ◌*◌, ◌%◌, ◌^◌, ◌≤◌, ◌<◌, ◌≡◌, refl, sym, ap, ◌∙◌, ◌≢◌, inl, inr, Bool,
  true, false, Option, none, some, List, [], ◌∷◌, ◌++◌, map, arith,
}
use setrixdb.Cluster.{Sets, write_msg, read_msg, bytes_view, write_name, words_of, max_msg}
use setrixdb.Cluster.Wire.{read_msg-write_msg, length-bytes_view}
use setrixdb.Std.Endian.{put_le, length-put_le}
use setrixdb.Cluster.Coordinator.{Nodes, Link, slice, exchange, load_payload, load_set}
use setrixdb.Cluster.Coordinator.Answers.{append-nil, act-load_payload, exchange_lem}

-- The words of a link.
abbrev pub part : List ℕ → Link → List ℕ
part global l = take (l.hi - l.lo) (drop l.lo global)

abbrev pub nodes_of : List Link → List ℕ
nodes_of links = map (λ (l : Link). l.node) links

-- The node of each link can be reached.
abbrev pub AreUp : Nodes → List Link → Type 0
AreUp nodes [] = Unit
AreUp nodes (l ∷ links) =
    ((sets : Sets) × (get_or nodes l.node none ≡ some sets)) × AreUp nodes links

-- The node of each link holds its part of the set under the name.
abbrev pub Holds : Nodes → List Link → List ℕ → List ℕ → Type 0
Holds nodes [] name global = Unit
Holds nodes (l ∷ links) name global =
    ((sets : Sets) × (get_or nodes l.node none ≡ some sets) × (words_of sets name ≡ part global l))
    × Holds nodes links name global

-- The part of each link ends within so many words, and its message is one that the reader takes.
abbrev pub AllFit : ℕ → ℕ → List Link → Type 0
AllFit size room [] = Unit
AllFit size room (l ∷ links) =
    ((l.hi ≤ size) × (room + 8 * (l.hi - l.lo) ≤ max_msg)) × AllFit size room links

pub length-part : (global : List ℕ) (l : Link) → length (part global l) ≤ l.hi - l.lo
length-part global l = omega (arith, length-take (l.hi - l.lo) (drop l.lo global))

pub part-Below : (n : ℕ) (global : List ℕ) (l : Link) → Below n global → Below n (part global l)
part-Below n global l h = take-Below (l.hi - l.lo) n (drop l.lo global) (drop-Below l.lo n global h)

pub in_range :
    (nodes : Nodes) (a : ℕ) (sets : Sets) → get_or nodes a none ≡ some sets → a < length nodes
in_range nodes a sets h = elim (Bool-cases (ltb a (length nodes))) [
  | inl e ↦ ltb→lt a (length nodes) e
  | inr e ↦ absurd (none_ne_some sets (sym (get_or_out nodes a none (ground arith)) ∙ h))
]

AreUp-set :
    (nodes : Nodes) (a : ℕ) (sets : Sets) (links : List Link)
    → a < length nodes
    → AreUp nodes links
    → AreUp (set nodes a (some sets)) links
AreUp-set nodes a sets [] h up = tt
AreUp-set nodes a sets (l ∷ links) h up = (
  elim (Bool-cases (a == l.node)) [
    | inl e ↦
        let same : a ≡ l.node = ground arith in
        (sets, rw (← same) (get_or-set_self nodes a (some sets) none h))
    | inr e ↦
        let ne : a ≢ l.node = ground (arith, ==_refl a) in
        (up.0.0, get_or-set_ne nodes a l.node (some sets) none ne ∙ up.0.1)
  ],
  AreUp-set nodes a sets links h up.1,
)

-- Nodes that agree at the links hold the same.
Holds-same :
    (nodes after : Nodes) (links : List Link) (name global : List ℕ)
    → ((a : ℕ) → elem a (nodes_of links) ≡ true → get_or after a none ≡ get_or nodes a none)
    → Holds nodes links name global
    → Holds after links name global
Holds-same nodes after [] name global same h = tt
Holds-same nodes after (l ∷ links) name global same h =
    let (sets, there, own) = h.0 in
    (
      (sets, same l.node (ground (arith, ==_refl l.node)) ∙ there, own),
      Holds-same nodes after links name global (λ a e. same a (ground arith)) h.1,
    )

-- What a load leaves.
pub record Loaded (nodes : Nodes) (links : List Link) (name global : List ℕ) (after : Nodes)
    : Type 0 where
  pub kept : (a : ℕ) → elem a (nodes_of links) ≡ false → get_or after a none ≡ get_or nodes a none
  pub holds : Holds after links name global
  pub others :
      (other words : List ℕ)
      → str_eq name other ≡ false
      → Holds nodes links other words
      → Holds after links other words

-- The set under the first name of the writes, and under another.
abbrev pub words_if : Bool → List ℕ → Sets → List ℕ → List ℕ
words_if own words sets name = elim (if own then some words else find_str name sets) [
  | none ↦ []
  | some found ↦ found
]

pub words_of-own :
    (name words : List ℕ) (sets : Sets) → words_of ((name, words) ∷ sets) name ≡ words
unfolding words_of
words_of-own name words sets = ap (λ (own : Bool). words_if own words sets name) (str_eq_refl name)

pub words_of-other :
    (name words other : List ℕ) (sets : Sets)
    → str_eq name other ≡ false
    → words_of ((name, words) ∷ sets) other ≡ words_of sets other
unfolding words_of
words_of-other name words other sets h = ap (λ (own : Bool). words_if own words sets other) h

-- The first link, before the rest.
Loaded-cons :
    (nodes : Nodes) (l : Link) (links : List Link) (name global : List ℕ) (sets : Sets)
    (after : Nodes)
    → get_or nodes l.node none ≡ some sets
    → elem l.node (nodes_of links) ≡ false
    → Loaded (set nodes l.node (some ((name, part global l) ∷ sets))) links name global after
    → Loaded nodes (l ∷ links) name global after
Loaded-cons nodes l links name global sets after there new f =
    let stored : Option Sets = some ((name, part global l) ∷ sets) in
    let own : get_or after l.node none ≡ stored =
      f.kept l.node new
      ∙ get_or-set_self nodes l.node stored none (in_range nodes l.node sets there) in
    record {
      kept = λ a e.
          f.kept a (ground arith)
          ∙ get_or-set_ne nodes l.node a stored none (ground (arith, ==_refl l.node));
      holds =
          (((name, part global l) ∷ sets, own, words_of-own name (part global l) sets), f.holds);
      others = λ other words ne h.
          let (before, at, held) = h.0 in
          let same : sets ≡ before = some_inj sets before (sym there ∙ at) in
          (
            (
              (name, part global l) ∷ sets,
              own,
              words_of-other name (part global l) other sets ne ∙ rw same held,
            ),
            f.others other words ne (
                Holds-same nodes (set nodes l.node stored) links other words
                  (λ a e. get_or-set_ne nodes l.node a stored none (λ q.
                    let listed : elem l.node (nodes_of links) ≡ true = rw q e in ground arith))
                  h.1),
          );
    }

pub length-load_payload :
    (name words : List ℕ) → length (load_payload name words) ≡ 3 + length name + 8 * length words
unfolding load_payload write_name
length-load_payload name words =
    let size = put_le 2 (length name % 2 ^ 16) in
    omega (
      arith,
      length-append (size ++ name) (bytes_view words),
      length-append size name,
      length-put_le 2 (length name % 2 ^ 16),
      length-bytes_view words,
    )

pub slice-part :
    (global : List ℕ) (l : Link) → l.hi ≤ length global → slice global l ≡ some (part global l)
unfolding slice
slice-part global l h =
    let inside : ltb (length global) l.hi ≡ false = ground arith in rw inside refl

load_step :
    (nodes next : Nodes) (l : Link) (links : List Link) (name global : List ℕ) (after : Nodes)
    → slice global l ≡ some (part global l)
    → exchange nodes l.node (load_payload name (part global l))
      ≡ some (next, write_msg (replicate 8 0))
    → read_msg (write_msg (replicate 8 0)) ≡ some (replicate 8 0, [])
    → load_set next links name global ≡ (after, true)
    → load_set nodes (l ∷ links) name global ≡ (after, true)
unfolding load_set
load_step nodes next l links name global after cut sent ack run =
    let Acked : Nodes → Option (List ℕ × List ℕ) → Nodes × Bool =
      λ now o. elim o [ none ↦ (now, false) | some answer ↦ load_set now links name global ] in
    let Sent : Option (Nodes × List ℕ) → Nodes × Bool =
      λ o. elim o [ none ↦ (nodes, false) | some (now, bytes) ↦ Acked now (read_msg bytes) ] in
    let Cut : Option (List ℕ) → Nodes × Bool = λ o. elim o [
      | none ↦ (nodes, false)
      | some words ↦ Sent (exchange nodes l.node (load_payload name words))
    ] in
    ap Cut cut ∙ ap Sent sent ∙ ap (Acked next) ack ∙ run

-- `LoadSet` through links to different nodes, all of them reached and with a part that fits a message,
-- under a name shorter than 2 ^ 16 bytes: it succeeds, every node holds its part of the set under the
-- name, and the sets that the nodes hold under other names stay.
pub load_set-Loaded :
    (nodes : Nodes) (links : List Link) (name global : List ℕ)
    → length name < 2 ^ 16
    → Below u64_mod global
    → IsUnique (nodes_of links)
    → AreUp nodes links
    → AllFit (length global) (3 + length name) links
    → (after : Nodes) × (load_set nodes links name global ≡ (after, true))
      × Loaded nodes links name global after
unfolding load_set
load_set-Loaded nodes [] name global short words once up fit =
    (nodes, refl, record { kept = λ a e. refl; holds = tt; others = λ other words ne h. h })
load_set-Loaded nodes (l ∷ links) name global short words once up fit =
    let (sets, there) = up.0 in
    let now : Sets = (name, part global l) ∷ sets in
    let next : Nodes = set nodes l.node (some now) in
    let sent =
      exchange_lem nodes l.node (load_payload name (part global l)) sets now (replicate 8 0) there
        (omega (arith, length-load_payload name (part global l), length-part global l, fit.0))
        (act-load_payload sets name (part global l) short (part-Below u64_mod global l words)) in
    let ack : read_msg (write_msg (replicate 8 0)) ≡ some (replicate 8 0, []) =
      ap read_msg (sym (append-nil (write_msg (replicate 8 0))))
      ∙ read_msg-write_msg (replicate 8 0) [] (omega arith) in
    let (after, run, loaded) =
      load_set-Loaded next links name global short words once.1
        (AreUp-set nodes l.node now links (in_range nodes l.node sets there) up.1) fit.1 in
    (
      after,
      load_step nodes next l links name global after (slice-part global l fit.0.0) sent ack run,
      Loaded-cons nodes l links name global sets after there once.0 loaded,
    )
