-- ===== src/Cluster/Coordinator/Dialling.antt =====
-- `Dial` cuts the words among the nodes, and a cluster counts what one machine would.
use setrixdb.Base.{
  length, get_or, Below, IsUnique, u64_mod, str_eq, ℕ, ◌+◌, ◌*◌, ◌/◌, ◌^◌, ◌≤◌, ◌<◌, ◌≡◌, refl, ap,
  ◌∙◌, subst, true, false, Option, none, some, List, [], ◌∷◌, arith,
}
use native.Mathlib.Nat.{
  le-div_iff_mul-le, div-mul-le_self, mul-le-mul_right, mul-div_cancel_left, add-mul, div-eq_of_lt,
}
use setrixdb.Cluster.{Sets, max_msg, and_count}
use setrixdb.Cluster.Coordinator.{Nodes, Link, dial, dial_from, load_set, intersect_stored}
use setrixdb.Cluster.Coordinator.Loading.{nodes_of, AreUp, Holds, AllFit, load_set-Loaded}
use setrixdb.Cluster.Coordinator.Intersect.{Covers, intersect_stored-and_count}

pub div_mono : (x y k : ℕ) → 0 < k → x ≤ y → x / k ≤ y / k
div_mono x y k some_nodes h = (le-div_iff_mul-le some_nodes).1 (omega (arith, div-mul-le_self x k))

-- The node of each address can be reached.
abbrev pub AllReached : Nodes → List ℕ → Type 0
AllReached nodes [] = Unit
AllReached nodes (a ∷ addrs) =
    ((sets : Sets) × (get_or nodes a none ≡ some sets)) × AllReached nodes addrs

record Dialled (nodes : Nodes) (lo words : ℕ) (addrs : List ℕ) (links : List Link) : Type 0 where
  covers : Covers lo words links
  same_nodes : nodes_of links ≡ addrs
  up : AreUp nodes links

dial_from-Dialled :
    (nodes : Nodes) (count words i : ℕ) (addrs : List ℕ)
    → 0 < count
    → i + length addrs ≡ count
    → AllReached nodes addrs
    → (links : List Link) × (dial_from nodes count words i addrs ≡ some links)
      × Dialled nodes (i * words / count) words addrs links
unfolding dial_from
dial_from-Dialled nodes count words i [] some_nodes size reached =
    let last : i ≡ count = omega arith in
    (
      [],
      refl,
      record {
        covers = rw last (mul-div_cancel_left words some_nodes);
        same_nodes = refl;
        up = tt;
      },
    )
dial_from-Dialled nodes count words i (a ∷ addrs) some_nodes size ((sets, there), reached) =
    let (links, run, rest) =
      dial_from-Dialled nodes count words (i + 1) addrs some_nodes (omega arith) reached in
    let here : Link = record { node = a; lo = i * words / count; hi = (i + 1) * words / count } in
    let Rest : Option (List Link) → Option (List Link) =
      λ o. elim o [ none ↦ none | some more ↦ some (here ∷ more) ] in
    let Reached : Option Sets → Option (List Link) =
      λ o. elim o [ none ↦ none | some s ↦ Rest (dial_from nodes count words (i + 1) addrs) ] in
    let last : count * words / count ≡ words = mul-div_cancel_left words some_nodes in
    let within : (i + 1) * words / count ≤ count * words / count =
      div_mono ((i + 1) * words) (count * words) count some_nodes
        (mul-le-mul_right words (omega arith)) in
    (
      here ∷ links,
      ap Reached there ∙ ap Rest run,
      record {
        covers = (
          refl,
          div_mono (i * words) ((i + 1) * words) count some_nodes
              (omega (arith, add-mul i 1 words)),
          omega (arith, last, within),
          rest.covers,
        );
        same_nodes = ap (◌∷◌ a) rest.same_nodes;
        up = ((sets, there), rest.up);
      },
    )

-- Every node is reached, and the parts make up all the words.
dial-Dialled :
    (nodes : Nodes) (addrs : List ℕ) (words : ℕ)
    → 0 < length addrs
    → AllReached nodes addrs
    → (links : List Link) × (dial nodes addrs words ≡ some links)
      × Dialled nodes 0 words addrs links
unfolding dial
dial-Dialled nodes addrs words some_nodes reached =
    let zero_lo : 0 * words / length addrs ≡ 0 =
      ap (λ (n : ℕ). n / length addrs) {x = 0 * words} {y = 0} (omega arith)
      ∙ div-eq_of_lt some_nodes in
    let (links, run, dialled) =
      dial_from-Dialled nodes (length addrs) words 0 addrs some_nodes (omega arith) reached in
    (links, run, subst (λ (lo : ℕ). Dialled nodes lo words addrs links) zero_lo dialled)

AllFit-Covers :
    (lo words room : ℕ) (links : List Link)
    → room + 8 * words ≤ max_msg
    → Covers lo words links
    → AllFit words room links
AllFit-Covers lo words room [] h covers = tt
AllFit-Covers lo words room (l ∷ links) h (first, up, within, rest) =
    ((within, omega arith), AllFit-Covers l.hi words room links h rest)

AreUp-Holds :
    (nodes : Nodes) (links : List Link) (name global : List ℕ)
    → Holds nodes links name global
    → AreUp nodes links
AreUp-Holds nodes [] name global h = tt
AreUp-Holds nodes (l ∷ links) name global ((sets, there, own), rest) =
    ((sets, there), AreUp-Holds nodes links name global rest)

-- One or more different nodes that can be reached are dialled, and two sets of as many words, whose messages fit
-- and whose names are different and shorter than 2 ^ 16 bytes, are loaded: then `IntersectStored` of
-- the names is the count of the words that both have, as one node with the whole sets counts it.
pub dial-intersect_stored :
    (nodes : Nodes) (addrs : List ℕ) (a b x y : List ℕ)
    → 0 < length addrs
    → IsUnique addrs
    → AllReached nodes addrs
    → length a < 2 ^ 16
    → length b < 2 ^ 16
    → str_eq b a ≡ false
    → length x ≡ length y
    → Below u64_mod x
    → Below u64_mod y
    → 3 + 2 ^ 16 + 8 * length x ≤ max_msg
    → (links : List Link) × (first : Nodes) × (second : Nodes) × (dial nodes addrs (length x)
        ≡ some links)
      × (load_set nodes links a x ≡ (first, true))
      × (load_set first links b y ≡ (second, true))
      × (intersect_stored second links a b ≡ (second, some (and_count x y)))
dial-intersect_stored nodes addrs a b x y some_nodes once reached short short' apart same words
      words' fit =
    let (links, run, dialled) = dial-Dialled nodes addrs (length x) some_nodes reached in
    let covers' : Covers 0 (length y) links =
      subst (λ (n : ℕ). Covers 0 n links) same dialled.covers in
    let different : IsUnique (nodes_of links) = rw dialled.same_nodes once in
    let (first, load, loaded) =
      load_set-Loaded nodes links a x short words different dialled.up
        (AllFit-Covers 0 (length x) (3 + length a) links (omega arith) dialled.covers) in
    let (second, load', loaded') =
      load_set-Loaded first links b y short' words' different
        (AreUp-Holds first links a x loaded.holds)
        (AllFit-Covers 0 (length y) (3 + length b) links (omega arith) covers') in
    (
      links,
      first,
      second,
      run,
      load,
      load',
      intersect_stored-and_count second links a b x y short short' same dialled.covers
          (loaded'.others a x apart loaded.holds) loaded'.holds,
    )
