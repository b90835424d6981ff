-- ===== src/Cluster/Examples.antt =====
-- Two nodes and sets of three words.
use setrixdb.Base.{
  length, Below, u64_mod, ℕ, ◌≤◌, ◌≡◌, ◌↔◌, refl, true, some, List, [], ◌∷◌, ◌++◌, arith,
}
use setrixdb.Cluster.{
  words_of, write_msg, write_name, read_name, max_msg, act, serve, and_count, read_msg,
}
use setrixdb.Cluster.Wire.{read_msg-write_msg_iff, read_name-write_name}
use setrixdb.Cluster.Serve.{after_action, serve-write_msg}
use setrixdb.Cluster.Coordinator.{Nodes, Link, dial, load_set, intersect_stored, intersect_query}
use setrixdb.Cluster.Coordinator.Loading.{AllFit, Holds, Loaded, load_set-Loaded}
use setrixdb.Cluster.Coordinator.Intersect.{intersect_query-and_count}
use setrixdb.Cluster.Coordinator.Dialling.{dial-intersect_stored}

-- The names "a" and "b".
abbrev a : List ℕ
a = 97 ∷ []

abbrev b : List ℕ
b = 98 ∷ []

abbrev x : List ℕ
x = 7 ∷ 0 ∷ 12 ∷ []

abbrev y : List ℕ
y = 5 ∷ 1 ∷ 4 ∷ []

x-Below : Below u64_mod x
x-Below = (omega arith, (omega arith, (omega arith, tt)))

y-Below : Below u64_mod y
y-Below = (omega arith, (omega arith, (omega arith, tt)))

abbrev nodes : Nodes
nodes = some [] ∷ some [] ∷ []

abbrev addrs : List ℕ
addrs = 0 ∷ 1 ∷ []

abbrev links : List Link
links = record { node = 0; lo = 0; hi = 1 } ∷ record { node = 1; lo = 1; hi = 3 } ∷ []

fits : AllFit 3 4 links
fits = ((omega arith, omega arith), ((omega arith, omega arith), tt))

abbrev loaded : Nodes
loaded = some ((a, 7 ∷ []) ∷ []) ∷ some ((a, 0 ∷ 12 ∷ []) ∷ []) ∷ []

loaded-Holds : Holds loaded links a x
unfolding words_of
loaded-Holds = ((((a, 7 ∷ []) ∷ []), refl, refl), ((((a, 0 ∷ 12 ∷ []) ∷ []), refl, refl), tt))

-- A message of two bytes, its bytes with one byte after it, and that byte.
abbrev two_bytes : List ℕ
two_bytes = 9 ∷ 8 ∷ []

abbrev received : List ℕ
received = 0 ∷ 0 ∷ 0 ∷ 2 ∷ 9 ∷ 8 ∷ 7 ∷ []

abbrev left : List ℕ
left = 7 ∷ []

received-Below : Below 256 received
received-Below = (
  omega arith,
  (omega arith, (omega arith, (omega arith, (omega arith, (omega arith, (omega arith, tt)))))),
)

read_msg-write_msg_iff_example :
    (read_msg received ≡ some (two_bytes, left))
    ↔ ((write_msg two_bytes ++ left ≡ received) × (length two_bytes ≤ max_msg))
read_msg-write_msg_iff_example = read_msg-write_msg_iff received two_bytes left received-Below

read_name-write_name_example : read_name (write_name [] a ++ y) ≡ some (a, y)
read_name-write_name_example = read_name-write_name a y (omega arith)

-- A message whose operation no node knows.
serve-write_msg_example :
    serve [] (write_msg (9 ∷ []) ++ y) ≡ after_action (act [] (9 ∷ [])) [] (λ s. serve s y)
serve-write_msg_example = serve-write_msg [] (9 ∷ []) y (omega arith)

load_set-Loaded_example :
    (after : Nodes) × (load_set nodes links a x ≡ (after, true)) × Loaded nodes links a x after
load_set-Loaded_example =
    load_set-Loaded nodes links a x (omega arith) x-Below (refl, (refl, tt))
      (([], refl), (([], refl), tt)) fits

intersect_query-and_count_example :
    intersect_query loaded links a y ≡ (loaded, some (and_count x y))
intersect_query-and_count_example =
    intersect_query-and_count loaded links a x y (omega arith) y-Below refl fits
      (refl, omega arith, omega arith, (refl, omega arith, omega arith, refl)) loaded-Holds

dial-intersect_stored_example :
    (links : List Link) × (first : Nodes) × (second : Nodes) × (dial nodes addrs 3 ≡ some links)
    × (load_set nodes links a x ≡ (first, true))
    × (load_set first links b y ≡ (second, true))
    × (intersect_stored second links a b ≡ (second, some (and_count x y)))
dial-intersect_stored_example =
    dial-intersect_stored nodes addrs a b x y (omega arith) (refl, (refl, tt))
      (([], refl), (([], refl), tt)) (omega arith) (omega arith) refl refl x-Below y-Below
      (omega arith)
