-- ===== src/Cluster/Serve.antt =====
-- What a node does with what it is sent.
use setrixdb.Base.{
  lt→ltb, Option-cases, length, ℕ, zero, suc, ◌≤◌, ◌<◌, ◌≡◌, refl, sym, ap, ◌∙◌, inl, inr, Option,
  none, some, List, [], ◌++◌, arith,
}
use setrixdb.Cluster.{
  Sets, Action, sends, goes_on, closes, write_msg, read_msg, act, handle, serve, max_msg,
}
use setrixdb.Cluster.Wire.{read_msg_bounds, read_msg-write_msg}

read_msg-shorter :
    (bytes msg rest : List ℕ) → read_msg bytes ≡ some (msg, rest) → length rest < length bytes
read_msg-shorter bytes msg rest h = omega (arith, (read_msg_bounds bytes msg rest h).1)

abbrev pub after_action : Action → Sets → (Sets → Sets × List ℕ) → Sets × List ℕ
after_action action sets next = elim action [
  | closes ↦ (sets, [])
  | goes_on ↦ next sets
  | sends answer now ↦ let (after, sent) = next now in (after, write_msg answer ++ sent)
]

abbrev after_msg : ℕ → Sets → Option (List ℕ × List ℕ) → Sets × List ℕ
after_msg fuel sets read = elim read [
  | none ↦ (sets, [])
  | some (msg, rest) ↦ after_action (act sets msg) sets (λ s. handle fuel s rest)
]

handle-suc :
    (fuel : ℕ) (sets : Sets) (bytes : List ℕ)
    → handle (suc fuel) sets bytes ≡ after_msg fuel sets (read_msg bytes)
unfolding handle
handle-suc fuel sets bytes = refl

after_action_ext :
    (action : Action) (sets : Sets) (f g : Sets → Sets × List ℕ)
    → ((s : Sets) → f s ≡ g s)
    → after_action action sets f ≡ after_action action sets g
after_action_ext closes sets f g h = refl
after_action_ext goes_on sets f g h = h sets
after_action_ext (sends answer now) sets f g h =
    ap (λ (r : Sets × List ℕ). (r.0, write_msg answer ++ r.1)) (h now)

read_msg-none : (bytes : List ℕ) → length bytes < 4 → read_msg bytes ≡ none
unfolding read_msg
read_msg-none bytes h = rw (lt→ltb (length bytes) 4 h) refl

handle-short :
    (fuel : ℕ) (sets : Sets) (bytes : List ℕ)
    → length bytes < 4
    → handle fuel sets bytes ≡ (sets, [])
unfolding handle
handle-short zero sets bytes h = refl
handle-short (suc fuel) sets bytes h =
    handle-suc fuel sets bytes ∙ ap (after_msg fuel sets) (read_msg-none bytes h)

-- The number of bytes is enough fuel.
handle_enough :
    (fuel more : ℕ) (sets : Sets) (bytes : List ℕ)
    → length bytes ≤ fuel
    → length bytes ≤ more
    → handle fuel sets bytes ≡ handle more sets bytes
handle_enough zero more sets bytes h h' =
    handle-short zero sets bytes (omega arith) ∙ sym (handle-short more sets bytes (omega arith))
handle_enough (suc fuel) zero sets bytes h h' =
    handle-short (suc fuel) sets bytes (omega arith)
    ∙ sym (handle-short zero sets bytes (omega arith))
handle_enough (suc fuel) (suc more) sets bytes h h' =
    handle-suc fuel sets bytes
    ∙ elim (Option-cases (read_msg bytes)) [
      | inl e ↦ ap (after_msg fuel sets) e ∙ sym (ap (after_msg more sets) e)
      | inr ((msg, rest), e) ↦
          let less = read_msg-shorter bytes msg rest e in
          ap (after_msg fuel sets) e
          ∙ after_action_ext (act sets msg) sets (λ s. handle fuel s rest) (λ s. handle more s rest)
              (λ s. handle_enough fuel more s rest (omega arith) (omega arith))
          ∙ sym (ap (after_msg more sets) e)
    ]
    ∙ sym (handle-suc more sets bytes)

-- A node takes what it is sent message by message: what it does with a message of at most 2 ^ 30 bytes
-- comes first, then what it does with the rest, unless it closes the connection.
pub serve-write_msg :
    (sets : Sets) (msg rest : List ℕ)
    → length msg ≤ max_msg
    → serve sets (write_msg msg ++ rest) ≡ after_action (act sets msg) sets (λ s. serve s rest)
unfolding serve
serve-write_msg sets msg rest h =
    let bytes = write_msg msg ++ rest in
    let read = read_msg-write_msg msg rest h in
    let less = read_msg-shorter bytes msg rest read in
    handle_enough (length bytes) (suc (length bytes)) sets bytes (omega arith) (omega arith)
    ∙ handle-suc (length bytes) sets bytes
    ∙ ap (after_msg (length bytes) sets) read
    ∙ after_action_ext (act sets msg) sets (λ s. handle (length bytes) s rest) (λ s. serve s rest)
        (λ s. handle_enough (length bytes) (length rest) s rest (omega arith) (omega arith))
