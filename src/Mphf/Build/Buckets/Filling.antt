-- ===== src/Mphf/Build/Buckets/Filling.antt =====
-- `keyAt` after its loop has every key in the range of its bucket.
use setrixdb.Base.{
  ◌==◌, ==_refl, trichotomy, Bool-cases, length, get_or, set, replicate, length-set,
  get_or-set_self, get_or-set_ne, length-replicate, Below, u32_mod, u32, ℕ, suc, ◌+◌, ◌≤◌, ◌<◌, ◌≡◌,
  sym, ap, ◌∙◌, ◌≢◌, inl, inr, List, [], ◌∷◌, arith,
}
use setrixdb.Mphf.Build.{bump, count_keys, starts_from, fill_keys, group_keys, Grouped}
use setrixdb.Mphf.Build.Buckets.{
  occ, lt_count, lt_count-suc, lt_count-le, lt_count_mono, get_or-bump, length-bump, get_or-starts,
  length-starts_from, length-count_keys, get_or-lt,
}

-- After the first `i` keys; `rest` are the buckets of the others.
module _ (hs : List ℕ) (nb : ℕ) (inside : Below nb hs) (few : length hs < u32_mod) where
  -- Where key `i` stands.
  abbrev pub StandsIn : ℕ → ℕ → List ℕ → Type 0
  StandsIn i end key_at =
      (a : ℕ) × (lt_count (get_or hs i 0) hs ≤ a) × (a < end) × (get_or key_at a 0 ≡ i)

  record FilledTo (i : ℕ) (rest ends key_at : List ℕ) : Type 0 where
    pub counted : (j : ℕ) → j < nb → get_or ends j 0 + occ j rest ≡ lt_count (j + 1) hs
    pub started : (j : ℕ) → j < nb → lt_count j hs ≤ get_or ends j 0
    pub placed : (k : ℕ) → k < i → StandsIn k (get_or ends (get_or hs k 0) 0) key_at
    pub tail : (k : ℕ) → get_or rest k 0 ≡ get_or hs (i + k) 0
    pub left : i + length rest ≡ length hs
    pub ends_size : length ends ≡ nb
    pub keys_size : length key_at ≡ length hs

  Filled-step :
      (i j : ℕ) (rest ends key_at : List ℕ)
      → FilledTo i (j ∷ rest) ends key_at
      → FilledTo (i + 1) rest (bump ends j) (set key_at (get_or ends j 0) (u32 i))
  Filled-step i j rest ends key_at f =
      let p = get_or ends j 0 in
      let own : j ≡ get_or hs i 0 =
        f.tail 0 ∙ ap (λ (k : ℕ). get_or hs k 0) {x = i + 0} {y = i} (omega arith) in
      let bucket : j < nb = rw own (get_or-lt nb hs i inside (omega (arith, f.left))) in
      let full = f.counted j bucket in
      let room : p < lt_count (j + 1) hs = ground (arith, full, ==_refl j) in
      let most = lt_count-le (j + 1) hs in
      let grown =
        λ (k : ℕ). get_or-bump ends j k (omega (arith, f.ends_size)) (omega (arith, room, most)) in
      let index : u32 i ≡ i = omega (arith, f.left) in
      record {
        counted = λ k h. ground (arith, grown k, f.counted k h);
        started = λ k h. ground (arith, grown k, f.started k h);
        placed = λ k h. elim (Bool-cases (k == i)) [
          | inl e ↦
              let same : k ≡ i = ground arith in
              rw (same, ← own, index)
                (
                  p,
                  f.started j bucket,
                  ground (arith, grown j, ==_refl j),
                  get_or-set_self key_at p i 0 (omega (arith, f.keys_size, room, most)),
                )
          | inr e ↦
              let (a, low, high, at) = f.placed k (ground arith) in
              let b = get_or hs k 0 in
              let b_inside : b < nb = get_or-lt nb hs k inside (ground (arith, f.left)) in
              let b_end = f.counted b b_inside in
              let start = f.started j bucket in
              let apart : a ≢ p = elim (trichotomy b j) [
                | inl less ↦ ground (arith, lt_count_mono (b + 1) j hs, b_end)
                | inr (inl same) ↦ let earlier : a < p = rw same at high in omega arith
                | inr (inr more) ↦ ground (arith, lt_count_mono (j + 1) b hs)
              ] in
              (
                a,
                low,
                ground (arith, grown b),
                get_or-set_ne key_at p a (u32 i) 0 (λ q. apart (sym q)) ∙ at,
              )
        ];
        tail = λ k.
            f.tail (suc k)
            ∙ ap (λ (t : ℕ). get_or hs t 0) {x = i + suc k} {y = i + 1 + k} (omega arith);
        left = omega (arith, f.left);
        ends_size = length-bump ends j ∙ f.ends_size;
        keys_size = length-set key_at p (u32 i) ∙ f.keys_size;
      }

  Filled-fill_keys :
      (rest ends key_at : List ℕ) (i : ℕ)
      → FilledTo i rest ends key_at
      → FilledTo (length hs) [] (fill_keys i rest ends key_at).0 (fill_keys i rest ends key_at).1
  unfolding fill_keys
  Filled-fill_keys [] ends key_at i f =
      let done : length hs ≡ i = omega (arith, f.left) in rw done f
  Filled-fill_keys (j ∷ rest) ends key_at i f =
      Filled-fill_keys rest (bump ends j) (set key_at (get_or ends j 0) (u32 i)) (i + 1)
        (Filled-step i j rest ends key_at f)

  abbrev begun : List ℕ
  begun = starts_from 0 (count_keys (replicate nb 0) hs)

  Filled-begun : FilledTo 0 hs begun (replicate (length hs) 0)
  Filled-begun = record {
    counted = λ j h. omega (arith, get_or-starts hs nb j few inside h, lt_count-suc j hs);
    started = λ j h. omega (arith, get_or-starts hs nb j few inside h);
    placed = λ k h. absurd (omega arith);
    tail = λ k. ap (λ (t : ℕ). get_or hs t 0) {x = k} {y = 0 + k} (omega arith);
    left = omega arith;
    ends_size =
        length-starts_from 0 (count_keys (replicate nb 0) hs)
        ∙ length-count_keys hs (replicate nb 0)
        ∙ length-replicate nb 0;
    keys_size = length-replicate (length hs) 0;
  }

  -- The groups: where each range begins and ends, and that each key stands in that of its bucket.
  pub record IsGrouped (g : Grouped) : Type 0 where
    pub begins : (j : ℕ) → j < nb → get_or g.starts j 0 ≡ lt_count j hs
    pub ends_at : (j : ℕ) → j < nb → get_or g.ends j 0 ≡ lt_count (j + 1) hs
    pub stands : (i : ℕ) → i < length hs → StandsIn i (lt_count (get_or hs i 0 + 1) hs) g.key_at
    pub starts_size : length g.starts ≡ nb
    pub ends_size : length g.ends ≡ nb

  pub group_keys-IsGrouped : IsGrouped (group_keys nb hs)
  unfolding group_keys
  group_keys-IsGrouped =
      let f = Filled-fill_keys hs begun (replicate (length hs) 0) 0 Filled-begun in
      let ends_at : (j : ℕ) → j < nb → get_or (group_keys nb hs).ends j 0 ≡ lt_count (j + 1) hs =
        λ j h. omega (arith, f.counted j h) in
      record {
        begins = λ j h. get_or-starts hs nb j few inside h;
        ends_at = ends_at;
        stands = λ i h.
            let (a, low, high, at) = f.placed i h in
            (a, low, omega (arith, ends_at (get_or hs i 0) (get_or-lt nb hs i inside h)), at);
        starts_size = Filled-begun.ends_size;
        ends_size = f.ends_size;
      }
