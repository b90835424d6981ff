-- ===== src/Mphf/Build/Perfect.antt =====
-- The constructed hash gives every key an ID of its own below the number of keys.
use setrixdb.Base.{
  ◌==◌, if◌then◌else◌, trichotomy, Bool-cases, none_ne_some, some_inj, length, get_or, replicate,
  get_or-replicate, length-replicate, length-map, get_or-map, bit-of_zero, elem, Below, IsUnique,
  u32_mod, u64, u32, ℕ, ◌+◌, ◌*◌, ◌/◌, ◌%◌, ◌≤◌, ◌<◌, ◌≡◌, refl, sym, ap, ◌∙◌, inl, inr, true,
  false, none, some, List, [], ◌∷◌, map, arith,
}
use setrixdb.Std.Bits.{count_below, count_below_strict, count_below_none}
use setrixdb.Addb.Bitset.Laws.{has_id}
use setrixdb.Mphf.{Chd, hash_mod, h1, h2, gval, bit_set, rank, lookup}
use setrixdb.Mphf.Build.{Groups, Grouped, slot, bucket_size, group_keys, attempt_with, finish}
use setrixdb.Mphf.Build.Pack.{read_bits-pack_g}
use setrixdb.Mphf.Build.Rank.{rank-count_below}
use setrixdb.Mphf.Build.Buckets.{lt_count, lt_count-suc, get_or-lt}
use setrixdb.Mphf.Build.Buckets.Filling.{IsGrouped, group_keys-IsGrouped}
use setrixdb.Mphf.Build.Buckets.Order.{total_occ, total_occ-le}
use setrixdb.Mphf.Build.Place.{bit_set-has_id}
use setrixdb.Mphf.Build.Place.Order.{InBucket, IsPlaced, place_all-IsPlaced, total_size}

-- The number of keys is kept, every key has an ID, every ID is below the number of keys, and no two keys have the same.
pub record IsPerfect (c : Chd) (keys : List ℕ) : Type 0 where
  pub found : (i : ℕ) → i < length keys → (id : ℕ) × (lookup c (get_or keys i 0) ≡ some id)
  pub bounded : (k id : ℕ) → lookup c k ≡ some id → id < length keys
  pub apart :
      (i j : ℕ)
      → i < length keys
      → j < length keys
      → lookup c (get_or keys i 0) ≡ lookup c (get_or keys j 0)
      → i ≡ j
  pub counted : c.n ≡ length keys

hash_mod-lt : (seed size k : ℕ) → 0 < size → hash_mod seed size k < size
unfolding hash_mod
hash_mod-lt seed size k h = omega arith

pub hashes-Below :
    (seed size : ℕ) (keys : List ℕ) → 0 < size → Below size (map (hash_mod seed size) keys)
hashes-Below seed size [] h = tt
hashes-Below seed size (k ∷ keys) h = (hash_mod-lt seed size k h, hashes-Below seed size keys h)

lookup_at :
    (c : Chd) (k pos : ℕ)
    → u64 (h2 c k + gval c (h1 c k)) % c.m ≡ pos
    → 0 < c.m
    → lookup c k ≡ (if bit_set c.words pos then some (rank c (u32 pos)) else none)
unfolding lookup
lookup_at c k pos e h =
    let some_slots : (c.m == 0) ≡ false = ground arith in
    rw some_slots (elim (Bool-cases (bit_set c.words pos)) [
      | inl full ↦ rw (e, full) refl
      | inr free ↦ rw (e, free) refl
    ])

has_id-zeros : (n q : ℕ) → has_id (replicate n 0) q ≡ false
unfolding has_id
has_id-zeros n q = rw (get_or-replicate {A = ℕ} n (q / 64) 0, bit-of_zero (q % 64))

-- An attempt that succeeds, with the buckets in an order that has each one with keys once.
module _ (keys : List ℕ) (m nb seed seed2 : ℕ) (order words displacements : List ℕ)
    (few : length keys < u32_mod) (some_buckets : 0 < nb) (some_slots : 0 < m)
    (narrow : m + 64 < u32_mod) (once : IsUnique order) (inside : Below nb order)
    (all : (j : ℕ)
      → j < nb
      → lt_count j (map (hash_mod seed nb) keys) < lt_count (j + 1) (map (hash_mod seed nb) keys)
      → elem j order ≡ true)
    (run : attempt_with m nb (group_keys nb (map (hash_mod seed nb) keys)) order keys seed2
      ≡ some (words, displacements)) where
  abbrev hs : List ℕ
  hs = map (hash_mod seed nb) keys

  abbrev grouped : Grouped
  grouped = group_keys nb hs

  abbrev groups : Groups
  groups = record {
    slots = m;
    key_at = grouped.key_at;
    starts = grouped.starts;
    ends = grouped.ends;
    h2_vals = map (hash_mod seed2 m) keys;
  }

  abbrev capacity : ℕ
  capacity = 64 * ((m + 63) / 64)

  abbrev chd : Chd
  chd = finish (length keys) m nb seed seed2 words displacements

  abbrev place : ℕ → ℕ
  place k = u64 (hash_mod seed2 m k + get_or displacements (hash_mod seed nb k) 0) % m

  filled :
      IsGrouped hs nb
        (hashes-Below seed nb keys some_buckets)
        (rw (length-map (hash_mod seed nb) keys) few)
        grouped
  filled =
      group_keys-IsGrouped hs nb (hashes-Below seed nb keys some_buckets)
        (rw (length-map (hash_mod seed nb) keys) few)

  placed :
      IsPlaced capacity groups order
        (replicate ((m + 63) / 64) 0)
        (replicate nb 0)
        words
        displacements
  unfolding attempt_with
  placed =
      place_all-IsPlaced capacity groups some_slots order (replicate ((m + 63) / 64) 0)
        (replicate nb 0) words displacements
        (rw (length-replicate {A = ℕ} ((m + 63) / 64) 0) (omega arith)) once
        (rw (length-replicate {A = ℕ} nb 0) inside)
        (λ i. rw (get_or-replicate {A = ℕ} nb i 0) (omega arith)) run

  words_size : length words ≡ (m + 63) / 64
  words_size = placed.words_size ∙ length-replicate {A = ℕ} ((m + 63) / 64) 0

  position : (k : ℕ) → u64 (h2 chd k + gval chd (h1 chd k)) % m ≡ place k
  unfolding finish h1 h2 gval
  position k =
      let j = hash_mod seed nb k in
      ap (λ (d : ℕ). u64 (hash_mod seed2 m k + d) % m)
        (read_bits-pack_g nb displacements j placed.small (hash_mod-lt seed nb k some_buckets))

  slots_fit : (k : ℕ) → place k < capacity
  slots_fit k = omega arith

  rank_lem : (k : ℕ) → rank chd (u32 (place k)) ≡ count_below (place k) (has_id words)
  unfolding finish
  rank_lem k =
      let fits = slots_fit k in
      let same : u32 (place k) ≡ place k = omega arith in
      rw same (
        rank-count_below words (omega (arith, words_size)) chd (place k) refl refl
          (omega (arith, words_size)))

  lookup_lem :
      (k : ℕ)
      → lookup chd k
        ≡ (if has_id words (place k) then some (count_below (place k) (has_id words)) else none)
  unfolding finish
  lookup_lem k =
      lookup_at chd k (place k) (position k) some_slots
      ∙ rw (rank_lem k, bit_set-has_id words (place k)) refl

  -- Where the key of an index stands.
  stand :
      (i : ℕ)
      → i < length keys
      → (a : ℕ) × InBucket groups (get_or hs i 0) a
        × (get_or grouped.key_at a 0 ≡ i)
        × (elem (get_or hs i 0) order ≡ true)
        × (place (get_or keys i 0) ≡ slot groups (get_or displacements (get_or hs i 0) 0) a)
  unfolding slot
  stand i h =
      let below = hashes-Below seed nb keys some_buckets in
      let size = length-map (hash_mod seed nb) keys in
      let j = get_or hs i 0 in
      let j_inside : j < nb = get_or-lt nb hs i below (omega (arith, size)) in
      let (a, low, high, at) = filled.stands i (omega (arith, size)) in
      let hash : hash_mod seed nb (get_or keys i 0) ≡ j =
        sym (get_or-map (hash_mod seed nb) keys i 0 0 h) in
      let hash2 = get_or-map (hash_mod seed2 m) keys i 0 0 h in
      (
        a,
        (omega (arith, filled.begins j j_inside), omega (arith, filled.ends_at j j_inside)),
        at,
        all j j_inside (omega arith),
        rw (at, hash2, hash) refl,
      )

  total_size-total_occ : (js : List ℕ) → Below nb js → total_size groups js ≡ total_occ hs js
  unfolding bucket_size
  total_size-total_occ [] b = refl
  total_size-total_occ (j ∷ js) b = omega (
    arith,
    filled.begins j b.0,
    filled.ends_at j b.0,
    lt_count-suc j hs,
    total_size-total_occ js b.1,
  )

  occupied_le : count_below capacity (has_id words) ≤ length keys
  occupied_le =
      let empty : count_below capacity (has_id (replicate ((m + 63) / 64) 0)) ≡ 0 =
        count_below_none capacity (has_id (replicate ((m + 63) / 64) 0))
          (λ q. has_id-zeros ((m + 63) / 64) q) in
      omega (
        arith,
        empty,
        placed.count,
        total_size-total_occ order inside,
        total_occ-le hs order once,
        length-map (hash_mod seed nb) keys,
      )

  occupied : (i : ℕ) → i < length keys → has_id words (place (get_or keys i 0)) ≡ true
  occupied i h =
      let (a, bucket, at, listed, same) = stand i h in
      rw same (placed.taken (get_or hs i 0) a listed bucket)

  pub finish-IsPerfect : IsPerfect chd keys
  unfolding finish
  finish-IsPerfect = record {
    counted = omega arith;
    found = λ i h. (
      count_below (place (get_or keys i 0)) (has_id words),
      lookup_lem (get_or keys i 0) ∙ rw (occupied i h) refl,
    );
    bounded = λ k id e.
        let same = lookup_lem k in
        elim (Bool-cases (has_id words (place k))) [
          | inl full ↦
              let own : count_below (place k) (has_id words) ≡ id =
                some_inj _ id (sym (same ∙ rw full refl) ∙ e) in
              let less = count_below_strict (place k) capacity (has_id words) (slots_fit k) full in
              omega (arith, own, less, occupied_le)
          | inr free ↦ absurd (none_ne_some id (sym (same ∙ rw free refl) ∙ e))
        ];
    apart = λ i j h h' e.
        let (a, bucket, at, listed, same) = stand i h in
        let (b, bucket', at', listed', same') = stand j h' in
        let k = get_or keys i 0 in
        let k' = get_or keys j 0 in
        let ids : count_below (place k) (has_id words) ≡ count_below (place k') (has_id words) =
          some_inj _ _ (
            sym (lookup_lem k ∙ rw (occupied i h) refl)
            ∙ e
            ∙ lookup_lem k'
            ∙ rw (occupied j h') refl) in
        let slots : place k ≡ place k' = elim (trichotomy (place k) (place k')) [
          | inl less ↦
              ground
                (arith, count_below_strict (place k) (place k') (has_id words) less (occupied i h))
          | inr (inl equal) ↦ equal
          | inr (inr more) ↦
              ground
                (arith, count_below_strict (place k') (place k) (has_id words) more (occupied j h'))
        ] in
        let keys_at : a ≡ b =
          placed.apart (get_or hs i 0) (get_or hs j 0) a b listed listed' bucket bucket'
            (sym same ∙ slots ∙ same') in
        sym at ∙ ap (λ (t : ℕ). get_or grouped.key_at t 0) keys_at ∙ at';
  }
