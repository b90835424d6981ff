-- ===== src/Addb/Sharded/Laws.antt =====
-- A sharded bitset is the set of the IDs whose shard has their place in it.
use native.Mathlib.Nat.{div-add-mod, mod-lt, div-mul-le_self}
use setrixdb.Base.{
  ℕ, zero, suc, ◌+◌, ◌-◌, ◌*◌, ◌/◌, ◌%◌, ◌^◌, ◌≤◌, ◌<◌, ◌≡◌, refl, sym, ◌∙◌, Bool, true, false,
  ◌||◌, ◌&&◌, some, [], length, get_or, set, replicate, ltb, ltb→lt, ◌==◌, arith, inl, inr,
  Bool-cases, ==_iff, ==_refl, u64, u64_mod, sub64, get_or-set_self, get_or-set_ne, length-set,
  length-replicate, get_or-replicate, bit-of_zero,
}
use setrixdb.Addb.Bitset.{Bitset, new_bitset}
use setrixdb.Addb.Bitset.Laws.{has_id, Fits, test-has_id, has_id-set_id, has_id-nil}
use setrixdb.Addb.Sharded.{
  ShardedBitset, new_sharded_bitset, outside, to_shard, shard_of, shard_at, place_in, set_sharded,
  has_sharded,
}

-- The shards are there, each with room for its range, and with no digit set past it.
pub record IsWellFormed (s : ShardedBitset) : Type 0 where
  pub positive : 0 < s.shard_bits
  pub is_int : s.num_shards < 2 ^ 63
  pub complete : length s.shards ≡ s.num_shards
  pub room : (i : ℕ) → i < s.num_shards → length (shard_at s i).words ≡ s.shard_bits / 64 + 1
  pub within : (i q : ℕ) → s.shard_bits ≤ q → has_id (shard_at s i).words q ≡ false

-- Membership; an ID outside the space is in no set.
abbrev pub member : ShardedBitset → ℕ → Bool
member s id =
    ltb (id / s.shard_bits) s.num_shards
    && has_id (shard_at s (id / s.shard_bits)).words (id % s.shard_bits)

module _ (s : ShardedBitset) (id : ℕ) (ok : IsWellFormed s) (word : id < u64_mod) where
  place_in-mod : place_in s (id / s.shard_bits) id ≡ id % s.shard_bits
  place_in-mod = omega (arith, div-mul-le_self id s.shard_bits, div-add-mod id s.shard_bits)

  shard_of_inside : id / s.shard_bits < s.num_shards → shard_of s id ≡ to_shard (id / s.shard_bits)
  unfolding shard_of
  shard_of_inside h = ground (arith, ok.positive, ok.is_int)

  shard_of_outside : s.num_shards ≤ id / s.shard_bits → shard_of s id ≡ outside
  unfolding shard_of
  shard_of_outside h = ground (arith, ok.positive, ok.is_int)

  room_for_place : (sh : ℕ) → sh < s.num_shards → Fits (shard_at s sh).words (id % s.shard_bits)
  room_for_place sh h = omega (arith, ok.room sh h, mod-lt id ok.positive)

-- On a 64-bit ID, `Has` answers membership exactly, and does not panic.
pub has_sharded-member :
    (s : ShardedBitset) (id : ℕ)
    → IsWellFormed s
    → id < u64_mod
    → has_sharded s id ≡ some (member s id)
unfolding has_sharded
has_sharded-member s id ok word = elim (Bool-cases (ltb (id / s.shard_bits) s.num_shards)) [
  | inl e ↦
      let inside = ltb→lt (id / s.shard_bits) s.num_shards e in
      let fits = room_for_place s id ok word (id / s.shard_bits) inside in
      rw (shard_of_inside s id ok word inside, place_in-mod s id ok word, e)
        (test-has_id (shard_at s (id / s.shard_bits)) (id % s.shard_bits) ∙ ground arith)
  | inr e ↦ rw (shard_of_outside s id ok word (ground arith), e) refl
]

-- A shard replaced by one of the same size whose digits stay in the range.
module _ (s : ShardedBitset) (sh : ℕ) (b' : Bitset) (ok : IsWellFormed s)
    (inside : sh < s.num_shards) where
  abbrev pub replaced : ShardedBitset
  replaced = record {
    num_shards = s.num_shards;
    shard_bits = s.shard_bits;
    shards = set s.shards sh b';
  }

  shard_at-same : (i : ℕ) → sh == i ≡ true → shard_at replaced i ≡ b'
  shard_at-same i e =
      let same : i ≡ sh = sym ((==_iff sh i).0 e) in
      rw same (get_or-set_self s.shards sh b' (record { words = [] }) (omega (arith, ok.complete)))

  shard_at-other : (i : ℕ) → sh == i ≡ false → shard_at replaced i ≡ shard_at s i
  shard_at-other i e = get_or-set_ne s.shards sh i b' (record { words = [] }) (ground arith)

  pub replaced-IsWellFormed :
      length b'.words ≡ length (shard_at s sh).words
      → ((q : ℕ) → s.shard_bits ≤ q → has_id b'.words q ≡ false)
      → IsWellFormed replaced
  replaced-IsWellFormed size bounded = record {
    positive = ok.positive;
    is_int = ok.is_int;
    complete = length-set s.shards sh b' ∙ ok.complete;
    room = λ i h. elim (Bool-cases (sh == i)) [
      | inl e ↦ rw (shard_at-same i e) (size ∙ ok.room sh inside)
      | inr e ↦ rw (shard_at-other i e) (ok.room i h)
    ];
    within = λ i q h. elim (Bool-cases (sh == i)) [
      | inl e ↦ rw (shard_at-same i e) (bounded q h)
      | inr e ↦ rw (shard_at-other i e) (ok.within i q h)
    ];
  }

  member-replaced :
      (p : ℕ)
      → ((q : ℕ) → has_id b'.words q ≡ (p == q || has_id (shard_at s sh).words q))
      → (j : ℕ)
      → member replaced j ≡ ((sh == j / s.shard_bits && p == j % s.shard_bits) || member s j)
  member-replaced p added j = elim (Bool-cases (sh == j / s.shard_bits)) [
    | inl e ↦
        let same : j / s.shard_bits ≡ sh = sym ((==_iff sh (j / s.shard_bits)).0 e) in
        rw (same, shard_at-same sh (==_refl sh), added (j % s.shard_bits)) (ground arith)
    | inr e ↦ rw (shard_at-other (j / s.shard_bits) e, e) refl
  ]

-- Two IDs are the same when they have the same shard and the same place in it.
same_place : (id j n : ℕ) → (id == j) ≡ (id / n == j / n && id % n == j % n)
same_place id j n = elim (Bool-cases (id == j)) [
  | inl e ↦ let same : id ≡ j = (==_iff id j).0 e in rw same (ground arith)
  | inr e ↦ elim (Bool-cases (id / n == j / n && id % n == j % n)) [
    | inl t ↦
        let q : id / n ≡ j / n = ground arith in
        let r : id % n ≡ j % n = ground arith in
        let same : id ≡ j = sym (div-add-mod id n) ∙ rw (q, r) (div-add-mod j n) in ground arith
    | inr t ↦ e ∙ sym t
  ]
]

-- Of a well-formed space, `Set` of a 64-bit ID does not panic, adds that one ID if it lies in the space,
-- and leaves the space well-formed.
pub member-set_sharded :
    (s : ShardedBitset) (id : ℕ)
    → IsWellFormed s
    → id < u64_mod
    → (s' : ShardedBitset) × (set_sharded s id ≡ some s')
      × IsWellFormed s'
      × ((j : ℕ) → member s' j ≡ ((id == j && ltb (id / s.shard_bits) s.num_shards) || member s j))
unfolding set_sharded
member-set_sharded s id ok word = elim (Bool-cases (ltb (id / s.shard_bits) s.num_shards)) [
  | inl e ↦
      let sh = id / s.shard_bits in
      let inside = ltb→lt sh s.num_shards e in
      let fits = room_for_place s id ok word sh inside in
      let (b', stored, size, added) = has_id-set_id (shard_at s sh) (id % s.shard_bits) fits in
      (
        replaced s sh b' ok inside,
        rw (shard_of_inside s id ok word inside, place_in-mod s id ok word, stored) refl,
        replaced-IsWellFormed s sh b' ok inside size
            (λ q h. added q ∙ ground (arith, ok.within sh q h, mod-lt id ok.positive)),
        λ j.
            member-replaced s sh b' ok inside (id % s.shard_bits) added j
            ∙ rw (e, same_place id j s.shard_bits) (ground arith),
      )
  | inr e ↦
      (s, rw (shard_of_outside s id ok word (ground arith)) refl, ok, λ j. rw e (ground arith))
]

get_or-replicate_inside : (n i : ℕ) (b d : Bitset) → i < n → get_or (replicate n b) i d ≡ b
get_or-replicate_inside zero i b d h = absurd (omega arith)
get_or-replicate_inside (suc n) zero b d h = refl
get_or-replicate_inside (suc n) (suc i) b d h = get_or-replicate_inside n i b d (omega arith)

pub has_id_of_zeros : (n q : ℕ) → has_id (replicate n 0) q ≡ false
unfolding has_id
has_id_of_zeros n q = rw (get_or-replicate {A = ℕ} n (q / 64) 0, bit-of_zero (q % 64))

has_id-new_shards :
    (n bits i q : ℕ)
    → has_id (get_or (replicate n (new_bitset bits)) i (record { words = [] })).words q ≡ false
unfolding new_bitset
has_id-new_shards zero bits i q = has_id-nil q
has_id-new_shards (suc n) bits zero q = has_id_of_zeros (bits / 64 + 1) q
has_id-new_shards (suc n) bits (suc i) q = has_id-new_shards n bits i q

-- What the constructor computes when nothing wraps around.
module _ (universe n : ℕ) (some_id : 0 < universe) (some_shard : 0 < n) (int : n < 2 ^ 63) where
  abbrev pub made : ShardedBitset
  made = record {
    num_shards = n;
    shard_bits = (universe + n - 1) / n;
    shards = replicate n (new_bitset ((universe + n - 1) / n));
  }

  made-covers : universe ≤ n * ((universe + n - 1) / n)
  made-covers =
      omega (arith, div-add-mod (universe + n - 1) n, mod-lt (universe + n - 1) some_shard)

  pub made-IsWellFormed : IsWellFormed made
  unfolding new_bitset
  made-IsWellFormed = record {
    positive = positive_of (made-covers);
    is_int = int;
    complete = length-replicate n (new_bitset ((universe + n - 1) / n));
    room = λ i h.
        rw
          (get_or-replicate_inside n i (new_bitset ((universe + n - 1) / n)) (record { words = [] })
            h)
          (length-replicate {A = ℕ} ((universe + n - 1) / n / 64 + 1) 0);
    within = λ i q h. has_id-new_shards n ((universe + n - 1) / n) i q;
  }
    where
      positive_of : universe ≤ n * ((universe + n - 1) / n) → 0 < (universe + n - 1) / n
      positive_of h = elim (Bool-cases ((universe + n - 1) / n == 0)) [
        | inl e ↦
            let none_left : (universe + n - 1) / n ≡ 0 = (==_iff ((universe + n - 1) / n) 0).0 e in
            absurd (omega (arith, rw none_left at h))
        | inr e ↦ ground arith
      ]

-- A space made for 64-bit IDs, with at least one shard and one ID, is well-formed and empty, and has
-- room for all the IDs below `universe`.
pub new_sharded_bitset-IsWellFormed :
    (universe num_shards : ℕ)
    → 0 < universe
    → 0 < num_shards
    → num_shards < 2 ^ 63
    → universe + num_shards ≤ u64_mod
    → (s : ShardedBitset) × (new_sharded_bitset universe num_shards ≡ some s)
      × IsWellFormed s
      × (s.num_shards ≡ num_shards)
      × (universe ≤ s.num_shards * s.shard_bits)
      × ((id : ℕ) → member s id ≡ false)
unfolding new_sharded_bitset
new_sharded_bitset-IsWellFormed universe num_shards some_id some_shard int word =
    let whole : sub64 (u64 (universe + num_shards)) 1 ≡ universe + num_shards - 1 = omega arith in
    let n = num_shards in
    (
      made universe n some_id some_shard int,
      rw whole (ground arith),
      made-IsWellFormed universe n some_id some_shard int,
      refl,
      made-covers universe n some_id some_shard int,
      λ id.
          rw
            (has_id-new_shards n ((universe + n - 1) / n) (id / ((universe + n - 1) / n))
              (id % ((universe + n - 1) / n)))
            (ground arith),
    )
