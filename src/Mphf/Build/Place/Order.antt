-- ===== src/Mphf/Build/Place/Order.antt =====
-- `placeAll` over the buckets in order.
use setrixdb.Base.{
  ◌==◌, ==_refl, trichotomy, Bool-cases, Option-cases, none_ne_some, length, get_or, set,
  length-set, get_or-set_self, get_or-set_ne, elem, Below, IsUnique, u32_mod, u32, ℕ, ◌+◌, ◌-◌, ◌*◌,
  ◌≤◌, ◌<◌, ◌≡◌, refl, sym, ap, ◌∙◌, subst, ◌≢◌, inl, inr, true, false, Option, none, some, List,
  [], ◌∷◌, arith,
}
use setrixdb.Std.Bits.{count_below}
use setrixdb.Addb.Bitset.Laws.{has_id}
use setrixdb.Mphf.{max_displacement}
use setrixdb.Mphf.Build.{Groups, slot, all_free, find_displacement, occupy, bucket_size, place_all}
use setrixdb.Mphf.Build.Pack.{AllLt, AllLt-set}
use setrixdb.Mphf.Build.Place.{
  all_free-AreFree, find_displacement-all_free, length-occupy, occupy_keeps, occupy_sets,
  occupy_count,
}

abbrev pub InBucket : Groups → ℕ → ℕ → Type 0
InBucket g j a = (get_or g.starts j 0 ≤ a) × (a < get_or g.ends j 0)

abbrev pub total_size : Groups → List ℕ → ℕ
total_size g [] = 0
total_size g (j ∷ order) = bucket_size g j + total_size g order

-- What a run leaves: the slots taken before it stay, and each key of a bucket of the order has a slot
-- that was free and that no other such key has.
pub record IsPlaced (n : ℕ) (g : Groups) (order words displacements words' displacements' : List ℕ)
    : Type 0 where
  pub keeps : (q : ℕ) → has_id words q ≡ true → has_id words' q ≡ true
  pub others : (j : ℕ) → elem j order ≡ false → get_or displacements' j 0 ≡ get_or displacements j 0
  pub taken :
      (j a : ℕ)
      → elem j order ≡ true
      → InBucket g j a
      → has_id words' (slot g (get_or displacements' j 0) a) ≡ true
  pub fresh :
      (j a : ℕ)
      → elem j order ≡ true
      → InBucket g j a
      → has_id words (slot g (get_or displacements' j 0) a) ≡ false
  pub apart :
      (j k a b : ℕ)
      → elem j order ≡ true
      → elem k order ≡ true
      → InBucket g j a
      → InBucket g k b
      → slot g (get_or displacements' j 0) a ≡ slot g (get_or displacements' k 0) b
      → a ≡ b
  pub words_size : length words' ≡ length words
  pub displacements_size : length displacements' ≡ length displacements
  pub small : AllLt u32_mod displacements'
  pub count : count_below n (has_id words') ≤ count_below n (has_id words) + total_size g order

module _ (n : ℕ) (g : Groups) (some_slots : 0 < g.slots) where
  -- The first bucket of the order, before the rest.
  IsPlaced-cons :
      (j : ℕ) (order words displacements words' displacements' : List ℕ) (d : ℕ)
      → g.slots ≤ 64 * length words
      → elem j order ≡ false
      → j < length displacements
      → d < max_displacement
      → all_free g words d (get_or g.starts j 0) (bucket_size g j) (get_or g.starts j 0) ≡ true
      → IsPlaced n g order
          (occupy g words d (bucket_size g j) (get_or g.starts j 0))
          (set displacements j (u32 d))
          words'
          displacements'
      → IsPlaced n g (j ∷ order) words displacements words' displacements'
  unfolding bucket_size
  IsPlaced-cons j order words displacements words' displacements' d room new inside bound free f =
      let lo = get_or g.starts j 0 in
      let count = get_or g.ends j 0 - lo in
      let next : List ℕ = occupy g words d count lo in
      let own : get_or displacements' j 0 ≡ d =
        f.others j new ∙ get_or-set_self displacements j (u32 d) 0 inside ∙ omega (arith, bound) in
      let are_free = all_free-AreFree g words d lo count lo (omega arith) free in
      let sets = λ (a : ℕ) (p : InBucket g j a).
        occupy_sets g some_slots words d count lo a room p.0 (omega (arith, p)) in
      let kept = λ (q : ℕ). occupy_keeps g some_slots words d count lo q room in
      let kept_out : (q : ℕ) → has_id next q ≡ false → has_id words q ≡ false = λ q h.
        elim (Bool-cases (has_id words q)) [ inl e ↦ ground (arith, kept q e) | inr e ↦ e ] in
      let tail : (k : ℕ) → (j == k) ≡ false → elem k (j ∷ order) ≡ true → elem k order ≡ true =
        λ k h e. ground arith in
      let one_bucket : (a b : ℕ)
          → InBucket g j a
          → InBucket g j b
          → slot g d a ≡ slot g d b
          → a ≡ b =
        λ a b p q same. elim (trichotomy a b) [
          | inl less ↦ absurd ((are_free b q.0 (omega (arith, q))).1 a p.0 less same)
          | inr (inl equal) ↦ equal
          | inr (inr more) ↦ absurd ((are_free a p.0 (omega (arith, p))).1 b q.0 more (sym same))
        ] in
      let crossed : (k a b : ℕ)
          → elem k order ≡ true
          → InBucket g j a
          → InBucket g k b
          → slot g d a ≢ slot g (get_or displacements' k 0) b =
        λ k a b e p q same.
          let clear = f.fresh k b e q in
          let full = sets a p in ground (arith, ap (has_id next) same) in
      record {
        keeps = λ q h. f.keeps q (kept q h);
        others = λ k h.
            f.others k (ground arith)
            ∙ get_or-set_ne displacements j k (u32 d) 0 (ground (arith, ==_refl j));
        taken = λ k a e p. elim (Bool-cases (j == k)) [
          | inl s ↦
              let same : j ≡ k = ground arith in
              rw (← same, own) (f.keeps (slot g d a) (sets a (rw (← same) at p)))
          | inr s ↦ f.taken k a (tail k s e) p
        ];
        fresh = λ k a e p. elim (Bool-cases (j == k)) [
          | inl s ↦
              let same : j ≡ k = ground arith in
              let (low, high) = rw (← same) at p in
              rw (← same, own) (are_free a low (omega arith)).0
          | inr s ↦ kept_out _ (f.fresh k a (tail k s e) p)
        ];
        apart = λ k l a b e e' p q same. elim (Bool-cases (j == k)) [
          | inl s ↦
              let k_own : j ≡ k = ground arith in
              let p' : InBucket g j a = rw (← k_own) at p in
              let same_k : slot g d a ≡ slot g (get_or displacements' l 0) b =
                rw (← k_own, own) at same in
              elim (Bool-cases (j == l)) [
                | inl s' ↦
                    let l_own : j ≡ l = ground arith in
                    let q' : InBucket g j b = rw (← l_own) at q in
                    one_bucket a b p' q' (rw (← l_own, own) at same_k)
                | inr s' ↦ absurd (crossed l a b (tail l s' e') p' q same_k)
              ]
          | inr s ↦ elim (Bool-cases (j == l)) [
            | inl s' ↦
                let l_own : j ≡ l = ground arith in
                let q' : InBucket g j b = rw (← l_own) at q in
                absurd (crossed k b a (tail k s e) q' p (sym (rw (← l_own, own) at same)))
            | inr s' ↦ f.apart k l a b (tail k s e) (tail l s' e') p q same
          ]
        ];
        words_size = f.words_size ∙ length-occupy g some_slots words d count lo;
        displacements_size = f.displacements_size ∙ length-set displacements j (u32 d);
        small = f.small;
        count = omega (arith, f.count, occupy_count g some_slots n words d count lo room);
      }

  pub place_all-IsPlaced :
      (order words displacements words' displacements' : List ℕ)
      → g.slots ≤ 64 * length words
      → IsUnique order
      → Below (length displacements) order
      → AllLt u32_mod displacements
      → place_all g order words displacements ≡ some (words', displacements')
      → IsPlaced n g order words displacements words' displacements'
  unfolding place_all
  place_all-IsPlaced [] words displacements words' displacements' room u below small h =
      let same : words ≡ words' = ground arith in
      let same' : displacements ≡ displacements' = ground arith in
      rw (← same, ← same')
        (record {
          keeps = λ q e. e;
          others = λ j e. refl;
          taken = λ j a e. cc;
          fresh = λ j a e. cc;
          apart = λ j k a b e. cc;
          words_size = refl;
          displacements_size = refl;
          small = small;
          count = omega arith;
        })
  place_all-IsPlaced (j ∷ order) words displacements words' displacements' room u below small h =
      let lo = get_or g.starts j 0 in
      let count = bucket_size g j in
      let Ends : Option ℕ → Type 0 = λ found.
        elim found [
          | none ↦ none
          | some d ↦ place_all g order (occupy g words d count lo) (set displacements j (u32 d))
        ]
        ≡ some (words', displacements') in
      elim (Option-cases (find_displacement g words lo count max_displacement 0)) [
        | inl e ↦
            let stopped : none ≡ some (words', displacements') = subst Ends e h in
            absurd (none_ne_some _ stopped)
        | inr (d, e) ↦
            let (bound, free) =
              find_displacement-all_free g words lo count max_displacement 0 d e in
            let size = length-occupy g some_slots words d count lo in
            IsPlaced-cons j order words displacements words' displacements' d room u.0 below.0 bound
              free
              (place_all-IsPlaced order (occupy g words d count lo) (set displacements j (u32 d))
                words' displacements' (omega (arith, room, size)) u.1
                (rw (length-set displacements j (u32 d)) below.1)
                (AllLt-set u32_mod displacements j (u32 d) (omega arith) small) (subst Ends e h))
      ]
