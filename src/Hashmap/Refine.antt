-- ===== src/Hashmap/Refine.antt =====
-- A map of src/hashmap.c is the multiset of its entries: what inserting does to it, memory failing or not.
use libbgp.Prelude.{
  ℕ, zero, suc, ◌+◌, ◌*◌, ◌/◌, ◌^◌, ◌≤◌, ◌<◌, ◌≡◌, ◌⊎◌, inl, inr, refl, sym, ap, ◌∙◌, subst, List,
  [], Bool, true, false, some, leb→le, Option-cases, ltb, leb, length, replicate, arith, Bool-cases,
  length-replicate,
}
use native.Mathlib.Nat.{pow-suc, pow-le-pow_right}
use libbgp.Prelude.Errors.{ok, err, nomem, Mem, allocate, ok_injective}
use libbgp.Prelude.Growth.{size_max}
use libbgp.Hashmap.{
  Entry, Buckets, Hashmap, Stepped, hashmap_is_power_of_two, bucket_index, hashmap_resize_threshold,
  hashmap_alloc_buckets, hashmap_resize,
}
use libbgp.Hashmap.Ops.{
  initial_buckets, reserve_target, hashmap_init, hashmap_reserve, grow_map, add_entry,
  hashmap_insert,
}
use libbgp.Hashmap.Contents.{
  tally, one_if, bucket_index-bound, power_of_two-true, tally-push_entry, length-push_entry,
  tally-replicate, length-move_buckets, tally-move_buckets,
}
use libbgp.Hashmap.Placed.{Placed, Placed-replicate, Placed-push_entry, Placed-move_buckets}

module _ {K : Type 0} (hash : K → ℕ) where
  -- A power of two of buckets, every entry in the bucket of its hash, and their number.
  pub record IsMap (map : Hashmap K) : Type 0 where
    pub counted : length map.buckets ≡ map.bucket_count
    pub exponent : ℕ
    pub power : map.bucket_count ≡ 2 ^ exponent
    pub small : exponent < 64
    pub placed : Placed hash map.bucket_count 0 map.buckets
    pub sized : map.len ≡ tally (λ e. true) map.buckets

  -- The step has kept the map valid and its entries.
  pub record Kept (map : Hashmap K) (r : Stepped K) : Type 0 where
    pub valid : IsMap r.1
    pub entries : (t : Entry K → Bool) → tally t r.1.buckets ≡ tally t map.buckets
    pub answer : (r.0 ≡ ok tt) ⊎ (r.0 ≡ err nomem)

  pub pow_pos : (k : ℕ) → 0 < 2 ^ k
  pow_pos zero = omega arith
  pow_pos (suc k) = omega (arith, pow-suc 2 k, pow_pos k)

  pub resize-Kept :
      (map : Hashmap K) (k : ℕ) (m : Mem)
      → IsMap map
      → k < 64
      → Kept map (hashmap_resize map (2 ^ k) m)
  unfolding hashmap_resize
  resize-Kept map k m h small =
      let n = 2 ^ k in
      let pos = pow_pos k in
      let new : Buckets K = replicate n [] in
      let size : length new ≡ n = length-replicate {A = List (Entry K)} n [] in
      elim (Bool-cases (hashmap_alloc_buckets n m).0) [
        | inr e ↦
            rw (power_of_two-true k small, e)
              (record { valid = h; entries = λ t. refl; answer = inr refl })
        | inl e ↦
            rw (power_of_two-true k small, e)
              (record {
                valid = record {
                  counted = length-move_buckets n map.buckets new ∙ size;
                  exponent = k;
                  power = refl;
                  small = small;
                  placed =
                      Placed-move_buckets hash map.bucket_count 0 n map.buckets new h.placed
                        (Placed-replicate hash n 0 n);
                  sized = omega (
                    arith,
                    h.sized,
                    tally-move_buckets (λ e. true) n map.buckets new pos size,
                    tally-replicate {K = K} (λ e. true) n,
                  );
                };
                entries = λ t.
                    omega
                      (arith, tally-move_buckets t n map.buckets new pos size, tally-replicate t n);
                answer = inl refl;
              })
      ]

  doubled : (count k : ℕ) → count ≡ 2 ^ k → count < 2 ^ 63 → suc k < 64
  doubled count k e h = elim (Bool-cases (ltb (suc k) 64)) [
    | inl small ↦ ground arith
    | inr big ↦ absurd (
        omega (arith, pow-le-pow_right {n = 2} (omega arith) {i = 63} {j = k} (ground arith), e, h))
  ]

  pub grow_map-Kept : (map : Hashmap K) (m : Mem) → IsMap map → Kept map (grow_map map m)
  unfolding grow_map
  grow_map-Kept map m h =
      elim (Bool-cases (leb (hashmap_resize_threshold map.bucket_count) map.len)) [
        | inr room ↦ rw room (record { valid = h; entries = λ t. refl; answer = inl refl })
        | inl full ↦ elim (Bool-cases (ltb (size_max / 2) map.bucket_count)) [
          | inl big ↦ rw (full, big) (record { valid = h; entries = λ t. refl; answer = inr refl })
          | inr fits ↦
              let twice : map.bucket_count * 2 ≡ 2 ^ suc h.exponent =
                ap (λ (c : ℕ). c * 2) h.power ∙ sym (pow-suc 2 h.exponent) in
              rw (full, fits, twice)
                (resize-Kept map (suc h.exponent) m h
                  (doubled map.bucket_count h.exponent h.power (ground arith)))
        ]
      ]

module _ {K : Type 0} (hash : K → ℕ) where
  -- What inserting has done: a new entry more, or nothing but what growing the map has moved.
  abbrev pub Inserted : Hashmap K → Entry K → Stepped K → Type 0
  Inserted map e r =
      IsMap hash r.1
      × (((r.0 ≡ ok tt)
            × ((t : Entry K → Bool) → tally t r.1.buckets ≡ one_if (t e) + tally t map.buckets))
          ⊎ ((r.0 ≡ err nomem)
              × ((t : Entry K → Bool) → tally t r.1.buckets ≡ tally t map.buckets)))

  add_entry-Inserted :
      (map : Hashmap K) (key : K) (value : ℕ) (r : Stepped K)
      → Kept hash map r
      → Inserted map
          (record { key = key; value = value; hash = hash key })
          (add_entry hash key value r)
  unfolding add_entry
  add_entry-Inserted map key value (err e, next, m) k =
      (k.valid, inr (elim k.answer [ inl x ↦ absurd (cc) | inr x ↦ x ], k.entries))
  add_entry-Inserted map key value (ok u, next, m) k =
      let e : Entry K = record { key = key; value = value; hash = hash key } in
      let i = bucket_index (hash key) next.bucket_count in
      let v = k.valid in
      let pos : 0 < next.bucket_count = omega (arith, v.power, pow_pos hash v.exponent) in
      let inside : i < length next.buckets =
        omega (arith, bucket_index-bound (hash key) next.bucket_count pos, v.counted) in
      elim (Bool-cases (allocate m).0) [
        | inr no_room ↦ rw no_room (k.valid, inr (refl, k.entries))
        | inl room ↦ rw room (
          record {
            counted = length-push_entry next.buckets i e ∙ v.counted;
            exponent = v.exponent;
            power = v.power;
            small = v.small;
            placed =
                Placed-push_entry hash next.bucket_count i next.buckets e v.placed (refl, refl);
            sized = omega (arith, v.sized, tally-push_entry (λ e. true) next.buckets i e inside);
          },
          inl (refl, λ t. omega (arith, tally-push_entry t next.buckets i e inside, k.entries t)),
        )
      ]

  -- Inserting into a valid map answers OK or LIBBGP_ERR_NOMEM and leaves a valid map. On OK the map holds the
  -- new entry and otherwise the entries that it held; on NOMEM it holds these, even if it had been resized.
  pub hashmap_insert-Inserted :
      (map : Hashmap K) (key : K) (value : ℕ) (m : Mem)
      → IsMap hash map
      → Inserted map
          (record { key = key; value = value; hash = hash key })
          (hashmap_insert hash map key value m)
  unfolding hashmap_insert
  hashmap_insert-Inserted map key value m h =
      add_entry-Inserted map key value (grow_map map m) (grow_map-Kept hash map m h)

some_number : (a b : ℕ) → some a ≡ some b → a ≡ b
some_number a b e = cc

fits_test : (a b : ℕ) → ltb a b ≡ false → b ≤ a
fits_test a b e = ground arith

module _ {K : Type 0} (hash : K → ℕ) where
  -- A new map holds nothing.
  pub hashmap_init-IsMap :
      (map : Hashmap K) (m : Mem)
      → (hashmap_init m).0 ≡ ok map
      → IsMap hash map × ((t : Entry K → Bool) → tally t map.buckets ≡ 0)
  unfolding hashmap_init
  hashmap_init-IsMap map m e = elim (Bool-cases (hashmap_alloc_buckets initial_buckets m).0) [
    | inr x ↦ absurd (cc (rw x at e))
    | inl x ↦
        subst
          (λ (map : Hashmap K). IsMap hash map × ((t : Entry K → Bool) → tally t map.buckets ≡ 0))
          (ok_injective (rw x at e))
          (
            record {
              counted = refl;
              exponent = 4;
              power = refl;
              small = omega arith;
              placed = Placed-replicate hash 16 0 16;
              sized = refl;
            },
            λ t. refl,
          )
  ]

  resize-count :
      (map : Hashmap K) (n : ℕ) (m : Mem)
      → (hashmap_resize map n m).0 ≡ ok tt
      → (hashmap_resize map n m).1.bucket_count ≡ n
  unfolding hashmap_resize
  resize-count map n m = elim (Bool-cases (hashmap_is_power_of_two n)) [
    | inr x ↦ rw x (λ e. absurd (cc))
    | inl x ↦ elim (Bool-cases (hashmap_alloc_buckets n m).0) [
      | inr y ↦ rw (x, y) (λ e. absurd (cc))
      | inl y ↦ rw (x, y) (λ e. refl)
    ]
  ]

  reserve_target-power :
      (fuel k count target : ℕ)
      → k < 64
      → reserve_target fuel (2 ^ k) count ≡ some target
      → (count ≤ hashmap_resize_threshold target) × (j : ℕ) × (target ≡ 2 ^ j) × (j < 64)
  unfolding reserve_target
  reserve_target-power zero k count target small e = absurd (cc)
  reserve_target-power (suc fuel) k count target small e =
      elim (Bool-cases (ltb (hashmap_resize_threshold (2 ^ k)) count)) [
        | inr x ↦
            let same : 2 ^ k ≡ target = some_number (2 ^ k) target (rw x at e) in
            (
              subst (λ (n : ℕ). count ≤ hashmap_resize_threshold n) same
                  (fits_test (hashmap_resize_threshold (2 ^ k)) count x),
              k,
              sym same,
              small,
            )
        | inl x ↦ elim (Bool-cases (ltb (size_max / 2) (2 ^ k))) [
          | inl y ↦ absurd (cc (rw (x, y) at e))
          | inr y ↦
              reserve_target-power fuel (suc k) count target
                (doubled hash (2 ^ k) k refl (ground arith))
                (ap (λ (n : ℕ). reserve_target fuel n count) (pow-suc 2 k) ∙ (rw (x, y) at e))
        ]
      ]

  -- Reserving room answers OK or LIBBGP_ERR_NOMEM, leaves a valid map with the entries that it held, and on
  -- OK one that takes as many entries as were asked for before it has to grow.
  pub hashmap_reserve-Kept :
      (map : Hashmap K) (count : ℕ) (m : Mem)
      → IsMap hash map
      → let r = hashmap_reserve map count m in
        Kept hash map r × (r.0 ≡ ok tt → count ≤ hashmap_resize_threshold r.1.bucket_count)
  unfolding hashmap_reserve
  hashmap_reserve-Kept map count m h =
      let valid : hashmap_is_power_of_two map.bucket_count ≡ true =
        ap hashmap_is_power_of_two h.power ∙ power_of_two-true h.exponent h.small in
      elim (Bool-cases (leb count (hashmap_resize_threshold map.bucket_count))) [
        | inl x ↦
            rw (valid, x)
              (record { valid = h; entries = λ t. refl; answer = inl refl }, λ done. leb→le _ _ x)
        | inr x ↦ elim (Option-cases (reserve_target 65 map.bucket_count count)) [
          | inl y ↦
              rw (valid, x, y)
                (record { valid = h; entries = λ t. refl; answer = inr refl }, λ done. absurd (cc))
          | inr r ↦
              let target =
                reserve_target-power 65 h.exponent count r.0 h.small
                  (ap (λ (n : ℕ). reserve_target 65 n count) (sym h.power) ∙ r.1) in
              rw (valid, x, r.1, target.2)
                (
                  resize-Kept hash map target.1 m h target.3,
                  λ done.
                      subst (λ (n : ℕ). count ≤ hashmap_resize_threshold n)
                        (target.2 ∙ sym (resize-count map (2 ^ target.1) m done)) target.0,
                )
        ]
      ]
