-- ===== src/Hashmap/Ops.antt =====
-- The operations of src/hashmap.c.
use libbgp.Prelude.{
  ℕ, zero, suc, ◌+◌, ◌-◌, ◌*◌, ◌/◌, List, [], ◌∷◌, Bool, true, Option, none, some, ltb, leb, ◌==◌,
  ◌&&◌, if◌then◌else◌, get_or, set, replicate,
}
use libbgp.Prelude.Errors.{Result, ok, err, invalid, nomem, not_found, Mem, allocate}
use libbgp.Prelude.Growth.{size_max}
use libbgp.Hashmap.{
  Entry, Buckets, Hashmap, Stepped, hashmap_is_power_of_two, bucket_index, hashmap_resize_threshold,
  hashmap_alloc_buckets, push_entry, hashmap_resize,
}

-- BGP_HASHMAP_INITIAL_BUCKETS
abbrev pub initial_buckets : ℕ
initial_buckets = 16

-- The loop of `bgp_hashmap_reserve`: the number of buckets, or `none` beyond half the address space.
unfoldable pub reserve_target : ℕ → ℕ → ℕ → Option ℕ
reserve_target zero target count = none
reserve_target (suc fuel) target count =
    let next = reserve_target fuel (target * 2) count in
    if ltb (hashmap_resize_threshold target) count
    then (if ltb (size_max / 2) target then none else next)
    else some target

module _ {K : Type 0} where
  unfoldable pub hashmap_init : Mem → Result (Hashmap K) × Mem
  hashmap_init m =
      let got = hashmap_alloc_buckets initial_buckets m in
      if got.0
      then (
        ok (record {
          buckets = replicate initial_buckets [];
          bucket_count = initial_buckets;
          len = 0;
        }),
        got.1,
      )
      else (err nomem, got.1)

  unfoldable pub hashmap_reserve : Hashmap K → ℕ → Mem → Stepped K
  hashmap_reserve map count m =
      if hashmap_is_power_of_two map.bucket_count
      then (if leb count (hashmap_resize_threshold map.bucket_count)
          then (ok tt, map, m)
          else (elim (reserve_target 65 map.bucket_count count) [
            | none ↦ (err nomem, map, m)
            | some target ↦ hashmap_resize map target m
          ]))
      else (err invalid, map, m)

  -- The part of `bgp_hashmap_insert` that makes the map larger.
  unfoldable pub grow_map : Hashmap K → Mem → Stepped K
  grow_map map m =
      if leb (hashmap_resize_threshold map.bucket_count) map.len
      then (if ltb (size_max / 2) map.bucket_count
          then (err nomem, map, m)
          else hashmap_resize map (map.bucket_count * 2) m)
      else (ok tt, map, m)

  -- The argument `none` is the NULL that stands for any value; another pointer is `some`.
  abbrev pub value_matches : Option ℕ → Entry K → Bool
  value_matches none entry = true
  value_matches (some value) entry = entry.value == value

  unfoldable pub hashmap_len : Hashmap K → ℕ
  hashmap_len map = map.len

  -- What the loops hand to the callback that frees, in their order.
  unfoldable pub freed_buckets : Buckets K → List (K × ℕ)
  freed_buckets [] = []
  freed_buckets ([] ∷ buckets) = freed_buckets buckets
  freed_buckets ((entry ∷ bucket) ∷ buckets) =
      (entry.key, entry.value) ∷ freed_buckets (bucket ∷ buckets)

  -- What is freed, and the zeroed map.
  unfoldable pub hashmap_destroy : Hashmap K → List (K × ℕ) × Hashmap K
  hashmap_destroy map =
      (freed_buckets map.buckets, record { buckets = []; bucket_count = 0; len = 0 })

module _ {K S : Type 0} where
  -- The callback answers whether to go on; `ctx` is the state that it changes.
  unfoldable pub each_entry : (K → ℕ → S → Bool × S) → List (Entry K) → S → Bool × S
  each_entry fn [] ctx = (true, ctx)
  each_entry fn (entry ∷ bucket) ctx =
      let rest = each_entry fn bucket (fn entry.key entry.value ctx).1 in
      let one = fn entry.key entry.value ctx in if one.0 then rest else one

  unfoldable pub hashmap_foreach : (K → ℕ → S → Bool × S) → Buckets K → S → S
  hashmap_foreach fn [] ctx = ctx
  hashmap_foreach fn (bucket ∷ buckets) ctx =
      let one = each_entry fn bucket ctx in
      let rest = hashmap_foreach fn buckets one.1 in if one.0 then rest else one.1

module _ {K : Type 0} (hash : K → ℕ) where
  -- The entry is stored by a map that was made large enough.
  unfoldable pub add_entry : K → ℕ → Stepped K → Stepped K
  add_entry key value (err e, map, m) = (err e, map, m)
  add_entry key value (ok u, map, m) =
      let got = allocate m in
      let entry : Entry K = record { key = key; value = value; hash = hash key } in
      if got.0
      then (
        ok tt,
        record map {
          buckets = push_entry (bucket_index (hash key) map.bucket_count) entry map.buckets;
          len = map.len + 1;
        },
        got.1,
      )
      else (err nomem, map, got.1)

  unfoldable pub hashmap_insert : Hashmap K → K → ℕ → Mem → Stepped K
  hashmap_insert map key value m = add_entry key value (grow_map map m)

module _ {K : Type 0} (hash : K → ℕ) (eq : K → K → Bool) where
  -- The test of an entry against a key, here already hashed.
  abbrev pub matches : K → Entry K → Bool
  matches key entry = entry.hash == hash key && eq entry.key key

  -- The first entry that matches, and the bucket without it.
  unfoldable pub unlink : K → Option ℕ → List (Entry K) → Option (Entry K × List (Entry K))
  unlink key value [] = none
  unlink key value (entry ∷ bucket) =
      let rest = unlink key value bucket in
      if matches key entry && value_matches value entry
      then some (entry, bucket)
      else elim rest [ none ↦ none | some r ↦ some (r.0, entry ∷ r.1) ]

  -- What is freed, and the map without it.
  unfoldable pub hashmap_remove_one : Hashmap K → K → Option ℕ → Result (K × ℕ) × Hashmap K
  hashmap_remove_one map key value =
      let idx = bucket_index (hash key) map.bucket_count in
      elim (unlink key value (get_or map.buckets idx [])) [
        | none ↦ (err not_found, map)
        | some r ↦ (
          ok (r.0.key, r.0.value),
          record map { buckets = set map.buckets idx r.1; len = map.len - 1 },
        )
      ]

  -- The value of the first entry with the key, or NULL, which is 0 and can be a value itself.
  unfoldable pub first_match : K → List (Entry K) → ℕ
  first_match key [] = 0
  first_match key (entry ∷ bucket) =
      let rest = first_match key bucket in if matches key entry then entry.value else rest

  unfoldable pub hashmap_find_first : Hashmap K → K → ℕ
  hashmap_find_first map key =
      first_match key (get_or map.buckets (bucket_index (hash key) map.bucket_count) [])

  unfoldable pub count_matches : K → List (Entry K) → ℕ
  count_matches key [] = 0
  count_matches key (entry ∷ bucket) =
      let rest = count_matches key bucket in if matches key entry then rest + 1 else rest

  unfoldable pub hashmap_count_key : Hashmap K → K → ℕ
  hashmap_count_key map key =
      count_matches key (get_or map.buckets (bucket_index (hash key) map.bucket_count) [])
