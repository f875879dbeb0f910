-- ===== src/Hashmap.antt =====
-- src/hashmap.c: the chained hash map. The hash and the comparison of keys are callbacks of the caller and
-- arguments here; a value is the address that the map stores. A bucket is the list of its entries in the
-- order of their links. The callback that frees an entry is given by what an operation hands to it.

pub mod Ops
pub mod Contents
pub mod Placed
pub mod Refine
pub mod Find
use libbgp.Prelude.{
  ℕ, zero, suc, ◌+◌, ◌-◌, ◌*◌, ◌/◌, ◌^◌, List, [], ◌∷◌, ◌++◌, Bool, true, false, Option, none, some,
  ltb, leb, ◌==◌, ◌&&◌, not, if◌then◌else◌, length, get_or, set, replicate, bit_and,
}
use libbgp.Prelude.Errors.{Result, ok, err, ErrorCode, invalid, nomem, Mem, allocate}
use libbgp.Prelude.Growth.{size_max}

-- `bgp_hashmap_entry_t`
pub record Entry (K : Type 0) : Type 0 where
  pub key : K
  pub value : ℕ
  pub hash : ℕ

abbrev pub Buckets : Type 0 → Type 0
Buckets K = List (List (Entry K))

-- `bgp_hashmap_t`
pub record Hashmap (K : Type 0) : Type 0 where
  pub buckets : Buckets K
  pub bucket_count : ℕ
  pub len : ℕ

-- An answer, the map afterwards, and the allocator's outcomes left.
abbrev pub Stepped : Type 0 → Type 0
Stepped K = Result (Unit {0}) × Hashmap K × Mem

unfoldable pub hashmap_is_power_of_two : ℕ → Bool
hashmap_is_power_of_two value = not (value == 0) && bit_and value (value - 1) == 0

unfoldable pub bucket_index : ℕ → ℕ → ℕ
bucket_index hash bucket_count = bit_and hash (bucket_count - 1)

unfoldable pub hashmap_resize_threshold : ℕ → ℕ
hashmap_resize_threshold bucket_count = bucket_count - bucket_count / 4

-- `hashmap_alloc_buckets`: whether there is memory for an array of `count` buckets.
unfoldable pub hashmap_alloc_buckets : ℕ → Mem → Bool × Mem
hashmap_alloc_buckets count m = if ltb (size_max / 8) count then (false, m) else allocate m

module _ {K : Type 0} where
  -- `entry->next = buckets[idx]; buckets[idx] = entry`
  unfoldable pub push_entry : ℕ → Entry K → Buckets K → Buckets K
  push_entry idx entry buckets = set buckets idx (entry ∷ get_or buckets idx [])

  -- The inner loop of `hashmap_resize`, and the outer one.
  unfoldable pub move_bucket : ℕ → List (Entry K) → Buckets K → Buckets K
  move_bucket new_count [] new_buckets = new_buckets
  move_bucket new_count (entry ∷ bucket) new_buckets =
      move_bucket new_count bucket
        (push_entry (bucket_index entry.hash new_count) entry new_buckets)

  unfoldable pub move_buckets : ℕ → Buckets K → Buckets K → Buckets K
  move_buckets new_count [] new_buckets = new_buckets
  move_buckets new_count (bucket ∷ buckets) new_buckets =
      move_buckets new_count buckets (move_bucket new_count bucket new_buckets)

  unfoldable pub hashmap_resize : Hashmap K → ℕ → Mem → Stepped K
  hashmap_resize map new_count m =
      let got = hashmap_alloc_buckets new_count m in
      if hashmap_is_power_of_two new_count
      then (if got.0
          then (
            ok tt,
            record map {
              buckets = move_buckets new_count map.buckets (replicate new_count []);
              bucket_count = new_count;
            },
            got.1,
          )
          else (err nomem, map, got.1))
      else (err invalid, map, m)
