-- ===== src/Tests/Maps.antt =====
-- Hash maps for src/hashmap.c.
use libbgp.Prelude.{
  ℕ, ◌+◌, ◌%◌, if◌then◌else◌, ◌≤◌, ◌<◌, ◌≡◌, ◌⊎◌, refl, ap, [], Bool, true, none, some, ◌==◌, ==→eq,
  replicate,
}
use libbgp.Prelude.Errors.{ok, err, not_found}
use libbgp.Hashmap.{Entry, Hashmap, hashmap_alloc_buckets, hashmap_resize_threshold}
use libbgp.Hashmap.Ops.{
  hashmap_init, hashmap_insert, hashmap_reserve, hashmap_remove_one, hashmap_find_first,
  hashmap_count_key,
}
use libbgp.Hashmap.Contents.{tally}
use libbgp.Hashmap.Refine.{
  IsMap, Kept, Inserted, hashmap_init-IsMap, hashmap_insert-Inserted, hashmap_reserve-Kept,
}
use libbgp.Hashmap.Find.{wanted, hashmap_lookup-tally, hashmap_remove_one-Removed}

-- Keys are numbers, and many have the same hash.
abbrev low_byte : ℕ → ℕ
low_byte k = k % 256

abbrev fresh_map : Hashmap ℕ
fresh_map = record { buckets = replicate 16 []; bucket_count = 16; len = 0 }

fresh_map_starts : (hashmap_init []).0 ≡ ok fresh_map
unfolding hashmap_init hashmap_alloc_buckets
fresh_map_starts = refl

fresh_map-IsMap : IsMap low_byte fresh_map
fresh_map-IsMap = (hashmap_init-IsMap low_byte fresh_map [] fresh_map_starts).0

abbrev one_entry : Hashmap ℕ
one_entry = (hashmap_insert low_byte fresh_map 261 7 []).1

same_key : (a b : ℕ) → a == b ≡ true → low_byte a ≡ low_byte b
same_key a b e = ap low_byte (==→eq a b e)

hashmap_insert-Inserted_example :
    Inserted low_byte fresh_map
      (record { key = 261; value = 7; hash = 5 })
      (hashmap_insert low_byte fresh_map 261 7 [])
hashmap_insert-Inserted_example =
    hashmap_insert-Inserted low_byte fresh_map 261 7 [] fresh_map-IsMap

one_entry-IsMap : IsMap low_byte one_entry
one_entry-IsMap = hashmap_insert-Inserted_example.0

hashmap_remove_one-Removed_example :
    let r = hashmap_remove_one low_byte ◌==◌ one_entry 261 none in
    ((e : Entry ℕ) × (r.0 ≡ ok (e.key, e.value))
      × (wanted ◌==◌ 261 none e ≡ true)
      × IsMap low_byte r.1
      × ((t : Entry ℕ → Bool)
          → tally t one_entry.buckets ≡ (if t e then 1 else 0) + tally t r.1.buckets))
    ⊎ ((r ≡ (err not_found, one_entry)) × (tally (wanted ◌==◌ 261 none) one_entry.buckets ≡ 0))
hashmap_remove_one-Removed_example =
    hashmap_remove_one-Removed low_byte ◌==◌ same_key one_entry 261 none one_entry-IsMap

hashmap_lookup-tally_example :
    let found = hashmap_find_first low_byte ◌==◌ one_entry 261 in
    (hashmap_count_key low_byte ◌==◌ one_entry 261 ≡ tally (λ e. e.key == 261) one_entry.buckets)
    × (((found ≡ 0) × (hashmap_count_key low_byte ◌==◌ one_entry 261 ≡ 0))
        ⊎ (0 < tally (wanted ◌==◌ 261 (some found)) one_entry.buckets))
hashmap_lookup-tally_example =
    hashmap_lookup-tally low_byte ◌==◌ same_key one_entry 261 one_entry-IsMap

hashmap_reserve-Kept_example :
    let r = hashmap_reserve fresh_map 100 [] in
    Kept low_byte fresh_map r × (r.0 ≡ ok tt → 100 ≤ hashmap_resize_threshold r.1.bucket_count)
hashmap_reserve-Kept_example = hashmap_reserve-Kept low_byte fresh_map 100 [] fresh_map-IsMap
