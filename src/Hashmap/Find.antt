-- ===== src/Hashmap/Find.antt =====
-- Looking entries of src/hashmap.c up, counting and removing them, when keys that compare equal have the same
-- hash.
use libbgp.Prelude.{
  ℕ, ◌+◌, ◌<◌, ◌≡◌, ◌⊎◌, inl, inr, refl, sym, ap, ◌∙◌, subst, List, [], ◌∷◌, Bool, true, false,
  Option, none, some, ◌==◌, ◌&&◌, length, get_or, arith, All, Bool-cases, Option-cases, length-set,
  eq→==,
}
use libbgp.Prelude.Errors.{ok, err, not_found}
use libbgp.Hashmap.{Entry, Hashmap, bucket_index}
use libbgp.Hashmap.Ops.{
  matches, value_matches, unlink, hashmap_remove_one, first_match, hashmap_find_first,
  count_matches, hashmap_count_key,
}
use libbgp.Hashmap.Contents.{tally, tally_bucket, tally-set, one_if, bucket_index-bound}
use libbgp.Hashmap.Placed.{At, Placed-get_or, Placed-set, tally-one_bucket}
use libbgp.Hashmap.Refine.{IsMap, pow_pos}

module _ {K : Type 0} where
  -- The test of removing: the key compares equal, and the value is the one that was asked for.
  abbrev pub wanted : (K → K → Bool) → K → Option ℕ → Entry K → Bool
  wanted eq key value e = eq e.key key && value_matches value e

and_left : (a b : Bool) → a && b ≡ true → a ≡ true
and_left true b h = refl
and_left false b h = absurd (cc)

module _ {K : Type 0} (hash : K → ℕ) (eq : K → K → Bool)
    (agree : (a b : K) → eq a b ≡ true → hash a ≡ hash b) where
  -- The comparison of the hashes only spares calls of the comparison of keys.
  matches-placed :
      (key : K) (e : Entry K) → e.hash ≡ hash e.key → matches hash eq key e ≡ eq e.key key
  matches-placed key e h = elim (Bool-cases (eq e.key key)) [
    | inl x ↦ rw (x, eq→== e.hash (hash key) (h ∙ agree e.key key x)) refl
    | inr x ↦ elim (Bool-cases (e.hash == hash key)) [
      | inl y ↦ rw (x, y) refl
      | inr y ↦ rw (x, y) refl
    ]
  ]

  -- The entries that pass a test on top of having the key are in the bucket of the key.
  key_bucket :
      (map : Hashmap K) (key : K) (t : Entry K → Bool)
      → IsMap hash map
      → ((e : Entry K) → t e ≡ true → eq e.key key ≡ true)
      → tally t map.buckets
        ≡ tally_bucket t (get_or map.buckets (bucket_index (hash key) map.bucket_count) [])
  key_bucket map key t h k =
      tally-one_bucket hash map.bucket_count 0 (bucket_index (hash key) map.bucket_count) t
        map.buckets h.placed
        (λ e placed pass.
          ap (λ (x : ℕ). bucket_index x map.bucket_count) (placed ∙ agree e.key key (k e pass))
          ∙ omega arith)

  count_matches-tally :
      (count i : ℕ) (key : K) (bucket : List (Entry K))
      → All (At hash count i) bucket
      → count_matches hash eq key bucket ≡ tally_bucket (λ e. eq e.key key) bucket
  unfolding count_matches
  count_matches-tally count i key [] h = refl
  count_matches-tally count i key (e ∷ bucket) h =
      let ih = count_matches-tally count i key bucket h.1 in
      elim (Bool-cases (eq e.key key)) [
        | inl x ↦ rw (matches-placed key e h.0.0, x) (omega (arith, ih))
        | inr x ↦ rw (matches-placed key e h.0.0, x) (omega (arith, ih))
      ]

  key_bucket-At :
      (map : Hashmap K) (key : K)
      → IsMap hash map
      → All
          (At hash map.bucket_count (0 + bucket_index (hash key) map.bucket_count))
          (get_or map.buckets (bucket_index (hash key) map.bucket_count) [])
  key_bucket-At map key h =
      Placed-get_or hash map.bucket_count 0 (bucket_index (hash key) map.bucket_count) map.buckets
        h.placed

  -- What the search of a bucket answers: NULL if no key is equal, else the value of such an entry.
  abbrev Answered : K → List (Entry K) → ℕ → Type 0
  Answered key bucket value =
      ((value ≡ 0) × (tally_bucket (λ e. eq e.key key) bucket ≡ 0))
      ⊎ (0 < tally_bucket (wanted eq key (some value)) bucket)

  first_match-Answered :
      (count i : ℕ) (key : K) (bucket : List (Entry K))
      → All (At hash count i) bucket
      → Answered key bucket (first_match hash eq key bucket)
  unfolding first_match
  first_match-Answered count i key [] h = inl (refl, refl)
  first_match-Answered count i key (e ∷ bucket) h =
      let ih = first_match-Answered count i key bucket h.1 in
      elim (Bool-cases (eq e.key key)) [
        | inl x ↦
            let first : first_match hash eq key (e ∷ bucket) ≡ e.value =
              rw (first_match, matches-placed key e h.0.0, x) refl in
            let here : one_if (wanted eq key (some e.value) e) ≡ 1 =
              rw (x, eq→== e.value e.value refl) refl in
            subst (Answered key (e ∷ bucket)) (sym first) (inr (omega (arith, here)))
        | inr x ↦
            let next : first_match hash eq key (e ∷ bucket) ≡ first_match hash eq key bucket =
              rw (first_match, matches-placed key e h.0.0, x) refl in
            subst (Answered key (e ∷ bucket)) (sym next) (elim ih [
              | inl missing ↦ inl (
                missing.0,
                ap (λ b. one_if b + tally_bucket (λ e. eq e.key key) bucket) x
                    ∙ omega (arith, missing.1),
              )
              | inr there ↦ inr (omega (arith, there))
            ])
      ]

  hashmap_count_key-tally :
      (map : Hashmap K) (key : K)
      → IsMap hash map
      → hashmap_count_key hash eq map key ≡ tally (λ e. eq e.key key) map.buckets
  unfolding hashmap_count_key
  hashmap_count_key-tally map key h =
      count_matches-tally map.bucket_count (0 + bucket_index (hash key) map.bucket_count) key
        (get_or map.buckets (bucket_index (hash key) map.bucket_count) []) (key_bucket-At map key h)
      ∙ sym (key_bucket map key (λ e. eq e.key key) h (λ e pass. pass))

  -- In a valid map, counting a key gives the number of all entries of the map whose key compares equal. If
  -- that number is 0 a search for the key answers NULL, and otherwise the value of such an entry, which
  -- may be a NULL that was stored.
  pub hashmap_lookup-tally :
      (map : Hashmap K) (key : K)
      → IsMap hash map
      → let found = hashmap_find_first hash eq map key in
        (hashmap_count_key hash eq map key ≡ tally (λ e. eq e.key key) map.buckets)
        × (((found ≡ 0) × (hashmap_count_key hash eq map key ≡ 0))
            ⊎ (0 < tally (wanted eq key (some found)) map.buckets))
  unfolding hashmap_find_first
  hashmap_lookup-tally map key h =
      let i = bucket_index (hash key) map.bucket_count in
      let bucket = get_or map.buckets i [] in
      let found = first_match hash eq key bucket in
      let counted = hashmap_count_key-tally map key h in
      let all = key_bucket map key (λ e. eq e.key key) h (λ e pass. pass) in
      let one =
        key_bucket map key (wanted eq key (some found)) h
          (λ e pass. and_left (eq e.key key) (e.value == found) pass) in
      (
        counted,
        elim (first_match-Answered map.bucket_count (0 + i) key bucket (key_bucket-At map key h)) [
          | inl missing ↦ inl (missing.0, counted ∙ all ∙ missing.1)
          | inr there ↦ inr (subst (λ (n : ℕ). 0 < n) (sym one) there)
        ],
      )

  -- What taking an entry out of a bucket leaves.
  abbrev Unlinked :
      ℕ → ℕ → K → Option ℕ → List (Entry K) → Option (Entry K × List (Entry K)) → Type 0
  Unlinked count i key value bucket none = tally_bucket (wanted eq key value) bucket ≡ 0
  Unlinked count i key value bucket (some r) =
      (wanted eq key value r.0 ≡ true)
      × All (At hash count i) r.1
      × ((t : Entry K → Bool) → tally_bucket t bucket ≡ one_if (t r.0) + tally_bucket t r.1)

  unlink-Unlinked :
      (count i : ℕ) (key : K) (value : Option ℕ) (bucket : List (Entry K))
      → All (At hash count i) bucket
      → Unlinked count i key value bucket (unlink hash eq key value bucket)
  unfolding unlink
  unlink-Unlinked count i key value [] h = refl
  unlink-Unlinked count i key value (e ∷ bucket) h =
      let ih = unlink-Unlinked count i key value bucket h.1 in
      let test = matches-placed key e h.0.0 in
      elim (Bool-cases (wanted eq key value e)) [
        | inl x ↦ rw (test, x) (x, h.1, λ t. refl)
        | inr x ↦ elim (Option-cases (unlink hash eq key value bucket)) [
          | inl none_left ↦
              rw (test, x, none_left)
                (let none_there : tally_bucket (wanted eq key value) bucket ≡ 0 =
                    subst (Unlinked count i key value bucket) none_left ih in
                  ap (λ b. one_if b + tally_bucket (wanted eq key value) bucket) x
                  ∙ omega (arith, none_there))
          | inr r ↦
              rw (test, x, r.1)
                (let found : Unlinked count i key value bucket (some r.0) =
                    subst (Unlinked count i key value bucket) r.1 ih in
                  (found.0, (h.0, found.1), λ t. omega (arith, found.2 t)))
        ]
      ]

  -- Removing from a valid map leaves a valid map. On OK an entry with an equal key, and with the value that
  -- was asked for, is handed to the callback, and the map holds the other entries; on NOT_FOUND there is
  -- no such entry and the map is as before.
  pub hashmap_remove_one-Removed :
      (map : Hashmap K) (key : K) (value : Option ℕ)
      → IsMap hash map
      → let r = hashmap_remove_one hash eq map key value in
        ((e : Entry K) × (r.0 ≡ ok (e.key, e.value))
          × (wanted eq key value e ≡ true)
          × IsMap hash r.1
          × ((t : Entry K → Bool) → tally t map.buckets ≡ one_if (t e) + tally t r.1.buckets))
        ⊎ ((r ≡ (err not_found, map)) × (tally (wanted eq key value) map.buckets ≡ 0))
  unfolding hashmap_remove_one
  hashmap_remove_one-Removed map key value h =
      let i = bucket_index (hash key) map.bucket_count in
      let bucket = get_or map.buckets i [] in
      let u = unlink-Unlinked map.bucket_count (0 + i) key value bucket (key_bucket-At map key h) in
      let pos : 0 < map.bucket_count = omega (arith, h.power, pow_pos hash h.exponent) in
      let inside : i < length map.buckets =
        omega (arith, bucket_index-bound (hash key) map.bucket_count pos, h.counted) in
      elim (Option-cases (unlink hash eq key value bucket)) [
        | inl missing ↦
            let none_there : tally_bucket (wanted eq key value) bucket ≡ 0 =
              subst (Unlinked map.bucket_count (0 + i) key value bucket) missing u in
            rw (hashmap_remove_one, missing)
              (inr (
                refl,
                key_bucket map key (wanted eq key value) h
                      (λ e pass. and_left (eq e.key key) (value_matches value e) pass)
                    ∙ none_there,
              ))
        | inr r ↦
            let e = r.0.0 in
            let rest = r.0.1 in
            let found : Unlinked map.bucket_count (0 + i) key value bucket (some r.0) =
              subst (Unlinked map.bucket_count (0 + i) key value bucket) r.1 u in
            let all = λ (t : Entry K → Bool). tally-set t map.buckets i rest inside in
            rw (hashmap_remove_one, r.1)
              (inl (
                e,
                refl,
                found.0,
                record {
                  counted = length-set map.buckets i rest ∙ h.counted;
                  exponent = h.exponent;
                  power = h.power;
                  small = h.small;
                  placed = Placed-set hash map.bucket_count 0 i map.buckets rest h.placed found.1;
                  sized = omega (arith, h.sized, all (λ e. true), found.2 (λ e. true));
                },
                λ t. omega (arith, all t, found.2 t),
              ))
      ]
