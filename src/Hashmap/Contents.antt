-- ===== src/Hashmap/Contents.antt =====
-- What a map of src/hashmap.c holds: for every test on entries, the number of entries that pass it. Maps with
-- the same numbers hold the same entries, in whatever order and buckets.
use libbgp.Prelude.{
  ℕ, zero, suc, ◌+◌, ◌-◌, ◌/◌, ◌^◌, ◌≤◌, ◌<◌, ◌≡◌, refl, sym, ◌∙◌, subst, List, [], ◌∷◌, Bool, true,
  if◌then◌else◌, length, get_or, set, replicate, arith, min, bit_and, length-set,
}
use Prim.Native.Nat.{bit_and-bitwise, digits}
use libbgp.Prelude.Bits.{all_below, all_below_sound}
use libbgp.Hashmap.{
  Entry, Buckets, hashmap_is_power_of_two, bucket_index, push_entry, move_bucket, move_buckets,
}

digits_le : (n a b : ℕ) → digits (λ b. zero) min n a b ≤ b
digits_le zero a b = omega arith
digits_le (suc n) zero b = omega arith
digits_le (suc n) (suc a) b = omega (arith, digits_le n (suc a / 2) (b / 2))

bit_and_le : (a b : ℕ) → bit_and a b ≤ b
bit_and_le a b = subst (λ (x : ℕ). x ≤ b) (sym (bit_and-bitwise a b)) (digits_le a a b)

-- An index lies within the buckets.
pub bucket_index-bound : (hash count : ℕ) → 0 < count → bucket_index hash count < count
unfolding bucket_index
bucket_index-bound hash count h = omega (arith, bit_and_le hash (count - 1))

power_table : all_below 64 (λ k. hashmap_is_power_of_two (2 ^ k)) ≡ true
unfolding all_below hashmap_is_power_of_two
power_table = refl

pub power_of_two-true : (k : ℕ) → k < 64 → hashmap_is_power_of_two (2 ^ k) ≡ true
power_of_two-true k h = all_below_sound 64 (λ k. hashmap_is_power_of_two (2 ^ k)) k power_table h

abbrev pub one_if : Bool → ℕ
one_if b = if b then 1 else 0

module _ {K : Type 0} where
  abbrev pub tally_bucket : (Entry K → Bool) → List (Entry K) → ℕ
  tally_bucket t [] = 0
  tally_bucket t (e ∷ bucket) = one_if (t e) + tally_bucket t bucket

  abbrev pub tally : (Entry K → Bool) → Buckets K → ℕ
  tally t [] = 0
  tally t (bucket ∷ buckets) = tally_bucket t bucket + tally t buckets

  -- A bucket is replaced by another.
  pub tally-set :
      (t : Entry K → Bool) (buckets : Buckets K) (i : ℕ) (bucket : List (Entry K))
      → i < length buckets
      → tally t (set buckets i bucket) + tally_bucket t (get_or buckets i [])
        ≡ tally t buckets + tally_bucket t bucket
  tally-set t [] i bucket h = absurd (omega arith)
  tally-set t (b ∷ buckets) zero bucket h = omega arith
  tally-set t (b ∷ buckets) (suc i) bucket h =
      omega (arith, tally-set t buckets i bucket (omega arith))

  pub tally-push_entry :
      (t : Entry K → Bool) (buckets : Buckets K) (i : ℕ) (e : Entry K)
      → i < length buckets
      → tally t (push_entry i e buckets) ≡ one_if (t e) + tally t buckets
  unfolding push_entry
  tally-push_entry t buckets i e h =
      omega (arith, tally-set t buckets i (e ∷ get_or buckets i []) h)

  pub tally-replicate : (t : Entry K → Bool) (n : ℕ) → tally t (replicate n []) ≡ 0
  tally-replicate t zero = refl
  tally-replicate t (suc n) = omega (arith, tally-replicate t n)

  pub length-push_entry :
      (buckets : Buckets K) (i : ℕ) (e : Entry K) → length (push_entry i e buckets) ≡ length buckets
  unfolding push_entry
  length-push_entry buckets i e = length-set buckets i (e ∷ get_or buckets i [])

  length-move_bucket :
      (count : ℕ) (bucket : List (Entry K)) (new : Buckets K)
      → length (move_bucket count bucket new) ≡ length new
  unfolding move_bucket push_entry
  length-move_bucket count [] new = refl
  length-move_bucket count (e ∷ bucket) new =
      let i = bucket_index e.hash count in
      length-move_bucket count bucket (push_entry i e new) ∙ length-set new i (e ∷ get_or new i [])

  tally-move_bucket :
      (t : Entry K → Bool) (count : ℕ) (bucket : List (Entry K)) (new : Buckets K)
      → 0 < count
      → length new ≡ count
      → tally t (move_bucket count bucket new) ≡ tally_bucket t bucket + tally t new
  unfolding move_bucket
  tally-move_bucket t count [] new pos h = omega arith
  tally-move_bucket t count (e ∷ bucket) new pos h =
      let i = bucket_index e.hash count in
      let inside : i < length new = omega (arith, bucket_index-bound e.hash count pos) in
      omega (
        arith,
        tally-move_bucket t count bucket (push_entry i e new) pos (length-push_entry new i e ∙ h),
        tally-push_entry t new i e inside,
      )

  pub length-move_buckets :
      (count : ℕ) (buckets new : Buckets K) → length (move_buckets count buckets new) ≡ length new
  unfolding move_buckets
  length-move_buckets count [] new = refl
  length-move_buckets count (bucket ∷ buckets) new =
      length-move_buckets count buckets (move_bucket count bucket new)
      ∙ length-move_bucket count bucket new

  pub tally-move_buckets :
      (t : Entry K → Bool) (count : ℕ) (buckets new : Buckets K)
      → 0 < count
      → length new ≡ count
      → tally t (move_buckets count buckets new) ≡ tally t buckets + tally t new
  unfolding move_buckets
  tally-move_buckets t count [] new pos h = omega arith
  tally-move_buckets t count (bucket ∷ buckets) new pos h = omega (
    arith,
    tally-move_buckets t count buckets (move_bucket count bucket new) pos
        (length-move_bucket count bucket new ∙ h),
    tally-move_bucket t count bucket new pos h,
  )
