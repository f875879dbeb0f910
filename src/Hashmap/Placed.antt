-- ===== src/Hashmap/Placed.antt =====
-- Every entry of a map of src/hashmap.c is in the bucket of its key's hash.
use libbgp.Prelude.{
  ℕ, zero, suc, ◌+◌, ◌<◌, ◌≡◌, ◌≢◌, inl, inr, refl, sym, ◌∙◌, subst, List, [], ◌∷◌, Bool, true,
  get_or, set, replicate, arith, All, Bool-cases,
}
use libbgp.Hashmap.{Entry, Buckets, bucket_index, push_entry, move_bucket, move_buckets}
use libbgp.Hashmap.Contents.{tally, tally_bucket}

module _ {K : Type 0} (hash : K → ℕ) where
  -- An entry of the bucket `i` among `count`.
  abbrev pub At : ℕ → ℕ → Entry K → Type 0
  At count i e = (e.hash ≡ hash e.key) × (bucket_index e.hash count ≡ i)

  -- The buckets from the index `i` on.
  abbrev pub Placed : ℕ → ℕ → Buckets K → Type 0
  Placed count i [] = Unit {0}
  Placed count i (bucket ∷ buckets) = All (At count i) bucket × Placed count (suc i) buckets

  pub Placed-replicate : (count i n : ℕ) → Placed count i (replicate n [])
  Placed-replicate count i zero = tt
  Placed-replicate count i (suc n) = (tt, Placed-replicate count (suc i) n)

  pub Placed-get_or :
      (count i j : ℕ) (buckets : Buckets K)
      → Placed count i buckets
      → All (At count (i + j)) (get_or buckets j [])
  Placed-get_or count i j [] h = tt
  Placed-get_or count i zero (bucket ∷ buckets) h =
      subst (λ (k : ℕ). All (At count k) bucket) {x = i} {y = i + 0} (omega arith) h.0
  Placed-get_or count i (suc j) (bucket ∷ buckets) h =
      subst (λ (k : ℕ). All (At count k) (get_or buckets j [])) {x = suc i + j} {y = i + suc j}
        (omega arith) (Placed-get_or count (suc i) j buckets h.1)

  pub Placed-set :
      (count i j : ℕ) (buckets : Buckets K) (bucket : List (Entry K))
      → Placed count i buckets
      → All (At count (i + j)) bucket
      → Placed count i (set buckets j bucket)
  Placed-set count i j [] bucket h k = tt
  Placed-set count i zero (b ∷ buckets) bucket h k =
      (subst (λ (n : ℕ). All (At count n) bucket) {x = i + 0} {y = i} (omega arith) k, h.1)
  Placed-set count i (suc j) (b ∷ buckets) bucket h k = (
    h.0,
    Placed-set count (suc i) j buckets bucket h.1 (
        subst (λ (n : ℕ). All (At count n) bucket) {x = i + suc j} {y = suc i + j} (omega arith) k),
  )

  pub Placed-push_entry :
      (count j : ℕ) (buckets : Buckets K) (e : Entry K)
      → Placed count 0 buckets
      → At count j e
      → Placed count 0 (push_entry j e buckets)
  unfolding push_entry
  Placed-push_entry count j buckets e h k =
      let here =
        subst (λ (n : ℕ). All (At count n) (get_or buckets j [])) {x = 0 + j} {y = j} (omega arith)
          (Placed-get_or count 0 j buckets h) in
      Placed-set count 0 j buckets (e ∷ get_or buckets j []) h (
        subst (λ (n : ℕ). All (At count n) (e ∷ get_or buckets j [])) {x = j} {y = 0 + j}
          (omega arith) (k, here))

  -- Entries keep the hash of their key when they are moved.
  Placed-move_bucket :
      (old i count : ℕ) (bucket : List (Entry K)) (new : Buckets K)
      → All (At old i) bucket
      → Placed count 0 new
      → Placed count 0 (move_bucket count bucket new)
  unfolding move_bucket
  Placed-move_bucket old i count [] new h k = k
  Placed-move_bucket old i count (e ∷ bucket) new h k =
      let j = bucket_index e.hash count in
      Placed-move_bucket old i count bucket (push_entry j e new) h.1
        (Placed-push_entry count j new e k (h.0.0, refl))

  pub Placed-move_buckets :
      (old i count : ℕ) (buckets new : Buckets K)
      → Placed old i buckets
      → Placed count 0 new
      → Placed count 0 (move_buckets count buckets new)
  unfolding move_buckets
  Placed-move_buckets old i count [] new h k = k
  Placed-move_buckets old i count (bucket ∷ buckets) new h k =
      Placed-move_buckets old (suc i) count buckets (move_bucket count bucket new) h.1
        (Placed-move_bucket old i count bucket new h.0 k)

  tally_bucket-none :
      (count i j : ℕ) (t : Entry K → Bool) (bucket : List (Entry K))
      → i ≢ j
      → All (At count i) bucket
      → ((e : Entry K) → At count i e → t e ≡ true → bucket_index e.hash count ≡ j)
      → tally_bucket t bucket ≡ 0
  tally_bucket-none count i j t [] ne h k = refl
  tally_bucket-none count i j t (e ∷ bucket) ne h k = elim (Bool-cases (t e)) [
    | inl yes_e ↦ absurd (ne (sym h.0.1 ∙ k e h.0 yes_e))
    | inr no_e ↦ rw no_e (omega (arith, tally_bucket-none count i j t bucket ne h.1 k))
  ]

  tally-none :
      (count i j : ℕ) (t : Entry K → Bool) (buckets : Buckets K)
      → j < i
      → Placed count i buckets
      → ((e : Entry K) → e.hash ≡ hash e.key → t e ≡ true → bucket_index e.hash count ≡ j)
      → tally t buckets ≡ 0
  tally-none count i j t [] lt h k = refl
  tally-none count i j t (bucket ∷ buckets) lt h k = omega (
    arith,
    tally_bucket-none count i j t bucket (λ e. omega arith) h.0 (λ e a. k e a.0),
    tally-none count (suc i) j t buckets (omega arith) h.1 k,
  )

  -- Entries that pass a test which only those of one bucket can pass are all in that bucket.
  pub tally-one_bucket :
      (count i j : ℕ) (t : Entry K → Bool) (buckets : Buckets K)
      → Placed count i buckets
      → ((e : Entry K) → e.hash ≡ hash e.key → t e ≡ true → bucket_index e.hash count ≡ i + j)
      → tally t buckets ≡ tally_bucket t (get_or buckets j [])
  tally-one_bucket count i j t [] h k = refl
  tally-one_bucket count i zero t (bucket ∷ buckets) h k = omega (
    arith,
    tally-none count (suc i) i t buckets (omega arith) h.1 (λ e a p. k e a p ∙ omega arith),
  )
  tally-one_bucket count i (suc j) t (bucket ∷ buckets) h k = omega (
    arith,
    tally_bucket-none count i (i + suc j) t bucket (λ e. omega arith) h.0 (λ e a. k e a.0),
    tally-one_bucket count (suc i) j t buckets h.1 (λ e a p. k e a p ∙ omega arith),
  )
