-- ===== src/Open/Total.antt =====
-- The loops of src/open.c end: parsing never runs out of fuel, on any input and with any allocator.
use libbgp.Prelude.{
  ℕ, zero, suc, ◌+◌, ◌-◌, ◌/◌, ◌≤◌, ◌<◌, ◌≡◌, ◌≢◌, inl, inr, refl, subst, List, [], ◌∷◌, Bool, true,
  false, arith, ltb, leb, ◌==◌, ◌&&◌, if◌then◌else◌, length, get_or, take, drop, length-drop,
  length-take,
}
use libbgp.Prelude.Errors.{
  Result, ok, err, ErrorCode, bad_len, bad_type, generic, Mem, ok_injective,
}
use libbgp.Prelude.Alloc.{
  Alloc, ◌>>=◌, ◌>>◌, give, require, malloc, malloc_bytes, malloc_bytes-cases, continue,
}
use libbgp.Prelude.Growth.{size_max}
use libbgp.Capability.{
  cap_code_4b_asn, cap_code_mp_bgp, Capability, capability_new, capability_parse, parse_4b_asn,
  parse_mp_bgp, parse_unknown, type_unknown,
}
use libbgp.Open.{
  OpenMsg, open_add_capability, parse_one_capability, open_parse_capabilities, open_parse_optional,
  open_parse, unref_last,
}

-- A computation that never gives LIBBGP_ERR.
abbrev pub Ends {ℓ} : {A : Type ℓ} → Alloc A → Type ℓ
Ends c = (m : Mem) → (c m).0 ≢ err generic

Ends-give {ℓ} : {A : Type ℓ} (a : A) → Ends (give a)
Ends-give a m e = cc

module _ {ℓ κ} {A : Type ℓ} {B : Type κ} where
  continue-Ends :
      (r : Result A) (m : Mem) (f : A → Alloc B)
      → r ≢ err generic
      → ((a : A) → r ≡ ok a → Ends (f a))
      → (continue r m f).0 ≢ err generic
  continue-Ends (ok a) m f h k = k a refl m
  continue-Ends (err x) m f h k = λ e. h (cc e)

  Ends-bind :
      (c : Alloc A) (f : A → Alloc B)
      → Ends c
      → ((a : A) (m : Mem) → (c m).0 ≡ ok a → Ends (f a))
      → Ends (c >>= f)
  Ends-bind c f hc hf m = continue-Ends (c m).0 (c m).1 f (hc m) (λ a e. hf a m e)

Ends-require : (b : Bool) (x : ErrorCode) → x ≢ generic → Ends (require b x)
Ends-require true x h m e = cc
Ends-require false x h m e = h (cc e)

require-true :
    (b : Bool) (x : ErrorCode) (u : Unit {0}) (m : Mem) → (require b x m).0 ≡ ok u → b ≡ true
require-true true x u m e = refl
require-true false x u m e = cc

Ends-malloc : Ends malloc
Ends-malloc [] e = cc
Ends-malloc (true ∷ m) e = cc
Ends-malloc (false ∷ m) e = cc

Ends-malloc_bytes : (n : ℕ) → Ends (malloc_bytes n)
Ends-malloc_bytes n m e = elim (malloc_bytes-cases n m) [ inl h ↦ cc | inr h ↦ cc ]

Ends-if {ℓ} : {A : Type ℓ} (b : Bool) (c d : Alloc A) → Ends c → Ends d → Ends (if b then c else d)
Ends-if true c d hc hd = hc
Ends-if false c d hc hd = hd

Ends-parse_4b_asn : (cap : Capability) (n : ℕ) (value : List ℕ) → Ends (parse_4b_asn cap n value)
unfolding parse_4b_asn
Ends-parse_4b_asn cap n value =
    Ends-bind _ _ (Ends-require (n == 4) bad_len (λ e. cc)) (λ _ _ _. Ends-give _)

Ends-parse_mp_bgp : (cap : Capability) (n : ℕ) (value : List ℕ) → Ends (parse_mp_bgp cap n value)
unfolding parse_mp_bgp
Ends-parse_mp_bgp cap n value =
    Ends-bind _ _ (Ends-require (n == 4) bad_len (λ e. cc)) (λ _ _ _. Ends-give _)

Ends-parse_unknown :
    (cap : Capability) (code n : ℕ) (value : List ℕ) → Ends (parse_unknown cap code n value)
unfolding parse_unknown
Ends-parse_unknown cap code n value = Ends-bind _ _ (Ends-malloc_bytes n) (λ _ _ _. Ends-give _)

Ends-parse : (cap : Capability) (buf : List ℕ) → Ends (capability_parse cap buf)
unfolding capability_parse
Ends-parse cap buf =
    let code = get_or buf 0 0 in
    let n = get_or buf 1 0 in
    let value = drop 2 buf in
    Ends-bind _ _ (Ends-require (leb 2 (length buf)) bad_len (λ e. cc)) λ _ _ _.
      Ends-bind _ _ (Ends-require (leb (2 + n) (length buf)) bad_len (λ e. cc)) λ _ _ _.
        Ends-if (code == cap_code_4b_asn) _ _ (Ends-parse_4b_asn cap n value) (
          Ends-if (code == cap_code_mp_bgp) _ _ (Ends-parse_mp_bgp cap n value)
            (Ends-parse_unknown cap code n value))

Ends-new : Ends (capability_new type_unknown)
unfolding capability_new
Ends-new = Ends-bind _ _ Ends-malloc (λ _ _ _. Ends-give _)

Ends-add : (msg : OpenMsg) (cap : Capability) → Ends (open_add_capability msg cap)
unfolding open_add_capability
Ends-add msg cap =
    Ends-bind _ _
      (Ends-require (leb (length msg.capabilities) (size_max / 8 - 1)) bad_len (λ e. cc))
      λ _ _ _. Ends-bind _ _ Ends-malloc (λ _ _ _. Ends-give _)

Ends-parse_one : (tmp : OpenMsg) (buf : List ℕ) → Ends (parse_one_capability tmp buf)
unfolding parse_one_capability
Ends-parse_one tmp buf = Ends-bind _ _ Ends-new λ fresh _ _.
    Ends-bind _ _ (Ends-parse fresh buf) λ parsed _ _.
      Ends-bind _ _ (Ends-add tmp parsed.0) λ added _ _.
        Ends-bind _ _ (Ends-require (ltb 0 parsed.1 && leb parsed.1 (length buf)) bad_len (λ e. cc))
          (λ _ _ _. Ends-give _)

-- Whatever a computation yields satisfies `P`.
abbrev Gives {ℓ κ} : {A : Type ℓ} → Alloc A → (A → Type κ) → Type (ℓ ⊔ κ)
Gives {A} c P = (m : Mem) (a : A) → (c m).0 ≡ ok a → P a

module _ {ℓ κ} {A : Type ℓ} {B : Type κ} where
  continue-Gives :
      (r : Result A) (m : Mem) (f : A → Alloc B) (P : B → Type 0)
      → ((a : A) → r ≡ ok a → Gives (f a) P)
      → (b : B) → (continue r m f).0 ≡ ok b
      → P b
  continue-Gives (ok a) m f P h b e = h a refl m b e
  continue-Gives (err x) m f P h b e = cc

  Gives-bind :
      (c : Alloc A) (f : A → Alloc B) (P : B → Type 0)
      → ((a : A) (m : Mem) → (c m).0 ≡ ok a → Gives (f a) P)
      → Gives (c >>= f) P
  Gives-bind c f P h m b e = continue-Gives (c m).0 (c m).1 f P (λ a e'. h a m e') b e

Gives-give {ℓ} : {A : Type ℓ} (a : A) (P : A → Type 0) → P a → Gives (give a) P
Gives-give a P p m b e = subst P (ok_injective e) p

finish_one-used :
    (used n : ℕ) (msg : OpenMsg)
    → Gives
        (require (ltb 0 used && leb used n) bad_len >> give (msg, used))
        (λ (r : OpenMsg × ℕ). 0 < r.1)
finish_one-used used n msg =
    Gives-bind (require (ltb 0 used && leb used n) bad_len) (λ _. give (msg, used)) _
      λ u m e.
        let within = require-true (ltb 0 used && leb used n) bad_len u m e in
        let pos : 0 < used = ground arith in
        Gives-give (msg, used) (λ (r : OpenMsg × ℕ). 0 < r.1) pos

-- A round consumes at least one byte.
parse_one-used :
    (tmp : OpenMsg) (buf : List ℕ) → Gives (parse_one_capability tmp buf) (λ r. 0 < r.1)
unfolding parse_one_capability
parse_one-used tmp buf =
    let finish = λ (parsed : Capability × ℕ) (added : OpenMsg).
      require (ltb 0 parsed.1 && leb parsed.1 (length buf)) bad_len
      >> give (record added { capabilities = unref_last added.capabilities }, parsed.1) in
    Gives-bind (capability_new type_unknown)
      (λ fresh.
        capability_parse fresh buf >>= λ parsed. open_add_capability tmp parsed.0 >>= finish parsed)
      _
      λ fresh _ _.
        Gives-bind (capability_parse fresh buf)
          (λ parsed. open_add_capability tmp parsed.0 >>= finish parsed) _
          λ parsed _ _. Gives-bind (open_add_capability tmp parsed.0) (finish parsed) _ λ added _ _.
            finish_one-used parsed.1 (length buf)
              (record added { capabilities = unref_last added.capabilities })

caps-Ends :
    (fuel : ℕ) (tmp : OpenMsg) (buf : List ℕ)
    → length buf ≤ fuel
    → Ends (open_parse_capabilities fuel tmp buf)
unfolding open_parse_capabilities
caps-Ends fuel tmp [] h = Ends-give tmp
caps-Ends zero tmp (b ∷ bs) h = absurd (omega arith)
caps-Ends (suc fuel) tmp (b ∷ bs) h = Ends-bind _ _ (Ends-parse_one tmp (b ∷ bs)) λ r m e.
    caps-Ends fuel r.0 (drop r.1 (b ∷ bs))
      (omega (arith, length-drop r.1 (b ∷ bs), parse_one-used tmp (b ∷ bs) m r e))

optional-Ends :
    (fuel : ℕ) (tmp : OpenMsg) (buf : List ℕ)
    → length buf ≤ fuel
    → Ends (open_parse_optional fuel tmp buf)
unfolding open_parse_optional
optional-Ends fuel tmp [] h = Ends-give tmp
optional-Ends zero tmp (b ∷ bs) h = absurd (omega arith)
optional-Ends (suc fuel) tmp (b ∷ bs) h =
    let rest = drop 2 (b ∷ bs) in
    let n = get_or (b ∷ bs) 1 0 in
    Ends-bind _ _ (Ends-require (leb 2 (length (b ∷ bs))) bad_len (λ e. cc)) λ _ _ _.
      Ends-bind _ _ (Ends-require (leb n (length rest)) bad_len (λ e. cc)) λ _ _ _.
        Ends-bind _ _ (Ends-require (get_or (b ∷ bs) 0 0 == 2) bad_type (λ e. cc)) λ _ _ _.
          Ends-bind _ _ (caps-Ends n tmp (take n rest) (omega (arith, length-take n rest)))
            λ next _ _.
              optional-Ends fuel next (drop n rest)
                (omega (arith, length-drop n rest, length-drop 2 (b ∷ bs)))

-- On every input and whatever the allocator does, `open_parse` answers with a message or with an error
-- other than LIBBGP_ERR, with which the model marks a loop that has not ended: both loops end.
pub open_parse-Ends : (buf : List ℕ) → Ends (open_parse buf)
unfolding open_parse
open_parse-Ends buf =
    let n = get_or buf 9 0 in
    Ends-bind _ _ (Ends-require (leb 10 (length buf)) bad_len (λ e. cc)) λ _ _ _.
      Ends-bind _ _ (Ends-require (leb n (length buf - 10)) bad_len (λ e. cc)) λ _ _ _.
        Ends-bind _ _
          (optional-Ends n _ (take n (drop 10 buf)) (omega (arith, length-take n (drop 10 buf))))
          (λ _ _ _. Ends-give _)
