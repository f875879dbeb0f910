-- ===== src/Open/Query.antt =====
-- The queries of src/open.c for a capability: which one they answer from.
use libbgp.Prelude.{ℕ, ◌≡◌, ◌⊎◌, inl, inr, refl, ap, List, [], ◌∷◌, ◌++◌, Bool, true, false, All}
use libbgp.Capability.{Capability, CapabilityValue, asn_4b, mp_bgp, unknown}
use libbgp.Open.{open_has_4b_asn, open_get_4b_asn}

abbrev pub is_4b_asn : CapabilityValue → Bool
is_4b_asn (asn_4b asn) = true
is_4b_asn (mp_bgp afi safi) = false
is_4b_asn (unknown bytes) = false

abbrev pub IsOther : Capability → Type 0
IsOther c = is_4b_asn c.value ≡ false

-- The first capability with a number of four octets, and that number.
abbrev pub First : List Capability → ℕ → Type 0
First cs asn =
    (before : List Capability) × (cap : Capability) × (after : List Capability) × (cs
      ≡ before ++ cap ∷ after)
    × All IsOther before
    × (cap.value ≡ asn_4b asn)

abbrev pub Answered : List Capability → ℕ → Type 0
Answered cs my_asn =
    ((open_has_4b_asn cs ≡ true) × First cs (open_get_4b_asn cs my_asn))
    ⊎ ((open_has_4b_asn cs ≡ false) × (open_get_4b_asn cs my_asn ≡ my_asn) × All IsOther cs)

skip_other :
    (c : Capability) (cs : List Capability) (my_asn : ℕ)
    → IsOther c
    → open_has_4b_asn (c ∷ cs) ≡ open_has_4b_asn cs
    → open_get_4b_asn (c ∷ cs) my_asn ≡ open_get_4b_asn cs my_asn
    → Answered cs my_asn
    → Answered (c ∷ cs) my_asn
skip_other c cs my_asn other has get (inl found) =
    let f = found.1 in
    rw (has, get) (inl (found.0, (c ∷ f.0, f.1, f.2, ap (λ t. c ∷ t) f.3, (other, f.4), f.5)))
skip_other c cs my_asn other has get (inr no_one) =
    rw (has, get) (inr (no_one.0, no_one.1, (other, no_one.2)))

answer_next :
    (rc code : ℕ) (v : CapabilityValue) (cs : List Capability) (my_asn : ℕ)
    → Answered cs my_asn
    → Answered (record { refcount = rc; code = code; value = v } ∷ cs) my_asn
unfolding open_has_4b_asn open_get_4b_asn
answer_next rc code (asn_4b asn) cs my_asn h =
    inl (refl, ([], record { refcount = rc; code = code; value = asn_4b asn }, cs, refl, tt, refl))
answer_next rc code (mp_bgp afi safi) cs my_asn h = skip_other _ cs my_asn refl refl refl h
answer_next rc code (unknown bytes) cs my_asn h = skip_other _ cs my_asn refl refl refl h

-- `open_has_4b_asn` answers true exactly if some capability has a number of four octets, and then
-- `open_get_4b_asn` gives the number of the first of them; otherwise it gives the field of two octets.
pub open_get_4b_asn-Answered : (cs : List Capability) (my_asn : ℕ) → Answered cs my_asn
unfolding open_has_4b_asn open_get_4b_asn
open_get_4b_asn-Answered [] my_asn = inr (refl, refl, tt)
open_get_4b_asn-Answered (c ∷ cs) my_asn =
    answer_next c.refcount c.code c.value cs my_asn (open_get_4b_asn-Answered cs my_asn)
