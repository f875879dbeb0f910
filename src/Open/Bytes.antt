-- ===== src/Open/Bytes.antt =====
-- The loop of src/open.c over the capabilities of one parameter, on what the writer writes.
use libbgp.Prelude.{
  ℕ, zero, suc, ◌+◌, ◌-◌, ◌/◌, ◌≤◌, ◌<◌, ◌≡◌, refl, subst, sym, ap, List, [], ◌∷◌, ◌++◌, some,
  arith, length, drop, length-append, append_assoc, append-nil, All, le→leb, lt→ltb,
  drop-append_length,
}
use native.Mathlib.Nat.{le_refl}
use libbgp.Prelude.Errors.{ok, Mem}
use libbgp.Prelude.Alloc.{give, continue}
use libbgp.Prelude.Growth.{size_max}
use libbgp.Capability.{
  Capability, asn_4b, mp_bgp, unknown, capability_new, capability_ref, capability_unref,
}
use libbgp.Capability.RoundTrip.{
  IsCapability, value_bytes, capability_bytes, capability_parse-write,
}
use libbgp.Open.{
  OpenMsg, open_add_capability, unref_last, parse_one_capability, open_parse_capabilities,
}

-- A capability that the message alone refers to.
abbrev pub IsOwned : Capability → Type 0
IsOwned c = IsCapability c × (c.refcount ≡ 1)

unref-ref : (c : Capability) → c.refcount ≡ 1 → capability_unref (capability_ref c) ≡ some c
unfolding capability_ref capability_unref
unref-ref c h =
    let same : record c { refcount = 1 } ≡ c = λ i. record c { refcount = sym h i } in
    subst (λ x. capability_unref (capability_ref x) ≡ some x) same refl

unref_last-one : (c d : Capability) → capability_unref c ≡ some d → unref_last (c ∷ []) ≡ d ∷ []
unfolding unref_last
unref_last-one c d e = rw (unref_last, e)

unref_last-append :
    (xs : List Capability) (c : Capability)
    → c.refcount ≡ 1
    → unref_last (xs ++ capability_ref c ∷ []) ≡ xs ++ c ∷ []
unfolding unref_last
unref_last-append [] c h = unref_last-one (capability_ref c) c (unref-ref c h)
unref_last-append (x ∷ []) c h = ap (λ t. x ∷ t) (unref_last-append [] c h)
unref_last-append (x ∷ y ∷ xs) c h = ap (λ t. x ∷ t) (unref_last-append (y ∷ xs) c h)

abbrev add_last : OpenMsg → Capability → OpenMsg
add_last tmp c = record tmp { capabilities = tmp.capabilities ++ c ∷ [] }

pub length-capability_bytes : (c : Capability) → 2 ≤ length (capability_bytes c)
unfolding capability_bytes
length-capability_bytes c = elim c.value as (λ v. 2 ≤ length (value_bytes c.code v)) [
  | asn_4b asn ↦ omega arith
  | mp_bgp afi safi ↦ omega arith
  | unknown bytes ↦ omega arith
]

-- One capability's bytes are one round.
parse_one-bytes :
    (tmp : OpenMsg) (c : Capability) (rest : List ℕ)
    → IsOwned c
    → length tmp.capabilities ≤ 255
    → parse_one_capability tmp (capability_bytes c ++ rest) []
      ≡ (ok (add_last tmp c, length (capability_bytes c)), [])
unfolding parse_one_capability capability_new open_add_capability
parse_one-bytes tmp c rest h few =
    let fresh : Capability = record { refcount = 1; code = 0; value = unknown [] } in
    let parsed =
      (capability_parse-write c fresh (length (capability_bytes c)) rest h.0 (le_refl _)).1 in
    let same : record fresh { code = c.code; value = c.value } ≡ c =
      λ i. record { refcount = sym h.1 i; code = c.code; value = c.value } in
    rw (
      parsed,
      same,
      le→leb (length tmp.capabilities) (size_max / 8 - 1) (omega arith),
      lt→ltb 0 (length (capability_bytes c)) (omega (arith, length-capability_bytes c)),
      le→leb (length (capability_bytes c)) (length (capability_bytes c ++ rest))
          (omega (arith, length-append (capability_bytes c) rest)),
      unref_last-append tmp.capabilities c h.1,
    )

-- The bytes of a list of capabilities.
unfoldable pub capabilities_bytes : List Capability → List ℕ
capabilities_bytes [] = []
capabilities_bytes (c ∷ cs) = capability_bytes c ++ capabilities_bytes cs

abbrev pub add_all : OpenMsg → List Capability → OpenMsg
add_all tmp cs = record tmp { capabilities = tmp.capabilities ++ cs }

pub no_caps : (tmp : OpenMsg) → give tmp [] ≡ (ok (add_all tmp []), [])
no_caps tmp =
    ap (λ t. (ok (record tmp { capabilities = t }), [])) (sym (append-nil tmp.capabilities))

caps_step :
    (fuel : ℕ) (tmp : OpenMsg) (buf : List ℕ) (m : Mem)
    → 0 < length buf
    → open_parse_capabilities (suc fuel) tmp buf m
      ≡ continue
          (parse_one_capability tmp buf m).0
          (parse_one_capability tmp buf m).1
          (λ r. open_parse_capabilities fuel r.0 (drop r.1 buf))
unfolding open_parse_capabilities
caps_step fuel tmp [] m h = absurd (omega arith)
caps_step fuel tmp (b ∷ bs) m h = refl

pub caps-bytes :
    (cs : List Capability) (fuel : ℕ) (tmp : OpenMsg)
    → All IsOwned cs
    → length (capabilities_bytes cs) ≤ fuel
    → length tmp.capabilities + length cs ≤ 255
    → open_parse_capabilities fuel tmp (capabilities_bytes cs) [] ≡ (ok (add_all tmp cs), [])
unfolding capabilities_bytes open_parse_capabilities
caps-bytes [] zero tmp h le few = no_caps tmp
caps-bytes [] (suc fuel) tmp h le few = no_caps tmp
caps-bytes (c ∷ cs) zero tmp h le few = absurd (
    omega (
      arith,
      length-append (capability_bytes c) (capabilities_bytes cs),
      length-capability_bytes c,
    ))
caps-bytes (c ∷ cs) (suc fuel) tmp h le few =
    let one = capability_bytes c in
    let rest = capabilities_bytes cs in
    let long = length-append one rest in
    let two = length-capability_bytes c in
    let next =
      caps-bytes cs fuel (add_last tmp c) h.1 (omega arith)
        (omega (arith, length-append tmp.capabilities (c ∷ []))) in
    rw (
      caps_step fuel tmp (one ++ rest) [] (omega arith),
      parse_one-bytes tmp c rest h.0 (omega arith),
      drop-append_length (length one) one rest refl,
      next,
      append_assoc tmp.capabilities (c ∷ []) cs,
    )
