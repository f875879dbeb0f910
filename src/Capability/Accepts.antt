-- ===== src/Capability/Accepts.antt =====
-- What a successful parse of src/capability.c has read.
use libbgp.Prelude.{
  ℕ, suc, ◌+◌, ◌≤◌, ◌<◌, ◌≡◌, inl, inr, refl, sym, ==→eq, le→leb, leb→le, List, [], ◌∷◌, leb, ◌==◌,
  if◌then◌else◌, length, get_or, take, arith, length-take, Bool-cases, All-get_or,
}
use libbgp.Prelude.Bits.{AllBytes, IsByte}
use libbgp.Prelude.Errors.{ok, Mem, ok_injective}
use libbgp.Prelude.Alloc.{Alloc, malloc_bytes-cases}
use libbgp.Prelude.Wire.{bgp_get_be16, bgp_get_be32}
use libbgp.Capability.{
  Capability, asn_4b, mp_bgp, unknown, cap_code_4b_asn, cap_code_mp_bgp, capability_parse,
  parse_4b_asn, parse_mp_bgp, parse_unknown,
}
use libbgp.Capability.RoundTrip.{IsCapability}

byte_at : (buf : List ℕ) (i : ℕ) → AllBytes buf → get_or buf i 0 < 256
byte_at buf i h = All-get_or IsByte buf i 0 h (omega arith)

-- What holds of a capability that was read into `target`, and of the bytes consumed.
abbrev pub Read : Capability → List ℕ → Capability × ℕ → Type 0
Read target buf r =
    IsCapability r.0
    × (r.0.code ≡ get_or buf 0 0)
    × (r.0.refcount ≡ target.refcount)
    × (r.1 ≡ 2 + get_or buf 1 0)
    × (r.1 ≤ length buf)

module _ (target : Capability) (m : Mem) (r : Capability × ℕ) where
  asn-eq :
      (n : ℕ) (value : List ℕ)
      → (parse_4b_asn target n value m).0 ≡ ok r
      → r ≡ (record target { code = cap_code_4b_asn; value = asn_4b (bgp_get_be32 value) }, 2 + n)
  unfolding parse_4b_asn
  asn-eq n value e = elim (Bool-cases (n == 4)) [
    | inl t ↦ ok_injective (sym (rw t at e))
    | inr t ↦ cc (rw t at e)
  ]

  mp_bgp-eq :
      (n : ℕ) (value : List ℕ)
      → (parse_mp_bgp target n value m).0 ≡ ok r
      → r ≡ (
        record target {
          code = cap_code_mp_bgp;
          value = mp_bgp (bgp_get_be16 value) (get_or value 3 0);
        },
        2 + n,
      )
  unfolding parse_mp_bgp
  mp_bgp-eq n value e = elim (Bool-cases (n == 4)) [
    | inl t ↦ ok_injective (sym (rw t at e))
    | inr t ↦ cc (rw t at e)
  ]

  unknown-eq :
      (code n : ℕ) (value : List ℕ)
      → (parse_unknown target code n value m).0 ≡ ok r
      → r ≡ (record target { code = code; value = unknown (take n value) }, 2 + n)
  unfolding parse_unknown
  unknown-eq code n value e = elim (malloc_bytes-cases n m) [
    | inl t ↦ ok_injective (sym (rw t at e))
    | inr t ↦ cc (rw t at e)
  ]

abbrev dispatch : Capability → ℕ → ℕ → List ℕ → Alloc (Capability × ℕ)
dispatch target code n value =
    let known =
      if code == cap_code_mp_bgp
      then parse_mp_bgp target n value
      else parse_unknown target code n value in
    if code == cap_code_4b_asn then parse_4b_asn target n value else known

parse-room :
    (target : Capability) (code n : ℕ) (value : List ℕ) (m : Mem) (r : Capability × ℕ)
    → (capability_parse target (code ∷ n ∷ value) m).0 ≡ ok r
    → (2 + n ≤ suc (suc (length value))) × ((dispatch target code n value m).0 ≡ ok r)
unfolding capability_parse
parse-room target code n value m r e =
    let two = le→leb 2 (suc (suc (length value))) (omega arith) in
    elim (Bool-cases (leb (2 + n) (suc (suc (length value))))) [
      | inl t ↦ (leb→le (2 + n) (suc (suc (length value))) t, (rw (two, t) at e))
      | inr t ↦ cc (rw (two, t) at e)
    ]

module _ (target : Capability) (code n : ℕ) (value : List ℕ) (r : Capability × ℕ)
    (h : AllBytes (code ∷ n ∷ value)) (fits : 2 + n ≤ suc (suc (length value))) where
  dispatch-Read :
      (m : Mem) → (dispatch target code n value m).0 ≡ ok r → Read target (code ∷ n ∷ value) r
  dispatch-Read m e = elim (Bool-cases (code == cap_code_4b_asn)) [
    | inl t ↦
        let c : code ≡ cap_code_4b_asn = ==→eq code cap_code_4b_asn t in
        let same = asn-eq target m r n value (rw t at e) in
        rw same (
          (
            refl,
            omega (
              arith,
              byte_at value 0 h.1.1,
              byte_at value 1 h.1.1,
              byte_at value 2 h.1.1,
              byte_at value 3 h.1.1,
            ),
          ),
          sym c,
          refl,
          refl,
          fits,
        )
    | inr t ↦ elim (Bool-cases (code == cap_code_mp_bgp)) [
      | inl t' ↦
          let c : code ≡ cap_code_mp_bgp = ==→eq code cap_code_mp_bgp t' in
          let same = mp_bgp-eq target m r n value (rw (t, t') at e) in
          rw same (
            (
              refl,
              omega (arith, byte_at value 0 h.1.1, byte_at value 1 h.1.1),
              byte_at value 3 h.1.1,
            ),
            sym c,
            refl,
            refl,
            fits,
          )
      | inr t' ↦
          let same = unknown-eq target m r code n value (rw (t, t') at e) in
          rw same (
            (ground arith, ground arith, h.0, omega (arith, length-take n value, h.1.0)),
            refl,
            refl,
            refl,
            fits,
          )
    ]
  ]

-- On bytes, whatever the allocator does, a parse that succeeds gives a valid capability with the code
-- of the first byte, keeps the reference count, and consumes two bytes and the value, within the input.
pub capability_parse-Read :
    (target : Capability) (buf : List ℕ) (m : Mem) (r : Capability × ℕ)
    → AllBytes buf
    → (capability_parse target buf m).0 ≡ ok r
    → Read target buf r
capability_parse-Read target [] m r h e = unfold capability_parse in cc
capability_parse-Read target (a ∷ []) m r h e = unfold capability_parse in cc
capability_parse-Read target (code ∷ n ∷ value) m r h e =
    let (fits, rest) = parse-room target code n value m r e in
    dispatch-Read target code n value r h fits m rest
