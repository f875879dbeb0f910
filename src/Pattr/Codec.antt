-- ===== src/Pattr/Codec.antt =====
-- The codec of src/pattr.c as its callers see it.
use libbgp.Prelude.{
  ℕ, ◌+◌, ◌-◌, ◌≤◌, ◌≡◌, inl, inr, refl, sym, ap, ap₂, ◌∙◌, subst, List, [], ◌++◌, Bool, true,
  false, ltb, leb, length, drop, take, get_or, arith, length-drop, length-take, append-nil,
  Bool-cases, All-drop, All-take, All-get_or, leb→le, ge→ltb,
}
use libbgp.Prelude.Bits.{AllBytes, IsByte}
use libbgp.Prelude.Errors.{ok, Mem, ok_injective, Result-cases}
use libbgp.Pattr.{
  Pattr, PattrData, pattr_type_from_code, pattr_known_flags_valid, has, flag_extended_length,
}
use libbgp.Pattr.Read.{header_of, parse_value, pattr_parse_as4}
use libbgp.Pattr.Write.{extended_of, wire_flags, header_size, pattr_wire_len, pattr_write}
use libbgp.Pattr.Flags.{wire_flags-has}
use libbgp.Pattr.Segments.{be16-bound}
use libbgp.Pattr.Accepts.{Took, parse_value-Took}
use libbgp.Pattr.RoundTrip.{
  size_of, IsPattr, attr_bytes, length-attr_bytes, on_wire, pattr_write-attr_bytes,
  pattr_wire_len-IsPattr, pattr_parse-attr_bytes,
}

-- Writing a valid attribute succeeds in any buffer with room for its header and value, writes exactly as
-- many bytes as the length function announces, and parsing them, with anything behind and an allocator
-- that does not fail, consumes exactly these and yields the attribute with the flags that were written.
pub pattr_parse-write :
    (four : Bool) (a target : Pattr) (room : ℕ) (rest : List ℕ)
    → IsPattr four a
    → header_size (extended_of a (size_of a)) + size_of a ≤ room
    → (out : List ℕ) × (pattr_write a room ≡ ok out)
      × (pattr_wire_len a ≡ ok (length out))
      × (pattr_parse_as4 target (out ++ rest) four [] ≡ (ok (on_wire target a, length out), []))
pattr_parse-write four a target room rest h fits = (
  attr_bytes a,
  pattr_write-attr_bytes four a room h (omega (arith, length-attr_bytes a)),
  pattr_wire_len-IsPattr four a h,
  pattr_parse-attr_bytes four a target rest h,
)

-- What the header of some bytes has said, with a value of the length that it says.
abbrev Headed : List ℕ → ℕ × ℕ → Type 0
Headed buf r =
    (r.0 ≡ header_size (has (get_or buf 0 0) flag_extended_length))
    × (r.1 ≤ 65535)
    × (r.0 ≤ length buf)
    × (has (get_or buf 0 0) flag_extended_length ≡ false → r.1 ≤ 255)

header_of-Headed : (buf : List ℕ) (r : ℕ × ℕ) → AllBytes buf → header_of buf ≡ ok r → Headed buf r
unfolding header_of
header_of-Headed buf r h e = elim (Bool-cases (ltb (length buf) 3)) [
  | inl x ↦ absurd (cc (rw x at e))
  | inr three ↦ elim (Bool-cases (has (get_or buf 0 0) flag_extended_length)) [
    | inl long ↦ elim (Bool-cases (ltb (length buf) 4)) [
      | inl x ↦ absurd (cc (rw (three, long, x) at e))
      | inr four ↦ subst (Headed buf) (ok_injective (rw (three, long, four) at e)) (
        ap header_size (sym long),
        omega (arith, be16-bound (drop 2 buf) (All-drop IsByte 2 buf h)),
        ground arith,
        λ short. absurd (cc),
      )
    ]
    | inr short ↦
        let byte = All-get_or IsByte buf 2 0 h (omega arith) in
        subst (Headed buf) (ok_injective (rw (three, short) at e))
          (ap header_size (sym short), omega (arith, byte), ground arith, λ s. omega (arith, byte))
  ]
]

-- What a successful parse has read.
record Parsed (four : Bool) (target : Pattr) (buf : List ℕ) (r : Pattr × ℕ) : Type 0 where
  valid : IsPattr four r.0
  used : r.1 ≡ length (attr_bytes r.0)
  inside : r.1 ≤ length buf
  same : on_wire target r.0 ≡ r.0

-- A header with two bytes of length is written again where there was one, and only there.
extended-kept :
    (a : Pattr) (n : ℕ)
    → (has a.flags flag_extended_length ≡ false → n ≤ 255)
    → extended_of a n ≡ has a.flags flag_extended_length
extended-kept a n h = elim (Bool-cases (has a.flags flag_extended_length)) [
  | inl long ↦ rw long (ground arith)
  | inr short ↦ rw (short, ge→ltb 255 n (h short)) refl
]

made-Parsed :
    (four : Bool) (target : Pattr) (buf : List ℕ) (header_len value_len : ℕ) (d : PattrData)
    → AllBytes buf
    → Headed buf (header_len, value_len)
    → value_len ≤ length buf - header_len
    → pattr_known_flags_valid (pattr_type_from_code (get_or buf 1 0)) (get_or buf 0 0) ≡ true
    → Took (pattr_type_from_code (get_or buf 1 0)) four (take value_len (drop header_len buf)) d
    → Parsed four target buf (
      record target { flags = get_or buf 0 0; type_code = get_or buf 1 0; data_of = d },
      header_len + value_len,
    )
made-Parsed four target buf header_len value_len d h head fits valid took =
    let flags = get_or buf 0 0 in
    let a : Pattr = record target { flags = flags; type_code = get_or buf 1 0; data_of = d } in
    let byte = All-get_or IsByte buf 0 0 h (omega arith) in
    let size : size_of a ≡ value_len =
      omega
        (arith, took.2, length-take value_len (drop header_len buf), length-drop header_len buf) in
    let kept = extended-kept a (size_of a) (λ short. omega (arith, head.3 short, size)) in
    record {
      valid = record {
        flags_byte = byte;
        code_byte = All-get_or IsByte buf 1 0 h (omega arith);
        valid = valid;
        belongs = took.1;
        value = took.0;
        room = omega (arith, size, head.1);
      };
      used =
          ap₂ (λ (x y : ℕ). x + y) (head.0 ∙ ap header_size (sym kept)) (sym size)
          ∙ sym (length-attr_bytes a);
      inside = omega (arith, head.2);
      same =
          ap (λ (f : ℕ). record target { flags = f; type_code = get_or buf 1 0; data_of = d })
            (ap (wire_flags flags) kept ∙ wire_flags-has flags byte);
    }

pattr_parse-Parsed :
    (four : Bool) (target : Pattr) (buf : List ℕ) (m : Mem) (r : Pattr × ℕ)
    → AllBytes buf
    → (pattr_parse_as4 target buf four m).0 ≡ ok r
    → Parsed four target buf r
unfolding pattr_parse_as4
pattr_parse-Parsed four target buf m r h e = elim (Result-cases (header_of buf)) [
  | inr x ↦ absurd (cc (rw x.1 at e))
  | inl head ↦
      let hl = head.0.0 in
      let n = head.0.1 in
      let flags = get_or buf 0 0 in
      let code = get_or buf 1 0 in
      let t = pattr_type_from_code code in
      let value = take n (drop hl buf) in
      elim (Bool-cases (leb n (length buf - hl))) [
        | inr x ↦ absurd (cc (rw (head.1, x) at e))
        | inl fits ↦ elim (Bool-cases (pattr_known_flags_valid t flags)) [
          | inr x ↦ absurd (cc (rw (head.1, fits, x) at e))
          | inl valid ↦ elim (Result-cases (parse_value t four value m).0) [
            | inr x ↦ absurd (cc (rw (head.1, fits, valid, x.1) at e))
            | inl d ↦
                let took =
                  parse_value-Took t four value m d.0
                    (All-take IsByte n (drop hl buf) (All-drop IsByte hl buf h)) d.1 in
                subst (Parsed four target buf) (ok_injective (rw (head.1, fits, valid, d.1) at e)) (
                  made-Parsed four target buf hl n d.0 h (header_of-Headed buf head.0 h head.1)
                    (leb→le _ _ fits) valid took)
          ]
        ]
      ]
]

-- An attribute that was parsed from bytes, whatever the allocator answered, was parsed within them and is
-- valid: writing it into as many bytes as were consumed succeeds, takes exactly these, and parsing what was
-- written into the same target yields the same attribute again.
pub pattr_write-parse :
    (four : Bool) (target a : Pattr) (buf : List ℕ) (n : ℕ) (m : Mem)
    → AllBytes buf
    → (pattr_parse_as4 target buf four m).0 ≡ ok (a, n)
    → (n ≤ length buf)
      × IsPattr four a
      × (out : List ℕ) × (pattr_write a n ≡ ok out)
      × (length out ≡ n)
      × (pattr_parse_as4 target out four [] ≡ (ok (a, n), []))
pattr_write-parse four target a buf n m h e =
    let p = pattr_parse-Parsed four target buf m (a, n) h e in
    let out = attr_bytes a in
    let back = pattr_parse-attr_bytes four a target [] p.valid in
    (
      p.inside,
      p.valid,
      out,
      pattr_write-attr_bytes four a n p.valid (omega (arith, p.used)),
      sym p.used,
      ap (λ (b : List ℕ). pattr_parse_as4 target b four []) (sym (append-nil out))
          ∙ back
          ∙ ap₂ (λ (b : Pattr) (k : ℕ). (ok (b, k), [])) p.same (sym p.used),
    )
