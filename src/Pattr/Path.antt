-- ===== src/Pattr/Path.antt =====
-- The path of src/pattr.c: reading what is written, and what a successful reading has read.
use libbgp.Prelude.{
  ℕ, zero, suc, ◌+◌, ◌-◌, ◌*◌, ◌/◌, ◌%◌, ◌^◌, ◌≤◌, ◌≡◌, inl, inr, refl, sym, ap, ap₂, ◌∙◌, subst,
  List, [], ◌∷◌, ◌++◌, Bool, false, ltb, ◌==◌, ◌||◌, length, drop, arith, length-drop, Bool-cases,
  All, All-drop, All-get_or, get_or, drop-append_length,
}
use libbgp.Prelude.Bits.{AllBytes, IsByte}
use libbgp.Prelude.Errors.{ok, Mem, allocate, ok_injective, Result-cases}
use libbgp.Prelude.Growth.{size_max}
use libbgp.Pattr.{AsPathSegment}
use libbgp.Pattr.Read.{
  asn_size, scan_segments, read_asns, read_segments, pattr_align_offset, pattr_as_path_block_layout,
  parse_as_path,
}
use libbgp.Pattr.Write.{write_asns, write_as_path_value}
use libbgp.Pattr.Segments.{
  IsSegment, path_len, path_len-cons, total_asns, total-bound, length-write_asns,
  read_asns-write_asns, length-read_asns, read_asns-IsAsn,
}

layout_ok :
    (segments asns : ℕ)
    → segments ≤ 2 ^ 32
    → asns ≤ 2 ^ 32
    → (size : ℕ) × (pattr_as_path_block_layout segments asns ≡ ok size)
unfolding pattr_as_path_block_layout pattr_align_offset
layout_ok segments asns h k =
    let few : (ltb (size_max / 24) segments || ltb (size_max / 4) asns) ≡ false = ground arith in
    let one : ltb (size_max - segments * 24) 24 ≡ false = ground arith in
    let even : (24 + segments * 24) % 4 ≡ 0 = omega arith in
    let two : ltb (size_max - asns * 4) (24 + segments * 24) ≡ false = ground arith in
    (24 + segments * 24 + asns * 4, rw (few, one, even, two) refl)

-- Behind the two bytes of its header and its AS numbers, a segment ends.
path_drop :
    (f : Bool) (a b : ℕ) (asns rest : List ℕ)
    → drop (2 + length asns * asn_size f) (a ∷ b ∷ (write_asns f asns ++ rest)) ≡ rest
path_drop f a b asns rest =
    let k = length asns * asn_size f in
    ap (λ (i : ℕ). drop i (a ∷ b ∷ (write_asns f asns ++ rest))) {x = 2 + k} {y = suc (suc k)}
      (omega arith)
    ∙ drop-append_length k (write_asns f asns) rest (length-write_asns f asns)

scan_segments-path :
    (fuel : ℕ) (f : Bool) (segments : List AsPathSegment) (count total : ℕ)
    → All (IsSegment f) segments
    → path_len f segments ≤ fuel
    → total + path_len f segments ≤ 2 ^ 32
    → scan_segments fuel f (write_as_path_value f segments) count total
      ≡ ok (count + length segments, total + total_asns segments)
unfolding scan_segments write_as_path_value
scan_segments-path fuel f [] count total h low room =
    ap₂ (λ (a b : ℕ). ok (a, b)) (omega arith) (omega arith)
scan_segments-path zero f (s ∷ segments) count total h low room = absurd (omega arith)
scan_segments-path (suc fuel) f (s ∷ segments) count total h low room =
    let n = length s.asns in
    let size = path_len-cons f s segments in
    let one = h.0 in
    let tail = write_as_path_value f segments in
    let value = s.segment_type ∷ n ∷ (write_asns f s.asns ++ tail) in
    let long : length value ≡ 2 + n * asn_size f + path_len f segments = size in
    let byte : n % 256 ≡ n = omega (arith, one.few_asns) in
    let two : ltb (length value) 2 ≡ false = ground (arith, long) in
    let kind : (ltb s.segment_type 1 || ltb 2 s.segment_type) ≡ false =
      ground (arith, one.kind_low, one.kind_high) in
    let some_asns : (n == 0) ≡ false = ground (arith, one.some_asns) in
    let few : ltb ((size_max - 2) / asn_size f) n ≡ false = ground (arith, one.few_asns) in
    let whole : ltb (length value) (2 + n * asn_size f) ≡ false = ground (arith, long) in
    let sum : ltb (size_max - n) total ≡ false = ground (arith, one.few_asns) in
    let rest =
      scan_segments-path fuel f segments (count + 1) (total + n) h.1 (omega (arith, size))
        (ground (arith, size)) in
    rw (byte, two, kind, some_asns, few, whole, sum, path_drop f s.segment_type n s.asns tail)
      (rest ∙ ap₂ (λ (a b : ℕ). ok (a, b)) (omega arith) (omega arith))

read_segments-path :
    (f : Bool) (segments : List AsPathSegment)
    → All (IsSegment f) segments
    → read_segments (length segments) f (write_as_path_value f segments) ≡ segments
unfolding read_segments write_as_path_value
read_segments-path f [] h = refl
read_segments-path f (s ∷ segments) h =
    let n = length s.asns in
    let tail = write_as_path_value f segments in
    let byte : n % 256 ≡ n = omega (arith, h.0.few_asns) in
    rw (byte, path_drop f s.segment_type n s.asns tail)
      (ap₂
        (λ (a : List ℕ) (b : List AsPathSegment).
          record { segment_type = s.segment_type; asns = a } ∷ b)
        (read_asns-write_asns f s.asns tail h.0.asns_fit) (read_segments-path f segments h.1))

-- A path of valid segments is read back.
pub parse_as_path-path :
    (f : Bool) (segments : List AsPathSegment)
    → All (IsSegment f) segments
    → path_len f segments ≤ 65535
    → parse_as_path f (write_as_path_value f segments) [] ≡ (ok segments, [])
unfolding parse_as_path
parse_as_path-path f [] h room =
    rw (scan_segments-path (path_len f []) f [] 0 0 h (omega arith) (omega arith)) refl
parse_as_path-path f (s ∷ rest) h room =
    let segments = s ∷ rest in
    let scanned =
      scan_segments-path (path_len f segments) f segments 0 0 h (omega arith) (omega arith) in
    let bound = total-bound f segments in
    let n : 0 + length segments ≡ length segments = omega arith in
    let t : 0 + total_asns segments ≡ total_asns segments = omega arith in
    let layout = layout_ok (length segments) (total_asns segments) (omega arith) (omega arith) in
    let some_segments : (length segments == 0) ≡ false = ground arith in
    rw (scanned, n, t, layout.1, read_segments-path f segments h, some_segments) refl

record Scanned (f : Bool) (value : List ℕ) (before after : ℕ) : Type 0 where
  found : ℕ
  added : after ≡ before + found
  valid : All (IsSegment f) (read_segments found f value)
  size : path_len f (read_segments found f value) ≡ length value

-- What a scan that succeeds has found.
scan_segments-Scanned :
    (fuel : ℕ) (f : Bool) (value : List ℕ) (count total : ℕ) (r : ℕ × ℕ)
    → AllBytes value
    → scan_segments fuel f value count total ≡ ok r
    → Scanned f value count r.0
unfolding scan_segments read_segments write_as_path_value
scan_segments-Scanned fuel f [] count total r h e = record {
  found = 0;
  added = omega (arith, ap (λ (p : ℕ × ℕ). p.0) (ok_injective e));
  valid = tt;
  size = refl;
}
scan_segments-Scanned zero f (b ∷ bs) count total r h e = absurd (cc)
scan_segments-Scanned (suc fuel) f (b ∷ bs) count total r h e =
    let value = b ∷ bs in
    let n = get_or value 1 0 in
    let bytes = 2 + n * asn_size f in
    elim (Bool-cases (ltb (length value) 2)) [
      | inl x ↦ absurd (cc (rw x at e))
      | inr two ↦ elim (Bool-cases (ltb b 1 || ltb 2 b)) [
        | inl x ↦ absurd (cc (rw (two, x) at e))
        | inr kind ↦ elim (Bool-cases (n == 0)) [
          | inl x ↦ absurd (cc (rw (two, kind, x) at e))
          | inr some ↦ elim (Bool-cases (ltb ((size_max - 2) / asn_size f) n)) [
            | inl x ↦ absurd (cc (rw (two, kind, some, x) at e))
            | inr few ↦ elim (Bool-cases (ltb (length value) bytes)) [
              | inl x ↦ absurd (cc (rw (two, kind, some, few, x) at e))
              | inr whole ↦ elim (Bool-cases (ltb (size_max - n) total)) [
                | inl x ↦ absurd (cc (rw (two, kind, some, few, whole, x) at e))
                | inr sum ↦
                    let rest =
                      scan_segments-Scanned fuel f (drop bytes value) (count + 1) (total + n) r
                        (All-drop IsByte bytes value h)
                        (rw (two, kind, some, few, whole, sum) at e) in
                    let asns = read_asns n f (drop 2 value) in
                    let s : AsPathSegment = record { segment_type = b; asns = asns } in
                    let many = length-read_asns n f (drop 2 value) in
                    let byte = All-get_or IsByte value 1 0 h (omega arith) in
                    let tail = read_segments rest.found f (drop bytes value) in
                    record {
                      found = suc rest.found;
                      added = omega (arith, rest.added);
                      valid = (
                        record {
                          kind_low = ground arith;
                          kind_high = ground arith;
                          some_asns = ground (arith, many);
                          few_asns = omega (arith, many, byte);
                          asns_fit = read_asns-IsAsn n f (drop 2 value) (All-drop IsByte 2 value h);
                        },
                        rest.valid,
                      );
                      size =
                          path_len-cons f s tail
                          ∙ ap₂ (λ (a z : ℕ). 2 + a * asn_size f + z) many rest.size
                          ∙ ground (arith, length-drop bytes value);
                    }
              ]
            ]
          ]
        ]
      ]
    ]

-- What a successful reading answers, once the scan has counted.
filled-segments :
    (f : Bool) (value : List ℕ) (m : Mem) (segments : List AsPathSegment) (r : ℕ × ℕ)
    → scan_segments (length value) f value 0 0 ≡ ok r
    → (parse_as_path f value m).0 ≡ ok segments
    → segments ≡ read_segments r.0 f value
unfolding parse_as_path read_segments
filled-segments f value m segments r scanned e = elim (Bool-cases (r.0 == 0)) [
  | inl z ↦
      let zero_found : r.0 ≡ 0 = ground arith in
      sym (ok_injective (rw (scanned, z) at e))
      ∙ sym (ap (λ (n : ℕ). read_segments n f value) zero_found)
  | inr nz ↦ elim (Result-cases (pattr_as_path_block_layout r.0 r.1)) [
    | inr x ↦ absurd (cc (rw (scanned, nz, x.1) at e))
    | inl size ↦ elim (Bool-cases (allocate m).0) [
      | inr x ↦ absurd (cc (rw (scanned, nz, size.1, x) at e))
      | inl got ↦ sym (ok_injective (rw (scanned, nz, size.1, got) at e))
    ]
  ]
]

-- A path that was read is valid, and its bytes are as many as were read.
pub parse_as_path-IsSegment :
    (f : Bool) (value : List ℕ) (m : Mem) (segments : List AsPathSegment)
    → AllBytes value
    → (parse_as_path f value m).0 ≡ ok segments
    → All (IsSegment f) segments × (path_len f segments ≡ length value)
unfolding parse_as_path
parse_as_path-IsSegment f value m segments h e =
    elim (Result-cases (scan_segments (length value) f value 0 0)) [
      | inr x ↦ absurd (cc (rw x.1 at e))
      | inl r ↦
          let scanned = scan_segments-Scanned (length value) f value 0 0 r.0 h r.1 in
          let all : segments ≡ read_segments scanned.found f value =
            filled-segments f value m segments r.0 r.1 e
            ∙ ap (λ (n : ℕ). read_segments n f value) (omega (arith, scanned.added)) in
          subst (λ (s : List AsPathSegment). All (IsSegment f) s × (path_len f s ≡ length value))
            (sym all) (scanned.valid, scanned.size)
    ]
