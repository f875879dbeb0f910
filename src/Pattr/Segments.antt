-- ===== src/Pattr/Segments.antt =====
-- Numbers and segments of a path in src/pattr.c, written and read back.
use libbgp.Prelude.{
  ℕ, zero, suc, ◌+◌, ◌-◌, ◌*◌, ◌/◌, ◌^◌, ◌≤◌, ◌<◌, ◌≡◌, refl, ap, ap₂, ◌∙◌, List, [], ◌∷◌, ◌++◌,
  Bool, true, false, not, ltb, leb, ◌||◌, if◌then◌else◌, length, drop, arith, length-append, All,
  All-get_or, All-drop, ge→ltb,
}
use libbgp.Prelude.Bits.{AllBytes, IsByte}
use libbgp.Prelude.Errors.{ok}
use libbgp.Prelude.Wire.{bgp_get_be16, bgp_get_be32, get-put_be32}
use libbgp.Prelude.Growth.{size_max}
use libbgp.Pattr.{AsPathSegment}
use libbgp.Pattr.Read.{asn_size, read_asns}
use libbgp.Pattr.Write.{
  write_asns, write_as_path_value, add_size, segments_len, all_16bit, segments_16bit,
}

-- The numbers that fit a field of four or of two octets.
abbrev pub limit : Bool → ℕ
limit is_4b = if is_4b then 2 ^ 32 else 2 ^ 16

abbrev pub IsAsn : Bool → ℕ → Type 0
IsAsn is_4b asn = asn < limit is_4b

pub length-write_asns :
    (f : Bool) (asns : List ℕ) → length (write_asns f asns) ≡ length asns * asn_size f
unfolding write_asns
length-write_asns true [] = refl
length-write_asns false [] = refl
length-write_asns true (a ∷ asns) = omega (arith, length-write_asns true asns)
length-write_asns false (a ∷ asns) = omega (arith, length-write_asns false asns)

pub read_asns-write_asns :
    (f : Bool) (asns rest : List ℕ)
    → All (IsAsn f) asns
    → read_asns (length asns) f (write_asns f asns ++ rest) ≡ asns
unfolding read_asns write_asns
read_asns-write_asns f [] rest h = refl
read_asns-write_asns true (a ∷ asns) rest h =
    ap₂ ◌∷◌ (get-put_be32 a (write_asns true asns ++ rest) h.0)
      (read_asns-write_asns true asns rest h.1)
read_asns-write_asns false (a ∷ asns) rest h =
    ap₂ ◌∷◌ (omega (arith, h.0)) (read_asns-write_asns false asns rest h.1)

pub length-read_asns : (n : ℕ) (f : Bool) (value : List ℕ) → length (read_asns n f value) ≡ n
unfolding read_asns
length-read_asns zero f value = refl
length-read_asns (suc n) f value = ap suc (length-read_asns n f (drop (asn_size f) value))

pub be16-bound : (value : List ℕ) → AllBytes value → bgp_get_be16 value < 2 ^ 16
be16-bound value h = omega (
  arith,
  All-get_or IsByte value 0 0 h (omega arith),
  All-get_or IsByte value 1 0 h (omega arith),
)

pub be32-bound : (value : List ℕ) → AllBytes value → bgp_get_be32 value < 2 ^ 32
be32-bound value h = omega (
  arith,
  All-get_or IsByte value 0 0 h (omega arith),
  All-get_or IsByte value 1 0 h (omega arith),
  All-get_or IsByte value 2 0 h (omega arith),
  All-get_or IsByte value 3 0 h (omega arith),
)

pub read_asns-IsAsn :
    (n : ℕ) (f : Bool) (value : List ℕ) → AllBytes value → All (IsAsn f) (read_asns n f value)
unfolding read_asns
read_asns-IsAsn zero f value h = tt
read_asns-IsAsn (suc n) true value h =
    (be32-bound value h, read_asns-IsAsn n true (drop 4 value) (All-drop IsByte 4 value h))
read_asns-IsAsn (suc n) false value h =
    (be16-bound value h, read_asns-IsAsn n false (drop 2 value) (All-drop IsByte 2 value h))

-- A segment that both sides take: the reader refuses one without AS numbers.
pub record IsSegment (f : Bool) (s : AsPathSegment) : Type 0 where
  pub kind_low : 1 ≤ s.segment_type
  pub kind_high : s.segment_type ≤ 2
  pub some_asns : 0 < length s.asns
  pub few_asns : length s.asns ≤ 255
  pub asns_fit : All (IsAsn f) s.asns

-- The bytes of a path.
abbrev pub path_len : Bool → List AsPathSegment → ℕ
path_len f segments = length (write_as_path_value f segments)

pub path_len-cons :
    (f : Bool) (s : AsPathSegment) (segments : List AsPathSegment)
    → path_len f (s ∷ segments) ≡ 2 + length s.asns * asn_size f + path_len f segments
unfolding write_as_path_value
path_len-cons f s segments = omega (
  arith,
  length-append (write_asns f s.asns) (write_as_path_value f segments),
  length-write_asns f s.asns,
)

pub segments_len-path :
    (f : Bool) (segments : List AsPathSegment) (len : ℕ)
    → All (IsSegment f) segments
    → len + path_len f segments ≤ size_max
    → segments_len f segments len ≡ ok (len + path_len f segments)
unfolding segments_len add_size write_as_path_value
segments_len-path f [] len h room = ap ok (omega arith)
segments_len-path f (s ∷ segments) len h room =
    let n = length s.asns in
    let one = h.0 in
    let size = path_len-cons f s segments in
    let now = len + (2 + n * asn_size f) in
    let kind : not (ltb s.segment_type 1 || ltb 2 s.segment_type || ltb 255 n) ≡ true =
      ground (arith, one.kind_low, one.kind_high, one.few_asns) in
    let count : leb n ((size_max - 2) / asn_size f) ≡ true = ground (arith, one.few_asns) in
    let fits : ltb (size_max - (2 + n * asn_size f)) len ≡ false = ground (arith, size) in
    rw (kind, count, fits)
      (segments_len-path f segments now h.1 (omega (arith, size)) ∙ ap ok (omega (arith, size)))

all_16bit-fits : (asns : List ℕ) → All (IsAsn false) asns → all_16bit asns ≡ true
unfolding all_16bit
all_16bit-fits [] h = refl
all_16bit-fits (a ∷ asns) h = rw (ge→ltb 65535 a (omega (arith, h.0))) (all_16bit-fits asns h.1)

pub segments_16bit-fits :
    (segments : List AsPathSegment)
    → All (IsSegment false) segments
    → segments_16bit segments ≡ true
unfolding segments_16bit
segments_16bit-fits [] h = refl
segments_16bit-fits (s ∷ segments) h =
    rw (all_16bit-fits s.asns h.0.asns_fit) (segments_16bit-fits segments h.1)

-- The AS numbers of all segments.
abbrev pub total_asns : List AsPathSegment → ℕ
total_asns [] = 0
total_asns (s ∷ segments) = length s.asns + total_asns segments

pub total-bound :
    (f : Bool) (segments : List AsPathSegment)
    → total_asns segments + length segments ≤ path_len f segments
unfolding write_as_path_value
total-bound f [] = omega arith
total-bound f (s ∷ segments) = ground (arith, total-bound f segments, path_len-cons f s segments)
