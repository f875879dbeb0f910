-- ===== src/Pattr/Truncated.antt =====
-- Attributes of which the end is missing, for src/pattr.c.
use libbgp.Prelude.{
  ℕ, ◌+◌, ◌-◌, ◌<◌, ◌≡◌, refl, ap, ◌∙◌, List, ◌++◌, Bool, true, false, ltb, leb, length, take,
  arith, length-append, length-take, take-append_add, Bool-cases, lt→ltb, inl, inr,
}
use libbgp.Prelude.Errors.{err, bad_len, Mem}
use libbgp.Pattr.{Pattr}
use libbgp.Pattr.Read.{header_of, pattr_parse_as4}
use libbgp.Pattr.Write.{extended_of, write_header, header_size}
use libbgp.Pattr.Flags.{has-wire_flags}
use libbgp.Pattr.Values.{value_bytes}
use libbgp.Pattr.RoundTrip.{
  size_of, IsPattr, attr_bytes, length-attr_bytes, length-header, header_of-write,
}

-- A header that is not whole is refused.
header_of-short :
    (a : Pattr) (n k : ℕ) (e : Bool) (rest : List ℕ)
    → a.flags < 256
    → k < header_size e
    → header_of (take k (write_header a n e ++ rest)) ≡ err bad_len
unfolding header_of write_header
header_of-short a n k false rest h short =
    let buf = write_header a n false ++ rest in
    let size = length-take k buf in rw (lt→ltb (length (take k buf)) 3 (omega arith)) refl
header_of-short a n k true rest h short =
    let buf = write_header a n true ++ rest in
    let size = length-take k buf in
    elim (Bool-cases (ltb k 3)) [
      | inl low ↦ rw (lt→ltb (length (take k buf)) 3 (ground arith)) refl
      | inr three ↦ let last : k ≡ 3 = ground arith in rw (last, has-wire_flags a.flags true h) refl
    ]

-- An attribute of which at least the last byte is missing is refused with LIBBGP_ERR_BAD_LEN, wherever it
-- is cut off and whatever the allocator answers.
pub pattr_parse_truncated :
    (four : Bool) (a target : Pattr) (k : ℕ) (m : Mem)
    → IsPattr four a
    → k < length (attr_bytes a)
    → (pattr_parse_as4 target (take k (attr_bytes a)) four m).0 ≡ err bad_len
unfolding pattr_parse_as4
pattr_parse_truncated four a target k m h cut =
    let n = size_of a in
    let e = extended_of a n in
    let hs = header_size e in
    let head = write_header a n e in
    let value = value_bytes a.data_of in
    elim (Bool-cases (ltb k hs)) [
      | inl low ↦ rw (header_of-short a n k e value h.flags_byte (ground arith)) refl
      | inr enough ↦
          let left = take (k - hs) value in
          let part : take k (attr_bytes a) ≡ head ++ left =
            ap (λ (i : ℕ). take i (head ++ value)) {x = k} {y = hs + (k - hs)} (ground arith)
            ∙ take-append_add hs (k - hs) head value (length-header a n e) in
          let found =
            header_of-write a n e left h.flags_byte h.room (λ short. ground (arith, short)) in
          let missing : leb n (length (head ++ left) - hs) ≡ false = ground (
            arith,
            length-append head left,
            length-header a n e,
            length-take (k - hs) value,
            length-attr_bytes a,
          ) in
          rw (part, found, missing) refl
    ]
