-- ===== src/Prefix6/Codec.antt =====
-- Reading back what src/prefix6.c writes, and writing back what it reads.
use libbgp.Prelude.{
  ℕ, suc, ◌+◌, ◌≤◌, ◌≡◌, ◌++◌, List, [], ◌∷◌, arith, length, length-append, take-append_length,
  le→leb,
}
use libbgp.Prelude.Bits.{AllBytes}
use libbgp.Prelude.Errors.{ok}
use libbgp.Prefix.{Prefix, prefix_octets, mask_bytes}
use libbgp.Prefix.Octets.{masked_octets, fill, zero-fill, fill-AllBytes, length-fill}
use libbgp.Prefix.Codec.{PrefixCodec, canonical}
use libbgp.Prefix.Codec
use libbgp.Prefix6.Masks.{mask_addr-mask_bytes}
use libbgp.Prefix6.{Prefix6, IsPrefix6, prefix6_parse, prefix6_write}

pub write_form :
    (p : Prefix6) (cap : ℕ)
    → IsPrefix6 p
    → 1 + prefix_octets p.len ≤ cap
    → prefix6_write p cap ≡ ok (p.len ∷ masked_octets p.len p.addr)
unfolding prefix6_write
write_form p cap h le =
    rw (mask_addr-mask_bytes p.len p.addr h.bytes h.sized h.short) (ground arith)

-- What parsing makes of the octets `xs` behind a length byte.
parse_form :
    (cidr : ℕ) (xs rest : List ℕ)
    → cidr ≤ 128
    → AllBytes xs
    → length xs ≡ prefix_octets cidr
    → prefix6_parse (cidr ∷ xs ++ rest)
      ≡ ok (record { addr = mask_bytes cidr (fill 16 cidr xs); len = cidr }, 1 + prefix_octets cidr)
unfolding prefix6_parse
parse_form cidr xs rest le h e = rw (
  le→leb 1 (suc (length (xs ++ rest))) (omega arith),
  le→leb cidr 128 le,
  take-append_length (prefix_octets cidr) xs rest e,
  mask_addr-mask_bytes cidr (fill 16 cidr xs) (fill-AllBytes 16 cidr xs h e le)
      (length-fill 16 cidr xs h e le) le,
  zero-fill 16 cidr xs h e,
  le→leb (1 + prefix_octets cidr) (suc (length (xs ++ rest)))
      (omega (arith, length-append xs rest)),
)

parse_empty : (r : Prefix × ℕ) → ¬ (prefix6_parse [] ≡ ok r)
unfolding prefix6_parse
parse_empty r e = cc

parse_guards :
    (cidr : ℕ) (bs : List ℕ) (r : Prefix × ℕ)
    → prefix6_parse (cidr ∷ bs) ≡ ok r
    → (cidr ≤ 128) × (prefix_octets cidr ≤ length bs)
unfolding prefix6_parse
parse_guards cidr bs r e = ground arith

abbrev codec6 : PrefixCodec 16
codec6 = record {
  parse = prefix6_parse;
  write = prefix6_write;
  write_form = write_form;
  parse_form = parse_form;
  parse_empty = parse_empty;
  parse_guards = parse_guards;
}

-- Writing a valid prefix succeeds in any buffer with room for its 1 + ceil(len / 8) bytes, writes
-- exactly those, and parsing them, with anything behind, yields the prefix with its host bits cleared
-- and consumes exactly what was written.
pub prefix6_parse-write :
    (p : Prefix6) (cap : ℕ) (rest : List ℕ)
    → IsPrefix6 p
    → 1 + prefix_octets p.len ≤ cap
    → (out : List ℕ) × (prefix6_write p cap ≡ ok out)
      × (length out ≡ 1 + prefix_octets p.len)
      × (prefix6_parse (out ++ rest) ≡ ok (canonical p, length out))
prefix6_parse-write = Codec.parse-write codec6

-- A parse that succeeds consumes one byte and the octets of the prefix, all within the input; the
-- prefix is valid with its host bits clear, and writing it into as many bytes as were consumed succeeds
-- and gives bytes that parse to the same prefix.
pub prefix6_write-parse :
    (buf : List ℕ) (p : Prefix6) (n : ℕ)
    → AllBytes buf
    → prefix6_parse buf ≡ ok (p, n)
    → (n ≡ 1 + prefix_octets p.len)
      × (n ≤ length buf)
      × IsPrefix6 p
      × (canonical p ≡ p)
      × (out : List ℕ) × (prefix6_write p n ≡ ok out)
      × (length out ≡ n)
      × (prefix6_parse out ≡ ok (p, n))
prefix6_write-parse = Codec.write-parse codec6
