-- ===== src/Prefix4/Codec.antt =====
-- Reading back what src/prefix4.c writes, and writing back what it reads.
use libbgp.Prelude.{
  ℕ, suc, ◌+◌, ◌≤◌, ◌≡◌, ◌++◌, List, [], ◌∷◌, arith, length, length-append, take-append_length,
  le→leb,
}
use libbgp.Prelude.Bits.{AllBytes}
use libbgp.Prelude.Errors.{ok}
use libbgp.Prefix.{Prefix, prefix_octets, mask_bytes}
use libbgp.Prefix.Octets.{masked_octets, wire_octets-masked, fill, mask-fill}
use libbgp.Prefix.Codec.{PrefixCodec, canonical}
use libbgp.Prefix.Codec
use libbgp.Prefix4.{Prefix4, IsPrefix4, prefix4_parse, prefix4_write}

write_form :
    (p : Prefix4) (cap : ℕ)
    → IsPrefix4 p
    → 1 + prefix_octets p.len ≤ cap
    → prefix4_write p cap ≡ ok (p.len ∷ masked_octets p.len p.addr)
unfolding prefix4_write
write_form p cap h le = ground (arith, wire_octets-masked h)

-- What parsing makes of the octets `xs` behind a length byte.
parse_form :
    (cidr : ℕ) (xs rest : List ℕ)
    → cidr ≤ 32
    → AllBytes xs
    → length xs ≡ prefix_octets cidr
    → prefix4_parse (cidr ∷ xs ++ rest)
      ≡ ok (record { addr = mask_bytes cidr (fill 4 cidr xs); len = cidr }, 1 + prefix_octets cidr)
unfolding prefix4_parse
parse_form cidr xs rest le h e = rw (
  le→leb 1 (suc (length (xs ++ rest))) (omega arith),
  le→leb cidr 32 le,
  take-append_length (prefix_octets cidr) xs rest e,
  mask-fill 4 cidr xs h e,
  le→leb (1 + prefix_octets cidr) (suc (length (xs ++ rest)))
      (omega (arith, length-append xs rest)),
)

parse_empty : (r : Prefix × ℕ) → ¬ (prefix4_parse [] ≡ ok r)
unfolding prefix4_parse
parse_empty r e = cc

parse_guards :
    (cidr : ℕ) (bs : List ℕ) (r : Prefix × ℕ)
    → prefix4_parse (cidr ∷ bs) ≡ ok r
    → (cidr ≤ 32) × (prefix_octets cidr ≤ length bs)
unfolding prefix4_parse
parse_guards cidr bs r e = ground arith

abbrev codec4 : PrefixCodec 4
codec4 = record {
  parse = prefix4_parse;
  write = prefix4_write;
  write_form = write_form;
  parse_form = parse_form;
  parse_empty = parse_empty;
  parse_guards = parse_guards;
}

-- Writing a valid prefix succeeds in any buffer with room for its 1 + ceil(len / 8) bytes, writes
-- exactly those, and parsing them, with anything behind, yields the prefix with its host bits cleared
-- and consumes exactly what was written.
pub prefix4_parse-write :
    (p : Prefix4) (cap : ℕ) (rest : List ℕ)
    → IsPrefix4 p
    → 1 + prefix_octets p.len ≤ cap
    → (out : List ℕ) × (prefix4_write p cap ≡ ok out)
      × (length out ≡ 1 + prefix_octets p.len)
      × (prefix4_parse (out ++ rest) ≡ ok (canonical p, length out))
prefix4_parse-write = Codec.parse-write codec4

-- A parse that succeeds consumes one byte and the octets of the prefix, all within the input; the
-- prefix is valid with its host bits clear, and writing it into as many bytes as were consumed succeeds
-- and gives bytes that parse to the same prefix.
pub prefix4_write-parse :
    (buf : List ℕ) (p : Prefix4) (n : ℕ)
    → AllBytes buf
    → prefix4_parse buf ≡ ok (p, n)
    → (n ≡ 1 + prefix_octets p.len)
      × (n ≤ length buf)
      × IsPrefix4 p
      × (canonical p ≡ p)
      × (out : List ℕ) × (prefix4_write p n ≡ ok out)
      × (length out ≡ n)
      × (prefix4_parse out ≡ ok (p, n))
prefix4_write-parse = Codec.write-parse codec4
