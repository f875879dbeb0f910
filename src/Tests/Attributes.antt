-- ===== src/Tests/Attributes.antt =====
-- Path attributes for src/pattr.c.
use libbgp.Prelude.{ℕ, ◌≤◌, ◌≡◌, refl, List, [], ◌∷◌, ◌++◌, false, length, take, arith}
use libbgp.Prelude.Bits.{AllBytes}
use libbgp.Prelude.Errors.{ok, err, bad_len}
use libbgp.Pattr.{
  Pattr, AsPathSegment, as_path, unknown_pattr, pattr_type_from_code, pattr_known_flags_valid,
  typed_flags_valid, pattr_default_flags,
}
use libbgp.Pattr.Read.{
  pattr_parse_as4, header_of, parse_value, parse_as_path, scan_segments, read_segments, read_asns,
  pattr_as_path_block_layout, pattr_align_offset,
}
use libbgp.Pattr.Write.{pattr_write, pattr_wire_len, write_header, write_as_path_value, write_asns}
use libbgp.Pattr.RoundTrip.{IsPattr, attr_bytes, on_wire}
use libbgp.Pattr.Codec.{pattr_parse-write, pattr_write-parse}
use libbgp.Pattr.Truncated.{pattr_parse_truncated}

abbrev segment : AsPathSegment
segment = record { segment_type = 2; asns = 64512 ∷ 3356 ∷ [] }

-- An AS_PATH of AS numbers with two octets.
abbrev path : Pattr
path = record { refcount = 1; flags = 64; type_code = 2; data_of = as_path false (segment ∷ []) }

abbrev empty : Pattr
empty = record { refcount = 1; flags = 0; type_code = 0; data_of = unknown_pattr [] }

path-IsPattr : IsPattr false path
unfolding pattr_type_from_code pattr_known_flags_valid typed_flags_valid pattr_default_flags
    write_as_path_value write_asns
path-IsPattr = record {
  flags_byte = omega arith;
  code_byte = omega arith;
  valid = refl;
  belongs = refl;
  value = (
    refl,
    (
      record {
        kind_low = omega arith;
        kind_high = omega arith;
        some_asns = omega arith;
        few_asns = omega arith;
        asns_fit = (omega arith, (omega arith, tt));
      },
      tt,
    ),
  );
  room = omega arith;
}

abbrev path_wire : List ℕ
path_wire = 64 ∷ 2 ∷ 6 ∷ 2 ∷ 2 ∷ 252 ∷ 0 ∷ 13 ∷ 28 ∷ []

path_wire-bytes : attr_bytes path ≡ path_wire
unfolding write_header write_as_path_value write_asns
path_wire-bytes = refl

path_parses : (pattr_parse_as4 empty path_wire false []).0 ≡ ok (path, 9)
unfolding pattr_parse_as4 header_of parse_value parse_as_path scan_segments read_segments read_asns
    pattr_as_path_block_layout pattr_align_offset pattr_type_from_code pattr_known_flags_valid
    typed_flags_valid pattr_default_flags
path_parses = refl

path_wire-AllBytes : AllBytes path_wire
path_wire-AllBytes = (
  omega arith,
  (
    omega arith,
    (
      omega arith,
      (omega arith, (omega arith, (omega arith, (omega arith, (omega arith, (omega arith, tt)))))),
    ),
  ),
)

pattr_parse-write_example :
    (out : List ℕ) × (pattr_write path 9 ≡ ok out)
    × (pattr_wire_len path ≡ ok (length out))
    × (pattr_parse_as4 empty (out ++ 7 ∷ []) false [] ≡ (ok (on_wire empty path, length out), []))
unfolding write_as_path_value write_asns
pattr_parse-write_example = pattr_parse-write false path empty 9 (7 ∷ []) path-IsPattr (omega arith)

pattr_write-parse_example :
    (9 ≤ length path_wire)
    × IsPattr false path
    × (out : List ℕ) × (pattr_write path 9 ≡ ok out)
    × (length out ≡ 9)
    × (pattr_parse_as4 empty out false [] ≡ (ok (path, 9), []))
pattr_write-parse_example =
    pattr_write-parse false empty path path_wire 9 [] path_wire-AllBytes path_parses

pattr_parse_truncated_example :
    (pattr_parse_as4 empty (take 8 (attr_bytes path)) false []).0 ≡ err bad_len
unfolding write_header write_as_path_value write_asns
pattr_parse_truncated_example =
    pattr_parse_truncated false path empty 8 [] path-IsPattr (omega arith)
