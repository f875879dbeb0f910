-- ===== src/Prefix/Codec.antt =====
-- Reading back what is written and writing back what is read, for any width: the files prefix4.c and
-- prefix6.c each give the two forms that the interface asks for.
use libbgp.Prelude.{
  ℕ, ◌+◌, ◌*◌, ◌≤◌, ◌≡◌, refl, sym, ap, ap₂, ◌∙◌, List, [], ◌∷◌, ◌++◌, length, append-nil, subst₂,
  take-append-drop, take, drop, arith, length-append, length-take, All-take,
}
use libbgp.Prelude.Bits.{AllBytes, IsByte}
use libbgp.Prelude.Errors.{ok_injective, Result, ok}
use libbgp.Prefix.{prefix_octets, mask_bytes, IsAddress}
use libbgp.Prefix.Mask.{length-mask_bytes, mask_bytes-AllBytes, mask_bytes_idem}
use libbgp.Prefix.Octets.{
  masked_octets, fill, fill-masked_octets, fill-AllBytes, length-fill, length-masked_octets,
  masked_octets-AllBytes,
}
use libbgp.Prefix.{Prefix}

-- The prefix with its host bits cleared.
abbrev pub canonical : Prefix → Prefix
canonical p = record p { addr = mask_bytes p.len p.addr }

-- The parser and the writer of one address family, in closed form.
pub record PrefixCodec (width : ℕ) : Type 0 where
  pub parse : List ℕ → Result (Prefix × ℕ)
  pub write : Prefix → ℕ → Result (List ℕ)
  pub write_form :
      (p : Prefix) (cap : ℕ)
      → IsAddress width p.addr p.len
      → 1 + prefix_octets p.len ≤ cap
      → write p cap ≡ ok (p.len ∷ masked_octets p.len p.addr)
  pub parse_form :
      (cidr : ℕ) (xs rest : List ℕ)
      → cidr ≤ 8 * width
      → AllBytes xs
      → length xs ≡ prefix_octets cidr
      → parse (cidr ∷ xs ++ rest)
        ≡ ok (
          record { addr = mask_bytes cidr (fill width cidr xs); len = cidr },
          1 + prefix_octets cidr,
        )
  pub parse_empty : (r : Prefix × ℕ) → ¬ (parse [] ≡ ok r)
  pub parse_guards :
      (cidr : ℕ) (bs : List ℕ) (r : Prefix × ℕ)
      → parse (cidr ∷ bs) ≡ ok r
      → (cidr ≤ 8 * width) × (prefix_octets cidr ≤ length bs)

module _ {width : ℕ} (codec : PrefixCodec width) where
  open codec use {parse, write, write_form, parse_form, parse_empty, parse_guards}

  -- Writing a valid prefix succeeds in any buffer with room for its 1 + ceil(len / 8) bytes, writes
  -- exactly those, and parsing them, with anything behind, yields the prefix with its host bits cleared
  -- and consumes exactly what was written.
  pub parse-write :
      (p : Prefix) (cap : ℕ) (rest : List ℕ)
      → IsAddress width p.addr p.len
      → 1 + prefix_octets p.len ≤ cap
      → (out : List ℕ) × (write p cap ≡ ok out)
        × (length out ≡ 1 + prefix_octets p.len)
        × (parse (out ++ rest) ≡ ok (canonical p, length out))
  parse-write p cap rest h room =
      let xs = masked_octets p.len p.addr in
      let sized : length xs ≡ prefix_octets p.len = length-masked_octets h in
      (
        p.len ∷ xs,
        write_form p cap h room,
        omega arith,
        parse_form p.len xs rest h.short (masked_octets-AllBytes h) sized
            ∙ ap₂ (λ (a : List ℕ) (n : ℕ). ok (record p { addr = a }, n))
                (ap (mask_bytes p.len) (fill-masked_octets h)
                  ∙ mask_bytes_idem p.len p.addr h.bytes)
                (omega arith),
      )

  -- All that holds of a parsed prefix and the number of bytes consumed.
  abbrev Parsed : List ℕ → Prefix × ℕ → Type 0
  Parsed buf r =
      let p = r.0 in
      let n = r.1 in
      (n ≡ 1 + prefix_octets p.len)
      × (n ≤ length buf)
      × IsAddress width p.addr p.len
      × (canonical p ≡ p)
      × (out : List ℕ) × (write p n ≡ ok out)
      × (length out ≡ n)
      × (parse out ≡ ok (p, n))

  -- The prefix that the octets `xs` stand for.
  abbrev from_octets : ℕ → List ℕ → Prefix
  from_octets cidr xs = record { addr = mask_bytes cidr (fill width cidr xs); len = cidr }

  module _ (cidr : ℕ) (xs : List ℕ) (le : cidr ≤ 8 * width) (h : AllBytes xs)
      (e : length xs ≡ prefix_octets cidr) where
    filled-AllBytes : AllBytes (fill width cidr xs)
    filled-AllBytes = fill-AllBytes width cidr xs h e le

    from_octets-IsAddress : IsAddress width (mask_bytes cidr (fill width cidr xs)) cidr
    from_octets-IsAddress = record {
      sized = length-mask_bytes cidr (fill width cidr xs) ∙ length-fill width cidr xs h e le;
      bytes = mask_bytes-AllBytes cidr _ filled-AllBytes;
      short = le;
    }

    from_octets-canonical : canonical (from_octets cidr xs) ≡ from_octets cidr xs
    from_octets-canonical =
        λ i. record { addr = mask_bytes_idem cidr _ filled-AllBytes i; len = cidr }

    from_octets-Parsed :
        (rest : List ℕ) → Parsed (cidr ∷ xs ++ rest) (from_octets cidr xs, 1 + prefix_octets cidr)
    from_octets-Parsed rest =
        let p = from_octets cidr xs in
        let (out, wrote, sized, parsed) =
          parse-write p (1 + prefix_octets cidr) [] from_octets-IsAddress (omega arith) in
        (
          refl,
          omega (arith, length-append xs rest),
          from_octets-IsAddress,
          from_octets-canonical,
          out,
          wrote,
          sized,
          ap parse (sym (append-nil out))
              ∙ parsed
              ∙ ap₂ (λ (q : Prefix) (n : ℕ). ok (q, n)) from_octets-canonical sized,
        )

  parse-Parsed : (buf : List ℕ) (r : Prefix × ℕ) → AllBytes buf → parse buf ≡ ok r → Parsed buf r
  parse-Parsed [] r h e = absurd (parse_empty r e)
  parse-Parsed (cidr ∷ bs) r h e =
      let (le, room) = parse_guards cidr bs r e in
      let o = prefix_octets cidr in
      let xs = take o bs in
      let sized : length xs ≡ o = omega (arith, length-take o bs) in
      let split = take-append-drop o bs in
      let xsb = All-take IsByte o bs h.1 in
      let form = parse_form cidr xs (drop o bs) le xsb sized in
      let same = ok_injective (sym form ∙ ap (λ t. parse (cidr ∷ t)) split ∙ e) in
      subst₂ (λ t q. Parsed (cidr ∷ t) q) split same
        (from_octets-Parsed cidr xs le xsb sized (drop o bs))

  -- A parse that succeeds consumes one byte and the octets of the prefix, all within the input; the
  -- prefix is valid with its host bits clear, and writing it into as many bytes as were consumed succeeds
  -- and gives bytes that parse to the same prefix.
  pub write-parse :
      (buf : List ℕ) (p : Prefix) (n : ℕ)
      → AllBytes buf
      → parse buf ≡ ok (p, n)
      → (n ≡ 1 + prefix_octets p.len)
        × (n ≤ length buf)
        × IsAddress width p.addr p.len
        × (canonical p ≡ p)
        × (out : List ℕ) × (write p n ≡ ok out)
        × (length out ≡ n)
        × (parse out ≡ ok (p, n))
  write-parse buf p n h e = parse-Parsed buf (p, n) h e
