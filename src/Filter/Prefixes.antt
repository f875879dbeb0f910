-- ===== src/Filter/Prefixes.antt =====
-- How the matches of src/filter.c on IPv4 prefixes relate to each other.
use libbgp.Prelude.{
  ◌≡◌, refl, inl, inr, sym, ap, ◌∙◌, false, ◌&&◌, ◌||◌, ◌==◌, Bool-cases, ==→eq, eq→==, true, arith,
}
use libbgp.Prefix.{bytes_eq, mask_bytes}
use libbgp.Prefix.Agree.{agree, bytes_eq_symm}
use libbgp.Prefix.Codec.{canonical}
use libbgp.Prefix4.{Prefix4, IsPrefix4, prefix4_includes, prefix4_eq}
use libbgp.Prefix4.Includes.{includes_masked}
use libbgp.Filter.{
  Decision, Match, prefix4_exact, prefix4_more_specific, prefix4_more_or_equal,
  prefix4_less_specific, prefix4_less_or_equal, AttrState, Attrs,
}
use libbgp.Filter.Ops.{prefix4_is_more_specific, prefix4_is_less_specific, filter_rule_matches}

-- Between canonical prefixes of one length, equal leading bits are equal addresses.
agree-canonical :
    (rule route : Prefix4)
    → IsPrefix4 rule
    → IsPrefix4 route
    → canonical rule ≡ rule
    → canonical route ≡ route
    → rule.len ≡ route.len
    → agree rule.len rule.addr route.addr ≡ bytes_eq rule.addr route.addr
unfolding agree
agree-canonical rule route ha hb ca cb e =
    ap (λ n. bytes_eq (mask_bytes n route.addr) (mask_bytes rule.len rule.addr)) e
    ∙ ap (λ p. bytes_eq p.addr (mask_bytes rule.len rule.addr)) cb
    ∙ ap (λ p. bytes_eq route.addr p.addr) ca
    ∙ bytes_eq_symm route.addr rule.addr (hb.sized ∙ sym ha.sized)

-- Containment is equality or proper containment.
more_or_equal_lem :
    (rule route : Prefix4)
    → IsPrefix4 rule
    → IsPrefix4 route
    → canonical rule ≡ rule
    → canonical route ≡ route
    → (prefix4_includes rule route ≡ (prefix4_eq rule route || prefix4_is_more_specific rule route))
      × ((prefix4_eq rule route && prefix4_is_more_specific rule route) ≡ false)
unfolding prefix4_eq prefix4_is_more_specific
more_or_equal_lem rule route ha hb ca cb = elim (Bool-cases (rule.len == route.len)) [
  | inl e ↦
      let same = agree-canonical rule route ha hb ca cb (==→eq rule.len route.len e) in
      rw (includes_masked rule route ha hb, same) (ground arith, ground arith)
  | inr e ↦ rw (includes_masked rule route ha hb) (ground arith, ground arith)
]

prefix4_eq_symm :
    (p route : Prefix4) → IsPrefix4 p → IsPrefix4 route → prefix4_eq p route ≡ prefix4_eq route p
unfolding prefix4_eq
prefix4_eq_symm p route ha hb = elim (Bool-cases (p.len == route.len)) [
  | inl e ↦
      let back : (route.len == p.len) ≡ true =
        eq→== route.len p.len (sym (==→eq p.len route.len e)) in
      rw (e, back) (ap (λ b. b && true) (bytes_eq_symm p.addr route.addr (ha.sized ∙ sym hb.sized)))
  | inr e ↦ elim (Bool-cases (route.len == p.len)) [
    | inl f ↦ absurd (ground (arith, e, f))
    | inr f ↦ rw (e, f) (ground arith)
  ]
]

-- The match types that look at which of two prefixes is the more specific one agree with each other: for
-- valid prefixes whose host bits are clear, and rules that differ in their match type only, a rule for a
-- prefix or a more specific one matches a route exactly if the rule for this very prefix or the rule for a
-- more specific one does, and never both; the same holds for less specific ones; and a rule for a prefix or
-- a less specific one matches exactly if the rule for a prefix or a more specific one does with the
-- prefixes exchanged.
pub filter_rule_matches_partition :
    (p route : Prefix4) (d : Decision) (attr_state : AttrState) (attrs : Attrs)
    → IsPrefix4 p
    → IsPrefix4 route
    → canonical p ≡ p
    → canonical route ≡ route
    → let on = λ (matching : Match) (r : Prefix4).
      filter_rule_matches (record { matching = matching; decision = d }) r attr_state attrs in
      (on (prefix4_more_or_equal p) route
        ≡ (on (prefix4_exact p) route || on (prefix4_more_specific p) route))
      × ((on (prefix4_exact p) route && on (prefix4_more_specific p) route) ≡ false)
      × (on (prefix4_less_or_equal p) route
          ≡ (on (prefix4_exact p) route || on (prefix4_less_specific p) route))
      × ((on (prefix4_exact p) route && on (prefix4_less_specific p) route) ≡ false)
      × (on (prefix4_less_or_equal p) route ≡ on (prefix4_more_or_equal route) p)
unfolding filter_rule_matches prefix4_is_less_specific prefix4_is_more_specific
filter_rule_matches_partition p route d attr_state attrs ha hb ca cb =
    let up = more_or_equal_lem p route ha hb ca cb in
    let down = more_or_equal_lem route p hb ha cb ca in
    let exchanged : prefix4_includes route p ≡ prefix4_includes route p = refl in
    let same = prefix4_eq_symm p route ha hb in
    (up.0, up.1, rw same down.0, rw same down.1, exchanged)
