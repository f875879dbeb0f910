-- ===== src/Pattr/ReadBack.antt =====
-- The value of an attribute of src/pattr.c is read back from its bytes.
use libbgp.Prelude.{
  ℕ, suc, ◌+◌, ◌/◌, ◌%◌, ◌^◌, ◌≤◌, ◌<◌, ◌≡◌, ◌⊎◌, inl, inr, refl, sym, ap, ap₂, ◌∙◌, subst, List,
  [], ◌∷◌, ◌++◌, Bool, true, false, leb, ◌==◌, ◌||◌, length, drop, take, get_or, arith,
  length-append, append-nil, All, drop-append_length, take-append_length, take_all, le→leb,
  get_or-append_right, drop-drop,
}
use libbgp.Prelude.Errors.{ok}
use libbgp.Prelude.Alloc.{malloc_bytes-ok}
use libbgp.Prelude.Wire.{bgp_put_be32, get-put_be32}
use libbgp.Prefix6.{Prefix6}
use libbgp.Pattr.{
  PattrData, PattrType, origin, as_path, as4_path, next_hop, med, local_pref, atomic_aggregate,
  aggregator, as4_aggregator, community, mp_reach_ipv6, mp_unreach_ipv6, unknown_pattr,
}
use libbgp.Pattr.Read.{
  ipv6_unicast, parse_value, parse_community, parse_unknown, parse_aggregator, parse_mp_reach_ipv6,
  parse_mp_unreach_ipv6, read_asns,
}
use libbgp.Pattr.Write.{write_asns}
use libbgp.Pattr.Segments.{IsAsn, path_len, read_asns-write_asns, length-write_asns}
use libbgp.Pattr.Path.{parse_as_path-path}
use libbgp.Pattr.Routes.{IsRoute, routes_bytes, parse_routes-bytes}
use libbgp.Pattr.Values.{IsValue, value_bytes, Belongs}

put_be32_length : (v : ℕ) → length (bgp_put_be32 v) ≡ 4
put_be32_length v = refl

community-bytes :
    (values : List ℕ)
    → All (IsAsn true) values
    → parse_community (write_asns true values) [] ≡ (ok (community values), [])
unfolding parse_community
community-bytes values h =
    let size = length-write_asns true values in
    let whole : (length (write_asns true values) % 4 == 0) ≡ true = ground arith in
    let count : length (write_asns true values) / 4 ≡ length values = omega arith in
    let back =
      ap (λ (b : List ℕ). read_asns (length values) true b)
        (sym (append-nil (write_asns true values)))
      ∙ read_asns-write_asns true values [] h in
    rw (whole, count, malloc_bytes-ok (length values), back) refl

aggregator-bytes :
    (asn router_id : ℕ) (b : Bool)
    → IsAsn b asn
    → router_id < 2 ^ 32
    → parse_aggregator b (value_bytes (aggregator asn router_id b)) []
      ≡ (ok (aggregator asn router_id b), [])
unfolding parse_aggregator
aggregator-bytes asn router_id true h k =
    ap₂ (λ (a r : ℕ). (ok (aggregator a r true), [])) (get-put_be32 asn (bgp_put_be32 router_id) h)
      (get-put_be32 router_id [] k)
aggregator-bytes asn router_id false h k =
    ap₂ (λ (a r : ℕ). (ok (aggregator a r false), [])) (omega (arith, h))
      (get-put_be32 router_id [] k)

unknown-bytes : (value : List ℕ) → parse_unknown value [] ≡ (ok (unknown_pattr value), [])
unfolding parse_unknown
unknown-bytes value = rw (malloc_bytes-ok (length value)) refl

mp_unreach-bytes :
    (withdrawn : List Prefix6)
    → All IsRoute withdrawn
    → length (value_bytes (mp_unreach_ipv6 withdrawn)) ≤ 65535
    → parse_mp_unreach_ipv6 (value_bytes (mp_unreach_ipv6 withdrawn)) []
      ≡ (ok (mp_unreach_ipv6 withdrawn), [])
unfolding parse_mp_unreach_ipv6
mp_unreach-bytes withdrawn h room =
    let value = value_bytes (mp_unreach_ipv6 withdrawn) in
    let routes =
      parse_routes-bytes (length value) [] withdrawn 0 h (omega arith) (omega arith)
        (omega arith) in
    let three : leb 3 (length value) ≡ true = ground arith in rw (three, routes) refl

mp_reach-bytes :
    (nexthop : List ℕ) (nlri : List Prefix6)
    → (length nexthop ≡ 16) ⊎ (length nexthop ≡ 32)
    → All IsRoute nlri
    → length (value_bytes (mp_reach_ipv6 nexthop nlri)) ≤ 65535
    → parse_mp_reach_ipv6 (value_bytes (mp_reach_ipv6 nexthop nlri)) []
      ≡ (ok (mp_reach_ipv6 nexthop nlri), [])
unfolding parse_mp_reach_ipv6
mp_reach-bytes nexthop nlri known h room =
    let value = value_bytes (mp_reach_ipv6 nexthop nlri) in
    let n = length nexthop in
    let size = length-append nexthop (0 ∷ routes_bytes nlri) in
    let byte : n % 256 ≡ n = ground (arith, known) in
    let five : leb 5 (length value) ≡ true = ground arith in
    let right : (n == 16 || n == 32) ≡ true = ground (arith, known) in
    let long : leb (5 + n) (length value) ≡ true = ground arith in
    let wire : List ℕ = 0 ∷ 2 ∷ 1 ∷ n ∷ (nexthop ++ 0 ∷ routes_bytes nlri) in
    let reserved : get_or wire (4 + n) 0 ≡ 0 =
      ap (λ (i : ℕ). get_or wire i 0) {x = 4 + n} {y = suc (suc (suc (suc (n + 0))))} (omega arith)
      ∙ get_or-append_right nexthop (0 ∷ routes_bytes nlri) 0 0 in
    let hop : take n (drop 4 value) ≡ nexthop =
      take-append_length n nexthop (0 ∷ routes_bytes nlri) refl in
    let tail : drop (5 + n) wire ≡ routes_bytes nlri =
      sym (drop-drop (1 + n) 4 wire ∙ ap (λ (i : ℕ). drop i wire) (omega arith))
      ∙ sym (drop-drop 1 n (drop 4 wire) ∙ ap (λ (i : ℕ). drop i (drop 4 wire)) (omega arith))
      ∙ ap (drop 1) (drop-append_length n nexthop (0 ∷ routes_bytes nlri) refl) in
    let routes =
      parse_routes-bytes (length value) [] nlri 0 h (omega arith) (omega arith) (omega arith) in
    rw (five, byte, right, long, reserved, hop, tail, routes) refl

mp_reach-foreign :
    (value : List ℕ)
    → 5 ≤ length value
    → ipv6_unicast value ≡ false
    → parse_mp_reach_ipv6 value [] ≡ (ok (unknown_pattr value), [])
unfolding parse_mp_reach_ipv6
mp_reach-foreign value h e = rw (le→leb 5 (length value) h, e, unknown-bytes value) refl

mp_unreach-foreign :
    (value : List ℕ)
    → 3 ≤ length value
    → ipv6_unicast value ≡ false
    → parse_mp_unreach_ipv6 value [] ≡ (ok (unknown_pattr value), [])
unfolding parse_mp_unreach_ipv6
mp_unreach-foreign value h e = rw (le→leb 3 (length value) h, e, unknown-bytes value) refl

-- The value of every type is read back, with an allocator that does not fail.
pub parse_value-bytes :
    (t : PattrType) (four : Bool) (d : PattrData)
    → IsValue four d
    → Belongs t d
    → length (value_bytes d) ≤ 65535
    → parse_value t four (value_bytes d) [] ≡ (ok d, [])
unfolding parse_value
parse_value-bytes t four (origin o) h e room = rw (e, le→leb o 2 h) refl
parse_value-bytes t four (as_path b segments) h e room =
    rw (e, sym h.0, parse_as_path-path b segments h.1 room) refl
parse_value-bytes t four (as4_path b segments) h e room =
    rw (e, h.0)
      (rw (parse_as_path-path true segments h.1 (subst (λ f. path_len f segments ≤ 65535) h.0 room))
        refl)
parse_value-bytes t four (next_hop l) h e room =
    let four_bytes : (length l == 4) ≡ true = ground arith in
    rw (e, four_bytes, take_all 4 l (omega arith)) refl
parse_value-bytes t four (med v) h e room =
    rw e (ap (λ (a : ℕ). (ok (med a), [])) (get-put_be32 v [] h))
parse_value-bytes t four (local_pref v) h e room =
    rw e (ap (λ (a : ℕ). (ok (local_pref a), [])) (get-put_be32 v [] h))
parse_value-bytes t four atomic_aggregate h e room = rw e refl
parse_value-bytes t four (aggregator asn router_id b) h e room =
    rw (e, sym h.0) (aggregator-bytes asn router_id b h.1 h.2)
parse_value-bytes t four (as4_aggregator asn router_id b) h e room =
    rw (e, h.0)
      (ap₂ (λ (a r : ℕ). (ok (as4_aggregator a r true), []))
        (get-put_be32 asn (bgp_put_be32 router_id) h.1) (get-put_be32 router_id [] h.2))
parse_value-bytes t four (community values) h e room = rw e (community-bytes values h)
parse_value-bytes t four (mp_reach_ipv6 nexthop nlri) h e room =
    rw e (mp_reach-bytes nexthop nlri h.0 h.1 room)
parse_value-bytes t four (mp_unreach_ipv6 withdrawn) h e room =
    rw e (mp_unreach-bytes withdrawn h room)
parse_value-bytes t four (unknown_pattr value) h (inl e) room = rw e (unknown-bytes value)
parse_value-bytes t four (unknown_pattr value) h (inr (inl e)) room =
    rw e.0 (mp_reach-foreign value e.1 e.2)
parse_value-bytes t four (unknown_pattr value) h (inr (inr e)) room =
    rw e.0 (mp_unreach-foreign value e.1 e.2)
