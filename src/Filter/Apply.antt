-- ===== src/Filter/Apply.antt =====
-- The decision of src/filter.c against an independent reading of the rules: rules are applied from the
-- first to the last, each that matches overrides the decision so far, and attributes are scanned plainly.
use libbgp.Prelude.{
  ℕ, zero, suc, ◌≡◌, refl, ap, ◌∙◌, List, [], ◌∷◌, ◌++◌, Bool, true, false, none, some, ◌&&◌, ◌||◌,
  ltb, if◌then◌else◌, length,
}
use libbgp.Prefix4.{Prefix4, prefix4_includes, prefix4_eq}
use libbgp.Prefix6.{Prefix6, prefix6_includes, prefix6_eq}
use libbgp.Filter.{
  Decision, Match, prefix4, prefix4_exact, prefix4_more_specific, prefix4_more_or_equal,
  prefix4_less_specific, prefix4_less_or_equal, prefix6, prefix6_exact, prefix6_more_specific,
  prefix6_more_or_equal, prefix6_less_specific, prefix6_less_or_equal, as_path_contains,
  as_path_not_contains, as_path_origin, as_path_not_origin, community_contains,
  community_not_contains, any, Rule, Filter, Attrs, filter_attr_state_build, path_contains,
  has_community, attrs_have, attrs_origin_asn,
}
use libbgp.Filter.View.{attr_view_has_asn_lem, attr_view_has_community_lem}
use libbgp.Filter.Origin.{attr_view_origin_asn_lem}
use libbgp.Filter.Ops.{
  not, is_origin, is_other_origin, rule_at, scan_rules, filter_rule_matches, filter_rule_matches6,
  filter_apply_route, filter_apply_route6, prefix4_is_more_specific, prefix4_is_less_specific,
  prefix6_is_more_specific, prefix6_is_less_specific,
}

unfoldable pub override : (Rule → Bool) → List Rule → Decision → Decision
override matches [] decision = decision
override matches (r ∷ rules) decision =
    override matches rules (if matches r then r.decision else decision)

pub override-append :
    (p : Rule → Bool) (rules : List Rule) (r : Rule) (d : Decision)
    → override p (rules ++ r ∷ []) d ≡ (if p r then r.decision else override p rules d)
unfolding override
override-append p [] r d = refl
override-append p (x ∷ rules) r d = override-append p rules r (if p x then x.decision else d)

scan_one :
    (p : Rule → Bool) (r : Rule) (rules : List Rule) (i : ℕ) (d : Decision)
    → scan_rules p (r ∷ rules) (suc i) d ≡ scan_rules p rules i (if p r then r.decision else d)
unfolding scan_rules
scan_one p r rules zero d = refl
scan_one p r rules (suc i) d =
    ap
      (λ rest. elim (rule_at rules i) [
        | none ↦ rest
        | some rule ↦ if p rule then rule.decision else rest
      ])
      (scan_one p r rules i d)

scan_rules-override :
    (p : Rule → Bool) (rules : List Rule) (d : Decision)
    → scan_rules p rules (length rules) d ≡ override p rules d
unfolding scan_rules override
scan_rules-override p [] d = refl
scan_rules-override p (r ∷ rules) d =
    scan_one p r rules (length rules) d
    ∙ scan_rules-override p rules (if p r then r.decision else d)

override-ext :
    (p q : Rule → Bool) (rules : List Rule) (d : Decision)
    → ((r : Rule) → p r ≡ q r)
    → override p rules d ≡ override q rules d
unfolding override
override-ext p q [] d h = refl
override-ext p q (r ∷ rules) d h =
    ap (λ b. override p rules (if b then r.decision else d)) (h r)
    ∙ override-ext p q rules (if q r then r.decision else d) h

-- What a match on the attributes says, by scans of all attributes.
unfoldable pub attrs_match : Match → Attrs → Bool
attrs_match (as_path_contains asn) attrs = attrs_have (path_contains asn) attrs
attrs_match (as_path_not_contains asn) attrs = not (attrs_have (path_contains asn) attrs)
attrs_match (as_path_origin asn) attrs = is_origin (attrs_origin_asn attrs) asn
attrs_match (as_path_not_origin asn) attrs = is_other_origin (attrs_origin_asn attrs) asn
attrs_match (community_contains value) attrs = attrs_have (has_community value) attrs
attrs_match (community_not_contains value) attrs = not (attrs_have (has_community value) attrs)
attrs_match any attrs = true
attrs_match _ attrs = false

-- What a match on an IPv4 prefix says.
unfoldable pub prefix4_match : Match → Prefix4 → Bool
prefix4_match (prefix4 p) route = prefix4_includes p route
prefix4_match (prefix4_more_or_equal p) route = prefix4_includes p route
prefix4_match (prefix4_exact p) route = prefix4_eq p route
prefix4_match (prefix4_more_specific p) route = ltb p.len route.len && prefix4_includes p route
prefix4_match (prefix4_less_specific p) route = ltb route.len p.len && prefix4_includes route p
prefix4_match (prefix4_less_or_equal p) route = prefix4_includes route p
prefix4_match _ route = false

unfoldable pub prefix6_match : Match → Prefix6 → Bool
prefix6_match (prefix6 p) route = prefix6_includes p route
prefix6_match (prefix6_more_or_equal p) route = prefix6_includes p route
prefix6_match (prefix6_exact p) route = prefix6_eq p route
prefix6_match (prefix6_more_specific p) route = ltb p.len route.len && prefix6_includes p route
prefix6_match (prefix6_less_specific p) route = ltb route.len p.len && prefix6_includes route p
prefix6_match (prefix6_less_or_equal p) route = prefix6_includes route p
prefix6_match _ route = false

or_false : (b : Bool) → b ≡ (b || false)
or_false true = refl
or_false false = refl

matches-plain :
    (m : Match) (d : Decision) (route : Prefix4) (attrs : Attrs)
    → filter_rule_matches
        (record { matching = m; decision = d })
        route
        (filter_attr_state_build attrs)
        attrs
      ≡ (prefix4_match m route || attrs_match m attrs)
unfolding filter_rule_matches prefix4_match attrs_match prefix4_is_more_specific
    prefix4_is_less_specific
matches-plain (as_path_contains asn) d route attrs = attr_view_has_asn_lem attrs asn
matches-plain (as_path_not_contains asn) d route attrs = ap not (attr_view_has_asn_lem attrs asn)
matches-plain (as_path_origin asn) d route attrs =
    ap (λ o. is_origin o asn) (attr_view_origin_asn_lem attrs)
matches-plain (as_path_not_origin asn) d route attrs =
    ap (λ o. is_other_origin o asn) (attr_view_origin_asn_lem attrs)
matches-plain (community_contains value) d route attrs = attr_view_has_community_lem attrs value
matches-plain (community_not_contains value) d route attrs =
    ap not (attr_view_has_community_lem attrs value)
matches-plain any d route attrs = refl
matches-plain (prefix4 p) d route attrs = or_false _
matches-plain (prefix4_more_or_equal p) d route attrs = or_false _
matches-plain (prefix4_exact p) d route attrs = or_false _
matches-plain (prefix4_more_specific p) d route attrs = or_false _
matches-plain (prefix4_less_specific p) d route attrs = or_false _
matches-plain (prefix4_less_or_equal p) d route attrs = or_false _
matches-plain _ d route attrs = refl

matches6-plain :
    (m : Match) (d : Decision) (route : Prefix6) (attrs : Attrs)
    → filter_rule_matches6
        (record { matching = m; decision = d })
        route
        (filter_attr_state_build attrs)
        attrs
      ≡ (prefix6_match m route || attrs_match m attrs)
unfolding filter_rule_matches6 prefix6_match attrs_match prefix6_is_more_specific
    prefix6_is_less_specific
matches6-plain (as_path_contains asn) d route attrs = attr_view_has_asn_lem attrs asn
matches6-plain (as_path_not_contains asn) d route attrs = ap not (attr_view_has_asn_lem attrs asn)
matches6-plain (as_path_origin asn) d route attrs =
    ap (λ o. is_origin o asn) (attr_view_origin_asn_lem attrs)
matches6-plain (as_path_not_origin asn) d route attrs =
    ap (λ o. is_other_origin o asn) (attr_view_origin_asn_lem attrs)
matches6-plain (community_contains value) d route attrs = attr_view_has_community_lem attrs value
matches6-plain (community_not_contains value) d route attrs =
    ap not (attr_view_has_community_lem attrs value)
matches6-plain any d route attrs = refl
matches6-plain (prefix6 p) d route attrs = or_false _
matches6-plain (prefix6_more_or_equal p) d route attrs = or_false _
matches6-plain (prefix6_exact p) d route attrs = or_false _
matches6-plain (prefix6_more_specific p) d route attrs = or_false _
matches6-plain (prefix6_less_specific p) d route attrs = or_false _
matches6-plain (prefix6_less_or_equal p) d route attrs = or_false _
matches6-plain _ d route attrs = refl

-- For every rule list, route and attributes, `filter_apply_route`, which scans the rules from the newest to
-- the oldest and looks attributes up by their code, decides as the rules applied from the oldest to the
-- newest, each matching one overriding the decision so far, with all attributes scanned for every test.
pub filter_apply_route_lem :
    (impl : Filter) (route : Prefix4) (attrs : Attrs) (default_decision : Decision)
    → filter_apply_route impl route attrs default_decision
      ≡ override
          (λ r. prefix4_match r.matching route || attrs_match r.matching attrs)
          impl.rules
          default_decision
unfolding filter_apply_route
filter_apply_route_lem impl route attrs d =
    scan_rules-override _ impl.rules d
    ∙ override-ext _ _ impl.rules d (λ r. matches-plain r.matching r.decision route attrs)

-- For every rule list, IPv6 route and attributes, `filter_apply_route6` decides as the rules applied from
-- the oldest to the newest, each matching one overriding the decision so far, with all attributes scanned
-- for every test.
pub filter_apply_route6_lem :
    (impl : Filter) (route : Prefix6) (attrs : Attrs) (default_decision : Decision)
    → filter_apply_route6 impl route attrs default_decision
      ≡ override
          (λ r. prefix6_match r.matching route || attrs_match r.matching attrs)
          impl.rules
          default_decision
unfolding filter_apply_route6
filter_apply_route6_lem impl route attrs d =
    scan_rules-override _ impl.rules d
    ∙ override-ext _ _ impl.rules d (λ r. matches6-plain r.matching r.decision route attrs)
