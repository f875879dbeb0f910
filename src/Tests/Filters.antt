-- ===== src/Tests/Filters.antt =====
-- Filters.
use libbgp.Prelude.{
  ◌≡◌, refl, ◌⊎◌, [], ◌∷◌, false, true, some, none, ◌||◌, ◌&&◌, if◌then◌else◌, arith,
}
use libbgp.Prelude.Errors.{ok, err, nomem}
use libbgp.Prefix.{Prefix}
use libbgp.Pattr.{Pattr, as_path, community, AsPathSegment}
use libbgp.Filter.{
  deny, permit, prefix4, as_path_origin, Rule, Filter, Attrs, filter_attr_state_build,
  path_contains, attrs_have, attrs_origin_asn, attr_view_has_asn, attr_view_origin_asn,
}
use libbgp.Prefix.{mask_bytes}
use libbgp.Prefix4.{IsPrefix4}
use libbgp.Filter.Prefixes.{filter_rule_matches_partition}
use libbgp.Filter.Ops.{filter_add_rule, filter_apply_route, filter_apply_route6}
use libbgp.Filter.View.{attr_view_has_asn_lem}
use libbgp.Filter.Origin.{attr_view_origin_asn_lem}
use libbgp.Filter.Apply.{
  override, prefix4_match, prefix6_match, attrs_match, filter_apply_route_lem,
  filter_apply_route6_lem,
}
use libbgp.Filter.Rules.{
  IsFilter, Added, filter_add_rule-Added, filter_add_rule-ok, filter_add_rule-apply,
}
use libbgp.Filter.{
  Match, prefix4_exact, prefix4_more_specific, prefix4_more_or_equal, prefix4_less_specific,
  prefix4_less_or_equal,
}
use libbgp.Filter.Ops.{filter_rule_matches}
use libbgp.Prefix4.{Prefix4}

abbrev sequence : AsPathSegment
sequence = record { segment_type = 2; asns = 65001 ∷ 65002 ∷ [] }

abbrev path : Pattr
path = record { refcount = 1; flags = 64; type_code = 2; data_of = as_path true (sequence ∷ []) }

abbrev marks : Pattr
marks = record { refcount = 1; flags = 192; type_code = 8; data_of = community (6553700 ∷ []) }

abbrev attrs : Attrs
attrs = some marks ∷ none ∷ some path ∷ []

attr_view_has_asn_lem_example :
    attr_view_has_asn (filter_attr_state_build attrs) attrs 65002
    ≡ attrs_have (path_contains 65002) attrs
attr_view_has_asn_lem_example = attr_view_has_asn_lem attrs 65002

attr_view_origin_asn_lem_example :
    attr_view_origin_asn (filter_attr_state_build attrs) attrs ≡ attrs_origin_asn attrs
attr_view_origin_asn_lem_example = attr_view_origin_asn_lem attrs

abbrev ten : Prefix
ten = record { addr = 10 ∷ 0 ∷ 0 ∷ 0 ∷ []; len = 8 }

abbrev inside : Prefix
inside = record { addr = 10 ∷ 1 ∷ 0 ∷ 0 ∷ []; len = 16 }

abbrev allow : Rule
allow = record { matching = prefix4 ten; decision = permit }

abbrev refuse : Rule
refuse = record { matching = as_path_origin 65002; decision = deny }

abbrev two_rules : Filter
two_rules = record { rules = allow ∷ refuse ∷ []; cap = 4 }

abbrev full : Filter
full = record { rules = allow ∷ []; cap = 1 }

full_valid : IsFilter full
full_valid = (omega arith, omega arith)

filter_apply_route_lem_example :
    filter_apply_route two_rules inside attrs permit
    ≡ override
        (λ r. prefix4_match r.matching inside || attrs_match r.matching attrs)
        two_rules.rules
        permit
filter_apply_route_lem_example = filter_apply_route_lem two_rules inside attrs permit

filter_apply_route6_lem_example :
    filter_apply_route6 two_rules inside attrs permit
    ≡ override
        (λ r. prefix6_match r.matching inside || attrs_match r.matching attrs)
        two_rules.rules
        permit
filter_apply_route6_lem_example = filter_apply_route6_lem two_rules inside attrs permit

filter_add_rule-Added_example :
    Added full refuse (filter_add_rule full refuse (false ∷ []))
    ⊎ (((filter_add_rule full refuse (false ∷ [])).0 ≡ err nomem)
        × ((filter_add_rule full refuse (false ∷ [])).1 ≡ full))
filter_add_rule-Added_example = filter_add_rule-Added full refuse (false ∷ []) full_valid

refuse_added : (filter_add_rule full refuse []).0 ≡ ok tt
refuse_added = (filter_add_rule-ok full refuse full_valid (omega arith)).0

filter_add_rule-apply_example :
    filter_apply_route (filter_add_rule full refuse []).1 inside attrs permit ≡ (
      if prefix4_match refuse.matching inside || attrs_match refuse.matching attrs
      then refuse.decision
      else filter_apply_route full inside attrs permit)
filter_add_rule-apply_example =
    filter_add_rule-apply full refuse [] inside attrs permit full_valid refuse_added

ten_valid : IsPrefix4 ten
ten_valid = record { sized = refl; bytes = ground arith; short = omega arith }

inside_valid : IsPrefix4 inside
inside_valid = record { sized = refl; bytes = ground arith; short = omega arith }

filter_rule_matches_partition_example :
    let on = λ (matching : Match) (r : Prefix4).
      filter_rule_matches
        (record { matching = matching; decision = permit })
        r
        (filter_attr_state_build attrs)
        attrs in
    (on (prefix4_more_or_equal ten) inside
      ≡ (on (prefix4_exact ten) inside || on (prefix4_more_specific ten) inside))
    × ((on (prefix4_exact ten) inside && on (prefix4_more_specific ten) inside) ≡ false)
    × (on (prefix4_less_or_equal ten) inside
        ≡ (on (prefix4_exact ten) inside || on (prefix4_less_specific ten) inside))
    × ((on (prefix4_exact ten) inside && on (prefix4_less_specific ten) inside) ≡ false)
    × (on (prefix4_less_or_equal ten) inside ≡ on (prefix4_more_or_equal inside) ten)
unfolding mask_bytes
filter_rule_matches_partition_example =
    filter_rule_matches_partition ten inside permit (filter_attr_state_build attrs) attrs ten_valid
      inside_valid refl refl
