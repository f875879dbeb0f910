-- ===== src/Filter/Ops.antt =====
-- The operations of src/filter.c.
use libbgp.Prelude.{
  ℕ, zero, suc, ◌+◌, ◌*◌, ◌/◌, ◌%◌, ◌^◌, List, [], ◌∷◌, ◌++◌, Bool, true, false, Option, none, some,
  ltb, leb, ◌==◌, ◌&&◌, if◌then◌else◌, length,
}
use libbgp.Prelude.Errors.{Result, ok, err, nomem, Mem, allocate}
use libbgp.Prelude.Alloc.{Alloc, ◌>>◌, give, malloc}
use libbgp.Prelude.Growth.{size_max, double_until}
use libbgp.Prefix4.{Prefix4, prefix4_includes, prefix4_eq}
use libbgp.Prefix6.{Prefix6, prefix6_includes, prefix6_eq}
use libbgp.Filter.{
  Decision, prefix4, prefix4_exact, prefix4_more_specific, prefix4_more_or_equal,
  prefix4_less_specific, prefix4_less_or_equal, prefix6, prefix6_exact, prefix6_more_specific,
  prefix6_more_or_equal, prefix6_less_specific, prefix6_less_or_equal, as_path_contains,
  as_path_not_contains, as_path_origin, as_path_not_origin, community_contains,
  community_not_contains, any, Rule, Filter, AttrState, Attrs, filter_attr_state_build,
  attr_view_has_asn, attr_view_has_community, attr_view_origin_asn,
}

abbrev pub not : Bool → Bool
not true = false
not false = true

-- `found && origin_asn == asn`, and with `!=`.
abbrev pub is_origin : Option ℕ → ℕ → Bool
is_origin none asn = false
is_origin (some x) asn = x == asn

abbrev pub is_other_origin : Option ℕ → ℕ → Bool
is_other_origin none asn = false
is_other_origin (some x) asn = not (x == asn)

unfoldable pub prefix4_is_more_specific : Prefix4 → Prefix4 → Bool
prefix4_is_more_specific rule route = ltb rule.len route.len && prefix4_includes rule route

unfoldable pub prefix4_is_less_specific : Prefix4 → Prefix4 → Bool
prefix4_is_less_specific rule route = ltb route.len rule.len && prefix4_includes route rule

unfoldable pub prefix6_is_more_specific : Prefix6 → Prefix6 → Bool
prefix6_is_more_specific rule route = ltb rule.len route.len && prefix6_includes rule route

unfoldable pub prefix6_is_less_specific : Prefix6 → Prefix6 → Bool
prefix6_is_less_specific rule route = ltb route.len rule.len && prefix6_includes route rule

unfoldable pub filter_rule_matches : Rule → Prefix4 → AttrState → Attrs → Bool
filter_rule_matches rule route attr_state attrs = elim rule.matching [
  | prefix4 p ↦ prefix4_includes p route
  | prefix4_more_or_equal p ↦ prefix4_includes p route
  | prefix4_exact p ↦ prefix4_eq p route
  | prefix4_more_specific p ↦ prefix4_is_more_specific p route
  | prefix4_less_specific p ↦ prefix4_is_less_specific p route
  | prefix4_less_or_equal p ↦ prefix4_includes route p
  | as_path_contains asn ↦ attr_view_has_asn attr_state attrs asn
  | as_path_not_contains asn ↦ not (attr_view_has_asn attr_state attrs asn)
  | as_path_origin asn ↦ is_origin (attr_view_origin_asn attr_state attrs) asn
  | as_path_not_origin asn ↦ is_other_origin (attr_view_origin_asn attr_state attrs) asn
  | community_contains value ↦ attr_view_has_community attr_state attrs value
  | community_not_contains value ↦ not (attr_view_has_community attr_state attrs value)
  | any ↦ true
  | _ ↦ false
]

unfoldable pub filter_rule_matches6 : Rule → Prefix6 → AttrState → Attrs → Bool
filter_rule_matches6 rule route attr_state attrs = elim rule.matching [
  | prefix6 p ↦ prefix6_includes p route
  | prefix6_more_or_equal p ↦ prefix6_includes p route
  | prefix6_exact p ↦ prefix6_eq p route
  | prefix6_more_specific p ↦ prefix6_is_more_specific p route
  | prefix6_less_specific p ↦ prefix6_is_less_specific p route
  | prefix6_less_or_equal p ↦ prefix6_includes route p
  | as_path_contains asn ↦ attr_view_has_asn attr_state attrs asn
  | as_path_not_contains asn ↦ not (attr_view_has_asn attr_state attrs asn)
  | as_path_origin asn ↦ is_origin (attr_view_origin_asn attr_state attrs) asn
  | as_path_not_origin asn ↦ is_other_origin (attr_view_origin_asn attr_state attrs) asn
  | community_contains value ↦ attr_view_has_community attr_state attrs value
  | community_not_contains value ↦ not (attr_view_has_community attr_state attrs value)
  | any ↦ true
  | _ ↦ false
]

unfoldable pub filter_init : Alloc Filter
filter_init = malloc >> give (record { rules = []; cap = 0 })

-- `sizeof(libbgp_filter_rule_t)`: two enumerations of 4 bytes and a union of 17 bytes, aligned to 4.
abbrev pub rule_size : ℕ
rule_size = 28

abbrev pub reallocate : Filter → ℕ → Mem → Bool × Filter × Mem
reallocate impl new_cap m =
    let got = allocate m in (got.0, if got.0 then record impl { cap = new_cap } else impl, got.1)

-- Whether there is room, the filter afterwards and the allocator's outcomes left.
unfoldable pub filter_reserve : Filter → ℕ → Mem → Bool × Filter × Mem
filter_reserve impl needed m =
    if leb needed impl.cap
    then (true, impl, m)
    else (elim (double_until 65 (if impl.cap == 0 then 4 else impl.cap * 2 % 2 ^ 64) needed) [
      | none ↦ (false, impl, m)
      | some new_cap ↦
          if ltb (size_max / rule_size) new_cap then (false, impl, m) else reallocate impl new_cap m
    ])

unfoldable pub filter_add_rule : Filter → Rule → Mem → Result (Unit {0}) × Filter × Mem
filter_add_rule impl rule m =
    let reserved = filter_reserve impl (length impl.rules + 1) m in
    if reserved.0
    then (ok tt, record reserved.1 { rules = impl.rules ++ rule ∷ [] }, reserved.2)
    else (err nomem, reserved.1, reserved.2)

unfoldable pub filter_clear : Filter → Filter
filter_clear impl = record impl { rules = [] }

unfoldable pub filter_rule_count : Filter → ℕ
filter_rule_count impl = length impl.rules

abbrev pub rule_at : List Rule → ℕ → Option Rule
rule_at [] i = none
rule_at (r ∷ rules) zero = some r
rule_at (r ∷ rules) (suc i) = rule_at rules i

-- The loop `for (i = count; i > 0; i--)` over `rules[i - 1]`.
unfoldable pub scan_rules : (Rule → Bool) → List Rule → ℕ → Decision → Decision
scan_rules matches rules zero decision = decision
scan_rules matches rules (suc i) decision =
    let rest = scan_rules matches rules i decision in
    elim (rule_at rules i) [
      | none ↦ rest
      | some rule ↦ if matches rule then rule.decision else rest
    ]

unfoldable pub filter_apply_route : Filter → Prefix4 → Attrs → Decision → Decision
filter_apply_route impl route attrs default_decision =
    let attr_state = filter_attr_state_build attrs in
    scan_rules (λ rule. filter_rule_matches rule route attr_state attrs) impl.rules
      (length impl.rules) default_decision

unfoldable pub filter_apply_route6 : Filter → Prefix6 → Attrs → Decision → Decision
filter_apply_route6 impl route attrs default_decision =
    let attr_state = filter_attr_state_build attrs in
    scan_rules (λ rule. filter_rule_matches6 rule route attr_state attrs) impl.rules
      (length impl.rules) default_decision
