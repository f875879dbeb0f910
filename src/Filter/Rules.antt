-- ===== src/Filter/Rules.antt =====
-- Adding rules in src/filter.c: the array's capacity, failures, and the decision afterwards.
use libbgp.Prelude.{
  ℕ, ◌+◌, ◌*◌, ◌/◌, ◌%◌, ◌^◌, ◌≤◌, ◌<◌, ◌≡◌, ◌⊎◌, inl, inr, refl, sym, ap, ◌∙◌, [], ◌∷◌, ◌++◌, Bool,
  true, false, ltb, leb, ◌==◌, ◌||◌, if◌then◌else◌, length, length-append, Bool-cases, leb→le,
  arith,
}
use libbgp.Prelude.Errors.{Result, ok, err, nomem, Mem}
use libbgp.Prelude.Growth.{size_max, double_until-once}
use libbgp.Prefix4.{Prefix4}
use libbgp.Filter.{Decision, Rule, Filter, Attrs}
use libbgp.Filter.Ops.{rule_size, reallocate, filter_reserve, filter_add_rule, filter_apply_route}
use libbgp.Filter.Apply.{
  override, override-append, prefix4_match, attrs_match, filter_apply_route_lem,
}

-- The rules fit the array, and the array fits the address space.
abbrev pub IsFilter : Filter → Type 0
IsFilter impl = (length impl.rules ≤ impl.cap) × (impl.cap ≤ size_max / rule_size)

abbrev grown : Filter → ℕ
grown impl = if impl.cap == 0 then 4 else impl.cap * 2 % 2 ^ 64

grown-enough :
    (impl : Filter)
    → IsFilter impl
    → ltb impl.cap (length impl.rules + 1) ≡ true
    → length impl.rules + 1 ≤ grown impl
grown-enough impl h e = ground arith

abbrev Reserved : Filter → Bool × Filter × Mem → Type 0
Reserved impl r =
    ((r.0 ≡ true)
      × (r.1.rules ≡ impl.rules)
      × (length impl.rules + 1 ≤ r.1.cap)
      × (r.1.cap ≤ size_max / rule_size))
    ⊎ ((r.0 ≡ false) × (r.1 ≡ impl))

reallocate_cases :
    (impl : Filter) (n : ℕ) (m : Mem)
    → length impl.rules + 1 ≤ n
    → n ≤ size_max / rule_size
    → Reserved impl (reallocate impl n m)
reallocate_cases impl n [] h k = inl (refl, refl, h, k)
reallocate_cases impl n (true ∷ m) h k = inl (refl, refl, h, k)
reallocate_cases impl n (false ∷ m) h k = inr (refl, refl)

filter_reserve_cases :
    (impl : Filter) (m : Mem)
    → IsFilter impl
    → Reserved impl (filter_reserve impl (length impl.rules + 1) m)
unfolding filter_reserve
filter_reserve_cases impl m h =
    let needed = length impl.rules + 1 in
    elim (Bool-cases (leb needed impl.cap)) [
      | inl e ↦ rw e (inl (refl, refl, leb→le needed impl.cap e, h.1))
      | inr e ↦
          let enough : needed ≤ grown impl = grown-enough impl h (ground arith) in
          elim (Bool-cases (ltb (size_max / rule_size) (grown impl))) [
            | inl big ↦ rw (e, double_until-once (grown impl) needed enough, big) (inr (refl, refl))
            | inr small ↦
                rw (e, double_until-once (grown impl) needed enough, small)
                  (reallocate_cases impl (grown impl) m enough (ground arith))
          ]
    ]

abbrev pub Added : Filter → Rule → Result (Unit {0}) × Filter × Mem → Type 0
Added impl rule r = (r.0 ≡ ok tt) × (r.1.rules ≡ impl.rules ++ rule ∷ []) × IsFilter r.1

-- On a filter whose rules fit its array, `filter_add_rule` either appends the rule, and the rules fit the
-- array again, or it answers LIBBGP_ERR_NOMEM and leaves the filter as it was.
pub filter_add_rule-Added :
    (impl : Filter) (rule : Rule) (m : Mem)
    → IsFilter impl
    → Added impl rule (filter_add_rule impl rule m)
      ⊎ (((filter_add_rule impl rule m).0 ≡ err nomem) × ((filter_add_rule impl rule m).1 ≡ impl))
unfolding filter_add_rule
filter_add_rule-Added impl rule m h = elim (filter_reserve_cases impl m h) [
  | inl got ↦
      rw got.0
        (inl (refl, refl, (omega (arith, length-append impl.rules (rule ∷ []), got.2), got.3)))
  | inr full ↦ rw full.0 (inr (refl, full.1))
]

added_rules :
    (impl : Filter) (rule : Rule) (m : Mem)
    → IsFilter impl
    → (filter_add_rule impl rule m).0 ≡ ok tt
    → (filter_add_rule impl rule m).1.rules ≡ impl.rules ++ rule ∷ []
added_rules impl rule m h e = elim (filter_add_rule-Added impl rule m h) [
  | inl added ↦ added.1
  | inr failed ↦ absurd (cc (failed.0, e))
]

reserved-ok :
    (impl : Filter) (rule : Rule)
    → IsFilter impl
    → impl.cap < 2 ^ 58
    → (filter_add_rule impl rule []).0 ≡ ok tt
unfolding filter_add_rule filter_reserve
reserved-ok impl rule h few =
    let needed = length impl.rules + 1 in
    elim (Bool-cases (leb needed impl.cap)) [
      | inl e ↦ rw e
      | inr e ↦
          let enough : needed ≤ grown impl = grown-enough impl h (ground arith) in
          let small : ltb (size_max / rule_size) (grown impl) ≡ false = ground arith in
          rw (e, double_until-once (grown impl) needed enough, small)
    ]

-- When the allocator does not fail, a rule is added to every filter whose rules fit its
-- array and whose capacity is below 2 ^ 58.
pub filter_add_rule-ok :
    (impl : Filter) (rule : Rule)
    → IsFilter impl
    → impl.cap < 2 ^ 58
    → Added impl rule (filter_add_rule impl rule [])
filter_add_rule-ok impl rule h few = elim (filter_add_rule-Added impl rule [] h) [
  | inl added ↦ added
  | inr failed ↦ absurd (cc (failed.0, reserved-ok impl rule h few))
]

-- A rule that was added decides the routes that it matches; all others are decided as before.
pub filter_add_rule-apply :
    (impl : Filter) (rule : Rule) (m : Mem) (route : Prefix4) (attrs : Attrs)
    (default_decision : Decision)
    → IsFilter impl
    → (filter_add_rule impl rule m).0 ≡ ok tt
    → filter_apply_route (filter_add_rule impl rule m).1 route attrs default_decision ≡ (
        if prefix4_match rule.matching route || attrs_match rule.matching attrs
        then rule.decision
        else filter_apply_route impl route attrs default_decision)
filter_add_rule-apply impl rule m route attrs d h added =
    let p = λ (r : Rule). prefix4_match r.matching route || attrs_match r.matching attrs in
    filter_apply_route_lem (filter_add_rule impl rule m).1 route attrs d
    ∙ ap (λ rules. override p rules d) (added_rules impl rule m h added)
    ∙ override-append p impl.rules rule d
    ∙ ap (λ x. if p rule then rule.decision else x)
        (sym (filter_apply_route_lem impl route attrs d))
