-- ===== src/Filter/View.antt =====
-- The tests of src/filter.c that look an attribute up by its code against the scans over all attributes.
use libbgp.Prelude.{
  ℕ, ◌≡◌, ◌⊎◌, inl, inr, refl, sym, ap, ◌∙◌, List, [], ◌∷◌, Bool, true, false, Option, none, some,
  ◌==◌, ◌&&◌, ◌||◌, if◌then◌else◌, Bool-cases, ==→eq, eq→==, arith,
}
use libbgp.Pattr.{
  Pattr, PattrData, AsPathSegment, as_path, as4_path, community, code_as_path, code_as4_path,
  code_community,
}
use libbgp.AttrView.{AttrView, attr_view_add, set_type}
use libbgp.Filter.{
  AttrState, Attrs, path_contains, has_community, filter_expected_type_code, is_mismatch, state_add,
  state_add_all, empty_state, filter_attr_state_build, test, attrs_have, attr_view_has_asn,
  attr_view_has_community,
}

-- The conditions under which the view is used: no code twice and none that belongs to another type.
abbrev pub IsClean : AttrState → Type 0
IsClean state = (state.view.duplicate_found ≡ false) × (state.type_code_mismatch ≡ false)

view_add-free :
    (view : AttrView) (a : Pattr)
    → view.by_type a.type_code ≡ none
    → attr_view_add view a ≡ record view { by_type = set_type view.by_type a.type_code a }
unfolding attr_view_add
view_add-free view a e = rw (attr_view_add, e)

view_add-taken :
    (view : AttrView) (a b : Pattr)
    → view.by_type a.type_code ≡ some b
    → (attr_view_add view a).duplicate_found ≡ true
unfolding attr_view_add
view_add-taken view a b e = rw (attr_view_add, e)

slot_cases : (o : Option Pattr) → (o ≡ none) ⊎ ((b : Pattr) × (o ≡ some b))
slot_cases none = inl refl
slot_cases (some b) = inr (b, refl)

-- A clean addition finds its code free and stores the attribute there, and was clean before.
pub state_add-stored :
    (state : AttrState) (a : Pattr)
    → IsClean (state_add state a)
    → (state.view.by_type a.type_code ≡ none)
      × ((state_add state a).view.by_type ≡ set_type state.view.by_type a.type_code a)
      × (is_mismatch a ≡ false)
      × IsClean state
unfolding state_add
state_add-stored state a h = elim (slot_cases (state.view.by_type a.type_code)) [
  | inl free ↦
      let added = view_add-free state.view a free in
      (
        free,
        ap (λ v. v.by_type) added,
        ground arith,
        (ap (λ v. v.duplicate_found) (sym added) ∙ h.0, ground arith),
      )
  | inr taken ↦ absurd (cc (view_add-taken state.view a taken.0 taken.1, h.0))
]

pub state_add_all-IsClean :
    (state : AttrState) (attrs : Attrs) → IsClean (state_add_all state attrs) → IsClean state
unfolding state_add_all
state_add_all-IsClean state [] h = h
state_add_all-IsClean state (none ∷ attrs) h = state_add_all-IsClean state attrs h
state_add_all-IsClean state (some a ∷ attrs) h =
    (state_add-stored state a (state_add_all-IsClean (state_add state a) attrs h)).3

set_type-test :
    (p : Pattr → Bool) (by_type : ℕ → Option Pattr) (a : Pattr) (c : ℕ)
    → by_type a.type_code ≡ none
    → test p (set_type by_type a.type_code a c) ≡ (test p (by_type c) || (c == a.type_code && p a))
unfolding set_type
set_type-test p by_type a c free = elim (Bool-cases (c == a.type_code)) [
  | inl e ↦ let same : by_type c ≡ none = ap by_type (==→eq c a.type_code e) ∙ free in rw (e, same)
  | inr e ↦ rw e (ground arith)
]

-- A test that only attributes with one of two codes pass.
abbrev pub IsCoded : (Pattr → Bool) → ℕ → ℕ → Type 0
IsCoded p c d =
    (a : Pattr) → is_mismatch a ≡ false → p a ≡ true → (a.type_code ≡ c) ⊎ (a.type_code ≡ d)

abbrev view_test : (Pattr → Bool) → ℕ → ℕ → AttrState → Bool
view_test p c d state = test p (state.view.by_type c) || test p (state.view.by_type d)

merge_lem :
    (x y k l p : Bool)
    → (p ≡ true → (k ≡ true) ⊎ (l ≡ true))
    → ((x || (k && p)) || (y || (l && p))) ≡ ((x || y) || p)
merge_lem true y k l p h = refl
merge_lem false true k l true h = ground arith
merge_lem false true k l false h = ground arith
merge_lem false false k l true h = ground (arith, h refl)
merge_lem false false k l false h = ground arith

coded_eq : {n c d : ℕ} → (n ≡ c) ⊎ (n ≡ d) → ((c == n) ≡ true) ⊎ ((d == n) ≡ true)
coded_eq {n} {c} {d} (inl e) = inl (eq→== c n (sym e))
coded_eq {n} {c} {d} (inr e) = inr (eq→== d n (sym e))

state_add-test :
    (p : Pattr → Bool) (c d : ℕ) (state : AttrState) (a : Pattr)
    → IsCoded p c d
    → IsClean (state_add state a)
    → view_test p c d (state_add state a) ≡ (view_test p c d state || p a)
state_add-test p c d state a coded clean =
    let s = state_add-stored state a clean in
    let at_c = ap (λ b. test p (b c)) s.1 ∙ set_type-test p state.view.by_type a c s.0 in
    let at_d = ap (λ b. test p (b d)) s.1 ∙ set_type-test p state.view.by_type a d s.0 in
    let hit = λ (passes : p a ≡ true). coded_eq (coded a s.2 passes) in
    rw (at_c, at_d)
      (merge_lem (test p (state.view.by_type c)) (test p (state.view.by_type d)) _ _ (p a) hit)

or_if : (x b r : Bool) → ((x || b) || r) ≡ (x || (if b then true else r))
or_if true b r = refl
or_if false true r = refl
or_if false false r = refl

state_add_all-test :
    (p : Pattr → Bool) (c d : ℕ) (state : AttrState) (attrs : Attrs)
    → IsCoded p c d
    → IsClean (state_add_all state attrs)
    → view_test p c d (state_add_all state attrs) ≡ (view_test p c d state || attrs_have p attrs)
unfolding state_add_all attrs_have
state_add_all-test p c d state [] coded clean = ground arith
state_add_all-test p c d state (none ∷ attrs) coded clean =
    state_add_all-test p c d state attrs coded clean
state_add_all-test p c d state (some a ∷ attrs) coded clean =
    let next = state_add state a in
    let one = state_add-test p c d state a coded (state_add_all-IsClean next attrs clean) in
    rw (state_add_all-test p c d next attrs coded clean, one)
      (or_if (view_test p c d state) (p a) (attrs_have p attrs))

twice : (b : Bool) → b ≡ (b || b)
twice true = refl
twice false = refl

-- The attribute `a` with other data.
abbrev pub with_data : Pattr → PattrData → Pattr
with_data a d = record a { data_of = d }

pub code_of_as_path :
    (a : Pattr) (is_4b : Bool) (segments : List AsPathSegment)
    → is_mismatch (with_data a (as_path is_4b segments)) ≡ false
    → a.type_code ≡ code_as_path
unfolding is_mismatch filter_expected_type_code
code_of_as_path a is_4b segments h = ground arith

pub code_of_as4_path :
    (a : Pattr) (is_4b : Bool) (segments : List AsPathSegment)
    → is_mismatch (with_data a (as4_path is_4b segments)) ≡ false
    → a.type_code ≡ code_as4_path
unfolding is_mismatch filter_expected_type_code
code_of_as4_path a is_4b segments h = ground arith

code_of_community :
    (a : Pattr) (values : List ℕ)
    → is_mismatch (with_data a (community values)) ≡ false
    → a.type_code ≡ code_community
unfolding is_mismatch filter_expected_type_code
code_of_community a values h = ground arith

path_code :
    (a : Pattr) (d : PattrData) (asn : ℕ)
    → is_mismatch (with_data a d) ≡ false
    → path_contains asn (with_data a d) ≡ true
    → (a.type_code ≡ code_as_path) ⊎ (a.type_code ≡ code_as4_path)
unfolding path_contains
path_code a (as_path is_4b segments) asn h e = inl (code_of_as_path a is_4b segments h)
path_code a (as4_path is_4b segments) asn h e = inr (code_of_as4_path a is_4b segments h)
path_code a _ asn h e = cc

community_code :
    (a : Pattr) (d : PattrData) (value : ℕ)
    → is_mismatch (with_data a d) ≡ false
    → has_community value (with_data a d) ≡ true
    → (a.type_code ≡ code_community) ⊎ (a.type_code ≡ code_community)
unfolding has_community
community_code a (community values) value h e = inl (code_of_community a values h)
community_code a _ value h e = cc

path_contains-IsCoded : (asn : ℕ) → IsCoded (path_contains asn) code_as_path code_as4_path
path_contains-IsCoded asn a matched passes = path_code a a.data_of asn matched passes

has_community-IsCoded : (value : ℕ) → IsCoded (has_community value) code_community code_community
has_community-IsCoded value a matched passes = community_code a a.data_of value matched passes

IsClean-cases :
    (state : AttrState)
    → IsClean state ⊎ ((state.view.duplicate_found || state.type_code_mismatch) ≡ true)
IsClean-cases state = elim (Bool-cases (state.view.duplicate_found || state.type_code_mismatch)) [
  | inl e ↦ inr e
  | inr e ↦ inl (ground arith, ground arith)
]

-- `attr_view_has_asn` on the state that is built from the attributes finds an AS number exactly if the
-- scan of all attributes does, with or without duplicates and codes that do not belong to their type.
pub attr_view_has_asn_lem :
    (attrs : Attrs) (asn : ℕ)
    → attr_view_has_asn (filter_attr_state_build attrs) attrs asn
      ≡ attrs_have (path_contains asn) attrs
unfolding attr_view_has_asn filter_attr_state_build
attr_view_has_asn_lem attrs asn =
    let state = state_add_all empty_state attrs in
    elim (IsClean-cases state) [
      | inr e ↦ rw e
      | inl clean ↦
          rw (clean.0, clean.1)
            (state_add_all-test (path_contains asn) code_as_path code_as4_path empty_state attrs
              (path_contains-IsCoded asn) clean)
    ]

-- `attr_view_has_community` on the state that is built from the attributes finds a community exactly if the
-- scan of all attributes does, with or without duplicates and codes that do not belong to their type.
pub attr_view_has_community_lem :
    (attrs : Attrs) (value : ℕ)
    → attr_view_has_community (filter_attr_state_build attrs) attrs value
      ≡ attrs_have (has_community value) attrs
unfolding attr_view_has_community filter_attr_state_build
attr_view_has_community_lem attrs value =
    let state = state_add_all empty_state attrs in
    elim (IsClean-cases state) [
      | inr e ↦ rw e
      | inl clean ↦
          rw (clean.0, clean.1)
            (twice (test (has_community value) (state.view.by_type code_community))
              ∙ state_add_all-test (has_community value) code_community code_community empty_state
                  attrs (has_community-IsCoded value) clean)
    ]
