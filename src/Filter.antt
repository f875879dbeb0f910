-- ===== src/Filter.antt =====
-- src/filter.c: ordered rules that permit or deny routes. A lock is held around every operation, so the
-- operations are functions of the filter; a filter that is not initialised (`impl` NULL) is not a value
-- of the model. Of a route an operation reads the prefix and the attributes only, which are its arguments;
-- an attribute pointer may be NULL, which is `none`.
pub mod Ops
pub mod View
pub mod Origin
pub mod Apply
pub mod Rules
pub mod Prefixes
use libbgp.Prelude.{
  ℕ, zero, suc, ◌+◌, ◌-◌, ◌*◌, ◌/◌, ◌%◌, ◌^◌, List, [], ◌∷◌, ◌++◌, Bool, true, false, Option, none,
  some, ltb, leb, ◌==◌, ◌&&◌, ◌||◌, if◌then◌else◌, length, get_or,
}
use libbgp.Prelude.Errors.{Result, ok, err, nomem, Mem, allocate}
use libbgp.Prelude.Growth.{size_max}
use libbgp.Prefix4.{Prefix4, prefix4_includes, prefix4_eq}
use libbgp.Prefix6.{Prefix6, prefix6_includes, prefix6_eq}
use libbgp.Pattr.{
  Pattr, PattrData, as_path, as4_path, community, AsPathSegment, code_as_path, code_as4_path,
  code_community,
}
use libbgp.AttrView.{AttrView, attr_view_init, attr_view_add, attr_view_get}

pub data Decision : Type 0 where
  deny permit : Decision

-- `libbgp_filter_match_type_t` with the member of the union that the match type reads.
pub data Match : Type 0 where
  prefix4 prefix4_exact prefix4_more_specific prefix4_more_or_equal prefix4_less_specific
        prefix4_less_or_equal :
      Prefix4 → Match
  prefix6 prefix6_exact prefix6_more_specific prefix6_more_or_equal prefix6_less_specific
        prefix6_less_or_equal :
      Prefix6 → Match
  as_path_contains as_path_not_contains as_path_origin as_path_not_origin : (asn : ℕ) → Match
  community_contains community_not_contains : (value : ℕ) → Match
  any : Match

pub record Rule : Type 0 where
  pub matching : Match
  pub decision : Decision

-- `filter_impl_t`: the first `count` rules and the capacity of the array.
pub record Filter : Type 0 where
  pub rules : List Rule
  pub cap : ℕ

-- `filter_attr_state_t`.
pub record AttrState : Type 0 where
  pub view : AttrView
  pub type_code_mismatch : Bool
  pub has_as_path_by_type : Bool
  pub has_as4_path_by_type : Bool

abbrev pub Attrs : Type 0
Attrs = List (Option Pattr)

unfoldable pub contains : List ℕ → ℕ → Bool
contains [] x = false
contains (y ∷ ys) x = if y == x then true else contains ys x

unfoldable pub segments_contain : List AsPathSegment → ℕ → Bool
segments_contain [] asn = false
segments_contain (s ∷ ss) asn = if contains s.asns asn then true else segments_contain ss asn

-- `as_path_contains`.
unfoldable pub path_contains : ℕ → Pattr → Bool
path_contains asn attr = elim attr.data_of [
  | as_path is_4b segments ↦ segments_contain segments asn
  | as4_path is_4b segments ↦ segments_contain segments asn
  | _ ↦ false
]

-- The last number of the last sequence that is not empty; `found` is the one met so far.
unfoldable pub segments_origin : Option ℕ → List AsPathSegment → Option ℕ
segments_origin found [] = found
segments_origin found (s ∷ ss) =
    segments_origin
      (if s.segment_type == 2 && ltb 0 (length s.asns)
        then some (get_or s.asns (length s.asns - 1) 0)
        else found)
      ss

-- `as_path_origin_asn`, with `none` for false.
unfoldable pub path_origin : Pattr → Option ℕ
path_origin attr = elim attr.data_of [
  | as_path is_4b segments ↦ segments_origin none segments
  | as4_path is_4b segments ↦ segments_origin none segments
  | _ ↦ none
]

-- `community_contains`.
unfoldable pub has_community : ℕ → Pattr → Bool
has_community value attr = elim attr.data_of [
  | community values ↦ contains values value
  | _ ↦ false
]

unfoldable pub filter_expected_type_code : PattrData → ℕ
filter_expected_type_code (as_path is_4b segments) = code_as_path
filter_expected_type_code (as4_path is_4b segments) = code_as4_path
filter_expected_type_code (community values) = code_community
filter_expected_type_code _ = 0

unfoldable pub is_as_path : PattrData → Bool
is_as_path (as_path is_4b segments) = true
is_as_path _ = false

unfoldable pub is_as4_path : PattrData → Bool
is_as4_path (as4_path is_4b segments) = true
is_as4_path _ = false

unfoldable pub is_mismatch : Pattr → Bool
is_mismatch attr =
    let expected = filter_expected_type_code attr.data_of in
    if expected == 0 then false else (if attr.type_code == expected then false else true)

-- One round of the loop of `filter_attr_state_build`.
unfoldable pub state_add : AttrState → Pattr → AttrState
state_add state attr = record {
  view = attr_view_add state.view attr;
  type_code_mismatch = is_mismatch attr || state.type_code_mismatch;
  has_as_path_by_type = is_as_path attr.data_of || state.has_as_path_by_type;
  has_as4_path_by_type = is_as4_path attr.data_of || state.has_as4_path_by_type;
}

unfoldable pub state_add_all : AttrState → Attrs → AttrState
state_add_all state [] = state
state_add_all state (none ∷ attrs) = state_add_all state attrs
state_add_all state (some attr ∷ attrs) = state_add_all (state_add state attr) attrs

abbrev pub empty_state : AttrState
empty_state = record {
  view = attr_view_init;
  type_code_mismatch = false;
  has_as_path_by_type = false;
  has_as4_path_by_type = false;
}

unfoldable pub filter_attr_state_build : Attrs → AttrState
filter_attr_state_build attrs = state_add_all empty_state attrs

-- A test of an attribute pointer, false for NULL.
abbrev pub test : (Pattr → Bool) → Option Pattr → Bool
test p none = false
test p (some attr) = p attr

abbrev pub origin_of : Option Pattr → Option ℕ
origin_of none = none
origin_of (some attr) = path_origin attr

abbrev pub or_first : Option ℕ → Option ℕ → Option ℕ
or_first none o = o
or_first (some x) o = some x

-- The scans over all attributes: `attrs_have_asn` and `attrs_have_community` are `attrs_have` of the
-- test of one attribute.
unfoldable pub attrs_have : (Pattr → Bool) → Attrs → Bool
attrs_have p [] = false
attrs_have p (a ∷ attrs) = if test p a then true else attrs_have p attrs

unfoldable pub attrs_origin_asn : Attrs → Option ℕ
attrs_origin_asn [] = none
attrs_origin_asn (a ∷ attrs) = or_first (origin_of a) (attrs_origin_asn attrs)

unfoldable pub attr_view_has_asn : AttrState → Attrs → ℕ → Bool
attr_view_has_asn state attrs asn =
    let as_path_attr = attr_view_get state.view code_as_path in
    let as4_path_attr = attr_view_get state.view code_as4_path in
    if state.view.duplicate_found || state.type_code_mismatch
    then attrs_have (path_contains asn) attrs
    else test (path_contains asn) as_path_attr || test (path_contains asn) as4_path_attr

unfoldable pub attr_view_has_community : AttrState → Attrs → ℕ → Bool
attr_view_has_community state attrs value =
    let community_attr = attr_view_get state.view code_community in
    if state.view.duplicate_found || state.type_code_mismatch
    then attrs_have (has_community value) attrs
    else test (has_community value) community_attr

unfoldable pub attr_view_origin_asn : AttrState → Attrs → Option ℕ
attr_view_origin_asn state attrs =
    let as_path_attr = attr_view_get state.view code_as_path in
    let as4_path_attr = attr_view_get state.view code_as4_path in
    if state.view.duplicate_found
      || state.type_code_mismatch
      || (state.has_as_path_by_type && state.has_as4_path_by_type)
    then attrs_origin_asn attrs
    else or_first (origin_of as_path_attr) (origin_of as4_path_attr)
