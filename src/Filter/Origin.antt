-- ===== src/Filter/Origin.antt =====
-- The origin of a route's path in src/filter.c: by the codes of the attributes and by a scan.
use libbgp.Prelude.{
  ℕ, ◌≡◌, inl, inr, refl, sym, ap, ◌∙◌, [], ◌∷◌, Bool, false, Option, none, some, ◌==◌, ◌&&◌, ◌||◌,
  Bool-cases, ==→eq, eq→==, arith,
}
use libbgp.Pattr.{Pattr, PattrData, as_path, as4_path, code_as_path, code_as4_path}
use libbgp.AttrView.{set_type}
use libbgp.Filter.{
  AttrState, Attrs, path_origin, is_as_path, is_as4_path, state_add, state_add_all, empty_state,
  filter_attr_state_build, origin_of, or_first, attrs_origin_asn, attr_view_origin_asn,
}
use libbgp.Filter.View.{
  IsClean, state_add-stored, state_add_all-IsClean, with_data, code_of_as_path, code_of_as4_path,
}

or_first-none : (o : Option ℕ) → or_first o none ≡ o
or_first-none none = refl
or_first-none (some x) = refl

or_first_assoc : (a b c : Option ℕ) → or_first (or_first a b) c ≡ or_first a (or_first b c)
or_first_assoc none b c = refl
or_first_assoc (some x) b c = refl

abbrev origin_view : AttrState → Option ℕ
origin_view state =
    or_first (origin_of (state.view.by_type code_as_path))
      (origin_of (state.view.by_type code_as4_path))

-- A path attribute that the view holds under its code has raised the flag of its type.
abbrev IsFlagged : AttrState → Type 0
IsFlagged state =
    (state.has_as_path_by_type ≡ false → origin_of (state.view.by_type code_as_path) ≡ none)
    × (state.has_as4_path_by_type ≡ false → origin_of (state.view.by_type code_as4_path) ≡ none)

-- Not both types of path are there.
abbrev IsSingle : AttrState → Type 0
IsSingle state = (state.has_as_path_by_type && state.has_as4_path_by_type) ≡ false

set_type-here :
    (by_type : ℕ → Option Pattr) (a : Pattr) (c : ℕ)
    → a.type_code ≡ c
    → set_type by_type a.type_code a c ≡ some a
unfolding set_type
set_type-here by_type a c e = rw (eq→== c a.type_code (sym e))

set_type-origin :
    (by_type : ℕ → Option Pattr) (a : Pattr) (c : ℕ)
    → by_type a.type_code ≡ none
    → (a.type_code ≡ c → path_origin a ≡ none)
    → origin_of (set_type by_type a.type_code a c) ≡ origin_of (by_type c)
unfolding set_type
set_type-origin by_type a c free h = elim (Bool-cases (c == a.type_code)) [
  | inl e ↦
      let same : by_type c ≡ none = ap by_type (==→eq c a.type_code e) ∙ free in
      rw (e, same) (h (sym (==→eq c a.type_code e)))
  | inr e ↦ rw e
]

module _ (state : AttrState) (a : Pattr) (clean : IsClean (state_add state a)) where
  at_code :
      (c : ℕ) → a.type_code ≡ c → origin_of ((state_add state a).view.by_type c) ≡ path_origin a
  at_code c e =
      ap origin_of
        (ap (λ b. b c) (state_add-stored state a clean).1 ∙ set_type-here state.view.by_type a c e)

  at_other :
      (c : ℕ)
      → (a.type_code ≡ c → path_origin a ≡ none)
      → origin_of ((state_add state a).view.by_type c) ≡ origin_of (state.view.by_type c)
  at_other c h =
      ap (λ b. origin_of (b c)) (state_add-stored state a clean).1
      ∙ set_type-origin state.view.by_type a c (state_add-stored state a clean).0 h

  before : (c : ℕ) → a.type_code ≡ c → origin_of (state.view.by_type c) ≡ none
  before c e =
      ap (λ k. origin_of (state.view.by_type k)) (sym e)
      ∙ ap origin_of (state_add-stored state a clean).0

abbrev Step : AttrState → Pattr → Type 0
Step state a =
    (origin_view (state_add state a) ≡ or_first (origin_view state) (path_origin a))
    × IsFlagged (state_add state a)

step :
    (state : AttrState) (a : Pattr) (d : PattrData)
    → IsClean (state_add state (with_data a d))
    → IsSingle (state_add state (with_data a d))
    → IsFlagged state
    → Step state (with_data a d)
unfolding state_add is_as_path is_as4_path path_origin
step state a (as_path is_4b segments) clean single flagged =
    let b = with_data a (as_path is_4b segments) in
    let code = code_of_as_path a is_4b segments (state_add-stored state b clean).2 in
    let kept = at_other state b clean code_as4_path (λ e. absurd (omega arith)) in
    (
      rw
          (
            at_code state b clean code_as_path code,
            kept,
            before state b clean code_as_path code,
            flagged.1 single,
          )
          (or_first-none (path_origin b)),
      (λ e. cc, λ e. kept ∙ flagged.1 e),
    )
step state a (as4_path is_4b segments) clean single flagged =
    let b = with_data a (as4_path is_4b segments) in
    let code = code_of_as4_path a is_4b segments (state_add-stored state b clean).2 in
    let kept = at_other state b clean code_as_path (λ e. absurd (omega arith)) in
    let no_as_path : state.has_as_path_by_type ≡ false = ground arith in
    (
      rw
          (
            at_code state b clean code_as4_path code,
            kept,
            before state b clean code_as4_path code,
            flagged.0 no_as_path,
          )
          refl,
      (λ e. kept ∙ flagged.0 e, λ e. cc),
    )
step state a d clean single flagged =
    let kept = λ (c : ℕ). at_other state (with_data a d) clean c (λ e. refl) in
    (
      rw (kept code_as_path, kept code_as4_path) (sym (or_first-none (origin_view state))),
      (λ e. kept code_as_path ∙ flagged.0 e, λ e. kept code_as4_path ∙ flagged.1 e),
    )

state_add_all-IsSingle :
    (state : AttrState) (attrs : Attrs) → IsSingle (state_add_all state attrs) → IsSingle state
unfolding state_add_all state_add
state_add_all-IsSingle state [] h = h
state_add_all-IsSingle state (none ∷ attrs) h = state_add_all-IsSingle state attrs h
state_add_all-IsSingle state (some a ∷ attrs) h =
    let next = state_add_all-IsSingle (state_add state a) attrs h in ground arith

state_add_all-origin :
    (state : AttrState) (attrs : Attrs)
    → IsClean (state_add_all state attrs)
    → IsSingle (state_add_all state attrs)
    → IsFlagged state
    → origin_view (state_add_all state attrs)
      ≡ or_first (origin_view state) (attrs_origin_asn attrs)
unfolding state_add_all attrs_origin_asn
state_add_all-origin state [] clean single flagged = sym (or_first-none (origin_view state))
state_add_all-origin state (none ∷ attrs) clean single flagged =
    state_add_all-origin state attrs clean single flagged
state_add_all-origin state (some a ∷ attrs) clean single flagged =
    let next = state_add state a in
    let one =
      step state a a.data_of (state_add_all-IsClean next attrs clean)
        (state_add_all-IsSingle next attrs single) flagged in
    rw (state_add_all-origin next attrs clean single one.1, one.0)
      (or_first_assoc (origin_view state) (path_origin a) (attrs_origin_asn attrs))

abbrev falls_back : AttrState → Bool
falls_back state =
    state.view.duplicate_found
    || state.type_code_mismatch
    || (state.has_as_path_by_type && state.has_as4_path_by_type)

-- `attr_view_origin_asn` on the state that is built from the attributes gives the origin that the scan of
-- all attributes gives, none included, with or without duplicates, foreign codes and both types of path.
pub attr_view_origin_asn_lem :
    (attrs : Attrs)
    → attr_view_origin_asn (filter_attr_state_build attrs) attrs ≡ attrs_origin_asn attrs
unfolding attr_view_origin_asn filter_attr_state_build
attr_view_origin_asn_lem attrs =
    let state = state_add_all empty_state attrs in
    elim (Bool-cases (falls_back state)) [
      | inl e ↦ rw e
      | inr e ↦ rw e (
          state_add_all-origin empty_state attrs (ground arith, ground arith) (ground arith)
            (λ _. refl, λ _. refl))
    ]
