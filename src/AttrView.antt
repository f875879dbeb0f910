-- ===== src/AttrView.antt =====
-- src/attr_view.h: the first attribute of each type code. Where `present[code]` is false,
-- `by_type code` is `none`.
use libbgp.Prelude.{ℕ, Bool, true, false, Option, none, some, ◌==◌, if◌then◌else◌}
use libbgp.Pattr.{Pattr}

pub record AttrView : Type 0 where
  pub by_type : ℕ → Option Pattr
  pub duplicate_found : Bool

abbrev pub attr_view_init : AttrView
attr_view_init = record { by_type = λ _. none; duplicate_found = false }

unfoldable pub set_type : (ℕ → Option Pattr) → ℕ → Pattr → ℕ → Option Pattr
set_type by_type code attr c = if c == code then some attr else by_type c

-- The attribute is dropped and a duplicate noted where its code is taken.
unfoldable pub attr_view_add : AttrView → Pattr → AttrView
attr_view_add view attr = elim (view.by_type attr.type_code) [
  | some taken ↦ record view { duplicate_found = true }
  | none ↦ record view { by_type = set_type view.by_type attr.type_code attr }
]

abbrev pub attr_view_get : AttrView → ℕ → Option Pattr
attr_view_get view type_code = view.by_type type_code
