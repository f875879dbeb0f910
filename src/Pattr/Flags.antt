-- ===== src/Pattr/Flags.antt =====
-- Flags and type codes of src/pattr.c: one byte each, so that evaluation decides what holds of all of them.
use libbgp.Prelude.{
  ℕ, ◌<◌, ◌≡◌, ◌⊎◌, inl, inr, refl, sym, ap, ◌∙◌, Bool, true, false, not, ◌&&◌, ◌||◌, ◌==◌, ltb,
  ==→eq, if◌then◌else◌,
}
use libbgp.Prelude.Bits.{all_below, all_below_sound}
use libbgp.Pattr.{
  PattrType, type_origin, type_as_path, type_next_hop, type_med, type_local_pref,
  type_atomic_aggregate, type_aggregator, type_community, type_as4_path, type_as4_aggregator,
  type_mp_reach_ipv6, type_mp_unreach_ipv6, type_unknown, pattr_type_from_code,
  pattr_default_type_code, pattr_known_flags_valid, unknown_flags_valid, typed_flags_valid,
  pattr_default_flags, has, flag_extended_length,
}
use libbgp.Pattr.Write.{wire_flags}

abbrev same : Bool → Bool → Bool
same true b = b
same false b = not b

same→eq : (a b : Bool) → same a b ≡ true → a ≡ b
same→eq true b h = sym h
same→eq false true h = absurd (cc)
same→eq false false h = refl

not→false : (b : Bool) → not b ≡ true → b ≡ false
not→false true h = absurd (cc)
not→false false h = refl

-- What is true of every byte by evaluation.
every_byte : (test : ℕ → Bool) → all_below 256 test ≡ true → (k : ℕ) → k < 256 → test k ≡ true
every_byte test checked k h = all_below_sound 256 test k checked h

bit_set : all_below 256 (λ f. has (wire_flags f true) flag_extended_length) ≡ true
unfolding all_below
bit_set = refl

bit_clear : all_below 256 (λ f. not (has (wire_flags f false) flag_extended_length)) ≡ true
unfolding all_below
bit_clear = refl

-- The flag for two bytes of length is written as it is asked for.
pub has-wire_flags : (f : ℕ) (e : Bool) → f < 256 → has (wire_flags f e) flag_extended_length ≡ e
has-wire_flags f true h = every_byte (λ f. has (wire_flags f true) flag_extended_length) bit_set f h
has-wire_flags f false h =
    not→false _
      (every_byte (λ f. not (has (wire_flags f false) flag_extended_length)) bit_clear f h)

kept_table : all_below 256 (λ f. wire_flags f (has f flag_extended_length) == f) ≡ true
unfolding all_below
kept_table = refl

pub wire_flags-has : (f : ℕ) → f < 256 → wire_flags f (has f flag_extended_length) ≡ f
wire_flags-has f h =
    ==→eq _ _ (every_byte (λ f. wire_flags f (has f flag_extended_length) == f) kept_table f h)

byte_table : all_below 256 (λ f. ltb (wire_flags f true) 256 && ltb (wire_flags f false) 256) ≡ true
unfolding all_below
byte_table = refl

abbrev valid_test : PattrType → Bool → ℕ → Bool
valid_test t e f = same (pattr_known_flags_valid t (wire_flags f e)) (pattr_known_flags_valid t f)

valid_table : (t : PattrType) (e : Bool) → all_below 256 (valid_test t e) ≡ true
unfolding all_below pattr_known_flags_valid unknown_flags_valid typed_flags_valid
    pattr_default_flags
valid_table type_origin true = refl
valid_table type_origin false = refl
valid_table type_as_path true = refl
valid_table type_as_path false = refl
valid_table type_next_hop true = refl
valid_table type_next_hop false = refl
valid_table type_med true = refl
valid_table type_med false = refl
valid_table type_local_pref true = refl
valid_table type_local_pref false = refl
valid_table type_atomic_aggregate true = refl
valid_table type_atomic_aggregate false = refl
valid_table type_aggregator true = refl
valid_table type_aggregator false = refl
valid_table type_community true = refl
valid_table type_community false = refl
valid_table type_as4_path true = refl
valid_table type_as4_path false = refl
valid_table type_as4_aggregator true = refl
valid_table type_as4_aggregator false = refl
valid_table type_mp_reach_ipv6 true = refl
valid_table type_mp_reach_ipv6 false = refl
valid_table type_mp_unreach_ipv6 true = refl
valid_table type_mp_unreach_ipv6 false = refl
valid_table type_unknown true = refl
valid_table type_unknown false = refl

-- That flag does not matter for the check.
pub valid-wire_flags :
    (t : PattrType) (f : ℕ) (e : Bool)
    → f < 256
    → pattr_known_flags_valid t (wire_flags f e) ≡ pattr_known_flags_valid t f
valid-wire_flags t f e h = same→eq _ _ (every_byte (valid_test t e) (valid_table t e) f h)

abbrev optional_test : ℕ → Bool
optional_test f =
    if pattr_known_flags_valid type_mp_reach_ipv6 f
    then pattr_known_flags_valid type_unknown f
    else true

optional_table : all_below 256 optional_test ≡ true
unfolding all_below pattr_known_flags_valid unknown_flags_valid typed_flags_valid
    pattr_default_flags
optional_table = refl

-- Flags that fit the attributes for IPv6 routes fit an unknown attribute.
pub valid-unknown :
    (f : ℕ)
    → f < 256
    → pattr_known_flags_valid type_mp_reach_ipv6 f ≡ true
    → pattr_known_flags_valid type_unknown f ≡ true
valid-unknown f h v =
    sym (ap (λ b. if b then pattr_known_flags_valid type_unknown f else true) v)
    ∙ every_byte optional_test optional_table f h

abbrev is_unknown : PattrType → Bool
is_unknown t = elim t [ type_unknown ↦ true | _ ↦ false ]

abbrev code_test : ℕ → Bool
code_test code =
    is_unknown (pattr_type_from_code code)
    || code == pattr_default_type_code (pattr_type_from_code code)

code_table : all_below 256 code_test ≡ true
unfolding all_below pattr_type_from_code pattr_default_type_code
code_table = refl

is_unknown-eq : (t : PattrType) → is_unknown t ≡ true → t ≡ type_unknown
is_unknown-eq type_unknown h = refl
is_unknown-eq type_origin h = absurd (cc)
is_unknown-eq type_as_path h = absurd (cc)
is_unknown-eq type_next_hop h = absurd (cc)
is_unknown-eq type_med h = absurd (cc)
is_unknown-eq type_local_pref h = absurd (cc)
is_unknown-eq type_atomic_aggregate h = absurd (cc)
is_unknown-eq type_aggregator h = absurd (cc)
is_unknown-eq type_community h = absurd (cc)
is_unknown-eq type_as4_path h = absurd (cc)
is_unknown-eq type_as4_aggregator h = absurd (cc)
is_unknown-eq type_mp_reach_ipv6 h = absurd (cc)
is_unknown-eq type_mp_unreach_ipv6 h = absurd (cc)

or-cases : (a b : Bool) → a || b ≡ true → (a ≡ true) ⊎ (b ≡ true)
or-cases true b h = inl refl
or-cases false b h = inr h

-- A code selects no type, or it is the code of the type that it selects.
pub type_from_code-cases :
    (code : ℕ)
    → code < 256
    → (pattr_type_from_code code ≡ type_unknown)
      ⊎ (code ≡ pattr_default_type_code (pattr_type_from_code code))
type_from_code-cases code h = elim (or-cases _ _ (every_byte code_test code_table code h)) [
  | inl e ↦ inl (is_unknown-eq _ e)
  | inr e ↦ inr (==→eq _ _ e)
]
