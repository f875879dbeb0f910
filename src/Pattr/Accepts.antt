-- ===== src/Pattr/Accepts.antt =====
-- What a successful reading of a value by src/pattr.c has read: a value that both sides take, with as many
-- bytes as were read.
use libbgp.Prelude.{
  ℕ, ◌+◌, ◌/◌, ◌%◌, ◌≡◌, inl, inr, refl, sym, ◌∙◌, subst, List, [], ◌∷◌, Bool, true, false, leb,
  ◌==◌, ◌||◌, length, drop, take, get_or, arith, length-append, length-drop, Bool-cases, All,
  All-drop, ==→eq, leb→le, length-take,
}
use libbgp.Prelude.Bits.{AllBytes, IsByte}
use libbgp.Prelude.Errors.{ok, bad_len, Mem, ok_injective, Result-cases}
use libbgp.Prelude.Alloc.{malloc_bytes-cases, continue, give, require, ◌>>◌}
use libbgp.Prelude.Wire.{bgp_get_be32}
use libbgp.Pattr.{
  PattrData, PattrType, AsPathSegment, as_path, as4_path, next_hop, med, local_pref,
  atomic_aggregate, as4_aggregator, type_origin, type_as_path, type_next_hop, type_med,
  type_local_pref, type_atomic_aggregate, type_aggregator, type_community, type_as4_path,
  type_as4_aggregator, type_mp_reach_ipv6, type_mp_unreach_ipv6, type_unknown,
}
use libbgp.Pattr.Read.{
  parse_routes, ipv6_unicast, parse_value, parse_as_path, parse_community, parse_unknown,
  parse_aggregator, parse_mp_reach_ipv6, parse_mp_unreach_ipv6, read_asns,
}
use libbgp.Pattr.Segments.{
  IsSegment, path_len, length-read_asns, read_asns-IsAsn, be16-bound, be32-bound, length-write_asns,
}
use libbgp.Pattr.Path.{parse_as_path-IsSegment}
use libbgp.Pattr.Routes.{routes_bytes, parse_routes-IsRoute}
use libbgp.Pattr.Values.{IsValue, value_bytes, IsForeign, Belongs}

abbrev pub Took : PattrType → Bool → List ℕ → PattrData → Type 0
Took t four value d = IsValue four d × Belongs t d × (length (value_bytes d) ≡ length value)

unknown-Took :
    (t : PattrType) (four : Bool) (value : List ℕ) (m : Mem) (d : PattrData)
    → IsForeign t value
    → (parse_unknown value m).0 ≡ ok d
    → Took t four value d
unfolding parse_unknown
unknown-Took t four value m d h e = elim (malloc_bytes-cases (length value) m) [
  | inr x ↦ absurd (cc (rw x at e))
  | inl x ↦ subst (Took t four value) (ok_injective (rw x at e)) (tt, h, refl)
]

community-Took :
    (four : Bool) (value : List ℕ) (m : Mem) (d : PattrData)
    → AllBytes value
    → (parse_community value m).0 ≡ ok d
    → Took type_community four value d
unfolding parse_community
community-Took four value m d h e =
    let n = length value / 4 in
    elim (Bool-cases (length value % 4 == 0)) [
      | inr x ↦ absurd (cc (rw x at e))
      | inl whole ↦ elim (malloc_bytes-cases n m) [
        | inr x ↦ absurd (cc (rw (whole, x) at e))
        | inl got ↦ subst (Took type_community four value) (ok_injective (rw (whole, got) at e)) (
          read_asns-IsAsn n true value h,
          refl,
          length-write_asns true (read_asns n true value)
              ∙ ground (arith, length-read_asns n true value),
        )
      ]
    ]

aggregator-Took :
    (four : Bool) (value : List ℕ) (m : Mem) (d : PattrData)
    → AllBytes value
    → (parse_aggregator four value m).0 ≡ ok d
    → Took type_aggregator four value d
unfolding parse_aggregator
aggregator-Took true value m d h e = elim (Bool-cases (length value == 8)) [
  | inr x ↦ absurd (cc (rw x at e))
  | inl x ↦ subst (Took type_aggregator true value) (ok_injective (rw x at e)) (
    (refl, be32-bound value h, be32-bound (drop 4 value) (All-drop IsByte 4 value h)),
    refl,
    ground arith,
  )
]
aggregator-Took false value m d h e = elim (Bool-cases (length value == 6)) [
  | inr x ↦ absurd (cc (rw x at e))
  | inl x ↦ subst (Took type_aggregator false value) (ok_injective (rw x at e)) (
    (refl, be16-bound value h, be32-bound (drop 2 value) (All-drop IsByte 2 value h)),
    refl,
    ground arith,
  )
]

mp_unreach-Took :
    (four : Bool) (value : List ℕ) (m : Mem) (d : PattrData)
    → AllBytes value
    → (parse_mp_unreach_ipv6 value m).0 ≡ ok d
    → Took type_mp_unreach_ipv6 four value d
unfolding parse_mp_unreach_ipv6
mp_unreach-Took four value m d h e = elim (Bool-cases (leb 3 (length value))) [
  | inr x ↦ absurd (cc (rw x at e))
  | inl three ↦ elim (Bool-cases (ipv6_unicast value)) [
    | inr f ↦
        unknown-Took type_mp_unreach_ipv6 four value m d (inr (inr (refl, leb→le _ _ three, f)))
          (rw (three, f) at e)
    | inl u ↦ elim (Result-cases (parse_routes (length value) [] 0 (drop 3 value) m).0) [
      | inr x ↦ absurd (cc (rw (three, u, x.1) at e))
      | inl r ↦
          let read =
            parse_routes-IsRoute (length value) [] 0 (drop 3 value) m r.0
              (All-drop IsByte 3 value h) tt r.1 in
          subst (Took type_mp_unreach_ipv6 four value) (ok_injective (rw (three, u, r.1) at e))
            (read.0, refl, omega (arith, read.1, length-drop 3 value, leb→le _ _ three))
    ]
  ]
]

mp_reach-Took :
    (four : Bool) (value : List ℕ) (m : Mem) (d : PattrData)
    → AllBytes value
    → (parse_mp_reach_ipv6 value m).0 ≡ ok d
    → Took type_mp_reach_ipv6 four value d
unfolding parse_mp_reach_ipv6
mp_reach-Took four value m d h e =
    let n = get_or value 3 0 in
    elim (Bool-cases (leb 5 (length value))) [
      | inr x ↦ absurd (cc (rw x at e))
      | inl five ↦ elim (Bool-cases (ipv6_unicast value)) [
        | inr f ↦
            unknown-Took type_mp_reach_ipv6 four value m d (inr (inl (refl, leb→le _ _ five, f)))
              (rw (five, f) at e)
        | inl u ↦ elim (Bool-cases (n == 16 || n == 32)) [
          | inr x ↦ absurd (cc (rw (five, u, x) at e))
          | inl hop ↦ elim (Bool-cases (leb (5 + n) (length value))) [
            | inr x ↦ absurd (cc (rw (five, u, hop, x) at e))
            | inl long ↦ elim (Bool-cases (get_or value (4 + n) 0 == 0)) [
              | inr x ↦ absurd (cc (rw (five, u, hop, long, x) at e))
              | inl zeroed ↦
                  elim (Result-cases (parse_routes (length value) [] 0 (drop (5 + n) value) m).0) [
                    | inr x ↦ absurd (cc (rw (five, u, hop, long, zeroed, x.1) at e))
                    | inl r ↦
                        let read =
                          parse_routes-IsRoute (length value) [] 0 (drop (5 + n) value) m r.0
                            (All-drop IsByte (5 + n) value h) tt r.1 in
                        let fits = leb→le _ _ long in
                        let nexthop = take n (drop 4 value) in
                        let sized : length nexthop ≡ n =
                          omega (arith, length-take n (drop 4 value), length-drop 4 value, fits) in
                        subst (Took type_mp_reach_ipv6 four value)
                          (ok_injective (rw (five, u, hop, long, zeroed, r.1) at e))
                          (
                            (ground (arith, sized), read.0),
                            refl,
                            omega (
                              arith,
                              length-append nexthop (0 ∷ routes_bytes r.0),
                              sized,
                              read.1,
                              length-drop (5 + n) value,
                              fits,
                            ),
                          )
                  ]
            ]
          ]
        ]
      ]
    ]

path-Took :
    (b four : Bool) (t : PattrType) (value : List ℕ) (m : Mem)
    (build : List AsPathSegment → PattrData) (d : PattrData)
    → AllBytes value
    → ((segments : List AsPathSegment)
        → All (IsSegment b) segments
        → path_len b segments ≡ length value
        → Took t four value (build segments))
    → (continue
        (parse_as_path b value m).0
        (parse_as_path b value m).1
        (λ segments. give (build segments))).0
      ≡ ok d
    → Took t four value d
path-Took b four t value m build d h k e = elim (Result-cases (parse_as_path b value m).0) [
  | inr x ↦ absurd (cc (rw x.1 at e))
  | inl r ↦
      let read = parse_as_path-IsSegment b value m r.0 h r.1 in
      subst (Took t four value) (ok_injective (rw r.1 at e)) (k r.0 read.0 read.1)
]

-- A value of a fixed length.
sized-Took :
    (t : PattrType) (four : Bool) (value : List ℕ) (m : Mem) (n : ℕ) (made d : PattrData)
    → (length value ≡ n → Took t four value made)
    → ((require (length value == n) bad_len >> give made) m).0 ≡ ok d
    → Took t four value d
sized-Took t four value m n made d k e = elim (Bool-cases (length value == n)) [
  | inr x ↦ absurd (cc (rw x at e))
  | inl x ↦ subst (Took t four value) (ok_injective (rw x at e)) (k (==→eq _ _ x))
]

origin-Took :
    (four : Bool) (value : List ℕ) (m : Mem) (d : PattrData)
    → (parse_value type_origin four value m).0 ≡ ok d
    → Took type_origin four value d
unfolding parse_value
origin-Took four value m d e = elim (Bool-cases (length value == 1)) [
  | inr x ↦ absurd (cc (rw x at e))
  | inl one ↦ elim (Bool-cases (leb (get_or value 0 0) 2)) [
    | inr x ↦ absurd (cc (rw (one, x) at e))
    | inl low ↦
        subst (Took type_origin four value) (ok_injective (rw (one, low) at e))
          (leb→le _ _ low, refl, sym (==→eq _ _ one))
  ]
]

-- What is read is a value of the type that both sides take, with as many bytes.
pub parse_value-Took :
    (t : PattrType) (four : Bool) (value : List ℕ) (m : Mem) (d : PattrData)
    → AllBytes value
    → (parse_value t four value m).0 ≡ ok d
    → Took t four value d
unfolding parse_value
parse_value-Took type_origin four value m d h = origin-Took four value m d
parse_value-Took type_as_path four value m d h =
    path-Took four four type_as_path value m (as_path four) d h (λ s v k. ((refl, v), refl, k))
parse_value-Took type_next_hop four value m d h =
    sized-Took type_next_hop four value m 4 (next_hop (take 4 value)) d
      (λ k. (omega (arith, length-take 4 value), refl, omega (arith, length-take 4 value)))
parse_value-Took type_med four value m d h =
    sized-Took type_med four value m 4 (med (bgp_get_be32 value)) d
      (λ k. (be32-bound value h, refl, sym k))
parse_value-Took type_local_pref four value m d h =
    sized-Took type_local_pref four value m 4 (local_pref (bgp_get_be32 value)) d
      (λ k. (be32-bound value h, refl, sym k))
parse_value-Took type_atomic_aggregate four value m d h =
    sized-Took type_atomic_aggregate four value m 0 atomic_aggregate d (λ k. (tt, refl, sym k))
parse_value-Took type_aggregator four value m d h = aggregator-Took four value m d h
parse_value-Took type_community four value m d h = community-Took four value m d h
parse_value-Took type_as4_path four value m d h =
    path-Took true four type_as4_path value m (as4_path true) d h (λ s v k. ((refl, v), refl, k))
parse_value-Took type_as4_aggregator four value m d h =
    sized-Took type_as4_aggregator four value m 8
      (as4_aggregator (bgp_get_be32 value) (bgp_get_be32 (drop 4 value)) true) d
      (λ k. (
        (refl, be32-bound value h, be32-bound (drop 4 value) (All-drop IsByte 4 value h)),
        refl,
        sym k,
      ))
parse_value-Took type_mp_reach_ipv6 four value m d h = mp_reach-Took four value m d h
parse_value-Took type_mp_unreach_ipv6 four value m d h = mp_unreach-Took four value m d h
parse_value-Took type_unknown four value m d h = unknown-Took type_unknown four value m d (inl refl)
