-- ===== src/Pattr/Routes.antt =====
-- The IPv6 routes of src/pattr.c: reading what is written, and what a successful reading has read.
use libbgp.Prelude.{
  ℕ, zero, suc, ◌+◌, ◌-◌, ◌*◌, ◌/◌, ◌%◌, ◌^◌, ◌≤◌, ◌≡◌, inl, inr, refl, sym, ap, ap₂, ◌∙◌, subst,
  List, [], ◌∷◌, ◌++◌, true, false, ltb, leb, ◌==◌, ◌||◌, not, if◌then◌else◌, length, drop, arith,
  length-append, length-drop, append_assoc, append-nil, Bool-cases, All, All-drop, All-append,
  drop-append_length,
}
use libbgp.Prelude.Bits.{AllBytes, IsByte}
use libbgp.Prelude.Errors.{ok, Mem, ok_injective, Result-cases}
use libbgp.Prelude.Growth.{size_max}
use libbgp.Prefix.{prefix_octets}
use libbgp.Prefix.Octets.{masked_octets, length-masked_octets}
use libbgp.Prefix.Codec.{canonical}
use libbgp.Prefix6.{Prefix6, IsPrefix6, prefix6_parse}
use libbgp.Prefix6.Codec.{write_form, prefix6_parse-write, prefix6_write-parse}
use libbgp.Pattr.Read.{prefix6_size, reserve_route, parse_routes}
use libbgp.Pattr.Write.{add_size, routes_len, write_routes}

-- A valid prefix whose host bits are clear.
abbrev pub IsRoute : Prefix6 → Type 0
IsRoute p = IsPrefix6 p × (canonical p ≡ p)

abbrev pub route_bytes : Prefix6 → List ℕ
route_bytes p = p.len ∷ masked_octets p.len p.addr

abbrev pub routes_bytes : List Prefix6 → List ℕ
routes_bytes [] = []
routes_bytes (p ∷ routes) = route_bytes p ++ routes_bytes routes

pub routes_bytes-append :
    (ps qs : List Prefix6)
    → length (routes_bytes (ps ++ qs)) ≡ length (routes_bytes ps) + length (routes_bytes qs)
routes_bytes-append [] qs = omega arith
routes_bytes-append (p ∷ ps) qs = omega (
  arith,
  length-append (route_bytes p) (routes_bytes (ps ++ qs)),
  length-append (route_bytes p) (routes_bytes ps),
  routes_bytes-append ps qs,
)

length-route_bytes : (p : Prefix6) → IsPrefix6 p → length (route_bytes p) ≡ 1 + prefix_octets p.len
length-route_bytes p h = omega (arith, length-masked_octets h)

-- A route is read back.
prefix6_parse-route :
    (p : Prefix6) (rest : List ℕ)
    → IsRoute p
    → prefix6_parse (route_bytes p ++ rest) ≡ ok (p, length (route_bytes p))
prefix6_parse-route p rest h =
    let cap = 1 + prefix_octets p.len in
    let w = prefix6_parse-write p cap rest h.0 (omega arith) in
    let same : w.0 ≡ route_bytes p = ok_injective (sym w.1 ∙ write_form p cap h.0 (omega arith)) in
    ap (λ (b : List ℕ). prefix6_parse (b ++ rest)) (sym same)
    ∙ w.3
    ∙ ap₂ (λ (q : Prefix6) (b : List ℕ). ok (q, length b)) h.1 same

pub routes_len-bytes :
    (routes : List Prefix6) (len : ℕ)
    → All IsRoute routes
    → len + length (routes_bytes routes) ≤ size_max
    → routes_len routes len ≡ ok (len + length (routes_bytes routes))
unfolding routes_len add_size
routes_len-bytes [] len h room = ap ok (omega arith)
routes_len-bytes (p ∷ routes) len h room =
    let one = length-route_bytes p h.0.0 in
    let all = length-append (route_bytes p) (routes_bytes routes) in
    let short : leb p.len 128 ≡ true = ground (arith, h.0.0.short) in
    let fits : ltb (size_max - (1 + prefix_octets p.len)) len ≡ false = ground (arith, one, all) in
    rw (short, fits)
      (routes_len-bytes routes (len + (1 + prefix_octets p.len)) h.1 (omega (arith, one, all))
        ∙ ap ok (omega (arith, one, all)))

pub write_routes-bytes :
    (routes : List Prefix6) (room : ℕ)
    → All IsRoute routes
    → length (routes_bytes routes) ≤ room
    → write_routes routes room ≡ ok (routes_bytes routes)
unfolding write_routes
write_routes-bytes [] room h fits = refl
write_routes-bytes (p ∷ routes) room h fits =
    let one = length-route_bytes p h.0.0 in
    let all = length-append (route_bytes p) (routes_bytes routes) in
    rw (write_form p room h.0.0 (omega (arith, one, all))) (
      rw (write_routes-bytes routes (room - length (route_bytes p)) h.1 (omega (arith, one, all)))
        refl)

-- The array grows while it is far from the end of memory.
reserve_route-ok :
    (count cap : ℕ)
    → count ≤ 2 ^ 32
    → cap ≤ 2 ^ 33
    → (next : ℕ) × (reserve_route count cap [] ≡ (ok next, [])) × (next ≤ 2 ^ 33)
unfolding reserve_route
reserve_route-ok count cap h k = elim (Bool-cases (leb cap count)) [
  | inr spare ↦ (cap, rw spare refl, k)
  | inl full ↦
      let new_cap = if cap == 0 then 8 else cap * 2 % 2 ^ 64 in
      let fits : not (leb new_cap cap || ltb (size_max / prefix6_size) new_cap) ≡ true =
        ground arith in
      (new_cap, rw (full, fits) refl, ground arith)
]

-- Routes are read back behind those that were read.
pub parse_routes-bytes :
    (fuel : ℕ) (old routes : List Prefix6) (cap : ℕ)
    → All IsRoute routes
    → length (routes_bytes routes) ≤ fuel
    → length old + length (routes_bytes routes) ≤ 2 ^ 32
    → cap ≤ 2 ^ 33
    → parse_routes fuel old cap (routes_bytes routes) [] ≡ (ok (old ++ routes), [])
unfolding parse_routes
parse_routes-bytes fuel old [] cap h low room k =
    ap (λ (t : List Prefix6). (ok t, [])) (sym (append-nil old))
parse_routes-bytes zero old (p ∷ routes) cap h low room k = absurd (omega arith)
parse_routes-bytes (suc fuel) old (p ∷ routes) cap h low room k =
    let one = route_bytes p in
    let tail = routes_bytes routes in
    let size = length-append one tail in
    let within : not (length one == 0 || ltb (length (one ++ tail)) (length one)) ≡ true =
      ground (arith, size) in
    let next = reserve_route-ok (length old) cap (omega arith) k in
    let ih =
      parse_routes-bytes fuel (old ++ p ∷ []) routes next.0 h.1 (omega (arith, size))
        (omega (arith, size, length-append old (p ∷ []))) next.2 in
    rw
      (
        prefix6_parse-route p tail h.0,
        within,
        next.1,
        drop-append_length (length one) one tail refl,
      )
      (ih ∙ ap (λ (t : List Prefix6). (ok t, [])) (append_assoc old (p ∷ []) routes))

-- Routes that were read are valid, and their bytes are as many as were read.
pub parse_routes-IsRoute :
    (fuel : ℕ) (old : List Prefix6) (cap : ℕ) (value : List ℕ) (m : Mem) (routes : List Prefix6)
    → AllBytes value
    → All IsRoute old
    → (parse_routes fuel old cap value m).0 ≡ ok routes
    → All IsRoute routes × (length (routes_bytes routes) ≡ length (routes_bytes old) + length value)
unfolding parse_routes
parse_routes-IsRoute fuel old cap [] m routes h valid e =
    let same : old ≡ routes = ok_injective e in
    subst
      (λ (t : List Prefix6).
        All IsRoute t × (length (routes_bytes t) ≡ length (routes_bytes old) + 0))
      same (valid, omega arith)
parse_routes-IsRoute zero old cap (b ∷ bs) m routes h valid e = absurd (cc)
parse_routes-IsRoute (suc fuel) old cap (b ∷ bs) m routes h valid e =
    let value = b ∷ bs in
    elim (Result-cases (prefix6_parse value)) [
      | inr x ↦ absurd (cc (rw x.1 at e))
      | inl r ↦
          let p = r.0.0 in
          let used = r.0.1 in
          let read = prefix6_write-parse value p used h r.1 in
          elim (Bool-cases (not (used == 0 || ltb (length value) used))) [
            | inr x ↦ absurd (cc (rw (r.1, x) at e))
            | inl within ↦ elim (Result-cases (reserve_route (length old) cap m).0) [
              | inr x ↦ absurd (cc (rw (r.1, within, x.1) at e))
              | inl next ↦
                  let ih =
                    parse_routes-IsRoute fuel (old ++ p ∷ []) next.0 (drop used value)
                      (reserve_route (length old) cap m).1 routes (All-drop IsByte used value h)
                      (All-append IsRoute old (p ∷ []) valid ((read.2, read.3), tt))
                      (rw (r.1, within, next.1) at e) in
                  (
                    ih.0,
                    omega (
                      arith,
                      ih.1,
                      routes_bytes-append old (p ∷ []),
                      length-drop used value,
                      length-append (route_bytes p) [],
                      length-route_bytes p read.2,
                      read.0,
                      read.1,
                    ),
                  )
            ]
          ]
    ]
