-- ===== src/Sink/Frames.antt =====
-- What the framing of src/sink.c promises: a function from the bytes that wait to the packets that they
-- hold and the bytes that are left, with no buffer, no ring and an allocator that does not fail.
use libbgp.Prelude.{
  ℕ, zero, suc, ◌+◌, ◌*◌, ◌^◌, ◌≤◌, ◌<◌, ◌≡◌, ◌⊎◌, inl, inr, refl, ap, ap₂, ◌∙◌, List, [], ◌∷◌,
  ◌++◌, Bool, true, false, ltb, ◌==◌, ◌||◌, if◌then◌else◌, length, take, drop, arith, length-append,
  length-drop, Bool-cases, drop-append_le, take-append_le, get_or-append_left, ge→ltb,
}
use libbgp.Prelude.Errors.{Result, ok, err, bad_len}
use libbgp.Prelude.Wire.{bgp_get_be16}
use libbgp.Sink.{header_len, max_packet_len, all_ones, sink_marker_valid}

-- What the first bytes say: that more are needed, that they are no packet, or the length of the packet,
-- all of which is there.
pub data Head : Type 0 where
  more malformed : Head
  whole : ℕ → Head

abbrev pub verdict : (short valid bad cut : Bool) → ℕ → Head
verdict true valid bad cut w = more
verdict false false bad cut w = malformed
verdict false true true cut w = malformed
verdict false true false true w = more
verdict false true false false w = whole w

unfoldable pub head_of : List ℕ → Head
head_of bytes =
    let wire_len = bgp_get_be16 (drop 16 bytes) in
    verdict (ltb (length bytes) header_len) (sink_marker_valid bytes)
      (ltb wire_len header_len || ltb max_packet_len wire_len) (ltb (length bytes) wire_len)
      wire_len

-- The answer, the bytes that are left, and the packets in their order.
abbrev pub Cut : Type 0 → Type 0
Cut P = Result (Unit {0}) × List ℕ × List P

module _ {P : Type 0} where
  abbrev pub prepend : List P → Cut P → Cut P
  prepend ps cut = (cut.0, cut.1, ps ++ cut.2)

  abbrev pub on_packet : ℕ → List ℕ → Result (P × ℕ) → Cut P → Cut P
  on_packet w bytes (err e) rest = (err e, drop w bytes, [])
  on_packet w bytes (ok r) rest =
      if r.1 == w then prepend (r.0 ∷ []) rest else (err bad_len, drop w bytes, [])

  abbrev pub on_head : (List ℕ → Result (P × ℕ)) → (List ℕ → Cut P) → List ℕ → Head → Cut P
  on_head q rest bytes more = (ok tt, bytes, [])
  on_head q rest bytes malformed = (err bad_len, [], [])
  on_head q rest bytes (whole w) = on_packet w bytes (q (take w bytes)) (rest (drop w bytes))

  unfoldable pub frames : (List ℕ → Result (P × ℕ)) → ℕ → List ℕ → Cut P
  frames q zero bytes = (ok tt, bytes, [])
  frames q (suc fuel) bytes = on_head q (frames q fuel) bytes (head_of bytes)

  -- The framing with fuel enough for all rounds.
  abbrev pub framed : (List ℕ → Result (P × ℕ)) → List ℕ → Cut P
  framed q bytes = frames q (length bytes) bytes

pub head-cases :
    (bytes : List ℕ)
    → ((head_of bytes ≡ more) ⊎ (head_of bytes ≡ malformed))
      ⊎ ((w : ℕ) × (head_of bytes ≡ whole w) × (header_len ≤ w) × (w ≤ length bytes))
unfolding head_of
head-cases bytes =
    let w = bgp_get_be16 (drop 16 bytes) in
    elim (Bool-cases (ltb (length bytes) header_len)) [
      | inl e ↦ rw e (inl (inl refl))
      | inr e ↦ elim (Bool-cases (sink_marker_valid bytes)) [
        | inr n ↦ rw (e, n) (inl (inr refl))
        | inl y ↦ elim (Bool-cases (ltb w header_len || ltb max_packet_len w)) [
          | inl bad ↦ rw (e, y, bad) (inl (inr refl))
          | inr good ↦ elim (Bool-cases (ltb (length bytes) w)) [
            | inl short ↦ rw (e, y, good, short) (inl (inl refl))
            | inr full ↦ rw (e, y, good, full) (inr (w, refl, ground arith, ground arith))
          ]
        ]
      ]
    ]

pub all_ones-append :
    (xs ys : List ℕ) (n : ℕ) → n ≤ length xs → all_ones (xs ++ ys) n ≡ all_ones xs n
unfolding all_ones
all_ones-append xs ys zero h = refl
all_ones-append [] ys (suc n) h = absurd (omega arith)
all_ones-append (x ∷ xs) ys (suc n) h =
    ap (λ t. if x == 255 then t else false) (all_ones-append xs ys n (omega arith))

pub wire_len-append :
    (xs ys : List ℕ)
    → header_len ≤ length xs
    → bgp_get_be16 (drop 16 (xs ++ ys)) ≡ bgp_get_be16 (drop 16 xs)
wire_len-append xs ys h =
    let long = length-drop 16 xs in
    ap bgp_get_be16 (drop-append_le 16 xs ys (omega arith))
    ∙ ap₂ (λ (a b : ℕ). a * 2 ^ 8 + b) (get_or-append_left (drop 16 xs) ys 0 0 (omega arith))
        (get_or-append_left (drop 16 xs) ys 1 0 (omega arith))

verdict_later :
    (valid bad cut later : Bool) (w : ℕ)
    → (cut ≡ false → later ≡ false)
    → (verdict false valid bad cut w ≡ more)
      ⊎ (verdict false valid bad later w ≡ verdict false valid bad cut w)
verdict_later false bad cut later w h = inr refl
verdict_later true true cut later w h = inr refl
verdict_later true false true later w h = inl refl
verdict_later true false false later w h = inr (rw (h refl))

-- Bytes that come later do not change a verdict.
pub head_of-append : (xs ys : List ℕ) → (head_of xs ≡ more) ⊎ (head_of (xs ++ ys) ≡ head_of xs)
unfolding head_of
head_of-append xs ys = elim (Bool-cases (ltb (length xs) header_len)) [
  | inl e ↦ inl (rw e)
  | inr e ↦
      let long : header_len ≤ length xs = ground arith in
      let more_bytes = length-append xs ys in
      let e' : ltb (length (xs ++ ys)) header_len ≡ false =
        ge→ltb (length (xs ++ ys)) header_len (omega arith) in
      let w = bgp_get_be16 (drop 16 xs) in
      rw (e, e', wire_len-append xs ys long, all_ones-append xs ys 16 (omega arith))
        (verdict_later (sink_marker_valid xs) (ltb w header_len || ltb max_packet_len w)
          (ltb (length xs) w) (ltb (length (xs ++ ys)) w) w
          (λ h. ge→ltb (length (xs ++ ys)) w (ground arith)))
]

whole_later : (xs ys : List ℕ) (w : ℕ) → head_of xs ≡ whole w → head_of (xs ++ ys) ≡ whole w
whole_later xs ys w e = elim (head_of-append xs ys) [ inl m ↦ absurd (cc) | inr same ↦ same ∙ e ]

module _ {P : Type 0} (q : List ℕ → Result (P × ℕ)) where
  -- With fuel for as many rounds as there are bytes, more fuel changes nothing.
  pub frames_fuel :
      (f g : ℕ) (bytes : List ℕ)
      → length bytes ≤ f
      → length bytes ≤ g
      → frames q f bytes ≡ frames q g bytes
  unfolding frames head_of
  frames_fuel zero zero bytes h k = refl
  frames_fuel zero (suc g) [] h k = refl
  frames_fuel zero (suc g) (b ∷ bytes) h k = absurd (omega arith)
  frames_fuel (suc f) zero [] h k = refl
  frames_fuel (suc f) zero (b ∷ bytes) h k = absurd (omega arith)
  frames_fuel (suc f) (suc g) bytes h k = elim (head-cases bytes) [
    | inl (inl e) ↦ rw e
    | inl (inr e) ↦ rw e
    | inr v ↦ rw v.1 (
        ap (λ rest. on_packet v.0 bytes (q (take v.0 bytes)) rest)
          (frames_fuel f g (drop v.0 bytes) (omega (arith, length-drop v.0 bytes, v.2, v.3))
            (omega (arith, length-drop v.0 bytes, v.2, v.3))))
  ]

  pub framed_whole :
      (bytes : List ℕ) (w : ℕ)
      → head_of bytes ≡ whole w
      → header_len ≤ w
      → w ≤ length bytes
      → framed q bytes ≡ on_packet w bytes (q (take w bytes)) (framed q (drop w bytes))
  unfolding frames
  framed_whole bytes w e low fits =
      let one = frames_fuel (length bytes) (suc (length bytes)) bytes (omega arith) (omega arith) in
      one
      ∙ ap (on_head q (frames q (length bytes)) bytes) e
      ∙ ap (on_packet w bytes (q (take w bytes))) (
          frames_fuel (length bytes) (length (drop w bytes)) (drop w bytes)
            (omega (arith, length-drop w bytes)) (omega arith))

  -- Both sides of an answer on one packet, once the rest behaves.
  on_packet-append :
      (w : ℕ) (xs ys : List ℕ) (answer : Result (P × ℕ)) (rest : Cut P)
      → (rest.0 ≡ ok tt → framed q (drop w xs ++ ys) ≡ prepend rest.2 (framed q (rest.1 ++ ys)))
      → (on_packet w xs answer rest).0 ≡ ok tt
      → on_packet w (xs ++ ys) answer (framed q (drop w xs ++ ys))
        ≡ prepend (on_packet w xs answer rest).2 (framed q ((on_packet w xs answer rest).1 ++ ys))
  on_packet-append w xs ys (err e) rest h done = cc
  on_packet-append w xs ys (ok r) rest h done = elim (Bool-cases (r.1 == w)) [
    | inl same ↦ rw same (ap (prepend (r.0 ∷ [])) (h (rw same at done)))
    | inr other ↦ absurd (cc (rw other at done))
  ]

  -- Cutting all bytes at once is cutting a first part, if that is answered by OK, and then what it left
  -- together with the second part.
  pub framed-append :
      (f : ℕ) (xs ys : List ℕ)
      → length xs ≤ f
      → (frames q f xs).0 ≡ ok tt
      → framed q (xs ++ ys) ≡ prepend (frames q f xs).2 (framed q ((frames q f xs).1 ++ ys))
  unfolding frames
  framed-append zero [] ys h done = refl
  framed-append zero (x ∷ xs) ys h done = absurd (omega arith)
  framed-append (suc f) xs ys h done = elim (head-cases xs) [
    | inl (inl e) ↦ rw e
    | inl (inr e) ↦ absurd (cc (rw e at done))
    | inr v ↦
        let w = v.0 in
        let same : head_of (xs ++ ys) ≡ whole w = whole_later xs ys w v.1 in
        let ih = framed-append f (drop w xs) ys (omega (arith, length-drop w xs, v.2, v.3)) in
        framed_whole (xs ++ ys) w same v.2 (omega (arith, length-append xs ys, v.3))
        ∙ ap₂ (λ t d. on_packet w (xs ++ ys) (q t) (framed q d)) (take-append_le w xs ys v.3)
            (drop-append_le w xs ys v.3)
        ∙ rw v.1
            (on_packet-append w xs ys (q (take w xs)) (frames q f (drop w xs)) ih (rw v.1 at done))
  ]

-- Less than one packet of the greatest length waits for more bytes.
pub head_of-more : (bytes : List ℕ) → head_of bytes ≡ more → length bytes < max_packet_len
unfolding head_of
head_of-more bytes h =
    let w = bgp_get_be16 (drop 16 bytes) in
    elim (Bool-cases (ltb (length bytes) header_len)) [
      | inl e ↦ ground arith
      | inr e ↦ elim (Bool-cases (sink_marker_valid bytes)) [
        | inr n ↦ absurd (cc (rw (e, n) at h))
        | inl y ↦ elim (Bool-cases (ltb w header_len || ltb max_packet_len w)) [
          | inl bad ↦ absurd (cc (rw (e, y, bad) at h))
          | inr good ↦ elim (Bool-cases (ltb (length bytes) w)) [
            | inl short ↦ ground arith
            | inr full ↦ absurd (cc (rw (e, y, good, full) at h))
          ]
        ]
      ]
    ]
