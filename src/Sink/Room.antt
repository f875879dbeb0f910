-- ===== src/Sink/Room.antt =====
-- Making room in the buffer of src/sink.c: moving what waits to its front, or growing it.
use libbgp.Prelude.{
  ℕ, ◌+◌, ◌-◌, ◌/◌, ◌≤◌, ◌<◌, ◌≡◌, inl, inr, refl, ap, ◌∙◌, List, ◌++◌, true, false, ltb, leb, ◌&&◌,
  ◌||◌, if◌then◌else◌, take, drop, replicate, arith, length-append, length-drop, length-replicate,
  take-append_le, drop-append_le, Bool-cases, Option-cases,
}
use libbgp.Prelude.Errors.{Mem, allocate}
use libbgp.Prelude.Growth.{size_max, double_until, double_until-enough}
use libbgp.Sink.{
  Sink, Reserved, sink_compact_buf, realloc_buf, first_cap, grow_buf, sink_reserve_buf,
}
use libbgp.Sink.Buffer.{IsSink, Keeps, Keeps-refl, Keeps-trans, buffer_IsSink, compact-Keeps}

first_cap-bounds :
    (cap required : ℕ)
    → cap < required
    → required ≤ size_max
    → (cap ≤ first_cap cap required) × (first_cap cap required ≤ size_max)
unfolding first_cap
first_cap-bounds cap required h k = ground arith

module _ {P : Type 0} where
  -- The room that was asked for is there when the answer is true.
  abbrev pub Made : Sink P → ℕ → Reserved P → Type 0
  Made impl n r = Keeps impl r.1 × (r.0 ≡ true → r.1.buf_off + r.1.buf_len + n ≤ r.1.buf_cap)

  realloc-Made :
      (impl : Sink P) (n new_cap : ℕ) (m : Mem)
      → IsSink impl
      → impl.buf_cap ≤ new_cap
      → new_cap ≤ size_max
      → impl.buf_off + impl.buf_len + n ≤ new_cap
      → Made impl n (realloc_buf impl new_cap m)
  realloc-Made impl n new_cap m h up top fits = elim (Bool-cases (allocate m).0) [
    | inr e ↦ rw e (Keeps-refl impl h, λ no. cc)
    | inl e ↦
        let zeros : List ℕ = replicate (new_cap - impl.buf_cap) 0 in
        let more = length-append impl.buf zeros in
        let added = length-replicate {A = ℕ} (new_cap - impl.buf_cap) 0 in
        let long = length-drop impl.buf_off impl.buf in
        rw e (
          record {
            valid =
                buffer_IsSink impl (impl.buf ++ zeros) impl.buf_off impl.buf_len new_cap h
                  (omega (arith, more, added, h.stored)) (omega arith) top;
            bytes =
                ap (take impl.buf_len)
                  (drop-append_le impl.buf_off impl.buf zeros (omega (arith, h.room, h.stored)))
                ∙ take-append_le impl.buf_len (drop impl.buf_off impl.buf) zeros
                    (omega (arith, h.room, h.stored));
            len = refl;
            queue = refl;
            count = refl;
            flag = refl;
          },
          λ yes. fits,
        )
  ]

  grow-Made :
      (impl : Sink P) (n needed : ℕ) (m : Mem)
      → IsSink impl
      → needed ≡ impl.buf_len + n
      → needed ≤ size_max
      → impl.buf_cap < impl.buf_off + needed
      → Made impl n (grow_buf impl needed m)
  unfolding grow_buf
  grow-Made impl n needed m h e top tight =
      let off = impl.buf_off in
      elim (Bool-cases (ltb 0 off && ltb (size_max - off) needed)) [
        | inl wraps ↦ rw wraps (Keeps-refl impl h, λ no. cc)
        | inr fits ↦
            let required : (if ltb 0 off then off + needed else needed) ≡ off + needed =
              ground arith in
            let size : off + needed ≤ size_max = ground arith in
            let start = first_cap-bounds impl.buf_cap (off + needed) tight size in
            let found = double_until 65 (first_cap impl.buf_cap (off + needed)) (off + needed) in
            elim (Option-cases found) [
              | inl none_found ↦ rw (fits, required, none_found) (Keeps-refl impl h, λ no. cc)
              | inr k ↦
                  let enough =
                    double_until-enough 65 (first_cap impl.buf_cap (off + needed)) (off + needed)
                      k.0 start.1 k.1 in
                  rw (fits, required, k.1)
                    (realloc-Made impl n k.0 m h (omega (arith, start.0, enough.1)) enough.2
                      (omega (arith, enough.0)))
            ]
      ]

  -- Making room for `n` bytes keeps what waits; if the answer is true the bytes fit behind it.
  pub sink_reserve_buf-Made :
      (impl : Sink P) (n : ℕ) (m : Mem) → IsSink impl → Made impl n (sink_reserve_buf impl n m)
  unfolding sink_reserve_buf
  sink_reserve_buf-Made impl n m h =
      let off = impl.buf_off in
      let cap = impl.buf_cap in
      let len = impl.buf_len in
      elim (Bool-cases (ltb (size_max - len) n)) [
        | inl wraps ↦ rw wraps (Keeps-refl impl h, λ no. cc)
        | inr a ↦
            let inside : (ltb cap off || ltb (cap - off) len) ≡ false = ground (arith, h.room) in
            elim (Bool-cases (leb n (cap - off - len))) [
              | inl there ↦ rw (a, inside, there) (Keeps-refl impl h, λ yes. ground (arith, h.room))
              | inr b ↦ elim (Bool-cases (ltb 0 off && leb (cap / 2) off)) [
                | inl c ↦
                    let packed = sink_compact_buf impl in
                    let k = compact-Keeps impl h in
                    elim (Bool-cases (leb n (packed.buf_cap - packed.buf_len))) [
                      | inl d ↦
                          rw (a, inside, b, c, d)
                            (k.0, λ yes. ground (arith, k.0.len, k.1, k.2, h.room))
                      | inr d ↦
                          let grown =
                            grow-Made packed n (len + n) m k.0.valid (omega (arith, k.0.len))
                              (ground arith) (ground (arith, k.0.len, k.1, k.2)) in
                          rw (a, inside, b, c, d)
                            (
                              Keeps-trans impl packed (grow_buf packed (len + n) m).1 k.0 grown.0,
                              grown.1,
                            )
                    ]
                | inr c ↦ elim (Bool-cases (ltb 0 off && leb (len + n) cap)) [
                  | inl d ↦
                      let k = compact-Keeps impl h in
                      rw (a, inside, b, c, d) (k.0, λ yes. ground (arith, k.0.len, k.1, k.2))
                  | inr d ↦
                      rw (a, inside, b, c, d)
                        (grow-Made impl n (len + n) m h refl (ground arith)
                          (ground (arith, h.room)))
                ]
              ]
            ]
      ]
