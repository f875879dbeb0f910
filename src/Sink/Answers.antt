-- ===== src/Sink/Answers.antt =====
-- Making room in src/sink.c succeeds while the allocator does not fail and memory is far from its end.
use libbgp.Prelude.{
  ℕ, ◌+◌, ◌-◌, ◌*◌, ◌/◌, ◌%◌, ◌^◌, ◌≤◌, ◌<◌, ◌≡◌, inl, inr, refl, [], true, false, ltb, leb, ◌==◌,
  ◌&&◌, ◌||◌, if◌then◌else◌, arith, Bool-cases,
}
use libbgp.Prelude.Growth.{size_max, double_until-once, double_until-some}
use libbgp.Sink.{
  Sink, packet_size, first_cap, grow_buf, sink_compact_buf, sink_reserve_packets, sink_reserve_buf,
}
use libbgp.Sink.Buffer.{IsSink, compact-Keeps}

first_cap-pos : (cap required : ℕ) → cap ≤ 2 ^ 62 → 0 < first_cap cap required
unfolding first_cap
first_cap-pos cap required h = ground arith

module _ {P : Type 0} where
  grow-answers :
      (impl : Sink P) (needed : ℕ)
      → impl.buf_off + needed ≤ 2 ^ 63
      → impl.buf_cap ≤ 2 ^ 62
      → ((grow_buf impl needed []).0 ≡ true) × ((grow_buf impl needed []).2 ≡ [])
  unfolding grow_buf
  grow-answers impl needed top cap =
      let off = impl.buf_off in
      let fits : (ltb 0 off && ltb (size_max - off) needed) ≡ false = ground arith in
      let required : (if ltb 0 off then off + needed else needed) ≡ off + needed = ground arith in
      let start = first_cap-pos impl.buf_cap (off + needed) cap in
      let found =
        double_until-some 64 (first_cap impl.buf_cap (off + needed)) (off + needed) start top
          (omega arith) in
      rw (fits, required, found.1) (refl, refl)

  pub reserve_buf-answers :
      (impl : Sink P) (n : ℕ)
      → IsSink impl
      → impl.buf_cap ≤ 2 ^ 62
      → n ≤ 2 ^ 62
      → ((sink_reserve_buf impl n []).0 ≡ true) × ((sink_reserve_buf impl n []).2 ≡ [])
  unfolding sink_reserve_buf
  reserve_buf-answers impl n h low few =
      let off = impl.buf_off in
      let cap = impl.buf_cap in
      let len = impl.buf_len in
      let a : ltb (size_max - len) n ≡ false = ground (arith, h.room) in
      let inside : (ltb cap off || ltb (cap - off) len) ≡ false = ground (arith, h.room) in
      elim (Bool-cases (leb n (cap - off - len))) [
        | inl there ↦ rw (a, inside, there) (refl, refl)
        | inr b ↦ elim (Bool-cases (ltb 0 off && leb (cap / 2) off)) [
          | inl c ↦
              let packed = sink_compact_buf impl in
              let k = compact-Keeps impl h in
              elim (Bool-cases (leb n (packed.buf_cap - packed.buf_len))) [
                | inl d ↦ rw (a, inside, b, c, d) (refl, refl)
                | inr d ↦
                    rw (a, inside, b, c, d)
                      (grow-answers packed (len + n) (omega (arith, k.1, h.room))
                        (omega (arith, k.2)))
              ]
          | inr c ↦ elim (Bool-cases (ltb 0 off && leb (len + n) cap)) [
            | inl d ↦ rw (a, inside, b, c, d) (refl, refl)
            | inr d ↦
                rw (a, inside, b, c, d) (grow-answers impl (len + n) (omega (arith, h.room)) low)
          ]
        ]
      ]

  pub reserve_packets-answers :
      (impl : Sink P)
      → IsSink impl
      → impl.packet_count < 2 ^ 56
      → let r = sink_reserve_packets impl (impl.packet_count + 1) [] in (r.0 ≡ true) × (r.2 ≡ [])
  unfolding sink_reserve_packets
  reserve_packets-answers impl h few =
      let n = impl.packet_count in
      let cap = impl.packet_cap in
      elim (Bool-cases (leb (n + 1) cap)) [
        | inl e ↦ rw e (refl, refl)
        | inr e ↦
            let start = if cap == 0 then 4 else cap * 2 % 2 ^ 64 in
            let room : n + 1 ≤ start = ground (arith, h.fits, h.small) in
            let once = double_until-once start (n + 1) room in
            let small : ltb (size_max / packet_size) start ≡ false =
              ground (arith, h.fits, h.small) in
            rw (e, once, small) (refl, refl)
      ]
