-- ===== src/Sink/Ring.antt =====
-- The ring of src/sink.c holds its packets in order, through growth, storing and handing out.
use libbgp.Prelude.{
  ℕ, suc, ◌+◌, ◌-◌, ◌*◌, ◌/◌, ◌%◌, ◌^◌, ◌≤◌, ◌<◌, ◌≡◌, inl, inr, refl, sym, ap, ap₂, ◌∙◌, List, [],
  ◌∷◌, ◌++◌, true, false, Option, none, some, ltb, leb, ◌==◌, if◌then◌else◌, length, get_or, set,
  drop, replicate, arith, length-append, length-replicate, length-set, get_or-append_left,
  get_or-set, Bool-cases, Option-cases, ne→==, eq→==,
}
use native.Mathlib.Nat.{mod-eq_of_lt, mod-lt}
use libbgp.Prelude.Errors.{ok, Mem, allocate}
use libbgp.Prelude.Growth.{size_max, double_until, double_until-enough}
use libbgp.Sink.{
  Sink, packet_size, buffered, waiting, slots, calloc_packets, sink_reserve_packets, push_packet,
}
use libbgp.Sink.Ops.{sink_pop}
use libbgp.Sink.Buffer.{IsSink, Keeps, Keeps-refl}
use libbgp.Sink.Slots.{round_ne, slots_ext, length-slots, get_or-slots, slots-last, slots_pop}

module _ {P : Type 0} where
  -- A packet that is stored waits behind the others.
  pub push_packet-waiting :
      (impl : Sink P) (pkt : P)
      → IsSink impl
      → impl.packet_count < impl.packet_cap
      → IsSink (push_packet impl pkt)
        × (waiting (push_packet impl pkt) ≡ waiting impl ++ some pkt ∷ [])
  unfolding push_packet
  push_packet-waiting impl pkt h lt =
      let p = impl.packets in
      let c = impl.packet_cap in
      let hd = impl.packet_head in
      let n = impl.packet_count in
      let t = (hd + n) % c in
      let p' = set p t (some pkt) in
      let head = h.head_in (omega arith) in
      let inside : t < length p = omega (arith, mod-lt (hd + n) {m = c} (omega arith), h.slotted) in
      let others = λ (j : ℕ) (k : j < n).
        get_or-set p t ((hd + (0 + j)) % c) (some pkt) none inside
        ∙ ap (λ b. if b then some pkt else get_or p ((hd + (0 + j)) % c) none)
            (ne→== t ((hd + (0 + j)) % c) (λ e.
              round_ne c hd j n head k lt
                (e ∙ ap (λ (a : ℕ). (hd + a) % c) {x = 0 + j} {y = j} (omega arith)))) in
      (
        record {
          stored = h.stored;
          room = h.room;
          sized = h.sized;
          slotted = length-set p t (some pkt) ∙ h.slotted;
          fits = omega arith;
          head_in = h.head_in;
          small = h.small;
        },
        ap (slots p' c hd 0) {x = n + 1} {y = suc n} (omega arith)
            ∙ slots-last p' c hd 0 n
            ∙ ap₂ (λ a b. a ++ b ∷ []) (slots_ext p' p c c hd hd 0 0 n others)
                (get_or-set p t ((hd + (0 + n)) % c) (some pkt) none inside
                  ∙ ap (λ b. if b then some pkt else get_or p ((hd + (0 + n)) % c) none)
                      (eq→== t ((hd + (0 + n)) % c)
                        (ap (λ (a : ℕ). (hd + a) % c) {x = n} {y = 0 + n} (omega arith)))),
      )

  calloc-Keeps :
      (impl : Sink P) (cap : ℕ) (m : Mem)
      → IsSink impl
      → impl.packet_count < cap
      → cap ≤ size_max / packet_size
      → Keeps impl (calloc_packets impl cap m).1
        × ((calloc_packets impl cap m).0 ≡ true
            → impl.packet_count < (calloc_packets impl cap m).1.packet_cap)
  calloc-Keeps impl cap m h lt top = elim (Bool-cases (allocate m).0) [
    | inr e ↦ rw e (Keeps-refl impl h, λ no. cc)
    | inl e ↦
        let n = impl.packet_count in
        let old = waiting impl in
        let free : List (Option P) = replicate (cap - n) none in
        let size = length-slots impl.packets impl.packet_cap impl.packet_head 0 n in
        let moved = λ (j : ℕ) (k : j < n).
          ap (λ (a : ℕ). get_or (old ++ free) a none) {x = (0 + (0 + j)) % cap} {y = j}
            (omega (
              arith,
              mod-eq_of_lt {n = j} {m = cap} (omega arith),
              ap (λ (a : ℕ). a % cap) {x = 0 + (0 + j)} {y = j} (omega arith),
            ))
          ∙ get_or-append_left old free j none (omega arith)
          ∙ get_or-slots impl.packets impl.packet_cap impl.packet_head 0 n j k in
        rw e (
          record {
            valid = record {
              stored = h.stored;
              room = h.room;
              sized = h.sized;
              slotted = omega (
                arith,
                length-append old free,
                length-replicate {A = Option P} (cap - n) none,
                size,
              );
              fits = omega arith;
              head_in = λ pos. omega arith;
              small = top;
            };
            bytes = refl;
            len = refl;
            queue =
                slots_ext (old ++ free) impl.packets cap impl.packet_cap 0 impl.packet_head 0 0 n
                  moved;
            count = refl;
            flag = refl;
          },
          λ yes. lt,
        )
  ]

  -- Making room for one more packet keeps what waits; if the answer is true a slot is free.
  pub sink_reserve_packets-Keeps :
      (impl : Sink P) (m : Mem)
      → IsSink impl
      → let r = sink_reserve_packets impl (impl.packet_count + 1) m in
        Keeps impl r.1 × (r.0 ≡ true → impl.packet_count < r.1.packet_cap)
  unfolding sink_reserve_packets
  sink_reserve_packets-Keeps impl m h =
      let needed = impl.packet_count + 1 in
      elim (Bool-cases (leb needed impl.packet_cap)) [
        | inl e ↦ rw e (Keeps-refl impl h, λ yes. ground arith)
        | inr e ↦
            let start = if impl.packet_cap == 0 then 4 else impl.packet_cap * 2 % 2 ^ 64 in
            let low : start ≤ size_max = ground arith in
            elim (Option-cases (double_until 65 start needed)) [
              | inl no_cap ↦ rw (e, no_cap) (Keeps-refl impl h, λ no. cc)
              | inr k ↦ elim (Bool-cases (ltb (size_max / packet_size) k.0)) [
                | inl big ↦ rw (e, k.1, big) (Keeps-refl impl h, λ no. cc)
                | inr small ↦
                    let enough = double_until-enough 65 start needed k.0 low k.1 in
                    rw (e, k.1, small)
                      (calloc-Keeps impl k.0 m h (omega (arith, enough.0)) (ground arith))
              ]
            ]
      ]

  -- What the first waiting slot holds is handed out, and the others wait on.
  pub sink_pop-waiting :
      (impl : Sink P) (o : Option P) (rest : List (Option P))
      → IsSink impl
      → waiting impl ≡ o ∷ rest
      → let r = sink_pop impl in
        (r.0 ≡ ok o) × IsSink r.1 × (waiting r.1 ≡ rest) × (buffered r.1 ≡ buffered impl)
  unfolding sink_pop
  sink_pop-waiting impl o rest h e =
      let p = impl.packets in
      let c = impl.packet_cap in
      let left = impl.packet_count - 1 in
      let count : impl.packet_count ≡ suc (length rest) =
        sym (length-slots p c impl.packet_head 0 impl.packet_count) ∙ ap length e in
      let some_left : impl.packet_count == 0 ≡ false = ground arith in
      let head = h.head_in (omega (arith, h.fits)) in
      let split : get_or p impl.packet_head none ∷ waiting (sink_pop impl).1 ≡ o ∷ rest =
        rw some_left (
          sym (slots_pop p c impl.packet_head left h.slotted head (omega (arith, h.fits)))
          ∙ ap (slots p c impl.packet_head 0) {x = suc left} {y = impl.packet_count} (omega arith)
          ∙ e) in
      (
        rw some_left (ap ok (ap (λ (l : List (Option P)). get_or l 0 none) split)),
        rw some_left (record {
          stored = h.stored;
          room = h.room;
          sized = h.sized;
          slotted = length-set p impl.packet_head none ∙ h.slotted;
          fits = omega (arith, h.fits);
          head_in = λ pos. ground (arith, mod-lt (impl.packet_head + 1) {m = c} pos);
          small = h.small;
        }),
        ap (drop 1) split,
        rw some_left refl,
      )
