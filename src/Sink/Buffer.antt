-- ===== src/Sink/Buffer.antt =====
-- The buffer of src/sink.c: its memory is never left, and packing, storing and dropping do to the bytes that
-- wait what they mean to.
use libbgp.Prelude.{
  ℕ, ◌+◌, ◌-◌, ◌/◌, ◌≤◌, ◌<◌, ◌≡◌, inl, inr, refl, sym, ap, ◌∙◌, List, ◌++◌, leb, ◌==◌, length,
  take, drop, arith, length-append, length-drop, length-take, drop-append_le, take-append_length,
  take-append_add, drop-take, drop-drop, drop_all, Bool-cases,
}
use libbgp.Prelude.Growth.{size_max}
use libbgp.Sink.{
  Sink, packet_size, buffered, waiting, copy_to, sink_compact_buf, sink_drop_buffer_prefix,
}
use libbgp.Sink.Ops.{store_bytes}

-- The waiting bytes and packets lie within memory, whose sizes are sizes.
pub record IsSink {P : Type 0} (impl : Sink P) : Type 0 where
  pub stored : length impl.buf ≡ impl.buf_cap
  pub room : impl.buf_off + impl.buf_len ≤ impl.buf_cap
  pub sized : impl.buf_cap ≤ size_max
  pub slotted : length impl.packets ≡ impl.packet_cap
  pub fits : impl.packet_count ≤ impl.packet_cap
  pub head_in : 0 < impl.packet_cap → impl.packet_head < impl.packet_cap
  pub small : impl.packet_cap ≤ size_max / packet_size

module _ {P : Type 0} where
  -- What making room in the buffer keeps.
  pub record Keeps (impl impl' : Sink P) : Type 0 where
    pub valid : IsSink impl'
    pub bytes : buffered impl' ≡ buffered impl
    pub len : impl'.buf_len ≡ impl.buf_len
    pub queue : waiting impl' ≡ waiting impl
    pub count : impl'.packet_count ≡ impl.packet_count
    pub flag : impl'.use_4b_asn ≡ impl.use_4b_asn

  pub length-buffered : (impl : Sink P) → IsSink impl → length (buffered impl) ≡ impl.buf_len
  length-buffered impl h =
      let a = length-take impl.buf_len (drop impl.buf_off impl.buf) in
      omega (arith, length-drop impl.buf_off impl.buf, h.stored, h.room)

  pub Keeps-refl : (impl : Sink P) → IsSink impl → Keeps impl impl
  Keeps-refl impl h = record {
    valid = h;
    bytes = refl;
    len = refl;
    queue = refl;
    count = refl;
    flag = refl;
  }

  -- Only the buffer has changed.
  pub buffer_IsSink :
      (impl : Sink P) (buf : List ℕ) (off len cap : ℕ)
      → IsSink impl
      → length buf ≡ cap
      → off + len ≤ cap
      → cap ≤ size_max
      → IsSink (record impl { buf = buf; buf_off = off; buf_len = len; buf_cap = cap })
  buffer_IsSink impl buf off len cap h stored room sized = record {
    stored = stored;
    room = room;
    sized = sized;
    slotted = h.slotted;
    fits = h.fits;
    head_in = h.head_in;
    small = h.small;
  }

  pub compact-Keeps :
      (impl : Sink P)
      → IsSink impl
      → Keeps impl (sink_compact_buf impl)
        × ((sink_compact_buf impl).buf_off ≡ 0)
        × ((sink_compact_buf impl).buf_cap ≡ impl.buf_cap)
  unfolding sink_compact_buf copy_to
  compact-Keeps impl h = elim (Bool-cases (impl.buf_off == 0)) [
    | inl e ↦ rw e (Keeps-refl impl h, ground arith, refl)
    | inr e ↦ elim (Bool-cases (impl.buf_len == 0)) [
      | inl z ↦
          let none_left : impl.buf_len ≡ 0 = ground arith in
          rw (e, z)
            (
              record {
                valid =
                    buffer_IsSink impl impl.buf 0 impl.buf_len impl.buf_cap h h.stored
                      (omega (arith, h.room)) h.sized;
                bytes =
                    ap (λ k. take k impl.buf) none_left
                    ∙ sym (ap (λ k. take k (drop impl.buf_off impl.buf)) none_left);
                len = refl;
                queue = refl;
                count = refl;
                flag = refl;
              },
              refl,
              refl,
            )
      | inr n ↦
          let old = buffered impl in
          let size = length-buffered impl h in
          let tail = length-drop (0 + length old) impl.buf in
          rw (e, n)
            (
              record {
                valid =
                    buffer_IsSink impl (old ++ drop (0 + length old) impl.buf) 0 impl.buf_len
                      impl.buf_cap h
                      (omega (
                        arith,
                        length-append old (drop (0 + length old) impl.buf),
                        h.stored,
                        h.room,
                      ))
                      (omega (arith, h.room)) h.sized;
                bytes = take-append_length impl.buf_len old (drop (0 + length old) impl.buf) size;
                len = refl;
                queue = refl;
                count = refl;
                flag = refl;
              },
              refl,
              refl,
            )
    ]
  ]

  pub Keeps-trans : (a b c : Sink P) → Keeps a b → Keeps b c → Keeps a c
  Keeps-trans a b c h k = record {
    valid = k.valid;
    bytes = k.bytes ∙ h.bytes;
    len = k.len ∙ h.len;
    queue = k.queue ∙ h.queue;
    count = k.count ∙ h.count;
    flag = k.flag ∙ h.flag;
  }

  -- Bytes that fit behind those that wait join them.
  pub store_bytes-buffered :
      (impl : Sink P) (bytes : List ℕ)
      → IsSink impl
      → impl.buf_off + impl.buf_len + length bytes ≤ impl.buf_cap
      → IsSink (store_bytes impl bytes)
        × (buffered (store_bytes impl bytes) ≡ buffered impl ++ bytes)
  unfolding store_bytes copy_to
  store_bytes-buffered impl bytes h fits =
      let off = impl.buf_off in
      let len = impl.buf_len in
      let front = take (off + len) impl.buf in
      let back = drop (off + len + length bytes) impl.buf in
      let front_len = length-take (off + len) impl.buf in
      let old : drop off front ≡ buffered impl = drop-take off len impl.buf in
      let size = length-buffered impl h in
      (
        buffer_IsSink impl (front ++ (bytes ++ back)) off (len + length bytes) impl.buf_cap h
            (omega (
              arith,
              h.stored,
              length-append front (bytes ++ back),
              length-append bytes back,
              front_len,
              length-drop (off + len + length bytes) impl.buf,
            ))
            (omega arith) h.sized,
        ap (take (len + length bytes))
              (drop-append_le off front (bytes ++ back) (omega (arith, front_len, h.stored)))
            ∙ ap (λ t. take (len + length bytes) (t ++ (bytes ++ back))) old
            ∙ take-append_add len (length bytes) (buffered impl) (bytes ++ back) size
            ∙ ap (λ t. buffered impl ++ t) (take-append_length (length bytes) bytes back refl),
      )

  -- Dropping the front of the buffer drops the front of what waits.
  pub drop_prefix-buffered :
      (impl : Sink P) (w : ℕ)
      → IsSink impl
      → IsSink (sink_drop_buffer_prefix impl w)
        × (buffered (sink_drop_buffer_prefix impl w) ≡ drop w (buffered impl))
  unfolding sink_drop_buffer_prefix
  drop_prefix-buffered impl w h =
      let size = length-buffered impl h in
      elim (Bool-cases (leb impl.buf_len w)) [
        | inl e ↦ rw e (
          buffer_IsSink impl impl.buf 0 0 impl.buf_cap h h.stored (omega arith) h.sized,
          sym (drop_all w (buffered impl) (ground arith)),
        )
        | inr e ↦
            let left = impl.buf_len - w in
            let split : impl.buf_len ≡ w + left = ground arith in
            rw e (
              buffer_IsSink impl impl.buf (impl.buf_off + w) left impl.buf_cap h h.stored
                  (omega (arith, h.room)) h.sized,
              ap (take left) (sym (drop-drop w impl.buf_off impl.buf))
                  ∙ sym (drop-take w left (drop impl.buf_off impl.buf))
                  ∙ ap (λ k. drop w (take k (drop impl.buf_off impl.buf))) (sym split),
            )
      ]
