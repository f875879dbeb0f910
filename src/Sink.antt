-- ===== src/Sink.antt =====
-- src/sink.c: bytes from a stream are cut into packets, which wait in a ring. The memory of the buffer is
-- the list `buf` of `buf_cap` bytes, that of the ring the list `packets` of `packet_cap` slots, where a slot
-- without a packet is `none`. Memory that the allocator returns holds zeros here; no byte of it is read
-- before it is written. The packet parser, `libbgp_packet_parse_as4`, is an argument: it takes the flag for
-- AS numbers of four octets, the bytes of the frame and the allocator's outcomes.

pub mod Ops
pub mod Frames
pub mod Buffer
pub mod Room
pub mod Slots
pub mod Ring
pub mod Parsed
pub mod Steps
pub mod Short
pub mod Answers
pub mod Refine
pub mod Feed
use libbgp.Prelude.{
  ℕ, zero, suc, ◌+◌, ◌-◌, ◌*◌, ◌/◌, ◌%◌, ◌^◌, List, [], ◌∷◌, ◌++◌, Bool, true, false, Option, none,
  some, ltb, leb, ◌==◌, ◌&&◌, ◌||◌, if◌then◌else◌, length, get_or, set, take, drop, replicate,
}
use libbgp.Prelude.Errors.{Result, ok, err, nomem, bad_len, not_found, ErrorCode, Mem, allocate}
use libbgp.Prelude.Alloc.{Alloc, ◌>>◌, give, malloc}
use libbgp.Prelude.Growth.{size_max, double_until}
use libbgp.Prelude.Wire.{bgp_get_be16}

abbrev pub header_len : ℕ
header_len = 19

abbrev pub max_packet_len : ℕ
max_packet_len = 4096

-- `sizeof(libbgp_packet_t)` on a machine of 64 bits.
abbrev pub packet_size : ℕ
packet_size = 80

-- `sink_impl_t`
pub record Sink (P : Type 0) : Type 0 where
  pub buf : List ℕ
  pub buf_off : ℕ
  pub buf_len : ℕ
  pub buf_cap : ℕ
  pub packets : List (Option P)
  pub packet_head : ℕ
  pub packet_count : ℕ
  pub packet_cap : ℕ
  pub use_4b_asn : Bool

-- The parser that the sink calls.
abbrev pub Parser : Type 0 → Type 0
Parser P = Bool → List ℕ → Alloc (P × ℕ)

module _ {ℓ} {A : Type ℓ} where
  -- memcpy and memmove: `src` to the position `off`.
  unfoldable pub copy_to : ℕ → List A → List A → List A
  copy_to off src dst = take off dst ++ (src ++ drop (off + length src) dst)

-- Whether there is room, the sink afterwards, and the allocator's outcomes left.
abbrev pub Reserved : Type 0 → Type 0
Reserved P = Bool × Sink P × Mem

-- An answer, the sink afterwards, and the allocator's outcomes left.
abbrev pub Fed : Type 0 → Type 0
Fed P = Result (Unit {0}) × Sink P × Mem

unfoldable pub first_cap : ℕ → ℕ → ℕ
first_cap buf_cap required_cap =
    if buf_cap == 0
    then header_len
    else (if ltb (size_max / 2) buf_cap then required_cap else buf_cap * 2)

module _ {P : Type 0} where
  unfoldable pub sink_init_as4 : Bool → Alloc (Sink P)
  sink_init_as4 use_4b_asn =
      malloc
      >> give (record {
        buf = [];
        buf_off = 0;
        buf_len = 0;
        buf_cap = 0;
        packets = [];
        packet_head = 0;
        packet_count = 0;
        packet_cap = 0;
        use_4b_asn = use_4b_asn;
      })

  abbrev pub sink_init : Alloc (Sink P)
  sink_init = sink_init_as4 false

  -- The bytes that wait, `buf_len` of them from `buf_off` on.
  abbrev pub buffered : Sink P → List ℕ
  buffered impl = take impl.buf_len (drop impl.buf_off impl.buf)

  unfoldable pub sink_compact_buf : Sink P → Sink P
  sink_compact_buf impl = if impl.buf_off == 0 then impl else (record impl {
    buf = if impl.buf_len == 0 then impl.buf else copy_to 0 (buffered impl) impl.buf;
    buf_off = 0;
  })

  abbrev pub realloc_buf : Sink P → ℕ → Mem → Reserved P
  realloc_buf impl new_cap m =
      let got = allocate m in
      (
        got.0,
        if got.0
            then (record impl {
              buf = impl.buf ++ replicate (new_cap - impl.buf_cap) 0;
              buf_cap = new_cap;
            })
            else impl,
        got.1,
      )

  -- The part of `sink_reserve_buf` that grows the buffer.
  unfoldable pub grow_buf : Sink P → ℕ → Mem → Reserved P
  grow_buf impl needed m =
      if ltb 0 impl.buf_off && ltb (size_max - impl.buf_off) needed
      then (false, impl, m)
      else (let required_cap = if ltb 0 impl.buf_off then impl.buf_off + needed else needed in
          elim (double_until 65 (first_cap impl.buf_cap required_cap) required_cap) [
            | none ↦ (false, impl, m)
            | some new_cap ↦ realloc_buf impl new_cap m
          ])

  unfoldable pub sink_reserve_buf : Sink P → ℕ → Mem → Reserved P
  sink_reserve_buf impl len m =
      if ltb (size_max - impl.buf_len) len
      then (false, impl, m)
      else (let needed = impl.buf_len + len in
          if ltb impl.buf_cap impl.buf_off || ltb (impl.buf_cap - impl.buf_off) impl.buf_len
          then (false, impl, m)
          else (if leb len (impl.buf_cap - impl.buf_off - impl.buf_len)
              then (true, impl, m)
              else (if ltb 0 impl.buf_off && leb (impl.buf_cap / 2) impl.buf_off
                  then (let compact = sink_compact_buf impl in
                      if leb len (compact.buf_cap - compact.buf_len)
                      then (true, compact, m)
                      else grow_buf compact needed m)
                  else (if ltb 0 impl.buf_off && leb needed impl.buf_cap
                      then (true, sink_compact_buf impl, m)
                      else grow_buf impl needed m))))

  -- The slots `packets[(packet_head + i) % packet_cap]` from `i` on, `n` of them.
  unfoldable pub slots : List (Option P) → ℕ → ℕ → ℕ → ℕ → List (Option P)
  slots packets cap head i zero = []
  slots packets cap head i (suc n) =
      get_or packets ((head + i) % cap) none ∷ slots packets cap head (i + 1) n

  abbrev pub waiting : Sink P → List (Option P)
  waiting impl = slots impl.packets impl.packet_cap impl.packet_head 0 impl.packet_count

  -- The packets are moved to the front of a fresh array.
  abbrev pub calloc_packets : Sink P → ℕ → Mem → Reserved P
  calloc_packets impl new_cap m =
      let got = allocate m in
      (
        got.0,
        if got.0
            then (record impl {
              packets = waiting impl ++ replicate (new_cap - impl.packet_count) none;
              packet_head = 0;
              packet_cap = new_cap;
            })
            else impl,
        got.1,
      )

  unfoldable pub sink_reserve_packets : Sink P → ℕ → Mem → Reserved P
  sink_reserve_packets impl needed m =
      if leb needed impl.packet_cap
      then (true, impl, m)
      else (elim (double_until 65 (if impl.packet_cap == 0 then 4 else impl.packet_cap * 2 % 2 ^ 64)
          needed) [
            | none ↦ (false, impl, m)
            | some new_cap ↦
                if ltb (size_max / packet_size) new_cap
                then (false, impl, m)
                else calloc_packets impl new_cap m
          ])

  unfoldable pub sink_drop_buffer_prefix : Sink P → ℕ → Sink P
  sink_drop_buffer_prefix impl len =
      if leb impl.buf_len len
      then (record impl { buf_off = 0; buf_len = 0 })
      else (record impl { buf_off = impl.buf_off + len; buf_len = impl.buf_len - len })

  -- `n` packets are destroyed, from the slot `(packet_head + i) % packet_cap` on.
  unfoldable pub destroy_packets : List (Option P) → ℕ → ℕ → ℕ → ℕ → List (Option P)
  destroy_packets packets cap head i zero = packets
  destroy_packets packets cap head i (suc n) =
      destroy_packets (set packets ((head + i) % cap) none) cap head (i + 1) n

  -- `sink_clear_locked`
  unfoldable pub sink_clear : Sink P → Sink P
  sink_clear impl = record impl {
    packets = destroy_packets impl.packets impl.packet_cap impl.packet_head 0 impl.packet_count;
    packet_head = 0;
    packet_count = 0;
    buf_off = 0;
    buf_len = 0;
  }

  abbrev pub reset_buf : Sink P → Sink P
  reset_buf impl = record impl { buf_off = 0; buf_len = 0 }

  -- `impl->packets[tail] = pkt; impl->packet_count++`
  unfoldable pub push_packet : Sink P → P → Sink P
  push_packet impl pkt = record impl {
    packets =
        set impl.packets ((impl.packet_head + impl.packet_count) % impl.packet_cap) (some pkt);
    packet_count = impl.packet_count + 1;
  }

unfoldable pub all_ones : List ℕ → ℕ → Bool
all_ones buf zero = true
all_ones [] (suc n) = false
all_ones (b ∷ buf) (suc n) = if b == 255 then all_ones buf n else false

abbrev pub sink_marker_valid : List ℕ → Bool
sink_marker_valid buf = all_ones buf 16
