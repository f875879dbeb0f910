-- ===== src/Event.antt =====
-- src/event.c: the event bus. What the functions do to the outside, the calls of callbacks, is the list of
-- their effects in order. A callback and its context are their addresses; a subscriber has a retain or a
-- release callback or has NULL there. What the retain callbacks answer, which may change from call to call,
-- is a list of Booleans in the order of the calls of an operation; behind its end they answer true. A
-- handle is `none` when its `impl` is NULL. A publisher id of 0 is nobody's.
pub mod Balance
pub mod Moves
pub mod Runs
use libbgp.Prelude.{
  ℕ, suc, ◌+◌, ◌-◌, ◌*◌, ◌/◌, ◌%◌, ◌^◌, List, [], ◌∷◌, ◌++◌, Bool, true, false, Option, none, some,
  ltb, leb, ◌==◌, ◌&&◌, ◌||◌, not, if◌then◌else◌, length,
}
use libbgp.Prelude.Errors.{Result, ok, err, ErrorCode, bad_len, nomem, not_found, Mem, allocate}
use libbgp.Prelude.Growth.{size_max, double_until}

-- `event_subscriber_t`
pub record Subscriber : Type 0 where
  pub id : ℕ
  pub event_type : ℕ
  pub cb : ℕ
  pub ctx : ℕ
  pub has_retain : Bool
  pub has_release : Bool

-- `event_bus_impl_t`
pub record EventBus : Type 0 where
  pub subs : List Subscriber
  pub cap : ℕ
  pub next_id : ℕ

-- A callback was called: a retain that answered true or false, a release, or the callback of a subscriber.
pub data Effect : Type 0 where
  retained refused released : (ctx : ℕ) → Effect
  called : (cb ctx : ℕ) → Effect

-- The sizes of a subscriber and of an entry of a snapshot on a machine of 64 bits.
abbrev pub subscriber_size : ℕ
subscriber_size = 48

abbrev pub snapshot_size : ℕ
snapshot_size = 24

-- BGP_EVENT_STACK_SNAPSHOT
abbrev pub stack_snapshot : ℕ
stack_snapshot = 64

-- `libbgp_event_bus_t`
abbrev pub Handle : Type 0
Handle = Option EventBus

-- `retain == NULL || retain(ctx)`: the answer, the effect, and the answers that are left.
unfoldable pub retain_call : Bool → ℕ → List Bool → Bool × List Effect × List Bool
retain_call false ctx answers = (true, [], answers)
retain_call true ctx [] = (true, retained ctx ∷ [], [])
retain_call true ctx (true ∷ answers) = (true, retained ctx ∷ [], answers)
retain_call true ctx (false ∷ answers) = (false, refused ctx ∷ [], answers)

abbrev pub release_effect : Bool → ℕ → List Effect
release_effect has ctx = if has then released ctx ∷ [] else []

-- Whether there is room for `needed` subscribers, the capacity, and the allocator's outcomes left.
unfoldable pub event_reserve : ℕ → ℕ → Mem → Bool × ℕ × Mem
event_reserve cap needed m =
    let got = allocate m in
    if leb needed cap
    then (true, cap, m)
    else (elim (double_until 65 (if cap == 0 then 4 else cap * 2 % 2 ^ 64) needed) [
      | none ↦ (false, cap, m)
      | some new_cap ↦
          if ltb (size_max / subscriber_size) new_cap
          then (false, cap, m)
          else (got.0, if got.0 then new_cap else cap, got.1)
    ])

unfoldable pub event_next_id : ℕ → ℕ
event_next_id next_id = let next = (next_id + 1) % 2 ^ 64 in if next == 0 then next + 1 else next

unfoldable pub event_bus_init : Mem → Result (Unit {0}) × Handle × Mem
event_bus_init m =
    let got = allocate m in
    if got.0
    then (ok tt, some (record { subs = []; cap = 0; next_id = 0 }), got.1)
    else (err nomem, none, got.1)

-- The subscribers are released from the last to the first.
unfoldable pub release_all : List Subscriber → List Effect
release_all [] = []
release_all (s ∷ subs) = release_all subs ++ release_effect s.has_release s.ctx

unfoldable pub event_bus_destroy : Handle → Handle × List Effect
event_bus_destroy none = (none, [])
event_bus_destroy (some bus) = (none, release_all bus.subs)

-- The answer, the handle afterwards, the allocator's outcomes left, and the effects.
abbrev pub Subscribed : Type 0
Subscribed = Result ℕ × Handle × Mem × List Effect

-- The end of subscribing, behind the reservation; `taken` is the effect of the retain callback. The
-- subscription `sub` has no id yet.
unfoldable pub add_subscriber : EventBus → Subscriber → List Effect → Bool × ℕ × Mem → Subscribed
add_subscriber bus sub taken (false, cap, m) =
    (err nomem, some bus, m, taken ++ release_effect sub.has_release sub.ctx)
add_subscriber bus sub taken (true, cap, m) =
    let id = event_next_id bus.next_id in
    (
      ok id,
      some (record { subs = bus.subs ++ record sub { id = id } ∷ []; cap = cap; next_id = id }),
      m,
      taken,
    )

-- What follows when the retain callback has answered true.
unfoldable pub subscribe_retained : Handle → Subscriber → List Effect → Mem → Subscribed
subscribe_retained none sub taken m =
    (err bad_len, none, m, taken ++ release_effect sub.has_release sub.ctx)
subscribe_retained (some bus) sub taken m =
    add_subscriber bus sub taken (event_reserve bus.cap (length bus.subs + 1) m)

unfoldable pub event_bus_subscribe_retained : Handle → Subscriber → List Bool → Mem → Subscribed
event_bus_subscribe_retained handle sub answers m =
    let asked = retain_call sub.has_retain sub.ctx answers in
    if asked.0 then subscribe_retained handle sub asked.1 m else (err bad_len, handle, m, asked.1)

abbrev pub event_bus_subscribe : Handle → (event_type cb ctx : ℕ) → Mem → Subscribed
event_bus_subscribe handle event_type cb ctx m =
    event_bus_subscribe_retained handle
      (record {
        id = 0;
        event_type = event_type;
        cb = cb;
        ctx = ctx;
        has_retain = false;
        has_release = false;
      })
      [] m

-- The first subscriber with the id, and the others.
unfoldable pub take_subscriber : ℕ → List Subscriber → Option (Subscriber × List Subscriber)
take_subscriber id [] = none
take_subscriber id (s ∷ subs) =
    let rest = take_subscriber id subs in
    if s.id == id then some (s, subs) else elim rest [ none ↦ none | some r ↦ some (r.0, s ∷ r.1) ]

unfoldable pub event_bus_unsubscribe : Handle → ℕ → Result (Unit {0}) × Handle × List Effect
event_bus_unsubscribe none id = (err bad_len, none, [])
event_bus_unsubscribe (some bus) id = elim (take_subscriber id bus.subs) [
  | none ↦ (err not_found, some bus, [])
  | some r ↦ (ok tt, some (record bus { subs = r.1 }), release_effect r.0.has_release r.0.ctx)
]

-- The test of both loops of `libbgp_event_bus_publish_from`.
abbrev pub receives : ℕ → ℕ → Subscriber → Bool
receives publisher_id event_type s =
    s.event_type == event_type && (publisher_id == 0 || not (s.id == publisher_id))

unfoldable pub count_receivers : ℕ → ℕ → List Subscriber → ℕ
count_receivers publisher_id event_type [] = 0
count_receivers publisher_id event_type (s ∷ subs) =
    let rest = count_receivers publisher_id event_type subs in
    if receives publisher_id event_type s then suc rest else rest

-- The second loop, with the answers of the retain callbacks: the snapshot and the effects.
unfoldable pub take_snapshot : ℕ → ℕ → List Subscriber → List Bool → List Subscriber × List Effect
take_snapshot publisher_id event_type [] answers = ([], [])
take_snapshot publisher_id event_type (s ∷ subs) answers =
    let asked =
      if receives publisher_id event_type s
      then retain_call s.has_retain s.ctx answers
      else (false, [], answers) in
    let rest = take_snapshot publisher_id event_type subs asked.2 in
    (if asked.0 then s ∷ rest.0 else rest.0, asked.1 ++ rest.1)

-- A publication behind its unlocking: what its loop has still to deliver, and whether the callback of the
-- first of these is running.
pub record Delivery : Type 0 where
  pub snapshot : List Subscriber
  pub calling : Bool

-- The third loop, which holds no lock: a callback is called, and when it is back the context is released.
-- Between any two of these steps callbacks and other threads may call the bus.
unfoldable pub deliver_step : Delivery → Option (Delivery × List Effect)
deliver_step d = elim d.snapshot [
  | [] ↦ none
  | s ∷ rest ↦
      if d.calling
      then some (record { snapshot = rest; calling = false }, release_effect s.has_release s.ctx)
      else some (record d { calling = true }, called s.cb s.ctx ∷ [])
]

-- What `libbgp_event_bus_publish_from` does under the lock: the number that it is going to return, the
-- delivery, the allocator's outcomes left, and the effects.
abbrev pub Published : Type 0
Published = ℕ × Delivery × Mem × List Effect

abbrev pub nothing_published : Mem → Published
nothing_published m = (0, record { snapshot = []; calling = false }, m, [])

unfoldable pub fill_snapshot : ℕ → ℕ → List Subscriber → List Bool → Mem → Published
fill_snapshot publisher_id event_type subs answers m =
    let taken = take_snapshot publisher_id event_type subs answers in
    (length taken.0, record { snapshot = taken.0; calling = false }, m, taken.1)

unfoldable pub event_bus_publish_from : Handle → ℕ → ℕ → List Bool → Mem → Published
event_bus_publish_from none publisher_id event_type answers m = nothing_published m
event_bus_publish_from (some bus) publisher_id event_type answers m =
    let match_count = count_receivers publisher_id event_type bus.subs in
    let got = allocate m in
    if match_count == 0
    then nothing_published m
    else (if ltb stack_snapshot match_count
        then (if ltb (size_max / snapshot_size) match_count
            then nothing_published m
            else (if got.0
                then fill_snapshot publisher_id event_type bus.subs answers got.1
                else nothing_published got.1))
        else fill_snapshot publisher_id event_type bus.subs answers m)

abbrev pub event_bus_publish : Handle → ℕ → List Bool → Mem → Published
event_bus_publish handle event_type answers m = event_bus_publish_from handle 0 event_type answers m

unfoldable pub event_bus_subscriber_count : Handle → ℕ
event_bus_subscriber_count none = 0
event_bus_subscriber_count (some bus) = length bus.subs
