-- ===== src/Event/Runs.antt =====
-- Runs of the event bus of src/event.c: any operations in any order, deliveries in between, with any answers
-- of the allocator and of the retain callbacks.
use libbgp.Prelude.{
  ℕ, ◌+◌, ◌≡◌, refl, List, [], ◌∷◌, ◌++◌, Bool, true, false, Option, none, some, arith, All,
  All-append, All-split, Bool-cases, inl, inr, subst,
}
use libbgp.Prelude.Errors.{Mem, allocate}
use libbgp.Event.{
  Subscriber, Effect, Handle, Delivery, event_bus_init, event_bus_destroy,
  event_bus_subscribe_retained, event_bus_unsubscribe, event_bus_publish_from, deliver_step,
}
use libbgp.Event.Balance.{
  gets, puts, held, IsPaired, gets-append, puts-append, released-share, release_all-counts,
}
use libbgp.Event.Moves.{
  subs_of, in_flight, World, holds, IsDelivery, IsWorld, Moves, Moves-still, subscribe-Moves,
  unsubscribe-Moves, publish-Starts,
}

-- The subscribers come in pairs of callbacks, and what was retained and not released is held.
record Balanced (w : World) (es : List Effect) : Type 0 where
  valid : IsWorld w
  even : (c : ℕ) → gets c es ≡ puts c es + holds c w

Balanced-append :
    (w w' : World) (es fs : List Effect) → Balanced w es → Moves w w' fs → Balanced w' (es ++ fs)
Balanced-append w w' es fs b m = record {
  valid = m.0;
  even = λ c. omega (arith, gets-append c es fs, puts-append c es fs, b.even c, m.1 c);
}

init-Moves :
    (ds : List Delivery) (m : Mem)
    → IsWorld (none, ds)
    → Moves (none, ds) ((event_bus_init m).1, ds) []
unfolding event_bus_init
init-Moves ds m h = elim (Bool-cases (allocate m).0) [
  | inl x ↦ rw x (h, λ c. refl)
  | inr x ↦ rw x (h, λ c. refl)
]

destroy-Moves :
    (handle : Handle) (ds : List Delivery)
    → IsWorld (handle, ds)
    → let a = event_bus_destroy handle in Moves (handle, ds) (a.0, ds) a.1
unfolding event_bus_destroy
destroy-Moves none ds h = Moves-still (none, ds) h
destroy-Moves (some bus) ds h =
    let out = λ (c : ℕ). release_all-counts c bus.subs h.0 in
    ((tt, h.1), λ c. omega (arith, (out c).0, (out c).1))

-- A step of a delivery releases what it stops to hold.
abbrev Kept : List Subscriber → Option (Delivery × List Effect) → Type 0
Kept subs none = Unit {0}
Kept subs (some r) =
    IsDelivery r.0 × ((c : ℕ) → gets c r.1 + held c subs ≡ puts c r.1 + held c r.0.snapshot)

step-Kept :
    (subs : List Subscriber) (calling : Bool)
    → All IsPaired subs
    → Kept subs (deliver_step (record { snapshot = subs; calling = calling }))
unfolding deliver_step
step-Kept [] calling h = tt
step-Kept (s ∷ rest) false h = (h, λ c. refl)
step-Kept (s ∷ rest) true h =
    let one = λ (c : ℕ). released-share c s h.0 in (h.1, λ c. omega (arith, (one c).0, (one c).1))

in_flight-append :
    (c : ℕ) (xs ys : List Delivery) → in_flight c (xs ++ ys) ≡ in_flight c xs + in_flight c ys
in_flight-append c [] ys = omega arith
in_flight-append c (d ∷ xs) ys = omega (arith, in_flight-append c xs ys)

deliver-Moves :
    (handle : Handle) (xs ys : List Delivery) (d d' : Delivery) (es : List Effect)
    → IsWorld (handle, xs ++ d ∷ ys)
    → deliver_step d ≡ some (d', es)
    → Moves (handle, xs ++ d ∷ ys) (handle, xs ++ d' ∷ ys) es
deliver-Moves handle xs ys d d' es h e =
    let parts = All-split IsDelivery xs (d ∷ ys) h.1 in
    let one : Kept d.snapshot (some (d', es)) =
      subst (Kept d.snapshot) e (step-Kept d.snapshot d.calling parts.1.0) in
    (
      (h.0, All-append IsDelivery xs (d' ∷ ys) parts.0 (one.0, parts.1.1)),
      λ c. omega (arith, in_flight-append c xs (d ∷ ys), in_flight-append c xs (d' ∷ ys), one.1 c),
    )

-- A run, with the effects of its steps in their order. An operation is one step, but for a publication: this
-- takes its snapshot in one step, under the lock, and each callback that it delivers to and each release
-- behind that is a step of its own, so that callbacks and other threads can call the bus in between, also
-- destroy it. A handle is initialised when it holds no bus.
pub data Run : World → List Effect → Type 0 where
  start : Run (none, []) []
  init :
      (ds : List Delivery) (es : List Effect) (m : Mem)
      → Run (none, ds) es
      → Run ((event_bus_init m).1, ds) (es ++ [])
  subscribe :
      (handle : Handle) (ds : List Delivery) (es : List Effect) (sub : Subscriber)
      (answers : List Bool) (m : Mem)
      → Run (handle, ds) es
      → IsPaired sub
      → Run
          ((event_bus_subscribe_retained handle sub answers m).1, ds)
          (es ++ (event_bus_subscribe_retained handle sub answers m).3)
  unsubscribe :
      (handle : Handle) (ds : List Delivery) (es : List Effect) (id : ℕ)
      → Run (handle, ds) es
      → Run ((event_bus_unsubscribe handle id).1, ds) (es ++ (event_bus_unsubscribe handle id).2)
  publish :
      (handle : Handle) (ds : List Delivery) (es : List Effect) (publisher_id event_type : ℕ)
      (answers : List Bool) (m : Mem)
      → Run (handle, ds) es
      → Run
          (handle, (event_bus_publish_from handle publisher_id event_type answers m).1 ∷ ds)
          (es ++ (event_bus_publish_from handle publisher_id event_type answers m).3)
  deliver :
      (handle : Handle) (xs ys : List Delivery) (d d' : Delivery) (es out : List Effect)
      → Run (handle, xs ++ d ∷ ys) es
      → deliver_step d ≡ some (d', out)
      → Run (handle, xs ++ d' ∷ ys) (es ++ out)
  destroy :
      (handle : Handle) (ds : List Delivery) (es : List Effect)
      → Run (handle, ds) es
      → Run ((event_bus_destroy handle).0, ds) (es ++ (event_bus_destroy handle).1)

Run-Balanced : (w : World) (es : List Effect) → Run w es → Balanced w es
Run-Balanced _ _ start = record { valid = (tt, tt); even = λ c. refl }
Run-Balanced _ _ (init ds es m run) =
    let b = Run-Balanced (none, ds) es run in
    Balanced-append (none, ds) ((event_bus_init m).1, ds) es [] b (init-Moves ds m b.valid)
Run-Balanced _ _ (subscribe handle ds es sub answers m run p) =
    let b = Run-Balanced (handle, ds) es run in
    let a = event_bus_subscribe_retained handle sub answers m in
    Balanced-append (handle, ds) (a.1, ds) es a.3 b
      (subscribe-Moves handle ds sub answers m b.valid p)
Run-Balanced _ _ (unsubscribe handle ds es id run) =
    let b = Run-Balanced (handle, ds) es run in
    let a = event_bus_unsubscribe handle id in
    Balanced-append (handle, ds) (a.1, ds) es a.2 b (unsubscribe-Moves handle ds id b.valid)
Run-Balanced _ _ (publish handle ds es p t answers m run) =
    let b = Run-Balanced (handle, ds) es run in
    let a = event_bus_publish_from handle p t answers m in
    Balanced-append (handle, ds) (handle, a.1 ∷ ds) es a.3 b
      (publish-Starts handle ds p t answers m b.valid)
Run-Balanced _ _ (deliver handle xs ys d d' es out run e) =
    let b = Run-Balanced (handle, xs ++ d ∷ ys) es run in
    Balanced-append (handle, xs ++ d ∷ ys) (handle, xs ++ d' ∷ ys) es out b
      (deliver-Moves handle xs ys d d' out b.valid e)
Run-Balanced _ _ (destroy handle ds es run) =
    let b = Run-Balanced (handle, ds) es run in
    let a = event_bus_destroy handle in
    Balanced-append (handle, ds) (a.0, ds) es a.1 b (destroy-Moves handle ds b.valid)

still_going :
    (s : Subscriber) (rest : List Subscriber) (calling : Bool)
    → ¬ (deliver_step (record { snapshot = s ∷ rest; calling = calling }) ≡ none)
unfolding deliver_step
still_going s rest true e = absurd (cc)
still_going s rest false e = absurd (cc)

held-ended :
    (c : ℕ) (subs : List Subscriber) (calling : Bool)
    → deliver_step (record { snapshot = subs; calling = calling }) ≡ none
    → held c subs ≡ 0
held-ended c [] calling e = refl
held-ended c (s ∷ rest) calling e = absurd (still_going s rest calling e)

in_flight-ended :
    (c : ℕ) (ds : List Delivery) → All (λ d. deliver_step d ≡ none) ds → in_flight c ds ≡ 0
in_flight-ended c [] h = refl
in_flight-ended c (d ∷ ds) h =
    omega (arith, held-ended c d.snapshot d.calling h.0, in_flight-ended c ds h.1)

-- Take any run of a bus in which subscriptions pass both callbacks or none: initialisations, subscriptions,
-- their ends, publications, and the destruction of the bus follow each other in any order, the steps of
-- deliveries come anywhere in between, and the allocator and each call of a retain callback answer
-- anything. Then every context was retained exactly as often as it was released and is still held by the
-- subscribers of the bus and by the subscribers that deliveries have still to release.
pub event_bus_balance :
    (w : World) (es : List Effect) (c : ℕ)
    → Run w es
    → gets c es ≡ puts c es + (held c (subs_of w.0) + in_flight c w.1)
event_bus_balance w es c run = (Run-Balanced w es run).even c

-- Once such a run has destroyed the bus and no delivery can go on, every context has been released exactly
-- as often as it was retained.
event_bus_balance_destroyed :
    (ds : List Delivery) (es : List Effect) (c : ℕ)
    → Run (none, ds) es
    → All (λ d. deliver_step d ≡ none) ds
    → gets c es ≡ puts c es
event_bus_balance_destroyed ds es c run ended =
    omega (arith, event_bus_balance (none, ds) es c run, in_flight-ended c ds ended)
