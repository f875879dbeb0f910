-- ===== src/Event/Moves.antt =====
-- What the operations of src/event.c retain and release fits the change of those that hold the contexts.
use libbgp.Prelude.{
  ℕ, ◌+◌, ◌/◌, ◌≡◌, refl, ap, ◌∙◌, List, [], ◌∷◌, Bool, true, false, Option, none, some, ltb, ◌==◌,
  if◌then◌else◌, length, arith, All, All-append, Bool-cases, Option-cases, inl, inr, subst,
}
use libbgp.Prelude.Errors.{Mem, allocate}
use libbgp.Prelude.Growth.{size_max}
use libbgp.Event.{
  Subscriber, EventBus, Effect, Handle, Delivery, retain_call, release_effect, event_reserve,
  add_subscriber, subscribe_retained, event_bus_subscribe_retained, take_subscriber,
  event_bus_unsubscribe, Published, fill_snapshot, count_receivers, event_bus_publish_from,
  snapshot_size, stack_snapshot, event_next_id,
}
use libbgp.Event.Balance.{
  gets, puts, held, share, IsPaired, gets-append, puts-append, held-append, retain_call-counts,
  released-share, take_snapshot-counts,
}

abbrev pub subs_of : Handle → List Subscriber
subs_of none = []
subs_of (some bus) = bus.subs

-- How often the deliveries hold the context `c`.
abbrev pub in_flight : ℕ → List Delivery → ℕ
in_flight c [] = 0
in_flight c (d ∷ ds) = held c d.snapshot + in_flight c ds

-- A handle and the publications that are being delivered.
abbrev pub World : Type 0
World = Handle × List Delivery

abbrev pub holds : ℕ → World → ℕ
holds c w = held c (subs_of w.0) + in_flight c w.1

abbrev pub IsDelivery : Delivery → Type 0
IsDelivery d = All IsPaired d.snapshot

abbrev pub IsWorld : World → Type 0
IsWorld w = All IsPaired (subs_of w.0) × All IsDelivery w.1

-- What an operation adds to the effects fits the change of the holders.
abbrev pub Moves : World → World → List Effect → Type 0
Moves w w' es = IsWorld w' × ((c : ℕ) → gets c es + holds c w ≡ puts c es + holds c w')

pub Moves-still : (w : World) → IsWorld w → Moves w w []
Moves-still w h = (h, λ c. refl)

-- What subscribing leaves: of the effect of the retain callback, `taken`, the share of the subscriber is held
-- or given back.
subscribed-Moves :
    (bus : EventBus) (ds : List Delivery) (sub : Subscriber) (taken : List Effect)
    (r : Bool × ℕ × Mem)
    → IsWorld (some bus, ds)
    → IsPaired sub
    → ((c : ℕ) → (gets c taken ≡ share c sub) × (puts c taken ≡ 0))
    → let a = add_subscriber bus sub taken r in Moves (some bus, ds) (a.1, ds) a.3
unfolding add_subscriber
subscribed-Moves bus ds sub taken (false, cap, m) h p k =
    let e = release_effect sub.has_release sub.ctx in
    (
      h,
      λ c. omega (
        arith,
        gets-append c taken e,
        puts-append c taken e,
        (k c).0,
        (k c).1,
        (released-share c sub p).0,
        (released-share c sub p).1,
      ),
    )
subscribed-Moves bus ds sub taken (true, cap, m) h p k =
    let new : Subscriber = record sub { id = event_next_id bus.next_id } in
    (
      (All-append IsPaired bus.subs (new ∷ []) h.0 (p, tt), h.1),
      λ c. omega (arith, held-append c bus.subs (new ∷ []), (k c).0, (k c).1),
    )

retained-Moves :
    (handle : Handle) (ds : List Delivery) (sub : Subscriber) (taken : List Effect) (m : Mem)
    → IsWorld (handle, ds)
    → IsPaired sub
    → ((c : ℕ) → (gets c taken ≡ share c sub) × (puts c taken ≡ 0))
    → let a = subscribe_retained handle sub taken m in Moves (handle, ds) (a.1, ds) a.3
unfolding subscribe_retained
retained-Moves none ds sub taken m h p k =
    let e = release_effect sub.has_release sub.ctx in
    (
      h,
      λ c. omega (
        arith,
        gets-append c taken e,
        puts-append c taken e,
        (k c).0,
        (k c).1,
        (released-share c sub p).0,
        (released-share c sub p).1,
      ),
    )
retained-Moves (some bus) ds sub taken m h p k =
    subscribed-Moves bus ds sub taken (event_reserve bus.cap (length bus.subs + 1) m) h p k

pub subscribe-Moves :
    (handle : Handle) (ds : List Delivery) (sub : Subscriber) (answers : List Bool) (m : Mem)
    → IsWorld (handle, ds)
    → IsPaired sub
    → let a = event_bus_subscribe_retained handle sub answers m in Moves (handle, ds) (a.1, ds) a.3
unfolding event_bus_subscribe_retained
subscribe-Moves handle ds sub answers m h p =
    let asked = retain_call sub.has_retain sub.ctx answers in
    let counts = λ (c : ℕ). retain_call-counts c sub.has_retain sub.ctx answers in
    let got = λ (c : ℕ) (b : Bool) (e : asked.0 ≡ b).
      (counts c).0 ∙ ap (λ x. if x then share c sub else 0) e in
    elim (Bool-cases asked.0) [
      | inl x ↦
          rw x (retained-Moves handle ds sub asked.1 m h p (λ c. (got c true x, (counts c).1)))
      | inr x ↦ rw x (h, λ c. omega (arith, got c false x, (counts c).1))
    ]

abbrev Taken : List Subscriber → Option (Subscriber × List Subscriber) → Type 0
Taken subs none = Unit {0}
Taken subs (some r) =
    IsPaired r.0 × All IsPaired r.1 × ((c : ℕ) → held c subs ≡ share c r.0 + held c r.1)

take_subscriber-Taken :
    (id : ℕ) (subs : List Subscriber) → All IsPaired subs → Taken subs (take_subscriber id subs)
unfolding take_subscriber
take_subscriber-Taken id [] h = tt
take_subscriber-Taken id (s ∷ subs) h =
    let ih = take_subscriber-Taken id subs h.1 in
    elim (Bool-cases (s.id == id)) [
      | inl x ↦ rw x (h.0, h.1, λ c. refl)
      | inr x ↦ elim (Option-cases (take_subscriber id subs)) [
        | inl missing ↦ rw (x, missing) tt
        | inr r ↦
            let found : Taken subs (some r.0) = subst (Taken subs) r.1 ih in
            rw (x, r.1) (found.0, (h.0, found.1), λ c. omega (arith, found.2 c))
      ]
    ]

pub unsubscribe-Moves :
    (handle : Handle) (ds : List Delivery) (id : ℕ)
    → IsWorld (handle, ds)
    → let a = event_bus_unsubscribe handle id in Moves (handle, ds) (a.1, ds) a.2
unfolding event_bus_unsubscribe
unsubscribe-Moves none ds id h = Moves-still (none, ds) h
unsubscribe-Moves (some bus) ds id h =
    let taken = take_subscriber-Taken id bus.subs h.0 in
    elim (Option-cases (take_subscriber id bus.subs)) [
      | inl missing ↦ rw (event_bus_unsubscribe, missing) (Moves-still (some bus, ds) h)
      | inr r ↦
          let found : Taken bus.subs (some r.0) = subst (Taken bus.subs) r.1 taken in
          rw (event_bus_unsubscribe, r.1)
            (
              (found.1, h.1),
              λ c. omega (
                arith,
                found.2 c,
                (released-share c r.0.0 found.0).0,
                (released-share c r.0.0 found.0).1,
              ),
            )
    ]

-- A publication that starts joins those that are being delivered.
abbrev pub Starts : Handle → List Delivery → Published → Type 0
Starts handle ds r = Moves (handle, ds) (handle, r.1 ∷ ds) r.3

fill-Starts :
    (bus : EventBus) (ds : List Delivery) (p t : ℕ) (answers : List Bool) (m : Mem)
    → IsWorld (some bus, ds)
    → Starts (some bus) ds (fill_snapshot p t bus.subs answers m)
unfolding fill_snapshot
fill-Starts bus ds p t answers m h =
    let counts = λ (c : ℕ). take_snapshot-counts c p t bus.subs answers h.0 in
    ((h.0, ((counts 0).2, h.1)), λ c. omega (arith, (counts c).0, (counts c).1))

pub publish-Starts :
    (handle : Handle) (ds : List Delivery) (p t : ℕ) (answers : List Bool) (m : Mem)
    → IsWorld (handle, ds)
    → Starts handle ds (event_bus_publish_from handle p t answers m)
unfolding event_bus_publish_from
publish-Starts none ds p t answers m h = ((h.0, (tt, h.1)), λ c. omega arith)
publish-Starts (some bus) ds p t answers m h =
    let n = count_receivers p t bus.subs in
    let filled = λ (m' : Mem). fill-Starts bus ds p t answers m' h in
    elim (Bool-cases (n == 0)) [
      | inl x ↦ rw x ((h.0, (tt, h.1)), λ c. omega arith)
      | inr x ↦ elim (Bool-cases (ltb stack_snapshot n)) [
        | inr y ↦ rw (x, y) (filled m)
        | inl y ↦ elim (Bool-cases (ltb (size_max / snapshot_size) n)) [
          | inl z ↦ rw (x, y, z) ((h.0, (tt, h.1)), λ c. omega arith)
          | inr z ↦ elim (Bool-cases (allocate m).0) [
            | inl got ↦ rw (x, y, z, got) (filled (allocate m).1)
            | inr none_got ↦ rw (x, y, z, none_got) ((h.0, (tt, h.1)), λ c. omega arith)
          ]
        ]
      ]
    ]
