-- ===== src/Tests/Events.antt =====
-- A run of the event bus of src/event.c.
use libbgp.Prelude.{◌+◌, ◌≡◌, refl, List, [], ◌∷◌, true, false, some}
use libbgp.Prelude.Errors.{allocate}
use libbgp.Prelude.Growth.{double_until}
use libbgp.Event.{
  Subscriber, EventBus, Effect, retained, refused, released, called, Delivery, event_bus_init,
  retain_call, event_bus_subscribe_retained, subscribe_retained, add_subscriber, event_reserve,
  event_next_id, event_bus_unsubscribe, take_subscriber, event_bus_publish_from, count_receivers,
  take_snapshot, fill_snapshot, deliver_step,
}
use libbgp.Event.Balance.{gets, puts, held}
use libbgp.Event.Moves.{subs_of, in_flight, World}
use libbgp.Event.Runs.{
  Run, start, init, subscribe, unsubscribe, publish, deliver, event_bus_balance,
}

abbrev listener : Subscriber
listener = record {
  id = 0;
  event_type = 2;
  cb = 100;
  ctx = 7;
  has_retain = true;
  has_release = true;
}

abbrev empty_bus : EventBus
empty_bus = record { subs = []; cap = 0; next_id = 0 }

abbrev one_bus : EventBus
one_bus = record { subs = record listener { id = 1 } ∷ []; cap = 4; next_id = 1 }

abbrev left_bus : EventBus
left_bus = record { subs = []; cap = 4; next_id = 1 }

abbrev waiting : Delivery
waiting = record { snapshot = record listener { id = 1 } ∷ []; calling = false }

abbrev running : Delivery
running = record waiting { calling = true }

abbrev ended : Delivery
ended = record { snapshot = []; calling = false }

-- One subscription, a publication of which the retain callback wants nothing, and one that it accepts; while
-- the callback runs it ends its subscription.
abbrev told : List Effect
told = retained 7 ∷ refused 7 ∷ retained 7 ∷ called 100 7 ∷ released 7 ∷ released 7 ∷ []

abbrev over : World
over = (some left_bus, ended ∷ ended ∷ [])

subscribed-Run : Run (some one_bus, []) (retained 7 ∷ [])
unfolding event_bus_init allocate retain_call event_bus_subscribe_retained subscribe_retained
    add_subscriber event_reserve event_next_id double_until
subscribed-Run =
    subscribe (some empty_bus) [] [] listener (true ∷ []) (true ∷ []) (init [] [] (true ∷ []) start)
      refl

published-Run : Run (some one_bus, waiting ∷ ended ∷ []) (retained 7 ∷ refused 7 ∷ retained 7 ∷ [])
unfolding allocate retain_call event_bus_publish_from count_receivers take_snapshot fill_snapshot
published-Run =
    publish (some one_bus) (ended ∷ []) (retained 7 ∷ refused 7 ∷ []) 0 2 (true ∷ []) []
      (publish (some one_bus) [] (retained 7 ∷ []) 0 2 (false ∷ []) [] subscribed-Run)

told-Run : Run over told
unfolding deliver_step event_bus_unsubscribe take_subscriber
told-Run =
    let called_run =
      deliver (some one_bus) [] (ended ∷ []) waiting running
        (retained 7 ∷ refused 7 ∷ retained 7 ∷ []) (called 100 7 ∷ []) published-Run refl in
    let left_run =
      unsubscribe (some one_bus) (running ∷ ended ∷ [])
        (retained 7 ∷ refused 7 ∷ retained 7 ∷ called 100 7 ∷ []) 1 called_run in
    deliver (some left_bus) [] (ended ∷ []) running ended
      (retained 7 ∷ refused 7 ∷ retained 7 ∷ called 100 7 ∷ released 7 ∷ []) (released 7 ∷ [])
      left_run refl

event_bus_balance_example :
    gets 7 told ≡ puts 7 told + (held 7 (subs_of over.0) + in_flight 7 over.1)
event_bus_balance_example = event_bus_balance over told 7 told-Run
