-- ===== src/Tests/Events.antt =====
-- The broker, from a new one with one subscriber.
use http_debug.Base.{◌≡◌, none, some, List, [], ◌∷◌, codes, arith}
use http_debug.Store.Events.{Event, Broker, created, deleted, new_broker, subscribe, publish}
use http_debug.Store.Events.FanOut.{IsWired, fan_out, publish-fan_out}
use http_debug.Store.Events.Wired.{new_broker-IsWired, subscribe-IsWired}
use http_debug.Store.Events.Delivery.{
  Op, publishes, receives, drops, published, run, Delivers, run-Delivers,
}

abbrev first_event : Event
first_event = record { type = created; id = codes "a1"; entry = none; chunk = [] }

abbrev second_event : Event
second_event = record { type = deleted; id = codes "a1"; entry = none; chunk = [] }

-- A broker with channel 0.
abbrev one_subscriber : Broker
one_subscriber = (subscribe new_broker).1

one_subscriber-IsWired : IsWired one_subscriber
one_subscriber-IsWired = subscribe-IsWired new_broker new_broker-IsWired

publish-fan_out_example :
    publish first_event one_subscriber ≡ some (fan_out first_event one_subscriber)
publish-fan_out_example = publish-fan_out first_event one_subscriber one_subscriber-IsWired

abbrev history : List Op
history =
    publishes first_event
    ∷ receives 0
    ∷ publishes second_event
    ∷ drops 0
    ∷ publishes first_event
    ∷ []

run-Delivers_example : Delivers 0 one_subscriber (published history) (run history one_subscriber)
run-Delivers_example =
    run-Delivers history 0 one_subscriber one_subscriber-IsWired
      (unfold subscribe new_broker in omega arith)
