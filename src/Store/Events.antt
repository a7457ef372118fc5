-- ===== src/Store/Events.antt =====
-- internal/store/events.go: the broker. A channel is a cell of a heap, since the subscriber keeps its
-- end when the broker forgets it; `none` is a panic (a send on a closed channel, a second close).
-- The subscribers are a list, in the order in which a loop over the Go map happens to visit them.
pub mod FanOut
pub mod Wired
pub mod Delivery
use http_debug.Base.{
  ℕ, suc, ◌+◌, Bool, true, false, Option, none, some, List, [], ◌∷◌, ◌++◌, Str, ltb, ◌==◌, not,
  length, has, keep, update, if◌then◌else◌,
}
use http_debug.Store.Entry.{Entry}

pub data EventType : Type 0 where
  created updated delta deleted : EventType

pub record Event : Type 0 where
  pub type : EventType
  pub id : Str
  pub entry : Option Entry
  pub chunk : Str

abbrev pub subscriber_buffer : ℕ
subscriber_buffer = 256

pub record Channel : Type 0 where
  pub buffer : List Event
  pub closed : Bool

abbrev pub open_channel : Channel
open_channel = record { buffer = []; closed = false }

pub record Broker : Type 0 where
  pub subs : List ℕ
  pub closed : Bool
  -- every channel ever made; `made` of them
  pub channels : ℕ → Channel
  pub made : ℕ

unfoldable pub new_broker : Broker
new_broker = record { subs = []; closed = false; channels = λ _. open_channel; made = 0 }

-- close(ch)
unfoldable pub close_channel : ℕ → Broker → Option Broker
close_channel ch b =
    let c = b.channels ch in
    if c.closed
    then none
    else some (record b { channels = update b.channels ch (record c { closed = true }) })

-- delete(b.subs, ch)
abbrev pub forget : ℕ → List ℕ → List ℕ
forget ch = keep (λ k. not (k == ch))

-- Returns the new channel. The function that releases it calls `drop`, at most once.
unfoldable pub subscribe : Broker → ℕ × Broker
subscribe b =
    let ch = b.made in
    if b.closed
    then (
      ch,
      record b {
        channels = update b.channels ch (record { buffer = []; closed = true });
        made = suc b.made;
      },
    )
    else (
      ch,
      record b {
        subs = ch ∷ b.subs;
        channels = update b.channels ch open_channel;
        made = suc b.made;
      },
    )

-- The body of the loop in `Publish`: a send that does not wait, or the disconnection.
unfoldable pub deliver : Event → ℕ → Broker → Option Broker
unfolding close_channel
deliver ev ch b =
    let c = b.channels ch in
    if c.closed
    then none
    else if ltb (length c.buffer) subscriber_buffer
    then some
        (record b { channels = update b.channels ch (record c { buffer = c.buffer ++ ev ∷ [] }) })
    else close_channel ch (record b { subs = forget ch b.subs })

unfoldable pub deliver_all : Event → List ℕ → Broker → Option Broker
deliver_all ev [] b = some b
deliver_all ev (ch ∷ chs) b = elim (deliver ev ch b) [
  | none ↦ none
  | some b' ↦ deliver_all ev chs b'
]

unfoldable pub publish : Event → Broker → Option Broker
publish ev b = if b.closed then some b else deliver_all ev b.subs b

unfoldable pub drop : ℕ → Broker → Option Broker
drop ch b =
    if has ch b.subs then close_channel ch (record b { subs = forget ch b.subs }) else some b

unfoldable pub close_all : List ℕ → Broker → Option Broker
close_all [] b = some b
close_all (ch ∷ chs) b = elim (close_channel ch (record b { subs = forget ch b.subs })) [
  | none ↦ none
  | some b' ↦ close_all chs b'
]

unfoldable pub close : Broker → Option Broker
close b = if b.closed then some b else close_all b.subs (record b { closed = true })

-- The subscriber's end, `ev, ok := <-ch`: it drains the buffer, also of a closed channel. With an
-- empty buffer it gets nothing (`ok` false on a closed channel, a wait on an open one).
unfoldable pub receive : ℕ → Broker → Option Event × Broker
receive ch b = elim (b.channels ch).buffer [
  | [] ↦ (none, b)
  | ev ∷ rest ↦ (
    some ev,
    record b { channels = update b.channels ch (record (b.channels ch) { buffer = rest }) },
  )
]
