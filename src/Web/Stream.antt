-- ===== src/Web/Stream.antt =====
-- internal/web/server.go: the event stream of one client, and its text. `encode` is json.Marshal at a
-- payload.
use http_debug.Base.{Bool, Option, none, some, List, [], ◌∷◌, ◌++◌, Str, codes, ℕ, if◌then◌else◌}
use mathlib.Core.Option
use http_debug.Store.Events.{Event, EventType, Broker, subscribe, receive, drop}
use http_debug.Web.Payloads.{EventPayload, event_payload, event_name}

-- What `select` takes: the end of the request, the channel, or the ticker, with whether what is then
-- written, and its flush, succeed; or what the rest of the program does to the broker in between.
pub data Turn : Type 0 where
  done : Turn
  meanwhile : (Broker → Broker) → Turn
  channel ticks : Bool → Turn

abbrev pub connected : Str
connected = codes ": connected\n\n"

abbrev pub ping : Str
ping = codes ": ping\n\n"

abbrev pub frame : Str → Str → Str
frame type payload = codes "event: " ++ (type ++ (codes "\ndata: " ++ (payload ++ codes "\n\n")))

-- What an event makes the loop do.
pub data Framed : Type 0 where
  panicking skipped : Framed
  writes : Str → Framed

-- What the loop writes and leaves at an event; `r` is the rest of the loop.
abbrev pub after_event : Framed → Bool → Str × Broker → Broker → Str × Broker
after_event panicking wrote r b = ([], b)
after_event skipped wrote r b = r
after_event (writes t) wrote r b = if wrote then (t ++ r.0, r.1) else ([], b)

module _ (encode : EventPayload → Option Str) where
  abbrev pub framed_payload : EventType → Option EventPayload → Framed
  framed_payload type none = panicking
  framed_payload type (some p) = elim (encode p) [
    | none ↦ skipped
    | some text ↦ writes (frame (event_name type) text)
  ]

  unfoldable pub framed : Event → Framed
  unfolding event_payload
  framed ev = framed_payload ev.type (event_payload ev)

  abbrev pub after_receive :
      Option Event → Bool → Bool → Str × Broker → Broker → Broker → Str × Broker
  after_receive none closed wrote r b b' = if closed then ([], b) else r
  after_receive (some ev) closed wrote r b b' = after_event (framed ev) wrote r b'

  -- The loop over the turns: what is written, and the broker. A failed write ends it.
  unfoldable pub stream : ℕ → List Turn → Broker → Str × Broker
  unfolding framed
  stream ch [] b = ([], b)
  stream ch (done ∷ ts) b = ([], b)
  stream ch (meanwhile others ∷ ts) b = stream ch ts (others b)
  stream ch (ticks wrote ∷ ts) b =
      let (text, b') = stream ch ts b in if wrote then (ping ++ text, b') else ([], b)
  stream ch (channel wrote ∷ ts) b =
      let (o, b') = receive ch b in
      after_receive o (b.channels ch).closed wrote (stream ch ts b') b b'

  -- events: subscribes, and releases the channel at the end, a panic included; `greeted` is whether the
  -- first write succeeds. The request is over when the turns are. `none` is a panic of the release.
  unfoldable pub events : Bool → List Turn → Broker → Option (Str × Broker)
  unfolding stream
  events greeted turns b =
      let (ch, b₁) = subscribe b in
      let (text, b₂) = stream ch turns b₁ in
      if greeted
      then Option.map (λ b₃. (connected ++ text, b₃)) (drop ch b₂)
      else Option.map (λ b₃. ([], b₃)) (drop ch b₁)
