-- ===== src/Web/Followed.antt =====
-- A client that follows the event stream.
use http_debug.Base.{
  ◌≡◌, ◌≢◌, refl, sym, ap, ◌∙◌, Bool, true, false, ℕ, Option, none, some, List, [], ◌∷◌, ◌++◌, Str,
  codes, if◌then◌else◌, if_true,
}
use http_debug.Store.Events.{Event, EventType, created, updated, delta, deleted, Broker, receive}
use http_debug.Web.Payloads.{EventPayload, event_payload, event_name}
use http_debug.Web.Stream.{
  Turn, done, meanwhile, channel, ticks, connected, skipped, writes, framed, framed_payload, frame,
  ping, after_event, after_receive, stream,
}
use http_debug.Web.Framed.{
  Part, comment, message, written, messages, OneLine, AllFlat, read_stream, read_stream-written,
}

-- An event that was received, if any, and those after it.
abbrev pub also : Option Event → Bool → List Event → List Event
also none closed rest = if closed then [] else rest
also (some ev) closed rest = ev ∷ rest

-- The events that the turns take from the channel.
abbrev pub pulled : ℕ → List Turn → Broker → List Event
pulled ch [] b = []
pulled ch (done ∷ ts) b = []
pulled ch (meanwhile others ∷ ts) b = pulled ch ts (others b)
pulled ch (ticks wrote ∷ ts) b = pulled ch ts b
pulled ch (channel wrote ∷ ts) b =
    let (o, b') = receive ch b in also o (b.channels ch).closed (pulled ch ts b')

-- Every write succeeds.
abbrev pub AllWrite : List Turn → Type 0
AllWrite [] = Unit
AllWrite (channel wrote ∷ ts) = (wrote ≡ true) × AllWrite ts
AllWrite (ticks wrote ∷ ts) = (wrote ≡ true) × AllWrite ts
AllWrite (_ ∷ ts) = AllWrite ts

-- Every event that needs an entry has one.
abbrev pub AllWhole : List Event → Type 0
AllWhole [] = Unit
AllWhole (ev ∷ evs) = (event_payload ev ≢ none) × AllWhole evs

event_name-OneLine : (type : EventType) → OneLine (event_name type)
event_name-OneLine created = refl
event_name-OneLine updated = refl
event_name-OneLine delta = refl
event_name-OneLine deleted = refl

module _ (encode : EventPayload → Option Str) where
  -- The encodings hold no newline.
  abbrev pub IsCompact : Type 0
  IsCompact = (p : EventPayload) (t : Str) → encode p ≡ some t → OneLine t

  abbrev named : EventType → Option Str → List (Str × Str)
  named type none = []
  named type (some t) = (event_name type, t) ∷ []

  -- What an event is to be read as: nothing if it has no encoding.
  abbrev pub told : EventType → Option EventPayload → List (Str × Str)
  told type none = []
  told type (some p) = named type (encode p)

  abbrev pub told_all : List Event → List (Str × Str)
  told_all [] = []
  told_all (ev ∷ evs) = told ev.type (event_payload ev) ++ told_all evs

  -- The text is that of parts whose messages are these events.
  record Tells (evs : List Event) (text : Str) : Type 0 where
    parts : List Part
    text_is : text ≡ written parts
    flat : AllFlat parts
    same : messages parts ≡ told_all evs

  silent : Tells [] []
  silent = record { parts = []; text_is = refl; flat = tt; same = refl }

  event-Tells :
      (ev : Event) (o : Option EventPayload) (wrote : Bool) (evs : List Event) (r : Str × Broker)
      (b : Broker)
      → event_payload ev ≡ o
      → o ≢ none
      → IsCompact
      → wrote ≡ true
      → Tells evs r.0
      → Tells (ev ∷ evs) (after_event (framed_payload encode ev.type o) wrote r b).0
  event-Tells ev none wrote evs r b e h c w t = absurd (h refl)
  event-Tells ev (some p) wrote evs r b e h c w t = go (encode p) refl
    where
      told_ev : (o : Option Str) → encode p ≡ o → told ev.type (event_payload ev) ≡ named ev.type o
      told_ev o f = ap (told ev.type) e ∙ ap (named ev.type) f

      go :
          (o : Option Str)
          → encode p ≡ o
          → Tells
              (ev ∷ evs)
              (after_event
                (elim o [ none ↦ skipped | some text ↦ writes (frame (event_name ev.type) text) ])
                wrote
                r
                b).0
      go none f = record {
        parts = t.parts;
        text_is = t.text_is;
        flat = t.flat;
        same = t.same ∙ ap (λ x. x ++ told_all evs) (sym (told_ev none f));
      }
      go (some text) f = record {
        parts = message (event_name ev.type) text ∷ t.parts;
        text_is =
            ap (λ (x : Str × Broker). x.0) (if_true _ _ w)
            ∙ ap (λ x. frame (event_name ev.type) text ++ x) t.text_is;
        flat = ((event_name-OneLine ev.type, c p text f), t.flat);
        same =
            ap (λ x. (event_name ev.type, text) ∷ x) t.same
            ∙ ap (λ x. x ++ told_all evs) (sym (told_ev (some text) f));
      }

  receive-Tells :
      (o : Option Event) (closed wrote : Bool) (evs : List Event) (r : Str × Broker) (b b₁ : Broker)
      → IsCompact
      → wrote ≡ true
      → AllWhole (also o closed evs)
      → (AllWhole evs → Tells evs r.0)
      → Tells (also o closed evs) (after_receive encode o closed wrote r b b₁).0
  unfolding framed
  receive-Tells none true wrote evs r b b₁ c w h t = silent
  receive-Tells none false wrote evs r b b₁ c w h t = t h
  receive-Tells (some ev) closed wrote evs r b b₁ c w h t =
      event-Tells ev (event_payload ev) wrote evs r b₁ refl h.0 c w (t h.1)

  stream-Tells :
      (ch : ℕ) (ts : List Turn) (b : Broker)
      → IsCompact
      → AllWrite ts
      → AllWhole (pulled ch ts b)
      → Tells (pulled ch ts b) (stream encode ch ts b).0
  unfolding stream
  stream-Tells ch [] b c w h = silent
  stream-Tells ch (done ∷ ts) b c w h = silent
  stream-Tells ch (meanwhile others ∷ ts) b c w h = stream-Tells ch ts (others b) c w h
  stream-Tells ch (ticks wrote ∷ ts) b c w h =
      let t = stream-Tells ch ts b c w.1 h in
      record {
        parts = comment (codes "ping") ∷ t.parts;
        text_is = ap (λ (x : Str × Broker). x.0) (if_true _ _ w.0) ∙ ap (λ x. ping ++ x) t.text_is;
        flat = (refl, t.flat);
        same = t.same;
      }
  stream-Tells ch (channel wrote ∷ ts) b c w h =
      receive-Tells (receive ch b).0 (b.channels ch).closed wrote (pulled ch ts (receive ch b).1)
        (stream encode ch ts (receive ch b).1) b (receive ch b).1 c w.0 h
        (λ k. stream-Tells ch ts (receive ch b).1 c w.1 k)

  -- A client of the stream whose writes all succeed, where an encoding holds no newline and no event
  -- lacks an entry that it needs, reads exactly the events that were taken from its channel, each by
  -- its name and the encoding of its payload, in their order; an event without an encoding is left
  -- out. What the rest of the program does to the broker in between, and the pings, do not matter.
  pub stream-pulled :
      (ch : ℕ) (ts : List Turn) (b : Broker)
      → IsCompact
      → AllWrite ts
      → AllWhole (pulled ch ts b)
      → read_stream (connected ++ (stream encode ch ts b).0) ≡ told_all (pulled ch ts b)
  stream-pulled ch ts b c w h =
      let t = stream-Tells ch ts b c w h in
      ap (λ x. read_stream (connected ++ x)) t.text_is
      ∙ read_stream-written (comment (codes "connected") ∷ t.parts) (refl, t.flat)
      ∙ t.same
