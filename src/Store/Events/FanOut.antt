-- ===== src/Store/Events/FanOut.antt =====
-- `Publish` against what it means to do: every subscriber with room gets the event at the end of its
-- channel, every other one is disconnected.
use http_debug.Base.{
  ℕ, ◌≤◌, ◌<◌, ◌≡◌, refl, fun_ext, Bool, true, false, not, ◌&&◌, ◌||◌, some, List, [], ◌∷◌, ◌++◌,
  arith, ltb, ◌==◌, length, has, keep, update, Distinct, keep-keep, keep-all, keep-has, sym, ap,
  ◌∙◌, if◌then◌else◌, Bool-cases, if_true, if_false, inl, inr, ==_iff,
}
use http_debug.Store.Events.{
  Event, Channel, Broker, subscriber_buffer, forget, deliver, deliver_all, publish,
}

abbrev pub has_room : Broker → ℕ → Bool
has_room b ch = ltb (length (b.channels ch).buffer) subscriber_buffer

abbrev pub served : Event → Broker → ℕ → Channel
served ev b ch =
    let c = b.channels ch in
    if has_room b ch then record c { buffer = c.buffer ++ ev ∷ [] } else record c { closed = true }

-- The event, handed to the channels of a list at once.
abbrev pub fan_over : Event → List ℕ → Broker → Broker
fan_over ev chs b = record b {
  subs = keep (λ ch. not (has ch chs) || has_room b ch) b.subs;
  channels = λ ch. if has ch chs then served ev b ch else b.channels ch;
}

abbrev pub fan_out : Event → Broker → Broker
fan_out ev b = record b {
  subs = keep (has_room b) b.subs;
  channels = λ ch. if has ch b.subs then served ev b ch else b.channels ch;
}

abbrev pub AllOpen : Broker → List ℕ → Type 0
AllOpen b [] = Unit
AllOpen b (ch ∷ chs) = ((b.channels ch).closed ≡ false) × AllOpen b chs

pub same_broker :
    (b : Broker) {xs ys : List ℕ} {f g : ℕ → Channel}
    → xs ≡ ys
    → ((k : ℕ) → f k ≡ g k)
    → ◌≡◌ {A = Broker} (record b { subs = xs; channels = f }) (record b { subs = ys; channels = g })
same_broker b p q = λ i. record b { subs = p i; channels = fun_ext q i }

abbrev after_deliver : Event → ℕ → Broker → Broker
after_deliver ev ch b = record b {
  subs = if has_room b ch then b.subs else forget ch b.subs;
  channels = update b.channels ch (served ev b ch);
}

deliver_lem :
    (ev : Event) (ch : ℕ) (b : Broker)
    → (b.channels ch).closed ≡ false
    → deliver ev ch b ≡ some (after_deliver ev ch b)
unfolding deliver
deliver_lem ev ch b h = elim (Bool-cases (has_room b ch)) [
  | inl room ↦ rw (h, room)
  | inr full ↦ rw (h, full)
]

AllOpen-deliver :
    (ev : Event) (ch : ℕ) (b : Broker) (chs : List ℕ)
    → has ch chs ≡ false
    → AllOpen b chs
    → AllOpen (after_deliver ev ch b) chs
AllOpen-deliver ev ch b [] h o = tt
AllOpen-deliver ev ch b (k ∷ chs) h o = ground (arith, AllOpen-deliver ev ch b chs)

kept-step :
    (ev : Event) (ch : ℕ) (chs : List ℕ) (b : Broker) (k : ℕ)
    → has ch chs ≡ false
    → has_room b ch ≡ false
    → (not (k == ch) && (not (has k chs) || has_room (after_deliver ev ch b) k))
      ≡ (not (has k (ch ∷ chs)) || has_room b k)
kept-step ev ch chs b k h full = ground (arith, ==_iff k ch)

kept_room :
    (ev : Event) (ch : ℕ) (chs : List ℕ) (b : Broker) (k : ℕ)
    → has ch chs ≡ false
    → has_room b ch ≡ true
    → (not (has k chs) || has_room (after_deliver ev ch b) k)
      ≡ (not (has k (ch ∷ chs)) || has_room b k)
kept_room ev ch chs b k h room = ground (arith, ==_iff k ch)

channel-step :
    (ev : Event) (ch : ℕ) (chs : List ℕ) (b : Broker) (k : ℕ)
    → has ch chs ≡ false
    → (fan_over ev chs (after_deliver ev ch b)).channels k ≡ (fan_over ev (ch ∷ chs) b).channels k
channel-step ev ch chs b k h = ground (arith, ==_iff k ch)

module _ (ev : Event) (ch : ℕ) (chs : List ℕ) (b : Broker) (h : has ch chs ≡ false) where
  subs-step :
      (r : Bool)
      → has_room b ch ≡ r
      → keep
          (λ k. not (has k chs) || has_room (after_deliver ev ch b) k)
          (if r then b.subs else forget ch b.subs)
        ≡ keep (λ k. not (has k (ch ∷ chs)) || has_room b k) b.subs
  subs-step true room = ap (λ p. keep p b.subs) (fun_ext λ k. kept_room ev ch chs b k h room)
  subs-step false full =
      keep-keep _ _ b.subs ∙ ap (λ p. keep p b.subs) (fun_ext λ k. kept-step ev ch chs b k h full)

  fan_over-step : fan_over ev chs (after_deliver ev ch b) ≡ fan_over ev (ch ∷ chs) b
  fan_over-step = same_broker b (subs-step (has_room b ch) refl) (λ k. channel-step ev ch chs b k h)

deliver_all-fan_over :
    (ev : Event) (chs : List ℕ) (b : Broker)
    → Distinct chs
    → AllOpen b chs
    → deliver_all ev chs b ≡ some (fan_over ev chs b)
unfolding deliver_all
deliver_all-fan_over ev [] b h o = ap some (same_broker b (sym (keep-all b.subs)) (λ k. refl))
deliver_all-fan_over ev (ch ∷ chs) b h o =
    rw (deliver_all, deliver_lem ev ch b o.0)
      (deliver_all-fan_over ev chs (after_deliver ev ch b) h.1 (AllOpen-deliver ev ch b chs h.0 o.1)
        ∙ ap some (fan_over-step ev ch chs b h.0))

-- What holds of a broker between calls: the subscribers' channels are distinct and open, no channel
-- holds more than its size, and a closed broker has no subscriber.
pub record IsWired (b : Broker) : Type 0 where
  pub connected : (ch : ℕ) → has ch b.subs ≡ true → (b.channels ch).closed ≡ false
  pub known : (ch : ℕ) → has ch b.subs ≡ true → ch < b.made
  pub bounded : (ch : ℕ) → length (b.channels ch).buffer ≤ subscriber_buffer
  pub distinct : Distinct b.subs
  pub silent : b.closed ≡ true → b.subs ≡ []
  -- a channel that was made and has no subscriber any more
  pub over : (ch : ℕ) → ch < b.made → has ch b.subs ≡ false → (b.channels ch).closed ≡ true

pub AllOpen-has :
    (b : Broker) (chs : List ℕ)
    → ((ch : ℕ) → has ch chs ≡ true → (b.channels ch).closed ≡ false)
    → AllOpen b chs
AllOpen-has b [] h = tt
AllOpen-has b (ch ∷ chs) h = (h ch (ground arith), AllOpen-has b chs (λ k e. h k (ground arith)))

fan_out-none : (ev : Event) (b : Broker) → b.subs ≡ [] → fan_out ev b ≡ b
fan_out-none ev b e =
    same_broker b (ap (keep (has_room b)) e ∙ sym e)
      (λ k. let f : has k b.subs ≡ false = ap (has k) e in if_false _ _ f)

fan_over_self : (ev : Event) (b : Broker) → fan_over ev b.subs b ≡ fan_out ev b
fan_over_self ev b = same_broker b (keep-has _ _ b.subs (λ k e. rw e)) (λ k. refl)

-- `Publish` returns on every wired broker, without a panic, and does exactly this: each subscriber
-- with room has the event at the end of its channel, each other subscriber is dropped and its channel
-- closed, and nothing else changes.
pub publish-fan_out : (ev : Event) (b : Broker) → IsWired b → publish ev b ≡ some (fan_out ev b)
unfolding publish
publish-fan_out ev b w = elim (Bool-cases b.closed) [
  | inl shut ↦ if_true _ _ shut ∙ ap some (sym (fan_out-none ev b (w.silent shut)))
  | inr running ↦
      if_false _ _ running
      ∙ deliver_all-fan_over ev b.subs b w.distinct (AllOpen-has b b.subs w.connected)
      ∙ ap some (fan_over_self ev b)
]
