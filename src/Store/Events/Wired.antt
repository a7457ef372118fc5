-- ===== src/Store/Events/Wired.antt =====
-- The broker's other calls against what they mean to do, and the invariant that all of them keep.
use http_debug.Base.{
  ℕ, ◌≡◌, refl, sym, ap, ◌∙◌, fun_ext, Bool, true, false, not, ◌&&◌, ◌||◌, Option, none, some, List,
  [], ◌∷◌, arith, ◌==◌, ==_iff, length-append, has, keep, update, Distinct, has-keep, Distinct-keep,
  keep-keep, keep-none, keep-has, keep-all, if◌then◌else◌, Bool-cases, if_true, if_false, inl, inr,
}
use http_debug.Store.Events.{
  Event, Broker, new_broker, close_channel, forget, subscribe, drop, close_all, close, receive,
}
use http_debug.Store.Events.FanOut.{IsWired, fan_out, has_room, same_broker, AllOpen, AllOpen-has}

pub new_broker-IsWired : IsWired new_broker
unfolding new_broker
new_broker-IsWired = record {
  connected = λ ch h. refl;
  known = λ ch h. cc;
  bounded = λ ch. omega arith;
  distinct = tt;
  silent = λ h. refl;
  over = λ ch h k. absurd (omega (arith, h));
}

pub subscribe-IsWired : (b : Broker) → IsWired b → IsWired (subscribe b).1
unfolding subscribe
subscribe-IsWired b w = record {
  connected = λ ch h. ground (arith, w.connected ch, w.known ch, w.silent, ==_iff b.made ch);
  known = λ ch h. ground (arith, w.known ch, ==_iff ch b.made);
  bounded = λ ch. ground (arith, w.bounded ch);
  distinct = ground (arith, w.known b.made, w.distinct, Bool-cases (has b.made b.subs));
  silent = λ h. ground (arith, w.silent);
  over = λ ch h k. ground (arith, w.over ch, w.silent, h, k, ==_iff ch b.made, ==_iff b.made ch);
}

pub fan_out-IsWired : (ev : Event) (b : Broker) → IsWired b → IsWired (fan_out ev b)
fan_out-IsWired ev b w = record {
  connected = λ ch h. ground (arith, has-keep (has_room b) ch b.subs, w.connected ch);
  known = λ ch h. ground (arith, has-keep (has_room b) ch b.subs, w.known ch);
  bounded = λ ch. ground (arith, w.bounded ch, length-append (b.channels ch).buffer (ev ∷ []));
  distinct = Distinct-keep (has_room b) b.subs w.distinct;
  silent = λ h. ap (keep (has_room b)) (w.silent h);
  over = λ ch h k. ground (arith, has-keep (has_room b) ch b.subs, w.over ch, h, k);
}

-- One subscriber, gone, and its channel closed.
abbrev pub dropped : ℕ → Broker → Broker
dropped ch b = record b {
  subs = forget ch b.subs;
  channels = update b.channels ch (record (b.channels ch) { closed = true });
}

pub drop_lem :
    (ch : ℕ) (b : Broker) → IsWired b → drop ch b ≡ some (if has ch b.subs then dropped ch b else b)
unfolding drop close_channel
drop_lem ch b w = elim (Bool-cases (has ch b.subs)) [
  | inl member ↦ rw (member, w.connected ch member)
  | inr missing ↦ rw missing
]

pub dropped-IsWired : (ch : ℕ) (b : Broker) → IsWired b → IsWired (dropped ch b)
dropped-IsWired ch b w = record {
  connected =
      λ k h. ground (arith, has-keep (λ j. not (j == ch)) k b.subs, w.connected k, ==_iff k ch);
  known = λ k h. ground (arith, has-keep (λ j. not (j == ch)) k b.subs, w.known k);
  bounded = λ k. ground (arith, w.bounded k, w.bounded ch);
  distinct = Distinct-keep _ b.subs w.distinct;
  silent = λ h. ap (forget ch) (w.silent h);
  over = λ k h g.
      ground
        (arith, has-keep (λ j. not (j == ch)) k b.subs, w.over k, h, g, ==_iff k ch, ==_iff ch k);
}

-- One channel, with other events left in it.
abbrev pub left_with : List Event → ℕ → Broker → Broker
left_with rest ch b = record b {
  channels = update b.channels ch (record (b.channels ch) { buffer = rest });
}

-- What `receive` does, by whether the channel holds an event.
pub receive_cases :
    (P : Option Event × Broker → Type 0) (ch : ℕ) (b : Broker)
    → ((b.channels ch).buffer ≡ [] → P (none, b))
    → ((ev : Event) (rest : List Event)
        → (b.channels ch).buffer ≡ ev ∷ rest
        → P (some ev, left_with rest ch b))
    → P (receive ch b)
unfolding receive
receive_cases P ch b empty full = go (b.channels ch).buffer refl
  where
    go : (es : List Event) → (b.channels ch).buffer ≡ es → P (receive ch b)
    go [] e = rw (e, receive) (empty e)
    go (ev ∷ rest) e = rw (e, receive) (full ev rest e)

pub left_with-IsWired :
    (ev : Event) (rest : List Event) (ch : ℕ) (b : Broker)
    → (b.channels ch).buffer ≡ ev ∷ rest
    → IsWired b
    → IsWired (left_with rest ch b)
left_with-IsWired ev rest ch b e w = record {
  connected = λ k h. ground (arith, w.connected k, ==_iff ch k);
  known = w.known;
  bounded = λ k. ground (arith, w.bounded k, w.bounded ch);
  distinct = w.distinct;
  silent = w.silent;
  over = λ k h g. ground (arith, w.over k, w.over ch, h, g, ==_iff k ch, ==_iff ch k);
}

-- Every subscriber gone, and its channel closed.
abbrev pub shut_down : Broker → Broker
shut_down b = record b {
  subs = [];
  closed = true;
  channels =
      λ ch. if has ch b.subs then record (b.channels ch) { closed = true } else b.channels ch;
}

abbrev shut_over : List ℕ → Broker → Broker
shut_over chs b = record b {
  subs = keep (λ ch. not (has ch chs)) b.subs;
  channels = λ ch. if has ch chs then record (b.channels ch) { closed = true } else b.channels ch;
}

AllOpen-dropped :
    (ch : ℕ) (b : Broker) (chs : List ℕ)
    → has ch chs ≡ false
    → AllOpen b chs
    → AllOpen (dropped ch b) chs
AllOpen-dropped ch b [] h o = tt
AllOpen-dropped ch b (k ∷ chs) h o = ground (arith, AllOpen-dropped ch b chs)

shut_over-step :
    (ch : ℕ) (chs : List ℕ) (b : Broker) → shut_over chs (dropped ch b) ≡ shut_over (ch ∷ chs) b
shut_over-step ch chs b =
    same_broker b
      (keep-keep _ _ b.subs
        ∙ ap (λ p. keep p b.subs) (fun_ext λ (k : ℕ). keep_step (k == ch) (has k chs)))
      (λ k. ground (arith, ==_iff ch k))
  where
    keep_step : (x y : Bool) → (not x && not y) ≡ not (x || y)
    keep_step x y = ground arith

close_all-shut_over :
    (chs : List ℕ) (b : Broker)
    → Distinct chs
    → AllOpen b chs
    → close_all chs b ≡ some (shut_over chs b)
unfolding close_all close_channel
close_all-shut_over [] b h o = ap some (same_broker b (sym (keep-all b.subs)) (λ k. refl))
close_all-shut_over (ch ∷ chs) b h o =
    rw (close_all, o.0)
      (close_all-shut_over chs (dropped ch b) h.1 (AllOpen-dropped ch b chs h.0 o.1)
        ∙ ap some (shut_over-step ch chs b))

pub close_lem : (b : Broker) → IsWired b → close b ≡ some (if b.closed then b else shut_down b)
unfolding close
close_lem b w = elim (Bool-cases b.closed) [
  | inl shut ↦ if_true _ _ shut ∙ ap some (sym (if_true _ _ shut))
  | inr running ↦
      if_false _ _ running
      ∙ close_all-shut_over b.subs (record b { closed = true }) w.distinct
          (AllOpen-has (record b { closed = true }) b.subs w.connected)
      ∙ ap some (
          same_broker (shut_down b)
            (keep-has _ (λ _. false) b.subs (λ k e. rw e) ∙ keep-none b.subs) (λ k. refl))
      ∙ ap some (sym (if_false _ _ running))
]

pub shut_down-IsWired : (b : Broker) → IsWired b → IsWired (shut_down b)
shut_down-IsWired b w = record {
  connected = λ ch h. cc;
  known = λ ch h. cc;
  bounded = λ ch. ground (arith, w.bounded ch);
  distinct = tt;
  silent = λ h. refl;
  over = λ ch h k. ground (arith, w.over ch, h, Bool-cases (has ch b.subs));
}
