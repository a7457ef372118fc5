-- ===== src/Store/Events/Delivery.antt =====
-- What a subscriber sees of a history of the broker's calls.
use http_debug.Base.{
  ℕ, ◌<◌, ◌≡◌, refl, sym, ap, ◌∙◌, true, false, not, Option, none, some, List, [], ◌∷◌, ◌++◌, arith,
  ◌==◌, ==_iff, has, has-keep, append-nil, append_assoc, if◌then◌else◌, Bool-cases, if_false,
  if_either, inl, inr,
}
use http_debug.Store.Events.{Event, Broker, subscribe, publish, drop, close, receive}
use http_debug.Store.Events.FanOut.{IsWired, fan_out, has_room, publish-fan_out}
use http_debug.Store.Events.Wired.{
  subscribe-IsWired, drop_lem, dropped, dropped-IsWired, receive_cases, left_with,
  left_with-IsWired, close_lem, shut_down, shut_down-IsWired, fan_out-IsWired,
}

pub data Op : Type 0 where
  subscribes closes : Op
  publishes : Event → Op
  receives drops : ℕ → Op

-- The events received, each with its channel.
abbrev pub Log : Type 0
Log = List (ℕ × Event)

abbrev tagged : ℕ → Option Event → Log
tagged ch none = []
tagged ch (some ev) = (ch, ev) ∷ []

abbrev quiet : Option Broker → Option (Log × Broker)
quiet none = none
quiet (some b) = some ([], b)

pub step : Op → Broker → Option (Log × Broker)
step subscribes b = some ([], (subscribe b).1)
step closes b = quiet (close b)
step (publishes ev) b = quiet (publish ev b)
step (receives ch) b = let (o, b') = receive ch b in some (tagged ch o, b')
step (drops ch) b = quiet (drop ch b)

abbrev with_log : Log → Option (Log × Broker) → Option (Log × Broker)
with_log l none = none
with_log l (some (l', b)) = some (l ++ l', b)

-- `none`: some call panicked.
pub run : List Op → Broker → Option (Log × Broker)
run [] b = some ([], b)
run (op ∷ ops) b = elim (step op b) [ none ↦ none | some (l, b') ↦ with_log l (run ops b') ]

-- What one channel's subscriber received.
abbrev pub taken : ℕ → Log → List Event
taken ch [] = []
taken ch ((k, ev) ∷ l) = if k == ch then ev ∷ taken ch l else taken ch l

abbrev pub sent : Op → List Event
sent (publishes ev) = ev ∷ []
sent _ = []

abbrev pub published : List Op → List Event
published [] = []
published (op ∷ ops) = sent op ++ published ops

abbrev due : ℕ → Broker → List Event → List Event
due ch b es = if has ch b.subs then es else []

pub record Delivered (ch : ℕ) (b : Broker) (es : List Event) (l : Log) (b' : Broker) : Type 0 where
  pub wired : IsWired b'
  pub known : ch < b'.made
  pub missed : List Event
  pub whole :
      taken ch l ++ ((b'.channels ch).buffer ++ missed) ≡ (b.channels ch).buffer ++ due ch b es
  pub complete : has ch b'.subs ≡ true → missed ≡ []
  pub gone : has ch b.subs ≡ false → has ch b'.subs ≡ false

pub record Delivers (ch : ℕ) (b : Broker) (es : List Event) (r : Option (Log × Broker))
    : Type 0 where
  pub log : Log
  pub final : Broker
  pub returns : r ≡ some (log, final)
  pub delivered : Delivered ch b es log final

module _ (ch : ℕ) (b : Broker) (w : IsWired b) (k : ch < b.made) where
  subscribe-Delivered : Delivered ch b [] [] (subscribe b).1
  subscribe-Delivered = record {
    wired = subscribe-IsWired b w;
    known = unfold subscribe in ground arith;
    missed = [];
    whole = unfold subscribe in ground (arith, ==_iff b.made ch);
    complete = λ _. refl;
    gone = λ h. unfold subscribe in ground (arith, ==_iff ch b.made);
  }

  same-Delivered : Delivered ch b [] [] b
  same-Delivered = record {
    wired = w;
    known = k;
    missed = [];
    whole = ground arith;
    complete = λ _. refl;
    gone = λ h. h;
  }

  shut_down-Delivered : Delivered ch b [] [] (shut_down b)
  shut_down-Delivered = record {
    wired = shut_down-IsWired b w;
    known = k;
    missed = [];
    whole = ground arith;
    complete = λ _. refl;
    gone = λ h. refl;
  }

  dropped-Delivered : (j : ℕ) → Delivered ch b [] [] (dropped j b)
  dropped-Delivered j = record {
    wired = dropped-IsWired j b w;
    known = k;
    missed = [];
    whole = ground (arith, ==_iff j ch);
    complete = λ _. refl;
    gone = λ h. ground (arith, has-keep (λ i. not (i == j)) ch b.subs);
  }

  -- A subscriber that is full misses the event, and is a subscriber no more.
  fan_out-Delivered : (ev : Event) → Delivered ch b (ev ∷ []) [] (fan_out ev b)
  fan_out-Delivered ev = record {
    wired = fan_out-IsWired ev b w;
    known = k;
    missed = if has_room b ch then [] else due ch b (ev ∷ []);
    whole =
        ground (
          arith,
          append-nil (b.channels ch).buffer,
          append-nil ((b.channels ch).buffer ++ ev ∷ []),
        );
    complete = λ h. ground (arith, has-keep (has_room b) ch b.subs);
    gone = λ h. ground (arith, has-keep (has_room b) ch b.subs);
  }

  receive-Delivers : (j : ℕ) → Delivers ch b [] (step (receives j) b)
  unfolding step
  receive-Delivers j =
      receive_cases (λ r. Delivers ch b [] (some (tagged j r.0, r.1))) j b
        (λ _. record { log = []; final = b; returns = refl; delivered = same-Delivered })
        λ ev rest e. record {
          log = (j, ev) ∷ [];
          final = left_with rest j b;
          returns = refl;
          delivered = record {
            wired = left_with-IsWired ev rest j b e w;
            known = k;
            missed = [];
            whole = ground (arith, ==_iff j ch);
            complete = λ _. refl;
            gone = λ h. h;
          };
        }

returned :
    (ch : ℕ) (b : Broker) {es : List Event} {r : Option Broker} (b' : Broker)
    → r ≡ some b'
    → Delivered ch b es [] b'
    → Delivers ch b es (quiet r)
returned ch b b' e d = record { log = []; final = b'; returns = ap quiet e; delivered = d }

step-Delivers :
    (op : Op) (ch : ℕ) (b : Broker) → IsWired b → ch < b.made → Delivers ch b (sent op) (step op b)
unfolding step
step-Delivers subscribes ch b w k = returned ch b _ refl (subscribe-Delivered ch b w k)
step-Delivers closes ch b w k = returned ch b _ (close_lem b w) (
    if_either (Delivered ch b [] []) b.closed (same-Delivered ch b w k)
      (shut_down-Delivered ch b w k))
step-Delivers (publishes ev) ch b w k =
    returned ch b _ (publish-fan_out ev b w) (fan_out-Delivered ch b w k ev)
step-Delivers (receives j) ch b w k = receive-Delivers ch b w k j
step-Delivers (drops j) ch b w k = returned ch b _ (drop_lem j b w) (
    if_either (Delivered ch b [] []) (has j b.subs) (dropped-Delivered ch b w k j)
      (same-Delivered ch b w k))

taken-append : (ch : ℕ) (l m : Log) → taken ch (l ++ m) ≡ taken ch l ++ taken ch m
taken-append ch [] m = refl
taken-append ch ((k, ev) ∷ l) m = ground (arith, taken-append ch l m)

due-append :
    (ch : ℕ) (b : Broker) (es fs : List Event) → due ch b (es ++ fs) ≡ due ch b es ++ due ch b fs
due-append ch b es fs = ground arith

module _ {ℓ} {A : Type ℓ} (s t x y z u v o q : List A) where
  regroup_still :
      s ++ (y ++ u) ≡ x ++ o
      → u ≡ []
      → t ++ (z ++ v) ≡ y ++ q
      → (s ++ t) ++ (z ++ v) ≡ x ++ (o ++ q)
  regroup_still e n f =
      append_assoc s t (z ++ v)
      ∙ ap (◌++◌ s) f
      ∙ sym (append_assoc s y q)
      ∙ ap (λ l. l ++ q) (ap (◌++◌ s) (sym (append-nil y) ∙ ap (◌++◌ y) (sym n)) ∙ e)
      ∙ append_assoc x o q

  regroup_over :
      s ++ (y ++ u) ≡ x ++ o
      → t ++ (z ++ v) ≡ y ++ []
      → (s ++ t) ++ (z ++ (v ++ u ++ q)) ≡ x ++ (o ++ q)
  regroup_over e f = simp append_assoc (
      ap (◌++◌ s) (simp append_assoc at (ap (λ l. l ++ (u ++ q)) (f ∙ append-nil y)))
      ∙ (simp append_assoc at (ap (λ l. l ++ q) e)))

-- Two histories, one after the other.
module _ (ch : ℕ) (b c d : Broker) (es fs : List Event) (l m : Log) (p : Delivered ch b es l c)
    (q : Delivered ch c fs m d) where
  same_due : has ch c.subs ≡ true → due ch c fs ≡ due ch b fs
  same_due h = ground (arith, p.gone)

  whole_still :
      has ch c.subs ≡ true
      → taken ch (l ++ m) ++ ((d.channels ch).buffer ++ q.missed)
        ≡ (b.channels ch).buffer ++ due ch b (es ++ fs)
  whole_still h =
      rw (taken-append ch l m, due-append ch b es fs)
        (regroup_still (taken ch l) (taken ch m) (b.channels ch).buffer (c.channels ch).buffer
          (d.channels ch).buffer p.missed q.missed (due ch b es) (due ch b fs) p.whole
          (p.complete h) (q.whole ∙ ap (◌++◌ (c.channels ch).buffer) (same_due h)))

  whole_over :
      has ch c.subs ≡ false
      → taken ch (l ++ m) ++ ((d.channels ch).buffer ++ (q.missed ++ p.missed ++ due ch b fs))
        ≡ (b.channels ch).buffer ++ due ch b (es ++ fs)
  whole_over h =
      rw (taken-append ch l m, due-append ch b es fs)
        (regroup_over (taken ch l) (taken ch m) (b.channels ch).buffer (c.channels ch).buffer
          (d.channels ch).buffer p.missed q.missed (due ch b es) (due ch b fs) p.whole
          (q.whole ∙ ap (◌++◌ (c.channels ch).buffer) (if_false _ _ h)))

  join-Delivered : Delivered ch b (es ++ fs) (l ++ m) d
  join-Delivered = elim (Bool-cases (has ch c.subs)) [
    | inl still ↦ record {
      wired = q.wired;
      known = q.known;
      missed = q.missed;
      whole = whole_still still;
      complete = q.complete;
      gone = λ h. q.gone (p.gone h);
    }
    | inr over ↦ record {
      wired = q.wired;
      known = q.known;
      missed = q.missed ++ p.missed ++ due ch b fs;
      whole = whole_over over;
      complete = λ h. cc (q.gone over);
      gone = λ h. q.gone over;
    }
  ]

-- For every history of calls, from every broker that is wired, and for every channel made before: no
-- call panics. If the channel is subscribed at the start, then what its subscriber received, with what
-- still waits in the channel and what it missed, is in this order what waited at the start and the
-- events published since; it missed none while it is a subscriber. If it is not subscribed, nothing is
-- added to it.
pub run-Delivers :
    (ops : List Op) (ch : ℕ) (b : Broker)
    → IsWired b
    → ch < b.made
    → Delivers ch b (published ops) (run ops b)
unfolding run
run-Delivers [] ch b w k = record {
  log = [];
  final = b;
  returns = refl;
  delivered = same-Delivered ch b w k;
}
run-Delivers (op ∷ ops) ch b w k =
    let s = step-Delivers op ch b w k in
    let r = run-Delivers ops ch s.final s.delivered.wired s.delivered.known in
    record {
      log = s.log ++ r.log;
      final = r.final;
      returns = rw (run, s.returns) (ap (with_log s.log) r.returns);
      delivered =
          join-Delivered ch b s.final r.final (sent op) (published ops) s.log r.log s.delivered
            r.delivered;
    }
