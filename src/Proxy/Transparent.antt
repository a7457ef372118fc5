-- ===== src/Proxy/Transparent.antt =====
-- What the client of the relay gets, whatever the capture meets.
use http_debug.Base.{
  ◌≡◌, refl, ap, ◌∙◌, subst, true, Option, none, some, List, [], ◌∷◌, ◌++◌, Str, map,
}
use http_debug.Time.{Time, Duration}
use http_debug.Store.Entry.{Entry, Header}
use http_debug.Store.Blobs.Body.{concat}
use http_debug.Store.Result.{ok, err}
use http_debug.Store.Action.{Outcome, Action, returns, after_result, pure, ignoring, ◌>>=◌, ◌>>◌}
use http_debug.Store.Sqlite.{Sqlite}
use http_debug.Store.Ops.{Store}
use http_debug.Store.Ops.Calls.{Call, AllKeepIds, appends, updates, run_calls-Left}
use http_debug.Store.Ops.Ends.{finalize-StaysSound}
use http_debug.Store.Ops.Keeps.{
  put-StaysSound, set_request_body-StaysSound, update_entry-StaysSound,
}
use http_debug.Store.Ops.Sound.{IsSound, settled, StaysSound}
use http_debug.Proxy.Capture.{CaptureReader, read_all, close_reader}
use http_debug.Proxy.Capture.Owned.{OnlyFor, OnlyFor-append, read_all-Owns, close_reader-OnlyFor}
use http_debug.Proxy.Exchange.{
  ProxyConfig, Request, Response, Upstream, answers, breaks_off, switches, fails, Reply, Ending,
  sent_whole, aborted, handed_over, Exchange, Libraries, answered, settled_by, reader_of,
  correlated, bad_gateway, direct, relayed_entry,
}
use http_debug.Proxy.Client.{Passes, IsReply, bad_gateway-Is502, correlated-Correlates}
use http_debug.Proxy.Relay.{
  with_body, open_exchange, finalize_exchange, on_close, after_calls, drain_body, modify_response,
  relay, serve_http,
}

abbrev passed : Header → Response → Str → Ending → Reply
passed header resp bytes ending = record {
  status = resp.status_code;
  header = header;
  body = bytes;
  ending = ending;
}

-- What the handler replies, by the exchange that the store has, if it has one.
abbrev reply_of : Libraries → ProxyConfig → Option Str → Upstream → Reply
reply_of lib cfg id (fails message at) = bad_gateway lib cfg message
reply_of lib cfg none (answers at resp reads closed) =
    passed resp.header resp (concat (map (λ r. r.1) reads)) sent_whole
reply_of lib cfg (some id) (answers at resp reads closed) =
    passed (correlated lib cfg id resp.header) resp (concat (map (λ r. r.1) reads)) sent_whole
reply_of lib cfg none (breaks_off at resp reads closed) =
    passed resp.header resp (concat (map (λ r. r.1) reads)) aborted
reply_of lib cfg (some id) (breaks_off at resp reads closed) =
    passed (correlated lib cfg id resp.header) resp (concat (map (λ r. r.1) reads)) aborted
reply_of lib cfg none (switches at resp message later) = passed resp.header resp [] handed_over
reply_of lib cfg (some id) (switches at resp message later) = bad_gateway lib cfg message

plain :
    (lib : Libraries) (cfg : ProxyConfig) (resp : Response) (bytes : Str) (ending : Ending)
    → Passes lib cfg none resp bytes ending (passed resp.header resp bytes ending)
plain lib cfg resp bytes ending = record { status = refl; header = refl; body = refl; ends = refl }

marked :
    (lib : Libraries) (cfg : ProxyConfig) (id : Str) (resp : Response) (bytes : Str)
    (ending : Ending)
    → Passes lib cfg
        (some id)
        resp
        bytes
        ending
        (passed (correlated lib cfg id resp.header) resp bytes ending)
marked lib cfg id resp bytes ending = record {
  status = refl;
  header = correlated-Correlates lib cfg id resp.header;
  body = refl;
  ends = refl;
}

reply_of-IsReply :
    (lib : Libraries) (cfg : ProxyConfig) (id : Option Str) (u : Upstream)
    → IsReply lib cfg id u (reply_of lib cfg id u)
reply_of-IsReply lib cfg none (answers at resp reads closed) = plain lib cfg resp _ _
reply_of-IsReply lib cfg none (breaks_off at resp reads closed) = plain lib cfg resp _ _
reply_of-IsReply lib cfg none (switches at resp message later) = plain lib cfg resp _ _
reply_of-IsReply lib cfg (some id) (answers at resp reads closed) = marked lib cfg id resp _ _
reply_of-IsReply lib cfg (some id) (breaks_off at resp reads closed) = marked lib cfg id resp _ _
reply_of-IsReply lib cfg (some id) (switches at resp message later) =
    bad_gateway-Is502 lib cfg message
reply_of-IsReply lib cfg none (fails message at) = bad_gateway-Is502 lib cfg message
reply_of-IsReply lib cfg (some id) (fails message at) = bad_gateway-Is502 lib cfg message

OnlyFor-KeepIds : (id : Str) (cs : List Call) → OnlyFor id cs → AllKeepIds cs
OnlyFor-KeepIds id [] h = tt
OnlyFor-KeepIds id (appends j chunk e now ∷ cs) h = (tt, OnlyFor-KeepIds id cs h.1)
OnlyFor-KeepIds id (updates j fn now ∷ cs) h =
    (λ e. ap (λ f. (f e).id) h.1.1, OnlyFor-KeepIds id cs h.2)
OnlyFor-KeepIds id (Call.puts f n e ∷ cs) h = absurd h
OnlyFor-KeepIds id (Call.sets_body i b ∷ cs) h = absurd h
OnlyFor-KeepIds id (Call.finalizes i f n ∷ cs) h = absurd h
OnlyFor-KeepIds id (Call.sweeps t r n ∷ cs) h = absurd h
OnlyFor-KeepIds id (Call.clears ∷ cs) h = absurd h
OnlyFor-KeepIds id (Call.subscribes ∷ cs) h = absurd h
OnlyFor-KeepIds id (Call.gets i ∷ cs) h = absurd h
OnlyFor-KeepIds id (Call.lists l c ∷ cs) h = absurd h
OnlyFor-KeepIds id (Call.reads i s ∷ cs) h = absurd h
OnlyFor-KeepIds id (Call.receives c ∷ cs) h = absurd h
OnlyFor-KeepIds id (Call.drops c ∷ cs) h = absurd h

settled_by-id : (ms : Option Duration) (m : Option Str) (e : Entry) → (settled_by ms m e).id ≡ e.id
settled_by-id ms none e = refl
settled_by-id ms (some m) e = refl

module _ {sql : Sqlite} where
  -- The outcome is this value, over a sound store.
  pub record Gives {A : Type 0} (x : A) (o : Outcome (Store sql) A) : Type 0 where
    pub final : Store sql
    pub returned : o ≡ returns (ok x) final
    pub sound : IsSound sql final

  pub pure-Gives : {A : Type 0} (x : A) (s : Store sql) → IsSound sql s → Gives x (pure x s)
  pure-Gives x s h = record { final = s; returned = refl; sound = h }

  pub ignoring-Gives :
      {A B : Type 0} (x : B) {o : Outcome (Store sql) A}
      → StaysSound o
      → Gives x (ignoring (pure x) o)
  ignoring-Gives x (settled r s h) = pure-Gives x s h

  pub bind-Gives :
      {A B : Type 0} {x : A} {y : B} (m : Action (Store sql) A) (f : A → Action (Store sql) B)
      (s : Store sql)
      → Gives x (m s)
      → ((s' : Store sql) → IsSound sql s' → Gives y (f x s'))
      → Gives y ((m >>= f) s)
  bind-Gives m f s g k =
      let h = k g.final g.sound in
      record {
        final = h.final;
        returned = ap (after_result f) g.returned ∙ h.returned;
        sound = h.sound;
      }

  pub finalize_exchange-Gives :
      (lib : Libraries) (ex : Exchange) (ms : Option Duration) (m : Option Str) (now : Time)
      (s : Store sql)
      → IsSound sql s
      → Gives tt (finalize_exchange lib ex ms m now s)
  unfolding finalize_exchange
  finalize_exchange-Gives lib ex ms m now s h =
      ignoring-Gives tt
        (finalize-StaysSound lib.json ex.id (some (settled_by ms m)) now s (settled_by-id ms m) h)

  pub drain_body-Gives :
      (lib : Libraries) (ex : Exchange) (reads : List (Time × Str)) (closed : Time)
      (c : CaptureReader) (s : Store sql)
      → IsSound sql s
      → Gives tt (drain_body lib ex reads closed c s)
  unfolding drain_body
  drain_body-Gives lib ex reads closed c s h =
      let r = read_all lib.valid reads c in
      let own = read_all-Owns lib.valid reads c in
      let last = close_reader-OnlyFor closed r.1 in
      let run =
        run_calls-Left lib.json (r.0 ++ (close_reader closed r.1).0) s
          (OnlyFor-KeepIds c.id _ (
            OnlyFor-append c.id r.0 _ own.0
              (subst (λ i. OnlyFor i (close_reader closed r.1).0) own.1 last)))
          h in
      let g = closing-Gives (close_reader closed r.1).1 run.state run.sound in
      record {
        final = g.final;
        returned =
            ap (after_calls (on_close lib ex closed (close_reader closed r.1).1)) run.reached
            ∙ g.returned;
        sound = g.sound;
      }
    where
      closing-Gives :
          (o : Option (Option Duration)) (s' : Store sql)
          → IsSound sql s'
          → Gives tt (on_close lib ex closed o s')
      closing-Gives none s' p = pure-Gives tt s' p
      closing-Gives (some ms) s' p = finalize_exchange-Gives lib ex ms none closed s' p

  modify_response-Gives :
      (lib : Libraries) (ex : Exchange) (at : Time) (resp : Response) (s : Store sql)
      → IsSound sql s
      → Gives tt (modify_response lib ex at resp s)
  unfolding modify_response
  modify_response-Gives lib ex at resp s h =
      ignoring-Gives tt (update_entry-StaysSound ex.id (answered lib ex at resp) at s (λ e. refl) h)

  drained-Gives :
      (lib : Libraries) (ex : Exchange) (resp : Response) (reads : List (Time × Str))
      (closed : Time) (reply : Reply) (s : Store sql)
      → IsSound sql s
      → Gives reply ((drain_body lib ex reads closed (reader_of lib ex resp) >> pure reply) s)
  drained-Gives lib ex resp reads closed reply s h =
      bind-Gives (drain_body lib ex reads closed (reader_of lib ex resp)) (λ _. pure reply) s
        (drain_body-Gives lib ex reads closed (reader_of lib ex resp) s h)
        (λ s' q. pure-Gives reply s' q)

  relay-Gives :
      (lib : Libraries) (cfg : ProxyConfig) (ex : Option Exchange) (u : Upstream) (s : Store sql)
      → IsSound sql s
      → Gives
          (reply_of lib cfg (elim ex [ none ↦ none | some x ↦ some x.id ]) u)
          (relay lib cfg ex u s)
  unfolding relay modify_response
  relay-Gives lib cfg none (answers at resp reads closed) s h = pure-Gives _ s h
  relay-Gives lib cfg none (fails message at) s h = pure-Gives _ s h
  relay-Gives lib cfg (some ex) (fails message at) s h =
      bind-Gives (finalize_exchange lib ex none (some message) at) _ s
        (finalize_exchange-Gives lib ex none (some message) at s h) (λ s' p. pure-Gives _ s' p)
  relay-Gives lib cfg none (breaks_off at resp reads closed) s h = pure-Gives _ s h
  relay-Gives lib cfg none (switches at resp message later) s h = pure-Gives _ s h
  relay-Gives lib cfg (some ex) (answers at resp reads closed) s h =
      bind-Gives (modify_response lib ex at resp) _ s (modify_response-Gives lib ex at resp s h)
        (λ s' p. drained-Gives lib ex resp reads closed _ s' p)
  relay-Gives lib cfg (some ex) (breaks_off at resp reads closed) s h =
      bind-Gives (modify_response lib ex at resp) _ s (modify_response-Gives lib ex at resp s h)
        (λ s' p. drained-Gives lib ex resp reads closed _ s' p)
  relay-Gives lib cfg (some ex) (switches at resp message later) s h =
      bind-Gives (modify_response lib ex at resp) _ s (modify_response-Gives lib ex at resp s h)
        (λ s' p.
          bind-Gives (finalize_exchange lib ex none (some message) later) _ s'
            (finalize_exchange-Gives lib ex none (some message) later s' p)
            (λ s'' q. pure-Gives _ s'' q))

  -- The exchange that the store has, if it took it.
  pub record Opens (now : Time) (o : Outcome (Store sql) (Option Exchange)) : Type 0 where
    pub id : Option Str
    pub opens :
        Gives (elim id [ none ↦ none | some i ↦ some (record { id = i; start_at = now }) ]) o

  with_body-Opens :
      (now : Time) (body : Str) (o : Outcome (Store sql) Str)
      → StaysSound o
      → Opens now (with_body now body o)
  with_body-Opens now body _ (settled (ok id) s h) = record {
    id = some id;
    opens = ignoring-Gives _ (set_request_body-StaysSound id body s h);
  }
  with_body-Opens now body _ (settled (err e) s h) = record {
    id = none;
    opens = pure-Gives none s h;
  }

  -- The reply that the client gets, and the exchange that it tells of, over a sound store.
  pub record Delivers (lib : Libraries) (cfg : ProxyConfig) (u : Upstream)
      (o : Outcome (Store sql) Reply) : Type 0 where
    pub id : Option Str
    pub reply : Reply
    pub gives : Gives reply o
    pub is_reply : IsReply lib cfg id u reply

  relay-Delivers :
      (lib : Libraries) (cfg : ProxyConfig) (now : Time) (u : Upstream)
      (o : Outcome (Store sql) (Option Exchange))
      → Opens now o
      → Delivers lib cfg u (after_result (λ ex. relay lib cfg ex u) o)
  relay-Delivers lib cfg now u o p = go p.id p.opens
    where
      go :
          (i : Option Str)
          → Gives (elim i [ none ↦ none | some id ↦ some (record { id = id; start_at = now }) ]) o
          → Delivers lib cfg u (after_result (λ ex. relay lib cfg ex u) o)
      go none g = record {
        id = none;
        reply = reply_of lib cfg none u;
        is_reply = reply_of-IsReply lib cfg none u;
        gives =
            bind-Gives (λ _. o) (λ ex. relay lib cfg ex u) g.final g
              (λ s h. relay-Gives lib cfg none u s h);
      }
      go (some id) g = record {
        id = some id;
        reply = reply_of lib cfg (some id) u;
        is_reply = reply_of-IsReply lib cfg (some id) u;
        gives =
            bind-Gives (λ _. o) (λ ex. relay lib cfg ex u) g.final g
              (λ s h. relay-Gives lib cfg (some (record { id = id; start_at = now })) u s h);
      }

  pub serve_http-Delivers :
      (lib : Libraries) (cfg : ProxyConfig) (backend : Request → Upstream) (fresh : Option Str)
      (now : Time) (r : Request) (s : Store sql)
      → IsSound sql s
      → Delivers lib cfg (backend (direct cfg r)) (serve_http lib cfg backend true fresh now r s)
  unfolding serve_http open_exchange
  serve_http-Delivers lib cfg backend fresh now r s h =
      relay-Delivers lib cfg now (backend (direct cfg r))
        (open_exchange fresh now (relayed_entry lib cfg now r) r.body s)
        (with_body-Opens now r.body _ (put-StaysSound fresh now (relayed_entry lib cfg now r) s h))
