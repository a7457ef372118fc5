-- ===== src/Program/Turns.antt =====
-- What every turn of the program keeps: cmd/debugproxy/main.go, with the handlers that it starts.
use http_debug.Base.{◌≡◌, refl, ap, ◌∙◌, Bool, true, false, Option, none, some, List, [], ◌∷◌, Str}
use http_debug.Time.{Time}
use http_debug.Store.Action.{Outcome, Action, returns}
use http_debug.Store.Result.{ok}
use http_debug.Store.Sqlite.{Sqlite}
use http_debug.Store.Ops.{Store}
use http_debug.Store.Ops.Sound.{IsSound}
use http_debug.Store.Ops.Keeps.{update_entry-StaysSound}
use http_debug.Store.Ops.Ends.{sweep_pending-StaysSound}
use http_debug.Store.Ops.Calls.{subscribes, receives, drops, done, Left, done-Left, call-Left}
use http_debug.Proxy.Url.{Url}
use http_debug.Proxy.Exchange.{
  Request, Upstream, Response, answers, breaks_off, switches, fails, answered, reader_of,
}
use http_debug.Proxy.Relay.{finalize_exchange, modify_response, serve_http}
use http_debug.Proxy.Replay.{Sending, send, sent}
use http_debug.Proxy.Transparent.{
  Gives, ignoring-Gives, bind-Gives, finalize_exchange-Gives, drain_body-Gives, serve_http-Delivers,
}
use http_debug.Web.Router.{Served}
use http_debug.Web.Reads.{Serves}
use http_debug.Web.Served.{serve_web-Serves}
use http_debug.Config.{Config}
use http_debug.Program.{
  Outside, Turn, relays, asks, ticks, follows, hears, leaves, Happening, works, interrupted,
  server_ends, proxy_config, web_context, gave_up, then_send, turn, shutdown,
}

module _ {sql : Sqlite} (o : Outside) where
  returned-Left :
      {A : Type 0} {x : Outcome (Store sql) A} {a : A} {s : Store sql}
      → x ≡ returns (ok a) s
      → IsSound sql s
      → Left (done x)
  returned-Left {s} e h = record { state = s; reached = ap done e; sound = h }

  send-Left :
      (built : Str → Str → Option (Str × Time)) (client : Sending → Upstream) (p : Sending)
      (s : Store sql)
      → IsSound sql s
      → Left (done (send o.lib built client p s))
  unfolding send
  send-Left built client p s h = go (built p.method (o.lib.urls.print p.target))
    where
      gave : {x : Outcome (Store sql) (Unit {0})} → Gives tt x → Left (done x)
      gave g = returned-Left g.returned g.sound

      with_response :
          (now : Time) (resp : Response) (reads : List (Time × Str)) (closed : Time)
          → Gives tt (sent o.lib p.exchange (answers now resp reads closed) s)
      with_response now resp reads closed =
          bind-Gives (modify_response o.lib p.exchange now resp) _ s
            (ignoring-Gives tt (
              update_entry-StaysSound p.exchange.id (answered o.lib p.exchange now resp) now s
                (λ e. refl) h))
            (λ s' k.
              drain_body-Gives o.lib p.exchange reads closed (reader_of o.lib p.exchange resp) s' k)

      with_client : (u : Upstream) → Gives tt (sent o.lib p.exchange u s)
      with_client (fails message now) =
          finalize_exchange-Gives o.lib p.exchange none (some message) now s h
      with_client (answers now resp reads closed) = with_response now resp reads closed
      with_client (breaks_off now resp reads closed) = with_response now resp reads closed
      with_client (switches now resp message at) = with_response now resp [] at

      go :
          (b : Option (Str × Time))
          → (let m : Action (Store sql) (Unit {0}) = elim b [
            | some (message, now) ↦ finalize_exchange o.lib p.exchange none (some message) now
            | none ↦ sent o.lib p.exchange (client p)
          ] in
              Left (done (m s)))
      go none = gave (with_client (client p))
      go (some (message, now)) =
          gave (finalize_exchange-Gives o.lib p.exchange none (some message) now s h)

  relays-Left :
      (c : Config) (target : Url) (backend : Request → Upstream) (complete : Bool)
      (fresh : Option Str) (now : Time) (r : Request) (s : Store sql)
      → IsSound sql s
      → Left (turn o c target (relays backend complete fresh now r) s)
  unfolding turn serve_http
  relays-Left c target backend false fresh now r s h = record {
    state = s;
    reached = refl;
    sound = h;
  }
  relays-Left c target backend true fresh now r s h =
      let g = (serve_http-Delivers o.lib (proxy_config c target) backend fresh now r s h).gives in
      returned-Left g.returned g.sound

  asks-Left :
      (built : Str → Str → Option (Str × Time)) (client : Sending → Upstream) {b : Bool}
      {s : Store sql} {x : Outcome (Store sql) (Served × Option Sending)}
      → Serves b s x
      → Left (then_send o built client x)
  asks-Left built client {s} {x} p = subst_returned (p.returned) (go p.sends)
    where
      subst_returned :
          x ≡ returns (ok (p.served, p.sends)) p.final
          → Left (then_send o built client (returns (ok (p.served, p.sends)) p.final))
          → Left (then_send o built client x)
      subst_returned e l = record {
        state = l.state;
        reached = ap (then_send o built client) e ∙ l.reached;
        sound = l.sound;
      }

      go :
          (q : Option Sending)
          → Left (then_send o built client (returns (ok (p.served, q)) p.final))
      go none = record { state = p.final; reached = refl; sound = p.sound }
      go (some q) = send-Left built client q p.final p.sound

  pub turn-Left :
      (c : Config) (target : Url) (t : Turn) (s : Store sql)
      → IsSound sql s
      → Left (turn o c target t s)
  unfolding turn
  turn-Left c target (relays backend complete fresh now r) s h =
      relays-Left c target backend complete fresh now r s h
  turn-Left c target (asks fresh now r built client) s h =
      asks-Left built client (serve_web-Serves (web_context o c) fresh now r s h)
  turn-Left c target (ticks now) s h =
      done-Left (sweep_pending-StaysSound o.lib.json c.pending_timeout (gave_up o c) now s h)
  turn-Left c target follows s h = call-Left o.lib.json subscribes s tt h
  turn-Left c target (hears ch) s h = call-Left o.lib.json (receives ch) s tt h
  turn-Left c target (leaves ch) s h = call-Left o.lib.json (drops ch) s tt h

  then-Left :
      (f : Store sql → Option (Store sql)) {x : Option (Store sql)} (l : Left x)
      → Left (f l.state)
      → Left (elim x [ none ↦ none | some s ↦ f s ])
  then-Left f l k = record {
    state = k.state;
    reached = ap (λ x. elim x [ none ↦ none | some s ↦ f s ]) l.reached ∙ k.reached;
    sound = k.sound;
  }

  pub shutdown-Left :
      (c : Config) (target : Url) (hs : List Happening) (s : Store sql)
      → IsSound sql s
      → Left (shutdown o c target hs s)
  unfolding shutdown
  shutdown-Left c target [] s h = record { state = s; reached = refl; sound = h }
  shutdown-Left c target (works t ∷ hs) s h =
      let l = turn-Left c target t s h in
      then-Left (shutdown o c target hs) l (shutdown-Left c target hs l.state l.sound)
  shutdown-Left c target (interrupted ∷ hs) s h = shutdown-Left c target hs s h
  shutdown-Left c target (server_ends srv r ∷ hs) s h = shutdown-Left c target hs s h
