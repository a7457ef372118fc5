-- ===== src/Web/Served.antt =====
-- What holds of every request to the interface: internal/web/server.go, Handler.
use http_debug.Base.{
  inl, inr, codes, str_eq, ◌&&◌, ◌*◌, ◌^◌, refl, Bool, true, false, Option, none, some, [], Str,
  take, if◌then◌else◌, if_either,
}
use http_debug.Time.{Time}
use http_debug.Store.Result.{Result, ok, err}
use http_debug.Store.Action.{Outcome, pure, ignoring}
use http_debug.Store.Sqlite.{Sqlite}
use http_debug.Store.Ops.{Store, put}
use http_debug.Store.Ops.Read.{body}
use http_debug.Store.Ops.Ends.{clear-StaysSound}
use http_debug.Store.Ops.Finish.{clear}
use http_debug.Store.Ops.Sound.{IsSound, Settles, settled, StaysSound, bind-StaysSound}
use http_debug.Proxy.Exchange.{Libraries}
use http_debug.Proxy.Relay.{with_body, open_exchange}
use http_debug.Proxy.Replay.{
  Replayed, sending, started, ReplayRequest, Target, accepted, rejected, replay_target,
  replay_entry, kept_headers, method_of, replay, replay_to,
}
use http_debug.Store.Ops.Keeps.{put-StaysSound, set_request_body-StaysSound}
use http_debug.Web.Routes
use http_debug.Web.Routes.{
  Payload, requests, detail, raw, replayed, target_url, error, replay_error, empty, Answer,
  answering, listed, shown, streamed, body_found, is_side, cleared_answer, list_page, limit_of,
  before_of, list_requests, get_request, get_body, clear_requests, replay_request, replay_answer,
  decoded,
}
use http_debug.Web.Router.{
  replaying, clearing, leads, not_allowed, is_collection, given_replay, refused, answered,
  WebRequest, WebContext, given, routed, is_get, get_route, handle_routed, serve_web,
}
use http_debug.Web.Reads.{IsFit, Serves, fixed-Serves, get-Serves, get_route-IsGetRoute}

module _ {sql : Sqlite} where
  clear-Serves : (s : Store sql) → IsSound sql s → Serves false s (given (clear_requests s))
  unfolding clear_requests
  clear-Serves s h = go (clear s) (clear-StaysSound s h)
    where
      fit : (r : Result (Unit {0})) → IsFit (answered (cleared_answer r))
      fit (ok u) = refl
      fit (err e) = inr (inr refl)

      go :
          (o : Outcome (Store sql) (Unit {0}))
          → Settles sql (IsSound sql) o
          → Serves false s (given (answering cleared_answer o))
      go _ (settled r s' p) = record {
        served = answered (cleared_answer r);
        sends = none;
        final = s';
        returned = refl;
        sound = p;
        fits = fit r;
        reads = tt;
      }

  ignoring-StaysSound :
      {A B : Type 0} (x : B) {o : Outcome (Store sql) A}
      → StaysSound o
      → StaysSound (ignoring (pure x) o)
  ignoring-StaysSound x (settled r s h) = settled (ok x) s h

  with_body-StaysSound :
      (now : Time) (body : Str) (o : Outcome (Store sql) Str)
      → StaysSound o
      → StaysSound (with_body now body o)
  with_body-StaysSound now body _ (settled (ok id) s h) =
      ignoring-StaysSound _ (set_request_body-StaysSound id body s h)
  with_body-StaysSound now body _ (settled (err e) s h) = settled _ s h

  replay-StaysSound :
      (lib : Libraries) (fresh : Option Str) (now : Time) (r : ReplayRequest) (s : Store sql)
      → IsSound sql s
      → StaysSound (replay lib fresh now r s)
  unfolding replay open_exchange
  replay-StaysSound lib fresh now r s h = go (replay_target lib.urls r.url)
    where
      go : (t : Target) → StaysSound (replay_to lib fresh now r t s)
      go (rejected e) = settled _ s h
      go (accepted u) =
          let e = replay_entry lib now (method_of r.method) u (kept_headers r.headers []) r.body in
          bind-StaysSound (open_exchange fresh now e r.body)
            (λ ex. pure (started (method_of r.method) u (kept_headers r.headers []) r.body ex)) s
            (with_body-StaysSound now r.body (put fresh now e s) (put-StaysSound fresh now e s h))
            (λ ex s' p. settled _ s' p)

  replay-Serves :
      (decode : Str → Option ReplayRequest) (lib : Libraries) (fresh : Option Str) (now : Time)
      (text : Str) (s : Store sql)
      → IsSound sql s
      → Serves false s (given_replay (replay_request decode lib fresh now text s))
  unfolding replay_request
  replay-Serves decode lib fresh now text s h = go (decode (take (32 * 2 ^ 20) text))
    where
      fit : (r : Result Replayed) → IsFit (answered (replay_answer r).0)
      fit (ok (sending p)) = refl
      fit (ok (Replayed.refused e)) = refl
      fit (err e) = refl

      replied :
          (o : Outcome (Store sql) Replayed)
          → StaysSound o
          → Serves false s (given_replay (Routes.replaying o))
      replied _ (settled r s' p) = record {
        served = answered (replay_answer r).0;
        sends = (replay_answer r).1;
        final = s';
        returned = refl;
        sound = p;
        fits = fit r;
        reads = tt;
      }

      go : (r : Option ReplayRequest) → Serves false s (given_replay (decoded lib fresh now r s))
      go none = fixed-Serves false _ s h (inl refl)
      go (some r) = replied (replay lib fresh now r s) (replay-StaysSound lib fresh now r s h)

  -- From a sound store, whatever statements and file operations fail: every request to the interface is
  -- served, with a store that is sound. An answer of the API has the status that fits what it holds:
  -- 200, 202 or 204, or 400, 404 or 500 with an error. GET and HEAD send nothing, and leave as they were
  -- the entries in flight, the history, the broker and the body files; a request for the event stream
  -- is followed to where the stream starts.
  pub serve_web-Serves :
      (c : WebContext) (fresh : Option Str) (now : Time) (r : WebRequest) (s : Store sql)
      → IsSound sql s
      → Serves (is_get r.method) s (serve_web c fresh now r s)
  unfolding serve_web routed
  serve_web-Serves c fresh now r s h = go (is_get r.method)
    where
      go :
          (b : Bool)
          → Serves b s (
              handle_routed c fresh now r
                (if b
                  then leads (get_route r.path)
                  else if is_collection r.path && str_eq r.method (codes "POST")
                  then leads replaying
                  else if is_collection r.path && str_eq r.method (codes "DELETE")
                  then leads clearing
                  else not_allowed)
                s)
      go true = get-Serves c fresh now r _ s (get_route-IsGetRoute r.path) h
      go false =
          if_either (λ x. Serves false s (handle_routed c fresh now r x s))
            (is_collection r.path && str_eq r.method (codes "POST"))
            (replay-Serves c.decode c.lib fresh now r.body s h)
            (if_either (λ x. Serves false s (handle_routed c fresh now r x s))
              (is_collection r.path && str_eq r.method (codes "DELETE")) (clear-Serves s h)
              (fixed-Serves false refused s h tt))
