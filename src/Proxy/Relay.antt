-- ===== src/Proxy/Relay.antt =====
-- internal/proxy/proxy.go: the handler that relays an exchange and captures it. The reverse proxy and
-- the backend are outside of the program: what they did with one request is an argument, `Upstream`.
-- The library calls the hooks in its documented order: `direct`, then `modify_response` and the reads
-- of the body up to its Close, or `handle_error`. After a body that breaks off it closes the body too,
-- and aborts the reply. A 101 goes through `modify_response`, whose wrapped body then makes the library
-- call `handle_error`; without an exchange the body is not wrapped, and the library switches protocols.
use http_debug.Base.{Bool, Option, none, some, List, [], ◌++◌, Str, map, if◌then◌else◌}
use http_debug.Time.{Time, Duration}
use http_debug.Store.Entry.{Entry}
use http_debug.Store.Blobs.Body.{concat}
use http_debug.Store.Result.{ok, err}
use http_debug.Store.Action.{Outcome, Action, returns, panics, pure, ignoring, ◌>>=◌, ◌>>◌}
use http_debug.Store.Sqlite.{Sqlite}
use http_debug.Store.Ops.{Store, put, set_request_body, update_entry}
use http_debug.Store.Ops.Finish.{finalize}
use http_debug.Store.Ops.Calls.{run_calls}
use http_debug.Proxy.Capture.{CaptureReader, read_all, close_reader}
use http_debug.Proxy.Exchange.{
  ProxyConfig, Request, Response, Upstream, answers, breaks_off, switches, fails, Reply, sent_whole,
  aborted, handed_over, Exchange, Libraries, direct, relayed_entry, answered, correlated,
  settled_by, bad_gateway, unreadable, reader_of,
}

module _ {sql : Sqlite} where
  -- Put and SetRequestBody, as `ServeHTTP` calls them: the exchange, or none where Put fails.
  abbrev pub with_body :
      Time → Str → Outcome (Store sql) Str → Outcome (Store sql) (Option Exchange)
  with_body now body (returns (ok id) s) =
      ignoring (pure (some (record { id = id; start_at = now }))) (set_request_body id body s)
  with_body now body (returns (err e) s) = returns (ok none) s
  with_body now body panics = panics

  unfoldable pub open_exchange :
      Option Str → Time → Entry → Str → Action (Store sql) (Option Exchange)
  open_exchange fresh now entry body s = with_body now body (put fresh now entry s)

  abbrev pub after_calls :
      {A : Type 0} → Action (Store sql) A → Option (Store sql) → Outcome (Store sql) A
  after_calls k none = panics
  after_calls k (some s) = k s

module _ {sql : Sqlite} (lib : Libraries) where
  -- finalize, whose error is only logged
  unfoldable pub finalize_exchange :
      Exchange → Option Duration → Option Str → Time → Action (Store sql) (Unit {0})
  finalize_exchange ex stream_ms relay_err now s =
      ignoring (pure tt) (finalize lib.json ex.id (some (settled_by stream_ms relay_err)) now s)

  -- What `onClose` does, where Close calls it.
  abbrev pub on_close : Exchange → Time → Option (Option Duration) → Action (Store sql) (Unit {0})
  on_close ex now none = pure tt
  on_close ex now (some stream_ms) = finalize_exchange ex stream_ms none now

  -- The body, read through the capture reader and closed.
  unfoldable pub drain_body :
      Exchange → List (Time × Str) → Time → CaptureReader → Action (Store sql) (Unit {0})
  unfolding read_all close_reader finalize_exchange
  drain_body ex reads now c s =
      let (calls, c') = read_all lib.valid reads c in
      let (last, closing, c'') = close_reader now c' in
      after_calls (on_close ex now closing) (run_calls lib.json (calls ++ last) s)

  -- modifyResponse, up to the new body; the error of Update is only logged.
  unfoldable pub modify_response : Exchange → Time → Response → Action (Store sql) (Unit {0})
  modify_response ex now resp s =
      ignoring (pure tt) (update_entry ex.id (answered lib ex now resp) now s)

  -- The relay of one exchange, with the hooks that capture it.
  unfoldable pub relay : ProxyConfig → Option Exchange → Upstream → Action (Store sql) Reply
  unfolding drain_body modify_response correlated finalize_exchange
  relay cfg (some ex) (answers now resp reads closed) =
      modify_response ex now resp
      >> (drain_body ex reads closed (reader_of lib ex resp)
          >> pure (record {
            status = resp.status_code;
            header = correlated lib cfg ex.id resp.header;
            body = concat (map (λ r. r.1) reads);
            ending = sent_whole;
          }))
  relay cfg (some ex) (breaks_off now resp reads closed) =
      modify_response ex now resp
      >> (drain_body ex reads closed (reader_of lib ex resp)
          >> pure (record {
            status = resp.status_code;
            header = correlated lib cfg ex.id resp.header;
            body = concat (map (λ r. r.1) reads);
            ending = aborted;
          }))
  relay cfg (some ex) (switches now resp message at) =
      modify_response ex now resp
      >> (finalize_exchange ex none (some message) at >> pure (bad_gateway lib cfg message))
  relay cfg (some ex) (fails message now) =
      finalize_exchange ex none (some message) now >> pure (bad_gateway lib cfg message)
  relay cfg none (answers now resp reads closed) = pure (record {
    status = resp.status_code;
    header = resp.header;
    body = concat (map (λ r. r.1) reads);
    ending = sent_whole;
  })
  relay cfg none (breaks_off now resp reads closed) = pure (record {
    status = resp.status_code;
    header = resp.header;
    body = concat (map (λ r. r.1) reads);
    ending = aborted;
  })
  relay cfg none (switches now resp message at) =
      pure (record {
        status = resp.status_code;
        header = resp.header;
        body = [];
        ending = handed_over;
      })
  relay cfg none (fails message now) = pure (bad_gateway lib cfg message)

  -- ServeHTTP. `complete` is whether the request's body could be read; `backend` is what becomes of
  -- a request that is sent.
  unfoldable pub serve_http :
      ProxyConfig
      → (Request → Upstream)
      → Bool
      → Option Str
      → Time
      → Request
      → Action (Store sql) Reply
  unfolding open_exchange relayed_entry relay direct
  serve_http cfg backend complete fresh now r =
      if complete
      then (do
        ex ← open_exchange fresh now (relayed_entry lib cfg now r) r.body
        relay cfg ex (backend (direct cfg r)))
      else pure unreadable
