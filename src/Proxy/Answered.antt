-- ===== src/Proxy/Answered.antt =====
-- An exchange that is answered is captured whole, relayed or replayed.
use http_debug.Base.{◌≡◌, refl, ap, ◌∙◌, subst, true, false, Option, some, List, [], ◌++◌, Str, map}
use http_debug.Time.{Time, Duration}
use http_debug.Store.Entry.{Entry, status_pending}
use http_debug.Store.Blobs.Body.{concat}
use http_debug.Store.Events.FanOut.{IsWired}
use http_debug.Store.Memory.{new_live}
use http_debug.Store.Result.{ok}
use http_debug.Store.Action.{
  Outcome, Action, returns, after_result, after_result_assoc, pure, ignoring, ◌>>◌,
}
use http_debug.Store.Sqlite.{Sqlite}
use http_debug.Store.Sqlite.Keeps.{HasUniqueIds}
use http_debug.Store.Ops.{Store, registered}
use http_debug.Store.Ops.Calls.{run_calls}
use http_debug.Store.Ops.Receiving.{Fixed, Receiving, fixed_of}
use http_debug.Proxy.Format.{detect_format}
use http_debug.Proxy.Header.{header_get}
use http_debug.Proxy.Capture.{new_capture_reader, read_all, close_reader, stream_time}
use http_debug.Proxy.Capture.Whole.{read_all-open}
use http_debug.Proxy.Capture.Stored.{read-Receiving}
use http_debug.Proxy.Exchange.{
  ProxyConfig, Request, Response, Upstream, answers, Reply, sent_whole, Exchange, Libraries,
  answered, reader_of, content_type, relayed_entry, correlated, direct, target_of,
}
use http_debug.Proxy.Relay.{
  finalize_exchange, drain_body, modify_response, on_close, after_calls, relay, serve_http,
}
use http_debug.Proxy.Opened.{
  request_write, opened_in, open_exchange-opened_in, opened_in-Receiving, request_write-state,
}
use http_debug.Proxy.Captured.{
  Marshals, Captured, Describes, Answers, modify_response-Receiving, finalize-Captured,
}

-- What the client gets of a relayed response.
abbrev pub relayed_reply : Libraries → ProxyConfig → Str → Response → Str → Reply
relayed_reply lib cfg id resp bytes = record {
  status = resp.status_code;
  header = correlated lib cfg id resp.header;
  body = bytes;
  ending = sent_whole;
}

module _ {sql : Sqlite} where
  -- The response of an exchange whose request is in: the update, the body, and Finalize.
  abbrev pub respond :
      Libraries
      → Exchange
      → Time
      → Response
      → List (Time × Str)
      → Time
      → Action (Store sql) (Unit {0})
  respond lib ex now resp reads closed =
      modify_response lib ex now resp >> drain_body lib ex reads closed (reader_of lib ex resp)

  -- The outcome of such a response.
  pub record Recorded (lib : Libraries) (id : Str) (e : Entry) (body : Str) (resp : Response)
      (bytes : Str) (s : Store sql) (o : Outcome (Store sql) (Unit {0})) : Type 0 where
    pub final : Store sql
    pub returned : o ≡ returns (ok tt) final
    pub captured : Captured lib.json id e body resp bytes s (returns (ok tt) final)

  drain_body-Recorded :
      (lib : Libraries) (k : Fixed sql) (ex : Exchange) (reads : List (Time × Str)) (closed : Time)
      (e : Entry) (body : Str) (resp : Response) (s s₀ : Store sql)
      → Marshals lib.json
      → HasUniqueIds sql k.db
      → k.db.faults ≡ []
      → Receiving k ex.id [] s
      → Answers k ex.id e body resp s₀
      → Recorded lib ex.id e body resp
          (concat (map (λ r. r.1) reads))
          s₀
          (drain_body lib ex reads closed (reader_of lib ex resp) s)
  unfolding drain_body finalize_exchange
  drain_body-Recorded lib k ex reads closed e body resp s s₀ m u f r a =
      let format = detect_format lib.valid (header_get content_type resp.header) [] in
      let c = (read_all lib.valid reads (new_capture_reader ex.id format)).1 in
      let run = read-Receiving lib.valid lib.json k ex.id format reads closed s r in
      let cap =
        finalize-Captured lib k ex.id (concat (map (λ p. p.1) reads)) (stream_time c) closed e body
          resp run.0 s₀ m u f run.2 a in
      let fin = cap.finalized.retired in
      record {
        final = fin.final;
        returned =
            ap
              (λ (x : Option (Option Duration)). after_calls (on_close lib ex closed x) (
                run_calls lib.json
                  ((read_all lib.valid reads (new_capture_reader ex.id format)).0
                    ++ (close_reader closed c).0)
                  s))
              (read_all-open lib.valid ex.id format reads closed)
            ∙ ap (after_calls (on_close lib ex closed (some (stream_time c)))) run.1
            ∙ ap (ignoring (pure tt)) fin.returned;
        captured =
            subst (Captured lib.json ex.id e body resp (concat (map (λ p. p.1) reads)) s₀)
              fin.returned cap;
      }

  -- What both handlers need of the store and of the libraries.
  pub record IsHealthy (lib : Libraries) (s : Store sql) : Type 0 where
    pub wired : IsWired s.events
    pub unique : HasUniqueIds sql s.db
    pub db_works : s.db.faults ≡ []
    pub disk_works : s.disk.faults ≡ []
    pub marshals : Marshals lib.json

  pub respond-Recorded :
      (lib : Libraries) (id : Str) (now at : Time) (e : Entry) (body : Str) (resp : Response)
      (reads : List (Time × Str)) (closed : Time) (s : Store sql)
      → e.status ≡ status_pending
      → IsHealthy lib s
      → Recorded lib id e body resp (concat (map (λ r. r.1) reads)) s (
          respond lib
            (record { id = id; start_at = now })
            at
            resp
            reads
            closed
            (opened_in id now e body s))
  respond-Recorded lib id now at e body resp reads closed s pending h =
      let ex : Exchange = record { id = id; start_at = now } in
      let live = record (new_live (registered id now e) now) {
        req = (request_write id body s).1;
      } in
      let k = fixed_of live (opened_in id now e body s) in
      let update =
        modify_response-Receiving lib k ex at resp (opened_in id now e body s)
          (opened_in-Receiving id now e body s h.wired h.disk_works) in
      let drained =
        drain_body-Recorded lib (record k { entry = answered lib ex at resp k.entry }) ex reads
          closed e body resp update.0 s h.marshals h.unique h.db_works update.2
          (record {
            status = rw pending refl;
            same_id = refl;
            method = refl;
            url = refl;
            is_replay = refl;
            request_headers = refl;
            status_code = refl;
            response_headers = refl;
            request = request_write-state id body s h.disk_works;
            db = refl;
            blobs = refl;
            max = refl;
          }) in
      record {
        final = drained.final;
        returned =
            ap (after_result (λ _. drain_body lib ex reads closed (reader_of lib ex resp))) update.1
            ∙ drained.returned;
        captured = drained.captured;
      }

  -- A request that the client sent whole, on a healthy store that gives it an id, and that the backend
  -- answers with a body that is read to its end: the client gets the status and every byte of the body,
  -- and the header with the correlation added. Into the history goes a row of an entry that is done,
  -- that has the method and the headers of the request, the target's address with the request's path
  -- and query, no replay flag, the response's status and headers, and both bodies (the bytes, or their
  -- first part, the file and the size). Then retention is applied, which may drop this row again where
  -- the history is full, and the subscribers are told.
  pub serve_http-Captured :
      (lib : Libraries) (cfg : ProxyConfig) (backend : Request → Upstream) (id : Str)
      (now at : Time) (r : Request) (resp : Response) (reads : List (Time × Str)) (closed : Time)
      (s : Store sql)
      → IsHealthy lib s
      → backend (direct cfg r) ≡ answers at resp reads closed
      → let bytes = concat (map (λ c. c.1) reads) in
        (final : Store sql) × (serve_http lib cfg backend true (some id) now r s
          ≡ returns (ok (relayed_reply lib cfg id resp bytes)) final)
        × (c : Captured lib.json id
            (relayed_entry lib cfg now r)
            r.body
            resp
            bytes
            s
            (returns (ok tt) final))
        × Describes c.entry r.method (lib.urls.print (target_of cfg r)) r.header false
  unfolding serve_http relay correlated relayed_entry
  serve_http-Captured lib cfg backend id now at r resp reads closed s h e =
      let entry = relayed_entry lib cfg now r in
      let reply = relayed_reply lib cfg id resp (concat (map (λ c. c.1) reads)) in
      let done = respond-Recorded lib id now at entry r.body resp reads closed s refl h in
      (
        done.final,
        ap (after_result (λ ex. relay lib cfg ex (backend (direct cfg r))))
              (open_exchange-opened_in (some id) id now entry r.body s refl h.wired)
            ∙ ap
                (λ u.
                  relay lib cfg (some (record { id = id; start_at = now })) u
                    (opened_in id now entry r.body s))
                e
            ∙ after_result_assoc
                (λ _.
                  drain_body lib (record { id = id; start_at = now }) reads closed
                    (reader_of lib (record { id = id; start_at = now }) resp))
                (λ _. pure reply)
                (modify_response lib (record { id = id; start_at = now }) at resp
                  (opened_in id now entry r.body s))
            ∙ ap (after_result (λ _. pure reply)) done.returned,
        done.captured,
        (
          done.captured.method, done.captured.url, done.captured.request_headers,
          done.captured.is_replay,
        ),
      )
