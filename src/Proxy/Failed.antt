-- ===== src/Proxy/Failed.antt =====
-- internal/proxy: an exchange that gets no response, relayed or replayed.
use http_debug.Base.{◌≡◌, refl, ap, ◌∙◌, subst, true, false, none, some, Str, str_eq}
use http_debug.Time.{Time}
use http_debug.Store.Entry.{Entry, side_request, status_error}
use http_debug.Store.Blobs.{state, close_body}
use http_debug.Store.Blobs.Body.{state_of}
use http_debug.Store.Events.Wired.{fan_out-IsWired}
use http_debug.Store.Memory.{new_live, snapshot, update_live}
use http_debug.Store.Result.{ok}
use http_debug.Store.Rows.{Codec}
use http_debug.Store.Action.{Outcome, returns, after_result, pure, ignoring}
use http_debug.Store.Sqlite.{Sqlite}
use http_debug.Store.Ops.{Store, registered}
use http_debug.Store.Ops.Finalized.{IsOver, Finalized, final_entry, finalize-Finalized_wired}
use http_debug.Store.Ops.Receiving.{lookup_self}
use http_debug.Store.Ops.Registered.{registered_in}
use http_debug.Proxy.Exchange.{
  ProxyConfig, Request, Upstream, fails, Exchange, Libraries, settled_by, relayed_entry, direct,
  bad_gateway, target_of, Reply,
}
use http_debug.Proxy.Client.{Is502, bad_gateway-Is502}
use http_debug.Proxy.Relay.{finalize_exchange, relay, serve_http}
use http_debug.Proxy.Opened.{request_write, opened_in, open_exchange-opened_in, request_write-state}
use http_debug.Proxy.Captured.{request_side, Describes, to_row-some}
use http_debug.Proxy.Answered.{IsHealthy}

module _ {sql : Sqlite} where
  -- What became of an exchange that was registered as `e` with this body, and then failed: its row was
  -- inserted from `entry`, which has the message and the body of the request.
  pub record Failed (json : Codec) (id : Str) (e : Entry) (body message : Str) (s : Store sql)
      (o : Outcome (Store sql) (Unit {0})) : Type 0 where
    pub entry : Entry
    pub before : Store sql
    pub finalized : Finalized json id entry before o
    pub same_history : before.db ≡ s.db
    pub over : IsOver entry
    pub failed : entry.status ≡ status_error
    pub same_message : entry.error ≡ message
    pub same_id : entry.id ≡ id
    pub method : entry.method ≡ e.method
    pub url : entry.url ≡ e.url
    pub is_replay : entry.is_replay ≡ e.is_replay
    pub request_headers : entry.request_headers ≡ e.request_headers
    pub no_status : entry.status_code ≡ e.status_code
    pub no_stream : entry.stream_ms ≡ none
    pub request : request_side entry ≡ state_of s.blobs id side_request body
    pub no_response : entry.response_body_size ≡ 0

  -- The failure of an exchange that was just opened.
  pub finalize_exchange-Failed :
      (lib : Libraries) (id : Str) (now at : Time) (e : Entry) (body message : Str) (s : Store sql)
      → IsHealthy lib s
      → (final : Store sql) × (finalize_exchange lib
            (record { id = id; start_at = now })
            none
            (some message)
            at
            (opened_in id now e body s)
          ≡ returns (ok tt) final)
        × Failed lib.json id e body message s (returns (ok tt) final)
  unfolding finalize_exchange snapshot update_live close_body state str_eq
  finalize_exchange-Failed lib id now at e body message s h =
      let live = record (new_live (registered id now e) now) {
        req = (request_write id body s).1;
      } in
      let s' = opened_in id now e body s in
      let fn = some (settled_by none (some message)) in
      let entry = final_entry fn at live in
      let row = to_row-some lib.json entry h.marshals in
      let f =
        finalize-Finalized_wired lib.json id fn at live row.0 s'
          (fan_out-IsWired _ s.events h.wired) h.unique
          (lookup_self id live (registered_in id now e s)) row.1 h.db_works in
      let fin = f.1.retired in
      (
        fin.final,
        ap (ignoring (pure tt)) fin.returned,
        record {
          entry = entry;
          before = s';
          finalized = subst (Finalized lib.json id entry s') fin.returned f.1;
          same_history = refl;
          over = f.0;
          failed = refl;
          same_message = refl;
          same_id = refl;
          method = refl;
          url = refl;
          is_replay = refl;
          request_headers = refl;
          no_status = refl;
          no_stream = refl;
          request = request_write-state id body s h.disk_works;
          no_response = refl;
        },
      )

  -- A request that the client sent whole, on a healthy store that gives it an id, when the backend
  -- cannot be reached: the client gets 502 with no header and a line that names the target and the
  -- message. Into the history goes a row of an entry in error with that message, that has the method,
  -- the headers and the body of the request, the target's address with the request's path and query,
  -- no replay flag and no response. Then retention is applied, which may drop this row again where the
  -- history is full, and the subscribers are told.
  pub serve_http-Failed :
      (lib : Libraries) (cfg : ProxyConfig) (backend : Request → Upstream) (id : Str)
      (now at : Time) (r : Request) (message : Str) (s : Store sql)
      → IsHealthy lib s
      → backend (direct cfg r) ≡ fails message at
      → (final : Store sql) × (reply : Reply) × (serve_http lib cfg backend true (some id) now r s
          ≡ returns (ok reply) final)
        × Is502 lib cfg message reply
        × (f : Failed lib.json id
            (relayed_entry lib cfg now r)
            r.body
            message
            s
            (returns (ok tt) final))
        × Describes f.entry r.method (lib.urls.print (target_of cfg r)) r.header false
  unfolding serve_http relay relayed_entry
  serve_http-Failed lib cfg backend id now at r message s h e =
      let entry = relayed_entry lib cfg now r in
      let ex : Exchange = record { id = id; start_at = now } in
      let done = finalize_exchange-Failed lib id now at entry r.body message s h in
      (
        done.0,
        bad_gateway lib cfg message,
        ap (after_result (λ x. relay lib cfg x (backend (direct cfg r))))
              (open_exchange-opened_in (some id) id now entry r.body s refl h.wired)
            ∙ ap (λ u. relay lib cfg (some ex) u (opened_in id now entry r.body s)) e
            ∙ ap (after_result (λ _. pure (bad_gateway lib cfg message))) done.1,
        bad_gateway-Is502 lib cfg message,
        done.2,
        (done.2.method, done.2.url, done.2.request_headers, done.2.is_replay),
      )
