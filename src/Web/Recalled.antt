-- ===== src/Web/Recalled.antt =====
-- A relayed exchange, looked up in the interface once it is over.
use http_debug.Base.{
  ℕ, ◌<◌, ◌≡◌, ◌≢◌, refl, sym, ap, ◌∙◌, subst, Bool, true, not, ltb, ◌==◌, some, List, [], Str,
  str_eq, codes, length, take-all, map, arith, if◌then◌else◌, if_true, Bool-cases, inl, inr,
}
use http_debug.Time.{Time}
use http_debug.Store.Entry.{Entry, Header, Side, side_response, side_request}
use http_debug.Store.Disk.{spend, open_file, open_path}
use http_debug.Store.Blobs.{BlobStore, path}
use http_debug.Store.Blobs.Body.{concat, path-not_empty, state_of}
use http_debug.Store.Result.{ok}
use http_debug.Store.Rows.RoundTrip.{IsFaithful, IsFolded, stored}
use http_debug.Store.Action.{Outcome, returns, panics, after_result}
use http_debug.Store.Sqlite.{Sqlite}
use http_debug.Store.Sqlite.Keeps.{HasUniqueIds}
use http_debug.Store.Ops.{Store}
use http_debug.Store.Ops.Kept.{get-Finalized}
use http_debug.Store.Ops.Read.{body, body_of, side_of}
use http_debug.Proxy.Header.{header_get}
use http_debug.Proxy.Exchange.{
  ProxyConfig, Request, Response, Upstream, answers, Libraries, content_type, relayed_entry, direct,
}
use http_debug.Proxy.Relay.{serve_http}
use http_debug.Proxy.Captured.{Captured}
use http_debug.Proxy.Answered.{IsHealthy, relayed_reply, serve_http-Captured}
use http_debug.Web.Routes.{raw, write_json, served_type, streamed, body_found, answering, get_body}

state_of-folded :
    (s : BlobStore) (id : Str) (side : Side) (w : Str)
    → let t = state_of s id side w in t.3 ≡ not (length t.1 == 0)
state_of-folded s id side w = elim (Bool-cases (ltb s.max_inline (length w))) [
  | inl over ↦ rw (over, path-not_empty s id side) refl
  | inr fits ↦ rw fits refl
]

-- The type under which a response is served.
abbrev pub response_type : Header → Str
response_type h =
    let ct = header_get content_type h in
    if length ct == 0 then codes "application/octet-stream" else ct

module _ {sql : Sqlite} where
  -- What Body gives of a side that reads back without the preview of a spilled body.
  body_of-stored :
      (b : BlobStore) (id : Str) (side : Side) (w : Str) (s : Store sql)
      → s.disk.faults ≡ []
      → (if ltb b.max_inline (length w) then open_file (path b id side) s.disk else some w) ≡ some w
      → let t = state_of b id side w in
        (s' : Store sql) × (body_of (t.1, if t.3 then [] else t.0, t.2) s
          ≡ returns (ok (w, length w)) s')
  unfolding open_path
  body_of-stored b id side w s f file = elim (Bool-cases (ltb b.max_inline (length w))) [
    | inl over ↦
        let opens : open_file (path b id side) s.disk ≡ some w = sym (if_true _ _ over) ∙ file in
        (record s { disk = spend s.disk }, rw (over, path-not_empty b id side, f, opens) refl)
    | inr fits ↦ (s, rw (fits, take-all b.max_inline w (ground arith)) refl)
  ]

  -- The answer with the body of the response, once the exchange is in the history.
  Captured-get_body :
      (lib : Libraries) (id : Str) (e : Entry) (body : Str) (resp : Response) (bytes : Str)
      (s : Store sql) (o : Outcome (Store sql) (Unit {0}))
      (c : Captured lib.json id e body resp bytes s o)
      → HasUniqueIds sql s.db
      → length (sql.rows s.db.table) < s.max_entries
      → (e.request_headers ≢ [] → IsFaithful lib.json e.request_headers)
      → (resp.header ≢ [] → IsFaithful lib.json resp.header)
      → (s' : Store sql) × (get_body lib.json id side_response c.finalized.retired.final
          ≡ returns (ok (write_json 200 (raw (response_type resp.header) (length bytes) bytes))) s')
  unfolding get_body body served_type str_eq
  Captured-get_body lib id e body resp bytes s o c u room faithful_req faithful_resp =
      let entry = c.entry in
      let final = c.finalized.retired.final in
      let folded : IsFolded entry = record {
        request =
            subst (λ (t : Str × Str × ℕ × Bool). t.3 ≡ not (length t.1 == 0)) (sym c.request)
              (state_of-folded s.blobs id side_request body);
        response =
            subst (λ (t : Str × Str × ℕ × Bool). t.3 ≡ not (length t.1 == 0)) (sym c.response)
              (state_of-folded s.blobs id side_response bytes);
      } in
      let g =
        get-Finalized lib.json id entry c.before o c.finalized c.same_id
          (subst (HasUniqueIds sql) (sym c.same_history) u)
          (omega (arith, c.same_max, ap (λ db. length (sql.rows db.table)) c.same_history, room))
          (subst (λ h. h ≢ [] → IsFaithful lib.json h) (sym c.request_headers) faithful_req)
          (subst (λ h. h ≢ [] → IsFaithful lib.json h) (sym c.response_headers) faithful_resp)
          folded in
      let read =
        body_of-stored s.blobs id side_response bytes final (ap (λ d. d.faults) g.1 ∙ c.disk_works)
          (subst
            (λ d.
              (if ltb s.blobs.max_inline (length bytes)
                then open_file (path s.blobs id side_response) d
                else some bytes)
              ≡ some bytes)
            (sym g.1) c.file) in
      let bodied : (body_of (side_of side_response (stored entry)) final
          ≡ returns (ok (bytes, length bytes)) read.0) =
        ap (λ (t : Str × Str × ℕ × Bool). body_of (t.1, if t.3 then [] else t.0, t.2) final)
          c.response
        ∙ read.1 in
      (
        read.0,
        ap (body_found lib.json id side_response) g.0
            ∙ ap
                (λ x.
                  answering (streamed side_response (stored entry))
                    (after_result (λ e. body_of (side_of side_response e)) x))
                g.0
            ∙ ap (answering (streamed side_response (stored entry))) bodied
            ∙ ap
                (λ h.
                  returns (ok (write_json 200 (raw (response_type h) (length bytes) bytes))) read.0)
                c.response_headers,
      )

  -- A request that the client sent whole, on a healthy store that gives it an id and has room for one
  -- more entry, with a JSON codec that gives the headers of both sides back: once the backend has answered and the client
  -- has its reply, the interface serves the response's body under the exchange's id with 200, as every
  -- byte that the client got, with their number as the length and with the content type of the
  -- response, or application/octet-stream if it has none. It does not matter how the bytes came in, nor
  -- whether they fit in the row.
  pub serve_http-get_body :
      (lib : Libraries) (cfg : ProxyConfig) (backend : Request → Upstream) (id : Str)
      (now at : Time) (r : Request) (resp : Response) (reads : List (Time × Str)) (closed : Time)
      (s : Store sql)
      → IsHealthy lib s
      → ((relayed_entry lib cfg now r).request_headers ≢ []
          → IsFaithful lib.json (relayed_entry lib cfg now r).request_headers)
      → (resp.header ≢ [] → IsFaithful lib.json resp.header)
      → length (sql.rows s.db.table) < s.max_entries
      → backend (direct cfg r) ≡ answers at resp reads closed
      → let bytes = concat (map (λ c. c.1) reads) in
        (final : Store sql) × (s' : Store sql) × (serve_http lib cfg backend true (some id) now r s
          ≡ returns (ok (relayed_reply lib cfg id resp bytes)) final)
        × (get_body lib.json id side_response final
            ≡ returns
                (ok (write_json 200 (raw (response_type resp.header) (length bytes) bytes)))
                s')
  serve_http-get_body lib cfg backend id now at r resp reads closed s h faithful_req faithful_resp
        room e =
      let bytes = concat (map (λ c. c.1) reads) in
      let done = serve_http-Captured lib cfg backend id now at r resp reads closed s h e in
      let read =
        Captured-get_body lib id (relayed_entry lib cfg now r) r.body resp bytes s _ done.2 h.unique
          room faithful_req faithful_resp in
      let same : done.0 ≡ done.2.finalized.retired.final =
        ap (λ (o : Outcome (Store sql) (Unit {0})). elim o [ returns x s' ↦ s' | panics ↦ done.0 ])
          done.2.finalized.retired.returned in
      (done.0, read.0, done.1, ap (get_body lib.json id side_response) same ∙ read.1)
