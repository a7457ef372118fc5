-- ===== src/Proxy/Captured.antt =====
-- An exchange that is answered, up to its row in the history.
use http_debug.Base.{
  ℕ, ◌≡◌, refl, sym, ap, ◌∙◌, subst, Bool, true, false, ltb, length, arith, if◌then◌else◌, Option,
  none, some, [], ◌∷◌, Str, str_eq,
}
use mathlib.Core.Option
use http_debug.Time.{Time, Duration}
use http_debug.Store.Entry.{Entry, Header, side_request, side_response, status_pending, status_done}
use http_debug.Store.Disk.{open_file}
use http_debug.Store.Blobs.{BlobStore, path, state, close_body}
use http_debug.Store.Blobs.Body.{state_of}
use http_debug.Store.Memory.{snapshot, update_live}
use http_debug.Store.Result.{ok}
use http_debug.Store.Rows.{Codec, Row, to_row, marshal_header, row_of}
use http_debug.Store.Action.{Outcome, returns, pure, ignoring}
use http_debug.Store.Sqlite.{Sqlite}
use http_debug.Store.Sqlite.Keeps.{HasUniqueIds}
use http_debug.Store.Ops.{Store}
use http_debug.Store.Ops.Finish.{finalize}
use http_debug.Store.Ops.Finalized.{Finalized, final_entry, finalize-Finalized_wired}
use http_debug.Store.Ops.Receiving.{but_format, Fixed, Receiving, Receiving-state}
use http_debug.Proxy.Capture.Stored.{update_entry-Received}
use http_debug.Proxy.Exchange.{Response, Exchange, Libraries, answered, settled_by}
use http_debug.Proxy.Relay.{modify_response}
use http_debug.Store.Ops.Finalized.{IsOver}

abbrev pub request_side : Entry → Str × Str × ℕ × Bool
request_side e = (e.request_body, e.request_body_path, e.request_body_size, e.request_spilled)

abbrev pub response_side : Entry → Str × Str × ℕ × Bool
response_side e = (e.response_body, e.response_body_path, e.response_body_size, e.response_spilled)

-- What an entry says of its request.
abbrev pub Describes : Entry → Str → Str → Header → Bool → Type 0
Describes e method url headers is_replay =
    (e.method ≡ method) × (e.url ≡ url) × (e.request_headers ≡ headers) × (e.is_replay ≡ is_replay)

-- encoding/json has a text for every header.
abbrev pub Marshals : Codec → Type 0
Marshals json = (h : Header) → (t : Str) × (json.marshal h ≡ some t)

marshal_header-some :
    (json : Codec) (h : Header)
    → Marshals json
    → (c : Option Str) × (marshal_header json h ≡ some c)
unfolding marshal_header
marshal_header-some json [] m = (none, refl)
marshal_header-some json (f ∷ h) m = (some (m (f ∷ h)).0, ap (Option.map some) (m (f ∷ h)).1)

pub to_row-some : (json : Codec) (e : Entry) → Marshals json → (r : Row) × (to_row json e ≡ some r)
unfolding to_row
to_row-some json e m =
    let req = marshal_header-some json e.request_headers m in
    let resp = marshal_header-some json e.response_headers m in
    (row_of req.0 resp.0 e, rw (to_row, req.1, resp.1) refl)

module _ {sql : Sqlite} where
  -- What became of an exchange that was registered as `e` with this body: its row was inserted from
  -- `entry`, which has the response, and the bytes of both bodies as far as the buffers keep them.
  pub record Captured (json : Codec) (id : Str) (e : Entry) (body : Str) (resp : Response)
      (bytes : Str) (s : Store sql) (o : Outcome (Store sql) (Unit {0})) : Type 0 where
    pub entry : Entry
    pub before : Store sql
    pub finalized : Finalized json id entry before o
    pub same_history : before.db ≡ s.db
    pub over : IsOver entry
    pub done : entry.status ≡ status_done
    pub same_id : entry.id ≡ id
    pub method : entry.method ≡ e.method
    pub url : entry.url ≡ e.url
    pub is_replay : entry.is_replay ≡ e.is_replay
    pub request_headers : entry.request_headers ≡ e.request_headers
    pub status_code : entry.status_code ≡ resp.status_code
    pub response_headers : entry.response_headers ≡ resp.header
    pub request : request_side entry ≡ state_of s.blobs id side_request body
    pub response : response_side entry ≡ state_of s.blobs id side_response bytes
    pub file :
        (if ltb s.blobs.max_inline (length bytes)
          then open_file (path s.blobs id side_response) before.disk
          else some bytes)
        ≡ some bytes
    pub disk_works : before.disk.faults ≡ []
    pub same_max : before.max_entries ≡ s.max_entries

  -- What the capture of the response starts from.
  pub record Answers (k : Fixed sql) (id : Str) (e : Entry) (body : Str) (resp : Response)
      (s : Store sql) : Type 0 where
    pub status : k.entry.status ≡ status_pending
    pub same_id : k.entry.id ≡ id
    pub method : k.entry.method ≡ e.method
    pub url : k.entry.url ≡ e.url
    pub is_replay : k.entry.is_replay ≡ e.is_replay
    pub request_headers : k.entry.request_headers ≡ e.request_headers
    pub status_code : k.entry.status_code ≡ resp.status_code
    pub response_headers : k.entry.response_headers ≡ resp.header
    pub request : state k.req ≡ state_of s.blobs id side_request body
    pub db : k.db ≡ s.db
    pub blobs : k.blobs ≡ s.blobs
    pub max : k.max_entries ≡ s.max_entries

  pub modify_response-Receiving :
      (lib : Libraries) (k : Fixed sql) (ex : Exchange) (now : Time) (resp : Response)
      (s : Store sql)
      → Receiving k ex.id [] s
      → (s' : Store sql) × (modify_response lib ex now resp s ≡ returns (ok tt) s')
        × Receiving (record k { entry = answered lib ex now resp k.entry }) ex.id [] s'
  unfolding modify_response
  modify_response-Receiving lib k ex now resp s r =
      let u =
        update_entry-Received k ex.id [] (answered lib ex now resp) now s
          (answered lib ex now resp k.entry) r
          (ap (λ e. but_format (answered lib ex now resp e)) r.same_entry) in
      (u.0, ap (ignoring (pure tt)) u.1, u.2)

  -- The row that Finalize makes of an entry that received its response.
  pub finalize-Captured :
      (lib : Libraries) (k : Fixed sql) (id bytes : Str) (stream_ms : Option Duration) (now : Time)
      (e : Entry) (body : Str) (resp : Response) (s s₀ : Store sql)
      → Marshals lib.json
      → HasUniqueIds sql k.db
      → k.db.faults ≡ []
      → Receiving k id bytes s
      → Answers k id e body resp s₀
      → Captured lib.json id e body resp bytes s₀
          (finalize lib.json id (some (settled_by stream_ms none)) now s)
  unfolding snapshot update_live close_body state str_eq
  finalize-Captured lib k id bytes stream_ms now e body resp s s₀ m u f r a =
      let fn = some (settled_by stream_ms none) in
      let entry = final_entry fn now r.live in
      let row = to_row-some lib.json entry m in
      let final =
        finalize-Finalized_wired lib.json id fn now r.live row.0 s r.wired
          (subst (HasUniqueIds sql) (sym r.same_db) u) r.found row.1
          (ap (λ d. d.faults) r.same_db ∙ f) in
      record {
        entry = entry;
        before = s;
        finalized = final.1;
        same_history = r.same_db ∙ a.db;
        over = final.0;
        done = rw (ap (λ (x : Entry). x.status) r.same_entry ∙ a.status) refl;
        same_id = ap (λ (x : Entry). x.id) r.same_entry ∙ a.same_id;
        method = ap (λ (x : Entry). x.method) r.same_entry ∙ a.method;
        url = ap (λ (x : Entry). x.url) r.same_entry ∙ a.url;
        is_replay = ap (λ (x : Entry). x.is_replay) r.same_entry ∙ a.is_replay;
        request_headers = ap (λ (x : Entry). x.request_headers) r.same_entry ∙ a.request_headers;
        status_code = ap (λ (x : Entry). x.status_code) r.same_entry ∙ a.status_code;
        response_headers = ap (λ (x : Entry). x.response_headers) r.same_entry ∙ a.response_headers;
        request = ap state r.same_req ∙ a.request;
        response =
            (Receiving-state k id bytes s r).0
            ∙ ap (λ b. state_of b id side_response bytes) (r.same_blobs ∙ a.blobs);
        file =
            subst
              (λ (b : BlobStore).
                (if ltb b.max_inline (length bytes)
                  then open_file (path b id side_response) s.disk
                  else some bytes)
                ≡ some bytes)
              (r.same_blobs ∙ a.blobs)
              (file_back (open_file (path s.blobs id side_response) s.disk)
                (ltb s.blobs.max_inline (length bytes))
                (λ over. (Receiving-state k id bytes s r).1 (ground (arith, over))));
        disk_works = r.no_faults;
        same_max = r.same_max ∙ a.max;
      }
    where
      file_back :
          (o : Option Str) (over : Bool)
          → (over ≡ true → o ≡ some bytes)
          → (if over then o else some bytes) ≡ some bytes
      file_back o true h = h refl
      file_back o false h = refl
