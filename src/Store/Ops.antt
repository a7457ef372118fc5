-- ===== src/Store/Ops.antt =====
-- internal/store/store.go: the methods of `Store`. A method is an action on the store's state that
-- returns a value or an error, and leaves a new state in both cases; `panics` is a panic. The calls of
-- the parts are made in the order of the source, each under its part's own lock. A method that reads
-- the clock takes its reading, `now`, as an argument, and one that draws random bytes takes the id.
pub mod Finish
pub mod Read
pub mod Sound
pub mod Keeps
pub mod Ends
pub mod Calls
pub mod Untouched
pub mod Finalized
pub mod Kept
pub mod Unfinished
pub mod Receiving
pub mod Bodies
pub mod Separate
pub mod Appends
pub mod Mixed
pub mod Apart
pub mod ApartEnds
pub mod Unshared
pub mod Registered
pub mod Sorted
pub mod Page
pub mod Listed
pub mod Sweep
pub mod Opening
pub mod Opened
pub mod Restart
use http_debug.Base.{
  ℕ, Bool, true, false, not, ◌&&◌, ◌==◌, ltb, Option, none, some, List, [], ◌∷◌, ◌++◌, Str, str_eq,
  length, take, if◌then◌else◌,
}
use http_debug.Base.Map.{lookup, insert, delete}
use http_debug.Time.{Time, Duration, after, is_zero, since, milliseconds}
use http_debug.Store.Entry.{Entry, Side, side_request, status_pending, status_done, status_error}
use http_debug.Store.Events.{Event, EventType, created, updated, delta, deleted, Broker, publish}
use http_debug.Store.Disk.{Disk, open_path}
use http_debug.Store.Blobs.{BlobStore, BodyBuffer, write_body, close_body, remove_for}
use http_debug.Store.Blobs.Directory.{remove_all}
use http_debug.Store.Memory.{
  MemStore, LiveEntry, new_live, mem_put, update_live, touch, snapshot, mem_list, stale_ids,
}
use http_debug.Store.Result.{Result, ok, err, not_found, failed}
use http_debug.Store.Action.{Outcome, Action, returns, panics, pure, after_result, ◌>>=◌, ◌>>◌}
use http_debug.Store.Sqlite.{Sqlite, SqlDb, db_insert, db_get, db_list, db_clear, apply_retention}

-- The event of an entry's change.
abbrev pub entry_event : EventType → Entry → Event
entry_event type e = record { type = type; id = e.id; entry = some e; chunk = [] }

-- What `Put` fills in.
abbrev pub registered : Str → Time → Entry → Entry
registered id now e = record e {
  id = id;
  started_at = if is_zero e.started_at then now else e.started_at;
  status = if length e.status == 0 then status_pending else e.status;
}

abbrev ended_at : Time → Option Time → Time
ended_at now none = now
ended_at now (some t) = t

-- What `Finalize` fills in, after the caller's change.
abbrev pub finished : Time → Entry → Entry
finished now e =
    let ended = ended_at now e.finished_at in
    record e {
      status = if str_eq e.status status_pending then status_done else e.status;
      finished_at = some ended;
      total_ms = elim e.total_ms [
        | none ↦ some (milliseconds (since ended e.started_at))
        | some ms ↦ some ms
      ];
    }

-- sort.SliceStable by `StartedAt`, the latest first: a stable sort has one result.
unfoldable pub insert_newest : Entry → List Entry → List Entry
insert_newest e [] = e ∷ []
insert_newest e (x ∷ xs) =
    if after x.started_at e.started_at then x ∷ insert_newest e xs else e ∷ x ∷ xs

unfoldable pub sort_newest : List Entry → List Entry
sort_newest [] = []
sort_newest (e ∷ es) = insert_newest e (sort_newest es)

abbrev pub done_or_failed : Bool → Result (Unit {0})
done_or_failed true = ok tt
done_or_failed false = err failed

abbrev pub delta_event : Str → Str → Event
delta_event id chunk = record { type = delta; id = id; entry = none; chunk = chunk }

module _ (sql : Sqlite) where
  pub record Store : Type 0 where
    pub mem : MemStore
    pub db : SqlDb sql
    pub blobs : BlobStore
    pub disk : Disk
    pub events : Broker
    pub max_entries : ℕ

module _ {sql : Sqlite} where
  abbrev pub published : Store sql → Option Broker → Outcome (Store sql) (Unit {0})
  published s none = panics
  published s (some b) = returns (ok tt) (record s { events = b })

  pub announce : Event → Action (Store sql) (Unit {0})
  announce ev s = published s (publish ev s.events)

  abbrev pub on_db : {A : Type 0} → (SqlDb sql → Result A × SqlDb sql) → Action (Store sql) A
  on_db q s = let (r, db) = q s.db in returns r (record s { db = db })

  -- Put, from the id on: `e` has it.
  unfoldable pub register : Time → Entry → Action (Store sql) Str
  unfolding announce
  register now e s =
      let s' = record s { mem = mem_put e now s.mem } in
      (announce (entry_event created (snapshot (new_live e now))) >> pure e.id) s'

  -- Put; `fresh` is what newID returns, none for an error
  unfoldable pub put : Option Str → Time → Entry → Action (Store sql) Str
  unfolding register
  put fresh now e s =
      if length e.id == 0
      then elim fresh [
        | none ↦ returns (err failed) s
        | some id ↦ register now (registered id now e) s
      ]
      else register now (registered e.id now e) s

  -- SetRequestBody
  unfoldable pub set_request_body : Str → Str → Action (Store sql) (Unit {0})
  set_request_body id body s = elim (lookup id s.mem) [
    | none ↦ returns (err not_found) s
    | some live ↦
        let (done, req, disk) = write_body s.blobs body live.req s.disk in
        returns (done_or_failed done)
          (record s { mem = insert id (record live { req = req }) s.mem; disk = disk })
  ]

  -- AppendResponse
  unfoldable pub append_response : Str → Str → Bool → Time → Action (Store sql) (Unit {0})
  unfolding announce
  append_response id chunk emit_delta now s = elim (lookup id s.mem) [
    | none ↦ returns (err not_found) s
    | some live ↦
        let (done, resp, disk) = write_body s.blobs chunk live.resp s.disk in
        let live' = record live { resp = resp } in
        elim done [
          | false ↦ returns (err failed) (record s { mem = insert id live' s.mem; disk = disk })
          | true ↦
              let s' = record s { mem = insert id (touch now live') s.mem; disk = disk } in
              if emit_delta && ltb 0 (length chunk)
              then announce (delta_event id chunk) s'
              else returns (ok tt) s'
        ]
  ]

  -- Update
  unfoldable pub update_entry : Str → (Entry → Entry) → Time → Action (Store sql) (Unit {0})
  unfolding announce
  update_entry id fn now s = elim (lookup id s.mem) [
    | none ↦ returns (err not_found) s
    | some live ↦
        let live' = update_live fn now live in
        announce (record (entry_event updated (snapshot live')) { id = id })
          (record s { mem = insert id live' s.mem })
  ]
