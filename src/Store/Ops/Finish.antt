-- ===== src/Store/Ops/Finish.antt =====
-- The methods of `Store` that end entries: Finalize, SweepPending and Clear.
use http_debug.Base.{
  ℕ, Bool, true, false, ◌==◌, Option, none, some, List, [], ◌∷◌, Str, length, if◌then◌else◌,
}
use http_debug.Base.Map.{lookup, insert, delete}
use http_debug.Time.{Time, Duration}
use http_debug.Store.Entry.{Entry, status_error}
use http_debug.Store.Disk.{Disk}
use http_debug.Store.Events.{Event, updated, deleted}
use http_debug.Store.Blobs.{close_body, remove_for}
use http_debug.Store.Blobs.Directory.{remove_all}
use http_debug.Store.Memory.{LiveEntry, update_live, snapshot, stale_ids}
use http_debug.Store.Result.{ok, err, not_found, failed}
use http_debug.Store.Rows.{Codec}
use http_debug.Store.Sqlite.{Sqlite, db_insert, db_clear, apply_retention}
use http_debug.Store.Ops.{Store, announce, on_db, entry_event, finished}
use http_debug.Store.Action.{Outcome, Action, returns, pure, ignoring, ◌>>=◌, ◌>>◌}

abbrev pub deleted_event : Str → Event
deleted_event id = record { type = deleted; id = id; entry = none; chunk = [] }

-- The caller's change, none for nil.
abbrev pub change_of : Option (Entry → Entry) → Entry → Entry
change_of none e = e
change_of (some f) e = f e

-- The entry after the last change, with the buffers closed.
abbrev pub ended : (Entry → Entry) → Time → LiveEntry → LiveEntry
ended fn now live =
    let l = update_live (λ e. finished now (fn e)) now live in
    record l { req = close_body l.req; resp = close_body l.resp }

-- The change that `SweepPending` makes; `reason` is its message.
abbrev pub give_up : Str → Entry → Entry
give_up reason e = record e {
  status = status_error;
  error = if length e.error == 0 then reason else e.error;
}

module _ {sql : Sqlite} where
  -- The loop over the purged ids.
  unfoldable pub purge : List Str → Action (Store sql) (Unit {0})
  unfolding announce
  purge [] s = returns (ok tt) s
  purge (id ∷ ids) s =
      (announce (deleted_event id) >> purge ids) (record s { disk = remove_for s.blobs id s.disk })

  -- The part of `Finalize` behind the insertion.
  unfoldable pub retire : Str → Entry → Action (Store sql) (Unit {0})
  unfolding purge
  retire id e s =
      (do
        announce (record (entry_event updated e) { id = id })
        purged ← on_db (λ db. apply_retention sql s.max_entries db)
        purge purged)
        (record s { mem = delete id s.mem })

  -- Finalize
  unfoldable pub finalize :
      Codec → Str → Option (Entry → Entry) → Time → Action (Store sql) (Unit {0})
  unfolding retire
  finalize json id fn now s = elim (lookup id s.mem) [
    | none ↦ returns (err not_found) s
    | some live ↦
        let live' = ended (change_of fn) now live in
        let e = snapshot live' in
        (do on_db (λ db. db_insert sql json e db); retire id e)
          (record s { mem = insert id live' s.mem })
  ]

  unfoldable pub sweep : Codec → List Str → Str → Time → Action (Store sql) (Unit {0})
  unfolding finalize
  sweep json [] reason now s = returns (ok tt) s
  sweep json (id ∷ ids) reason now s =
      ignoring (sweep json ids reason now) (finalize json id (some (give_up reason)) now s)

  -- SweepPending: the number of entries found idle
  unfoldable pub sweep_pending : Codec → Duration → Str → Time → Action (Store sql) ℕ
  unfolding sweep
  sweep_pending json timeout reason now s =
      let stale = stale_ids timeout now s.mem in
      (sweep json stale reason now >> pure (length stale)) s

  -- The loop over the cleared ids.
  unfoldable pub announce_deleted : List Str → Action (Store sql) (Unit {0})
  unfolding announce
  announce_deleted [] s = returns (ok tt) s
  announce_deleted (id ∷ ids) s = (announce (deleted_event id) >> announce_deleted ids) s

  abbrev pub cleared : Bool × Disk → Store sql → Outcome (Store sql) (Unit {0})
  cleared (true, d) s = returns (ok tt) (record s { disk = d })
  cleared (false, d) s = returns (err failed) (record s { disk = d })

  -- Clear
  unfoldable pub clear : Action (Store sql) (Unit {0})
  unfolding announce_deleted
  clear s =
      (do
        ids ← on_db (λ db. db_clear sql db)
        (λ s'. cleared (remove_all s'.blobs s'.disk) s')
        announce_deleted ids)
        s
