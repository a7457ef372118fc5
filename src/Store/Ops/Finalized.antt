-- ===== src/Store/Ops/Finalized.antt =====
-- What Finalize leaves where the database does not fail.
use http_debug.Base.{
  ◌≡◌, ◌≢◌, refl, ap, ◌∙◌, Option, none, some, List, [], ◌∷◌, Str, str_eq, str_eq_iff, arith,
  if◌then◌else◌, subst,
}
use http_debug.Base.Map.{lookup, insert, delete, lookup-insert, lookup-delete}
use http_debug.Time.{Time, Duration}
use http_debug.Store.Entry.{Entry, status_pending, status_done}
use http_debug.Store.Disk.{Disk}
use http_debug.Store.Blobs.{BlobStore, remove_for}
use http_debug.Store.Events.{Event, Broker, updated}
use http_debug.Store.Events.FanOut.{IsWired, fan_out, publish-fan_out}
use http_debug.Store.Events.Wired.{fan_out-IsWired}
use http_debug.Store.Memory.{LiveEntry, snapshot, update_live}
use http_debug.Store.Result.{Result, ok}
use http_debug.Store.Rows.{Codec, Row, to_row}
use http_debug.Store.Action.{Outcome, returns, after_result, ◌>>=◌, ◌>>◌}
use http_debug.Store.Sqlite.{Sqlite, SqlDb, without, insert_values, db_insert, apply_retention}
use http_debug.Store.Sqlite.Keeps.{HasUniqueIds, db_insert-StaysUnique}
use http_debug.Store.Sqlite.Retention.{Retained, apply_retention-Retained, exec_lem}
use http_debug.Store.Ops.{Store, announce, on_db, entry_event}
use http_debug.Store.Ops.Finish.{deleted_event, change_of, ended, purge, retire, finalize}
use http_debug.Store.Ops.Sound.{IsSound}

-- The files of some ids, removed.
abbrev pub removed_for : BlobStore → List Str → Disk → Disk
removed_for b [] d = d
removed_for b (id ∷ ids) d = removed_for b ids (remove_for b id d)

-- The deletions of some ids, told to every subscriber.
abbrev pub told_deleted : List Str → Broker → Broker
told_deleted [] b = b
told_deleted (id ∷ ids) b = told_deleted ids (fan_out (deleted_event id) b)

abbrev pub update_event : Str → Entry → Event
update_event id e = record (entry_event updated e) { id = id }

-- The entry that becomes a row.
abbrev pub final_entry : Option (Entry → Entry) → Time → LiveEntry → Entry
final_entry fn now live = snapshot (ended (change_of fn) now live)

-- The status of an entry that is over, and the times that it has.
pub record IsOver (e : Entry) : Type 0 where
  pub status : e.status ≢ status_pending
  pub finished_at : (t : Time) × (e.finished_at ≡ some t)
  pub total_ms : (ms : Duration) × (e.total_ms ≡ some ms)

not_pending : (st : Str) → (if str_eq st status_pending then status_done else st) ≢ status_pending
not_pending st e = ground (arith, str_eq_iff st status_pending)

duration :
    (o : Option Duration) (d : Duration)
    → (ms : Duration) × (elim o [ none ↦ some d | some ms ↦ some ms ] ≡ some ms)
duration none d = (d, refl)
duration (some ms) d = (ms, refl)

pub final_entry-IsOver :
    (fn : Option (Entry → Entry)) (now : Time) (live : LiveEntry) → IsOver (final_entry fn now live)
unfolding snapshot update_live
final_entry-IsOver fn now live = record {
  status = not_pending (change_of fn live.entry).status;
  finished_at = (_, refl);
  total_ms = duration (change_of fn live.entry).total_ms _;
}

module _ {sql : Sqlite} where
  pub announce_lem :
      (ev : Event) (s : Store sql)
      → IsWired s.events
      → announce ev s ≡ returns (ok tt) (record s { events = fan_out ev s.events })
  unfolding announce
  announce_lem ev s w = rw (publish-fan_out ev s.events w)

  abbrev after_purge : List Str → Store sql → Store sql
  after_purge ids s = record s {
    disk = removed_for s.blobs ids s.disk;
    events = told_deleted ids s.events;
  }

  purge_lem :
      (ids : List Str) (s : Store sql)
      → IsWired s.events
      → purge ids s ≡ returns (ok tt) (after_purge ids s)
  unfolding purge
  purge_lem [] s w = refl
  purge_lem (id ∷ ids) s w =
      let s' = record s { disk = remove_for s.blobs id s.disk } in
      ap (after_result (λ _. purge ids)) (announce_lem (deleted_event id) s' w)
      ∙ purge_lem ids (record s' { events = fan_out (deleted_event id) s.events })
          (fan_out-IsWired (deleted_event id) s.events w)

  -- The store after an entry has become a row: `inserted` is the history before retention.
  pub record Retired (id : Str) (e : Entry) (s : Store sql) (o : Outcome (Store sql) (Unit {0}))
      : Type 0 where
    pub final : Store sql
    pub returned : o ≡ returns (ok tt) final
    pub gone : (j : Str) → lookup j final.mem ≡ (if str_eq id j then none else lookup j s.mem)
    pub victims : List Str
    pub retained : Retained sql s.max_entries s.db victims final.db
    pub files : final.disk ≡ removed_for s.blobs victims s.disk
    pub told : final.events ≡ told_deleted victims (fan_out (update_event id e) s.events)

  retire-Retired :
      (id : Str) (e : Entry) (s : Store sql)
      → IsWired s.events
      → HasUniqueIds sql s.db
      → s.db.faults ≡ []
      → Retired id e s (retire id e s)
  unfolding retire
  retire-Retired id e s w u f =
      let s' = record s { mem = delete id s.mem } in
      let s₁ = record s' { events = fan_out (update_event id e) s.events } in
      let r = apply_retention-Retained sql s.max_entries s.db u f in
      record {
        final = after_purge r.0 (record s₁ { db = r.1 });
        returned =
            ap (after_result (λ _. on_db (λ db. apply_retention sql s.max_entries db) >>= purge))
              (announce_lem (update_event id e) s' w)
            ∙ ap
                (λ (x : Result (List Str) × SqlDb sql).
                  after_result purge (returns x.0 (record s₁ { db = x.1 })))
                r.2
            ∙ purge_lem r.0 (record s₁ { db = r.1 })
                (fan_out-IsWired (update_event id e) s.events w);
        gone = λ j. lookup-delete id j s.mem;
        victims = r.0;
        retained = r.3;
        files = refl;
        told = refl;
      }

  -- The store with the entry's last change, and its buffers closed.
  abbrev pub closed_in : Str → Option (Entry → Entry) → Time → LiveEntry → Store sql → Store sql
  closed_in id fn now live s = record s { mem = insert id (ended (change_of fn) now live) s.mem }

  pub finalize_lem :
      (json : Codec) (id : Str) (fn : Option (Entry → Entry)) (now : Time) (live : LiveEntry)
      (s : Store sql)
      → lookup id s.mem ≡ some live
      → finalize json id fn now s
        ≡ (on_db (λ db. db_insert sql json (final_entry fn now live) db)
              >> retire id (final_entry fn now live))
            (closed_in id fn now live s)
  unfolding finalize
  finalize_lem json id fn now live s e = rw (finalize, e) refl

  -- `inserted` is the history with the new row, before retention.
  pub record Finalized (json : Codec) (id : Str) (e : Entry) (s : Store sql)
      (o : Outcome (Store sql) (Unit {0})) : Type 0 where
    pub row : Row
    pub columns : to_row json e ≡ some row
    pub inserted : SqlDb sql
    pub rows : sql.rows inserted.table ≡ row ∷ without row.id (sql.rows s.db.table)
    pub retired : Retired id e (record s { db = inserted }) o

  pub finalize-Finalized_wired :
      (json : Codec) (id : Str) (fn : Option (Entry → Entry)) (now : Time) (live : LiveEntry)
      (row : Row) (s : Store sql)
      → IsWired s.events
      → HasUniqueIds sql s.db
      → lookup id s.mem ≡ some live
      → to_row json (final_entry fn now live) ≡ some row
      → s.db.faults ≡ []
      → IsOver (final_entry fn now live)
        × Finalized json id (final_entry fn now live) s (finalize json id fn now s)
  unfolding db_insert
  finalize-Finalized_wired json id fn now live row s wired unique found columns f =
      let e = final_entry fn now live in
      let inserted : SqlDb sql = record { table = sql.insert_row row s.db.table; faults = [] } in
      let s' = record (closed_in id fn now live s) { db = inserted } in
      let inserts : db_insert sql json e s.db ≡ (ok tt, inserted) =
        ap (λ o. insert_values sql o s.db) columns
        ∙ exec_lem sql (λ t. (tt, sql.insert_row row t)) s.db f in
      let r =
        retire-Retired id e s' wired
          (subst (HasUniqueIds sql) (ap (λ x. x.1) inserts)
            (db_insert-StaysUnique sql json e s.db unique).ids)
          refl in
      (
        final_entry-IsOver fn now live,
        record {
          row = row;
          columns = columns;
          inserted = inserted;
          rows = sql.rows-insert_row row s.db.table;
          retired = record {
            final = r.final;
            returned =
                finalize_lem json id fn now live s found
                ∙ ap
                    (λ (x : Result (Unit {0}) × SqlDb sql).
                      after_result (λ _. retire id e)
                        (returns x.0 (record (closed_in id fn now live s) { db = x.1 })))
                    inserts
                ∙ r.returned;
            gone = λ j.
                r.gone j ∙ ground (arith, lookup-insert id j (ended (change_of fn) now live) s.mem);
            victims = r.victims;
            retained = r.retained;
            files = r.files;
            told = r.told;
          };
        },
      )

  -- On a sound store, for an entry in flight whose headers have a JSON text, with no statement
  -- failing: Finalize succeeds. The entry is over (not pending, with its end and its duration), its
  -- row takes the place of any row of its id, and it has left the memory, where nothing else changes.
  -- Retention then leaves the newest rows up to the cap; the body files of the rows that it removed
  -- are removed; and every subscriber with room is told of the update, then of each deletion.
  pub finalize-Finalized :
      (json : Codec) (id : Str) (fn : Option (Entry → Entry)) (now : Time) (live : LiveEntry)
      (row : Row) (s : Store sql)
      → IsSound sql s
      → lookup id s.mem ≡ some live
      → to_row json (final_entry fn now live) ≡ some row
      → s.db.faults ≡ []
      → IsOver (final_entry fn now live)
        × Finalized json id (final_entry fn now live) s (finalize json id fn now s)
  finalize-Finalized json id fn now live row s h =
      finalize-Finalized_wired json id fn now live row s h.wired h.unique
