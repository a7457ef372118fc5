-- ===== src/Store/Ops/Unfinished.antt =====
-- What Finalize leaves where the insertion fails.
use http_debug.Base.{
  ◌≡◌, ◌⊎◌, if_true, refl, ap, ◌∙◌, true, Option, none, some, Str, str_eq, if◌then◌else◌, inl, inr,
}
use http_debug.Base.Map.{lookup, lookup-insert}
use http_debug.Time.{Time}
use http_debug.Store.Entry.{Entry}
use http_debug.Store.Blobs.{close_body}
use http_debug.Store.Memory.{LiveEntry, snapshot, update_live}
use http_debug.Store.Result.{Result, err, failed}
use http_debug.Store.Rows.{Codec, Row, to_row}
use http_debug.Store.Action.{Outcome, returns, after_result}
use http_debug.Store.Sqlite.{Sqlite, SqlDb, insert_values, db_insert, fault_of, faults_after}
use http_debug.Store.Ops.{Store}
use http_debug.Store.Ops.Finish.{change_of, ended, retire, finalize}
use http_debug.Store.Ops.Finalized.{
  IsOver, final_entry, final_entry-IsOver, closed_in, finalize_lem,
}

module _ {sql : Sqlite} where
  -- The store behind an insertion that failed.
  pub record Unfinished (id : Str) (live' : LiveEntry) (s : Store sql)
      (o : Outcome (Store sql) (Unit {0})) : Type 0 where
    pub final : Store sql
    pub returned : o ≡ returns (err failed) final
    pub in_flight :
        (j : Str) → lookup j final.mem ≡ (if str_eq id j then some live' else lookup j s.mem)
    pub table : final.db.table ≡ s.db.table
    pub disk : final.disk ≡ s.disk
    pub events : final.events ≡ s.events

  insertion_fails :
      (json : Codec) (e : Entry) (db : SqlDb sql)
      → (to_row json e ≡ none) ⊎ (fault_of sql db.faults ≡ true)
      → (db' : SqlDb sql) × (db_insert sql json e db ≡ (err failed, db')) × (db'.table ≡ db.table)
  unfolding db_insert
  insertion_fails json e db (inl none_) = (db, ap (λ o. insert_values sql o db) none_, refl)
  insertion_fails json e db (inr fault) = go (to_row json e)
    where
      go :
          (o : Option Row)
          → (db' : SqlDb sql) × (insert_values sql o db ≡ (err failed, db'))
            × (db'.table ≡ db.table)
      go none = (db, refl, refl)
      go (some r) = (record db { faults = faults_after sql db.faults }, if_true _ _ fault, refl)

  -- For an entry in flight, where its headers have no JSON text or the insertion fails: Finalize
  -- reports the error. The history, the body files and the subscribers see nothing of it. The entry
  -- stays in memory, but it is over there and its buffers are closed.
  pub finalize-Unfinished :
      (json : Codec) (id : Str) (fn : Option (Entry → Entry)) (now : Time) (live : LiveEntry)
      (s : Store sql)
      → lookup id s.mem ≡ some live
      → (to_row json (final_entry fn now live) ≡ none) ⊎ (fault_of sql s.db.faults ≡ true)
      → let live' = ended (change_of fn) now live in
        IsOver (snapshot live')
        × (live'.req.file ≡ none)
        × (live'.resp.file ≡ none)
        × Unfinished id live' s (finalize json id fn now s)
  unfolding update_live close_body
  finalize-Unfinished json id fn now live s found fails =
      let e = final_entry fn now live in
      let i = insertion_fails json e s.db fails in
      let s' = closed_in id fn now live s in
      (
        final_entry-IsOver fn now live,
        refl,
        refl,
        record {
          final = record s' { db = i.0 };
          returned =
              finalize_lem json id fn now live s found
              ∙ ap
                  (λ (x : Result (Unit {0}) × SqlDb sql).
                    after_result (λ _. retire id e) (returns x.0 (record s' { db = x.1 })))
                  i.1;
          in_flight = λ j. lookup-insert id j (ended (change_of fn) now live) s.mem;
          table = i.2;
          disk = refl;
          events = refl;
        },
      )
