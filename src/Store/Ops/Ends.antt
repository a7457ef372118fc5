-- ===== src/Store/Ops/Ends.antt =====
-- The methods that end entries keep a store sound.
use http_debug.Base.{refl, Bool, true, false, Option, some, List, [], ◌∷◌, Str, length}
use http_debug.Base.Map.{insert, delete}
use http_debug.Time.{Time, Duration}
use http_debug.Store.Entry.{Entry}
use http_debug.Store.Disk.{Disk}
use http_debug.Store.Blobs.{remove_for}
use http_debug.Store.Blobs.Directory.{remove_all}
use http_debug.Store.Memory.{snapshot, stale_ids}
use http_debug.Store.Rows.{Codec}
use http_debug.Store.Action.{Outcome, Action, pure, ignoring}
use http_debug.Store.Sqlite.{Sqlite, db_insert, db_clear, apply_retention}
use http_debug.Store.Sqlite.Keeps.{
  db_insert-StaysUnique, apply_retention-StaysUnique, db_clear-StaysUnique,
}
use http_debug.Store.Ops.{Store, announce, on_db}
use http_debug.Store.Ops.Finish.{
  deleted_event, change_of, ended, give_up, purge, retire, finalize, sweep, sweep_pending,
  announce_deleted, cleared, clear,
}
use http_debug.Store.Ops.Sound.{
  AllKeyed-delete, IsSound, settled, StaysSound, bind-StaysSound, announce-StaysSound,
  on_db-StaysSound,
}
use http_debug.Store.Ops.Keeps.{KeepsId, live_cases, with_live, ended-Keyed}

module _ {sql : Sqlite} where
  pub with_disk : (d : Disk) (s : Store sql) → IsSound sql s → IsSound sql (record s { disk = d })
  with_disk d s h = record { wired = h.wired; unique = h.unique; keyed = h.keyed }

  purge-StaysSound : (ids : List Str) (s : Store sql) → IsSound sql s → StaysSound (purge ids s)
  unfolding purge
  purge-StaysSound [] s h = settled _ s h
  purge-StaysSound (id ∷ ids) s h =
      let s' = record s { disk = remove_for s.blobs id s.disk } in
      bind-StaysSound (announce (deleted_event id)) (λ _. purge ids) s'
        (announce-StaysSound _ s' (with_disk _ s h)) (λ _ s''. purge-StaysSound ids s'')

  retire-StaysSound :
      (id : Str) (e : Entry) (s : Store sql) → IsSound sql s → StaysSound (retire id e s)
  unfolding retire
  retire-StaysSound id e s h =
      let s' = record s { mem = delete id s.mem } in
      bind-StaysSound (announce _) _ s'
        (announce-StaysSound _ s'
          (record { wired = h.wired; unique = h.unique; keyed = AllKeyed-delete id s.mem h.keyed }))
        (λ _ s₁ h₁.
          bind-StaysSound (on_db (λ db. apply_retention sql s.max_entries db)) purge s₁
            (on_db-StaysSound (λ db. apply_retention sql s.max_entries db) s₁ h₁
              (apply_retention-StaysUnique sql s.max_entries s₁.db h₁.unique))
            (λ purged s₂. purge-StaysSound purged s₂))

  pub finalize-StaysSound :
      (json : Codec) (id : Str) (fn : Option (Entry → Entry)) (now : Time) (s : Store sql)
      → KeepsId (change_of fn)
      → IsSound sql s
      → StaysSound (finalize json id fn now s)
  unfolding finalize
  finalize-StaysSound json id fn now s f h = live_cases id s _ h (λ live k.
      let live' = ended (change_of fn) now live in
      let s' = record s { mem = insert id live' s.mem } in
      let h' : IsSound sql s' = record {
        wired = h.wired;
        unique = h.unique;
        keyed = with_live id live' s h (ended-Keyed id (change_of fn) now live f k);
      } in
      bind-StaysSound (on_db (λ db. db_insert sql json (snapshot live') db)) _ s'
        (on_db-StaysSound (λ db. db_insert sql json (snapshot live') db) s' h'
          (db_insert-StaysUnique sql json (snapshot live') s'.db h'.unique))
        (λ _. retire-StaysSound id (snapshot live')))

  ignoring-StaysSound :
      {A B : Type 0} (k : Action (Store sql) B) (o : Outcome (Store sql) A)
      → StaysSound o
      → ((s : Store sql) → IsSound sql s → StaysSound (k s))
      → StaysSound (ignoring k o)
  ignoring-StaysSound k _ (settled r s h) go = go s h

  sweep-StaysSound :
      (json : Codec) (ids : List Str) (reason : Str) (now : Time) (s : Store sql)
      → IsSound sql s
      → StaysSound (sweep json ids reason now s)
  unfolding sweep
  sweep-StaysSound json [] reason now s h = settled _ s h
  sweep-StaysSound json (id ∷ ids) reason now s h =
      ignoring-StaysSound (sweep json ids reason now) _
        (finalize-StaysSound json id (some (give_up reason)) now s (λ e. refl) h)
        (λ s'. sweep-StaysSound json ids reason now s')

  announce_deleted-StaysSound :
      (ids : List Str) (s : Store sql) → IsSound sql s → StaysSound (announce_deleted ids s)
  unfolding announce_deleted
  announce_deleted-StaysSound [] s h = settled _ s h
  announce_deleted-StaysSound (id ∷ ids) s h =
      bind-StaysSound (announce (deleted_event id)) (λ _. announce_deleted ids) s
        (announce-StaysSound _ s h) (λ _ s'. announce_deleted-StaysSound ids s')

  cleared-StaysSound : (r : Bool × Disk) (s : Store sql) → IsSound sql s → StaysSound (cleared r s)
  cleared-StaysSound (true, d) s h = settled _ _ (with_disk d s h)
  cleared-StaysSound (false, d) s h = settled _ _ (with_disk d s h)

  pub clear-StaysSound : (s : Store sql) → IsSound sql s → StaysSound (clear s)
  unfolding clear
  clear-StaysSound s h =
      bind-StaysSound (on_db (λ db. db_clear sql db)) _ s
        (on_db-StaysSound (λ db. db_clear sql db) s h (db_clear-StaysUnique sql s.db h.unique))
        (λ ids s₁ h₁.
          bind-StaysSound (λ s'. cleared (remove_all s'.blobs s'.disk) s') _ s₁
            (cleared-StaysSound _ s₁ h₁) (λ _ s₂. announce_deleted-StaysSound ids s₂))

  pub sweep_pending-StaysSound :
      (json : Codec) (timeout : Duration) (reason : Str) (now : Time) (s : Store sql)
      → IsSound sql s
      → StaysSound (sweep_pending json timeout reason now s)
  unfolding sweep_pending
  sweep_pending-StaysSound json timeout reason now s h =
      let stale = stale_ids timeout now s.mem in
      bind-StaysSound (sweep json stale reason now) (λ _. pure (length stale)) s
        (sweep-StaysSound json stale reason now s h) (λ _ s' h'. settled _ s' h')
