-- ===== src/Store/Ops/ApartEnds.antt =====
-- The methods that end entries leave the ones in flight with files of their own.
use http_debug.Base.{refl, Bool, true, false, Option, some, List, [], ◌∷◌, Str, length}
use http_debug.Base.Map.{insert, delete}
use http_debug.Time.{Time, Duration}
use http_debug.Store.Entry.{Entry}
use http_debug.Store.Disk.{Disk}
use http_debug.Store.Disk.Separate.{Evolves-refl}
use http_debug.Store.Blobs.{close_body, remove_for}
use http_debug.Store.Blobs.Directory.{remove_all}
use http_debug.Store.Blobs.Apart.{remove_for-Evolves, remove_all-Evolves}
use http_debug.Store.Memory.{LiveEntry, update_live, snapshot, stale_ids}
use http_debug.Store.Rows.{Codec}
use http_debug.Store.Action.{pure}
use http_debug.Store.Sqlite.{Sqlite, db_insert, db_clear, apply_retention}
use http_debug.Store.Ops.{Store, announce, on_db}
use http_debug.Store.Ops.Finish.{
  deleted_event, change_of, ended, give_up, purge, retire, finalize, sweep, sweep_pending,
  announce_deleted, cleared, clear,
}
use http_debug.Store.Ops.Separate.{
  Files, IsSeparate, Evolves-Separate, insert-Separate, delete-Separate, closed-OwnHandle,
}
use http_debug.Store.Ops.Apart.{Leaves, bind-Leaves, ignoring-Leaves, announce-Leaves, live_cases}

module _ {sql : Sqlite} where
  purge-Leaves : (ids : List Str) (s : Store sql) → IsSeparate s → Leaves (purge ids s)
  unfolding purge
  purge-Leaves [] s h = h
  purge-Leaves (id ∷ ids) s h =
      let s' = record s { disk = remove_for s.blobs id s.disk } in
      bind-Leaves (announce (deleted_event id)) (λ _. purge ids) s'
        (announce-Leaves _ s'
          (Evolves-Separate s.blobs s.mem (remove_for-Evolves s.blobs id s.disk) h))
        (λ _ s''. purge-Leaves ids s'')

  retire-Leaves : (id : Str) (e : Entry) (s : Store sql) → IsSeparate s → Leaves (retire id e s)
  unfolding retire
  retire-Leaves id e s h =
      let s' = record s { mem = delete id s.mem } in
      bind-Leaves (announce _) _ s'
        (announce-Leaves _ s' (delete-Separate s.blobs s.mem id s.disk h))
        (λ _ s₁ h₁.
          bind-Leaves (on_db (λ db. apply_retention sql s.max_entries db)) purge s₁ h₁
            (λ purged s₂. purge-Leaves purged s₂))

  -- An entry that ended has no open file.
  ended-Files :
      (s : Store sql) (id : Str) (fn : Entry → Entry) (now : Time) (live : LiveEntry)
      → Files s.blobs id live s.disk
      → Files s.blobs id (ended fn now live) s.disk
  unfolding close_body update_live
  ended-Files s id fn now live k = record {
    req = closed-OwnHandle s.blobs (ended fn now live).req s.disk refl;
    resp = closed-OwnHandle s.blobs (ended fn now live).resp s.disk refl;
    named = k.named;
  }

  pub finalize-Leaves :
      (json : Codec) (id : Str) (fn : Option (Entry → Entry)) (now : Time) (s : Store sql)
      → IsSeparate s
      → Leaves (finalize json id fn now s)
  unfolding finalize
  finalize-Leaves json id fn now s h = live_cases id s _ h (λ live e.
      let live' = ended (change_of fn) now live in
      let s' = record s { mem = insert id live' s.mem } in
      bind-Leaves (on_db (λ db. db_insert sql json (snapshot live') db)) _ s'
        (insert-Separate s.blobs s.mem id live' (Evolves-refl s.disk) h
          (ended-Files s id (change_of fn) now live (h.each id live e)))
        (λ _. retire-Leaves id (snapshot live')))

  sweep-Leaves :
      (json : Codec) (ids : List Str) (reason : Str) (now : Time) (s : Store sql)
      → IsSeparate s
      → Leaves (sweep json ids reason now s)
  unfolding sweep
  sweep-Leaves json [] reason now s h = h
  sweep-Leaves json (id ∷ ids) reason now s h =
      ignoring-Leaves (sweep json ids reason now) _
        (finalize-Leaves json id (some (give_up reason)) now s h)
        (λ s'. sweep-Leaves json ids reason now s')

  pub sweep_pending-Leaves :
      (json : Codec) (timeout : Duration) (reason : Str) (now : Time) (s : Store sql)
      → IsSeparate s
      → Leaves (sweep_pending json timeout reason now s)
  unfolding sweep_pending
  sweep_pending-Leaves json timeout reason now s h =
      let stale = stale_ids timeout now s.mem in
      bind-Leaves (sweep json stale reason now) (λ _. pure (length stale)) s
        (sweep-Leaves json stale reason now s h) (λ _ s' h'. h')

  announce_deleted-Leaves :
      (ids : List Str) (s : Store sql) → IsSeparate s → Leaves (announce_deleted ids s)
  unfolding announce_deleted
  announce_deleted-Leaves [] s h = h
  announce_deleted-Leaves (id ∷ ids) s h =
      bind-Leaves (announce (deleted_event id)) (λ _. announce_deleted ids) s
        (announce-Leaves _ s h) (λ _ s'. announce_deleted-Leaves ids s')

  cleared-Leaves :
      (r : Bool × Disk) (s : Store sql)
      → IsSeparate (record s { disk = r.1 })
      → Leaves (cleared r s)
  cleared-Leaves (true, d) s h = h
  cleared-Leaves (false, d) s h = h

  pub clear-Leaves : (s : Store sql) → IsSeparate s → Leaves (clear s)
  unfolding clear
  clear-Leaves s h = bind-Leaves (on_db (λ db. db_clear sql db)) _ s h (λ ids s₁ h₁.
      bind-Leaves (λ s'. cleared (remove_all s'.blobs s'.disk) s') _ s₁
        (cleared-Leaves _ s₁
          (Evolves-Separate s₁.blobs s₁.mem (remove_all-Evolves s₁.blobs s₁.disk) h₁))
        (λ _ s₂. announce_deleted-Leaves ids s₂))
