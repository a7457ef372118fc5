-- ===== src/Store/Ops/Unshared.antt =====
-- Histories of calls of the store do not make two bodies share a file.
use http_debug.Base.{ℕ, ◌≡◌, subst, ◌==◌, Option, none, some, List, [], ◌∷◌, Str, length, if_either}
use http_debug.Base.Map.{lookup}
use http_debug.Time.{Time}
use http_debug.Store.Entry.{Entry, Side}
use http_debug.Store.Disk.{Disk, open_path}
use http_debug.Store.Disk.Separate.{spend-Evolves}
use http_debug.Store.Events.{Broker, drop}
use http_debug.Store.Memory.{LiveEntry, snapshot}
use http_debug.Store.Result.{ok}
use http_debug.Store.Rows.{Codec}
use http_debug.Store.Action.{Outcome, returns, panics}
use http_debug.Store.Sqlite.{Sqlite, db_get, db_list}
use http_debug.Store.Ops.{Store, on_db}
use http_debug.Store.Ops.Read.{get, list, body, body_of, opened_body, side_of, page_size}
use http_debug.Store.Ops.Sound.{IsSound}
use http_debug.Store.Ops.Calls.{
  Call, puts, sets_body, appends, updates, finalizes, sweeps, clears, subscribes, gets, lists,
  reads, receives, drops, done, with_broker, call, run_calls, AllKeepIds, run_calls-Left,
}
use http_debug.Store.Ops.Separate.{Separate, IsSeparate, Evolves-Separate}
use http_debug.Store.Ops.Apart.{
  Leaves, bind-Leaves, put-Leaves, set_request_body-Leaves, append_response-Leaves,
  update_entry-Leaves,
}
use http_debug.Store.Ops.ApartEnds.{finalize-Leaves, sweep_pending-Leaves, clear-Leaves}

module _ {sql : Sqlite} where
  get-Leaves : (json : Codec) (id : Str) (s : Store sql) → IsSeparate s → Leaves (get json id s)
  unfolding get
  get-Leaves json id s h = go (lookup id s.mem)
    where
      go :
          (o : Option LiveEntry)
          → (let x : Outcome (Store sql) Entry = elim o [
            | some live ↦ returns (ok (snapshot live)) s
            | none ↦ on_db (λ db. db_get sql json id db) s
          ] in
              Leaves x)
      go none = h
      go (some live) = h

  list-Leaves :
      (json : Codec) (limit : ℕ) (cursor : Time) (s : Store sql)
      → IsSeparate s
      → Leaves (list json limit cursor s)
  unfolding list
  list-Leaves json limit cursor s h =
      bind-Leaves (on_db (λ db. db_list sql json (page_size limit) cursor db)) _ s h
        (λ rows s' h'. h')

  body-Leaves :
      (json : Codec) (id : Str) (side : Side) (s : Store sql)
      → IsSeparate s
      → Leaves (body json id side s)
  unfolding body open_path
  body-Leaves json id side s h =
      bind-Leaves (get json id) (λ e. body_of (side_of side e)) s (get-Leaves json id s h)
        (λ e s' h'. go (side_of side e) s' h')
    where
      opened :
          (size : ℕ) (r : Option Str × Disk) (s' : Store sql)
          → IsSeparate (record s' { disk = r.1 })
          → Leaves (opened_body size r s')
      opened size (none, d) s' h' = h'
      opened size (some b, d) s' h' = h'

      go : (t : Str × Str × ℕ) (s' : Store sql) → IsSeparate s' → Leaves (body_of t s')
      go (path, inline, size) s' h' = if_either Leaves (length path == 0) h' (
          opened size (open_path path s'.disk) s'
            (Evolves-Separate s'.blobs s'.mem (spend-Evolves s'.disk) h'))

  -- The state, if there is one, has entries with files of their own.
  abbrev Keeps : Option (Store sql) → Type 0
  Keeps none = Unit
  Keeps (some s) = IsSeparate s

  done-Keeps : {A : Type 0} (o : Outcome (Store sql) A) → Leaves o → Keeps (done o)
  done-Keeps (returns r s) h = h
  done-Keeps panics h = tt

  call-Keeps : (json : Codec) (c : Call) (s : Store sql) → IsSeparate s → Keeps (call json c s)
  unfolding call
  call-Keeps json (puts fresh now e) s h = done-Keeps _ (put-Leaves fresh now e s h)
  call-Keeps json (sets_body id b) s h = done-Keeps _ (set_request_body-Leaves id b s h)
  call-Keeps json (appends id chunk emit_delta now) s h =
      done-Keeps _ (append_response-Leaves id chunk emit_delta now s h)
  call-Keeps json (updates id fn now) s h = done-Keeps _ (update_entry-Leaves id fn now s h)
  call-Keeps json (finalizes id fn now) s h = done-Keeps _ (finalize-Leaves json id fn now s h)
  call-Keeps json (sweeps timeout reason now) s h =
      done-Keeps _ (sweep_pending-Leaves json timeout reason now s h)
  call-Keeps json clears s h = done-Keeps _ (clear-Leaves s h)
  call-Keeps json (gets id) s h = done-Keeps _ (get-Leaves json id s h)
  call-Keeps json (lists limit cursor) s h = done-Keeps _ (list-Leaves json limit cursor s h)
  call-Keeps json (reads id side) s h = done-Keeps _ (body-Leaves json id side s h)
  call-Keeps json subscribes s h = h
  call-Keeps json (receives ch) s h = h
  call-Keeps json (drops ch) s h = go (drop ch s.events)
    where
      go : (o : Option Broker) → Keeps (with_broker s o)
      go none = tt
      go (some b) = h

  run_calls-Keeps :
      (json : Codec) (cs : List Call) (s : Store sql) → IsSeparate s → Keeps (run_calls json cs s)
  unfolding run_calls
  run_calls-Keeps json [] s h = h
  run_calls-Keeps json (c ∷ cs) s h =
      go (call json c s) (call-Keeps json c s h) (λ s' h'. run_calls-Keeps json cs s' h')
    where
      go :
          (o : Option (Store sql))
          → Keeps o
          → ((s' : Store sql) → IsSeparate s' → Keeps (run_calls json cs s'))
          → (let x : Option (Store sql) = elim o [ none ↦ none | some s' ↦ run_calls json cs s' ] in
              Keeps x)
      go none h rest = tt
      go (some s') h rest = rest s' h

  -- From a sound store whose files and handles are apart, every history of calls, whatever statements and
  -- file operations fail, leaves such a store: no two names lead to one inode, and no name but a body's own
  -- path leads to the file that the buffer of this body has open.
  pub run_calls-Separate :
      (json : Codec) (cs : List Call) (s : Store sql)
      → AllKeepIds cs
      → IsSound sql s
      → Separate s.blobs s.mem s.disk
      → (s' : Store sql) × (run_calls json cs s ≡ some s') × Separate s'.blobs s'.mem s'.disk
  run_calls-Separate json cs s f h k =
      let l = run_calls-Left json cs s f h in
      (l.state, l.reached, subst Keeps l.reached (run_calls-Keeps json cs s k))
