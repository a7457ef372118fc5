-- ===== src/Store/Ops/Calls.antt =====
-- Histories of calls of the store: the methods, the calls of its broker's subscribers, and what every
-- such history keeps.
use http_debug.Base.{
  ℕ, ◌≡◌, refl, sym, ap, ◌∙◌, Bool, Option, none, some, List, [], ◌∷◌, Str, subst, length, take,
  ◌==◌, if_either,
}
use http_debug.Time.{Time, Duration}
use http_debug.Base.Map.{lookup}
use http_debug.Store.Entry.{Entry, Side}
use http_debug.Store.Disk.{Disk, open_path}
use http_debug.Store.Events.{Broker, subscribe, receive, drop}
use http_debug.Store.Events.FanOut.{IsWired}
use http_debug.Store.Events.Wired.{
  subscribe-IsWired, drop_lem, dropped-IsWired, receive_cases, left_with-IsWired,
}
use http_debug.Store.Memory.{LiveEntry, snapshot}
use http_debug.Store.Result.{ok}
use http_debug.Store.Rows.{Codec}
use http_debug.Store.Action.{Outcome, returns, panics}
use http_debug.Store.Sqlite.{Sqlite, bound, db_get, db_list}
use http_debug.Store.Sqlite.Keeps.{StaysUnique, exec_read-StaysUnique}
use http_debug.Store.Ops.{Store, on_db, put, set_request_body, append_response, update_entry}
use http_debug.Store.Ops.Finish.{change_of, finalize, sweep_pending, clear}
use http_debug.Store.Ops.Read.{get, list, body, body_of, opened_body, side_of, page_size}
use http_debug.Store.Ops.Sound.{IsSound, settled, StaysSound, bind-StaysSound, on_db-StaysSound}
use http_debug.Store.Ops.Keeps.{
  KeepsId, put-StaysSound, set_request_body-StaysSound, append_response-StaysSound,
  update_entry-StaysSound,
}
use http_debug.Store.Ops.Ends.{
  with_disk, finalize-StaysSound, sweep_pending-StaysSound, clear-StaysSound,
}

pub data Call : Type 0 where
  puts : Option Str → Time → Entry → Call
  sets_body : Str → Str → Call
  appends : Str → Str → Bool → Time → Call
  updates : Str → (Entry → Entry) → Time → Call
  finalizes : Str → Option (Entry → Entry) → Time → Call
  sweeps : Duration → Str → Time → Call
  clears subscribes : Call
  gets : Str → Call
  lists : ℕ → Time → Call
  reads : Str → Side → Call
  receives drops : ℕ → Call

abbrev pub done : {S A : Type 0} → Outcome S A → Option S
done (returns r s) = some s
done panics = none

-- The callers' changes leave the ids alone.
abbrev pub CallKeepsId : Call → Type 0
CallKeepsId (updates id fn now) = KeepsId fn
CallKeepsId (finalizes id fn now) = KeepsId (change_of fn)
CallKeepsId _ = Unit

abbrev pub AllKeepIds : List Call → Type 0
AllKeepIds [] = Unit
AllKeepIds (c ∷ cs) = CallKeepsId c × AllKeepIds cs

module _ {sql : Sqlite} where
  abbrev pub with_broker : Store sql → Option Broker → Option (Store sql)
  with_broker s none = none
  with_broker s (some b) = some (record s { events = b })

  -- The state after a call; `none` is a panic.
  unfoldable pub call : Codec → Call → Store sql → Option (Store sql)
  call json (puts fresh now e) s = done (put fresh now e s)
  call json (sets_body id b) s = done (set_request_body id b s)
  call json (appends id chunk emit now) s = done (append_response id chunk emit now s)
  call json (updates id fn now) s = done (update_entry id fn now s)
  call json (finalizes id fn now) s = done (finalize json id fn now s)
  call json (sweeps timeout reason now) s = done (sweep_pending json timeout reason now s)
  call json clears s = done (clear s)
  call json (gets id) s = done (get json id s)
  call json (lists limit cursor) s = done (list json limit cursor s)
  call json (reads id side) s = done (body json id side s)
  call json subscribes s = some (record s { events = (subscribe s.events).1 })
  call json (receives ch) s = some (record s { events = (receive ch s.events).1 })
  call json (drops ch) s = with_broker s (drop ch s.events)

  unfoldable pub run_calls : Codec → List Call → Store sql → Option (Store sql)
  run_calls json [] s = some s
  run_calls json (c ∷ cs) s = elim (call json c s) [ none ↦ none | some s' ↦ run_calls json cs s' ]

  -- The state that a call leaves.
  pub record Left (o : Option (Store sql)) : Type 0 where
    pub state : Store sql
    pub reached : o ≡ some state
    pub sound : IsSound sql state

  pub done-Left : {A : Type 0} {o : Outcome (Store sql) A} → StaysSound o → Left (done o)
  done-Left (settled r s h) = record { state = s; reached = refl; sound = h }

  with_events :
      (b : Broker) (s : Store sql)
      → IsWired b
      → IsSound sql s
      → IsSound sql (record s { events = b })
  with_events b s w h = record { wired = w; unique = h.unique; keyed = h.keyed }

  pub get-StaysSound :
      (json : Codec) (id : Str) (s : Store sql) → IsSound sql s → StaysSound (get json id s)
  unfolding get db_get
  get-StaysSound json id s h = go (lookup id s.mem)
    where
      read : StaysUnique sql (db_get sql json id s.db)
      read = record { ids = (exec_read-StaysUnique sql (sql.select_row id) s.db h.unique).ids }

      go :
          (o : Option LiveEntry)
          → StaysSound (elim o [
            | some live ↦ returns (ok (snapshot live)) s
            | none ↦ on_db (λ db. db_get sql json id db) s
          ])
      go none = on_db-StaysSound (λ db. db_get sql json id db) s h read
      go (some live) = settled _ s h

  pub list-StaysSound :
      (json : Codec) (limit : ℕ) (cursor : Time) (s : Store sql)
      → IsSound sql s
      → StaysSound (list json limit cursor s)
  unfolding list db_list
  list-StaysSound json limit cursor s h =
      bind-StaysSound (on_db (λ db. db_list sql json (page_size limit) cursor db)) _ s
        (on_db-StaysSound (λ db. db_list sql json (page_size limit) cursor db) s h
          (record {
            ids =
                (exec_read-StaysUnique sql
                  (λ t. take (page_size limit) (sql.select_order (bound sql cursor) t)) s.db
                  h.unique).ids;
          }))
        (λ rows s' h'. settled _ s' h')

  pub body-StaysSound :
      (json : Codec) (id : Str) (side : Side) (s : Store sql)
      → IsSound sql s
      → StaysSound (body json id side s)
  unfolding body
  body-StaysSound json id side s h =
      bind-StaysSound (get json id) (λ e. body_of (side_of side e)) s (get-StaysSound json id s h)
        (λ e s' h'. go (side_of side e) s' h')
    where
      opened :
          (size : ℕ) (r : Option Str × Disk) (s' : Store sql)
          → IsSound sql s'
          → StaysSound (opened_body size r s')
      opened size (none, d) s' h' = settled _ _ (with_disk d s' h')
      opened size (some b, d) s' h' = settled _ _ (with_disk d s' h')

      go : (t : Str × Str × ℕ) (s' : Store sql) → IsSound sql s' → StaysSound (body_of t s')
      go (path, inline, size) s' h' =
          if_either StaysSound (length path == 0) (settled _ s' h')
            (opened size (open_path path s'.disk) s' h')

  drop-Left : (ch : ℕ) (s : Store sql) → IsSound sql s → Left (with_broker s (drop ch s.events))
  drop-Left ch s h =
      subst (λ o. Left (with_broker s o)) (sym (drop_lem ch s.events h.wired))
        (record {
          state = _;
          reached = refl;
          sound =
              with_events _ s (if_either IsWired _ (dropped-IsWired ch s.events h.wired) h.wired) h;
        })

  pub call-Left :
      (json : Codec) (c : Call) (s : Store sql)
      → CallKeepsId c
      → IsSound sql s
      → Left (call json c s)
  unfolding call
  call-Left json (puts fresh now e) s f h = done-Left (put-StaysSound fresh now e s h)
  call-Left json (sets_body id b) s f h = done-Left (set_request_body-StaysSound id b s h)
  call-Left json (appends id chunk emit now) s f h =
      done-Left (append_response-StaysSound id chunk emit now s h)
  call-Left json (updates id fn now) s f h = done-Left (update_entry-StaysSound id fn now s f h)
  call-Left json (finalizes id fn now) s f h = done-Left (finalize-StaysSound json id fn now s f h)
  call-Left json (sweeps timeout reason now) s f h =
      done-Left (sweep_pending-StaysSound json timeout reason now s h)
  call-Left json clears s f h = done-Left (clear-StaysSound s h)
  call-Left json (gets id) s f h = done-Left (get-StaysSound json id s h)
  call-Left json (lists limit cursor) s f h = done-Left (list-StaysSound json limit cursor s h)
  call-Left json (reads id side) s f h = done-Left (body-StaysSound json id side s h)
  call-Left json subscribes s f h = record {
    state = record s { events = (subscribe s.events).1 };
    reached = refl;
    sound = with_events (subscribe s.events).1 s (subscribe-IsWired s.events h.wired) h;
  }
  call-Left json (receives ch) s f h = record {
    state = record s { events = (receive ch s.events).1 };
    reached = refl;
    sound =
        with_events (receive ch s.events).1 s
          (receive_cases (λ r. IsWired r.1) ch s.events (λ _. h.wired)
            (λ ev rest e. left_with-IsWired ev rest ch s.events e h.wired))
          h;
  }
  call-Left json (drops ch) s f h = drop-Left ch s h

  -- From a sound store, every history of calls returns, whatever statements and file operations fail,
  -- as long as the callers' changes leave the entries' ids alone: no call panics. The store that it
  -- leaves is sound: its broker is wired, no two rows of the history have one id, and each entry in
  -- flight is under its own id, with buffers for its own two bodies.
  pub run_calls-Left :
      (json : Codec) (cs : List Call) (s : Store sql)
      → AllKeepIds cs
      → IsSound sql s
      → Left (run_calls json cs s)
  unfolding run_calls
  run_calls-Left json [] s f h = record { state = s; reached = refl; sound = h }
  run_calls-Left json (c ∷ cs) s f h =
      let l = call-Left json c s f.0 h in
      let r = run_calls-Left json cs l.state f.1 l.sound in
      record {
        state = r.state;
        reached =
            ap (λ o. elim o [ none ↦ none | some s' ↦ run_calls json cs s' ]) l.reached ∙ r.reached;
        sound = r.sound;
      }
