-- ===== src/Store/Ops/Opening.antt =====
-- internal/store/store.go: New and Close. Whether the directories could be made, and what opening the
-- database gave, are arguments.
use http_debug.Base.{
  ℕ, ◌^◌, ◌==◌, Bool, true, false, not, Option, none, some, List, [], Str, codes, length, is_member,
  if◌then◌else◌,
}
use http_debug.Base.Int.{ℤ, pos, negsuc}
use http_debug.Store.Disk.{Disk}
use http_debug.Store.Blobs.{BlobStore, join}
use http_debug.Store.Blobs.Directory.{remove_orphans}
use http_debug.Store.Events.{Broker, new_broker, close}
use http_debug.Store.Result.{Result, ok, err, failed}
use http_debug.Store.Action.{Outcome, Action, returns, panics}
use http_debug.Store.Sqlite.{Sqlite, SqlDb, known_ids}
use http_debug.Store.Ops.{Store}

pub record Options : Type 0 where
  pub data_dir : Str
  pub max_inline_body_size : ℤ
  pub max_entries : ℤ

-- A limit that is not positive gives way to the default.
abbrev pub or_default : ℕ → ℤ → ℕ
or_default default (negsuc n) = default
or_default default (pos n) = if n == 0 then default else n

-- newBlobStore
abbrev pub new_blob_store : Str → ℕ → Bool → Option BlobStore
new_blob_store dir max_inline made =
    if made then some (record { dir = dir; max_inline = max_inline }) else none

-- The set of the known ids, none if the query failed.
abbrev pub known_set : Result (List Str) → Option (Str → Bool)
known_set (err e) = none
known_set (ok ids) = some (λ id. is_member id ids)

module _ {sql : Sqlite} where
  abbrev pub swept_store : Bool × Disk → Store sql → Result (Store sql) × Disk
  swept_store (false, d) s = (err failed, d)
  swept_store (true, d) s = (ok (record s { disk = d }), d)

  -- The end of `New`, with the database open.
  unfoldable pub opened_store : BlobStore → ℕ → SqlDb sql → Disk → Result (Store sql) × Disk
  unfolding known_ids remove_orphans new_broker
  opened_store blobs max_entries db d =
      let (ids, db') = known_ids sql db in
      swept_store (remove_orphans blobs (known_set ids) d) (record {
        mem = [];
        db = db';
        blobs = blobs;
        disk = d;
        events = new_broker;
        max_entries = max_entries;
      })

  abbrev pub with_db : ℕ → Option BlobStore → Option (SqlDb sql) → Disk → Result (Store sql) × Disk
  with_db max_entries none db d = (err failed, d)
  with_db max_entries (some blobs) none d = (err failed, d)
  with_db max_entries (some blobs) (some db) d = opened_store blobs max_entries db d

  -- New
  unfoldable pub new_store :
      Options → Bool → Bool → Option (SqlDb sql) → Disk → Result (Store sql) × Disk
  unfolding opened_store
  new_store opts made_data made_blobs db d =
      if length opts.data_dir == 0
      then (err failed, d)
      else if not made_data
      then (err failed, d)
      else with_db (or_default 1000 opts.max_entries)
          (new_blob_store (join opts.data_dir (codes "blobs"))
            (or_default (2 ^ 20) opts.max_inline_body_size) made_blobs)
          db d

  abbrev pub closed_store : Bool → Store sql → Option Broker → Outcome (Store sql) (Unit {0})
  closed_store closes s none = panics
  closed_store closes s (some b) =
      returns (if closes then ok tt else err failed) (record s { events = b })

  -- Close; `closes` is whether the database closes without an error.
  unfoldable pub close_store : Bool → Action (Store sql) (Unit {0})
  unfolding close
  close_store closes s = closed_store closes s (close s.events)
