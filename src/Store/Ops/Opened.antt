-- ===== src/Store/Ops/Opened.antt =====
-- A store that New gives is sound, whatever fails.
use http_debug.Base.{
  ℕ, Bool, true, false, not, ◌==◌, Option, none, some, [], length, if_either, ◌^◌,
}
use http_debug.Store.Disk.{Disk}
use http_debug.Store.Blobs.{BlobStore}
use http_debug.Store.Blobs.Directory.{remove_orphans}
use http_debug.Store.Events.{new_broker}
use http_debug.Store.Events.Wired.{new_broker-IsWired}
use http_debug.Store.Result.{Result, ok, err}
use http_debug.Store.Sqlite.{Sqlite, SqlDb, known_ids}
use http_debug.Store.Sqlite.Keeps.{HasUniqueIds, exec_read-StaysUnique}
use http_debug.Store.Ops.{Store}
use http_debug.Store.Ops.Sound.{IsSound, AllKeyed-empty}
use http_debug.Store.Ops.Opening.{
  Options, or_default, known_set, swept_store, opened_store, new_blob_store, with_db, new_store,
}

module _ {sql : Sqlite} where
  abbrev pub AllUnique : Option (SqlDb sql) → Type 0
  AllUnique none = Unit
  AllUnique (some db) = HasUniqueIds sql db

  -- The store, if there is one, is sound.
  abbrev pub OpensSound : Result (Store sql) × Disk → Type 0
  OpensSound (ok s, d) = IsSound sql s
  OpensSound (err e, d) = Unit

  opened_store-OpensSound :
      (blobs : BlobStore) (n : ℕ) (db : SqlDb sql) (d : Disk)
      → HasUniqueIds sql db
      → OpensSound (opened_store blobs n db d)
  unfolding opened_store known_ids
  opened_store-OpensSound blobs n db d u =
      let read = known_ids sql db in go (remove_orphans blobs (known_set read.0) d)
    where
      go :
          (x : Bool × Disk)
          → OpensSound (
              swept_store x (record {
                mem = [];
                db = (known_ids sql db).1;
                blobs = blobs;
                disk = d;
                events = new_broker;
                max_entries = n;
              }))
      go (false, d') = tt
      go (true, d') = record {
        wired = new_broker-IsWired;
        unique = (exec_read-StaysUnique sql sql.select_ids db u).ids;
        keyed = AllKeyed-empty;
      }

  pub new_store-OpensSound :
      (opts : Options) (made_data made_blobs : Bool) (db : Option (SqlDb sql)) (d : Disk)
      → AllUnique db
      → OpensSound (new_store opts made_data made_blobs db d)
  unfolding new_store
  new_store-OpensSound opts made_data made_blobs db d u =
      if_either OpensSound (length opts.data_dir == 0) tt (
        if_either OpensSound (not made_data) tt
          (go (new_blob_store _ (or_default (2 ^ 20) opts.max_inline_body_size) made_blobs) db u))
    where
      go :
          (b : Option BlobStore) (db : Option (SqlDb sql))
          → AllUnique db
          → OpensSound (with_db (or_default 1000 opts.max_entries) b db d)
      go none db u = tt
      go (some b) none u = tt
      go (some b) (some db) u = opened_store-OpensSound b _ db d u
