-- ===== src/Store/Ops/Restart.antt =====
-- What a new store has.
use http_debug.Base.{
  ◌<◌, ◌≡◌, refl, ap, ◌∙◌, true, false, ◌==◌, none, some, List, [], Str, codes, length, is_member,
  has, if◌then◌else◌, if_false,
}
use http_debug.Base.Map.{lookup}
use http_debug.Store.Entry.{Side}
use http_debug.Store.Disk.{Disk}
use http_debug.Store.Blobs.{BlobStore, path, join}
use http_debug.Store.Blobs.Directory.{remove_orphans}
use http_debug.Store.Blobs.Orphans.{remove_orphans-path}
use http_debug.Store.Events.{new_broker}
use http_debug.Store.Events.Wired.{new_broker-IsWired}
use http_debug.Store.Result.{Result, ok}
use http_debug.Store.Sqlite.{Sqlite, SqlDb, known_ids, row_ids}
use http_debug.Store.Sqlite.Retention.{exec_lem}
use http_debug.Store.Sqlite.Keeps.{HasUniqueIds}
use http_debug.Store.Ops.{Store}
use http_debug.Store.Ops.Sound.{IsSound, AllKeyed-empty}
use http_debug.Store.Ops.Opening.{
  Options, or_default, known_set, swept_store, opened_store, new_store,
}

module _ {sql : Sqlite} where
  -- A store as `New` gives it, over a history and a disk.
  pub record Started (opts : Options) (id : Str) (side : Side) (db : SqlDb sql) (d : Disk)
      (r : Result (Store sql) × Disk) : Type 0 where
    pub store : Store sql
    pub returned : r ≡ (ok store, store.disk)
    pub sound : IsSound sql store
    pub history : store.db.table ≡ db.table
    pub limits :
        (store.max_entries ≡ or_default 1000 opts.max_entries)
        × (store.blobs.max_inline ≡ or_default 1048576 opts.max_inline_body_size)
    pub files : lookup (path store.blobs id side) store.disk.names ≡ (
        if is_member id (row_ids (sql.rows db.table))
        then lookup (path store.blobs id side) d.names
        else none)

  -- The store before the orphans are removed.
  abbrev started_in : Options → BlobStore → SqlDb sql → Disk → Store sql
  started_in opts blobs db d = record {
    mem = [];
    db = db;
    blobs = blobs;
    disk = d;
    events = new_broker;
    max_entries = or_default 1000 opts.max_entries;
  }

  -- With a data directory that is there, a history whose ids are distinct, and no statement and no
  -- file operation failing: `New` gives a sound store over that history, with the limits of the
  -- options or their defaults, and keeps the body files of the entries of the history, and no
  -- others.
  pub new_store-Started :
      (opts : Options) (id : Str) (side : Side) (db : SqlDb sql) (d : Disk)
      → (length opts.data_dir == 0) ≡ false
      → HasUniqueIds sql db
      → db.faults ≡ []
      → d.faults ≡ []
      → 0 < length id
      → has b'-' side ≡ false
      → Started opts id side db d (new_store opts true true (some db) d)
  unfolding new_store opened_store known_ids lookup
  new_store-Started opts id side db d h u f g n k =
      let blobs : BlobStore = record {
        dir = join opts.data_dir (codes "blobs");
        max_inline = or_default 1048576 opts.max_inline_body_size;
      } in
      let ids = sql.select_ids db.table in
      let r = remove_orphans blobs (some (λ i. is_member i ids)) d in
      let kept = remove_orphans-path blobs (λ i. is_member i ids) id side d n k g in
      let base = λ (db' : SqlDb sql). started_in opts blobs db' d in
      let read : SqlDb sql = record { table = db.table; faults = [] } in
      record {
        store = record (base read) { disk = r.1 };
        returned =
            if_false _ _ h
            ∙ ap
                (λ (x : Result (List Str) × SqlDb sql).
                  swept_store (remove_orphans blobs (known_set x.0) d) (base x.1))
                (exec_lem sql (λ t. (sql.select_ids t, t)) db f)
            ∙ ap (λ b. swept_store (b, r.1) (base read)) kept.0;
        sound = record { wired = new_broker-IsWired; unique = u; keyed = AllKeyed-empty };
        history = refl;
        limits = (refl, refl);
        files =
            kept.1
            ∙ ap (λ b. if b then lookup (path blobs id side) d.names else none)
                (sql.select_ids_lem id db.table);
      }
