-- ===== src/Store/Ops/Untouched.antt =====
-- What the methods that read leave as it was: Get, List and Body.
use http_debug.Base.{ℕ, ◌≡◌, refl, ◌∙◌, ◌==◌, Option, none, some, Str, length, take, if_either}
use http_debug.Base.Map.{lookup}
use http_debug.Time.{Time}
use http_debug.Store.Entry.{Side}
use http_debug.Store.Disk.{Disk, open_path}
use http_debug.Store.Memory.{LiveEntry, snapshot}
use http_debug.Store.Result.{Result, ok}
use http_debug.Store.Rows.{Codec}
use http_debug.Store.Action.{returns}
use http_debug.Store.Sqlite.{Sqlite, SqlDb, exec, bound, db_get, db_list}
use http_debug.Store.Ops.{Store, on_db}
use http_debug.Store.Ops.Read.{get, list, body, body_of, opened_body, side_of, page_size}
use http_debug.Store.Ops.Sound.{Settles, settled, bind-Settles}

-- What a read leaves as it was: all but the outcomes that the disk and the database have to come.
pub record Untouched {sql : Sqlite} (s s' : Store sql) : Type 0 where
  pub mem : s'.mem ≡ s.mem
  pub table : s'.db.table ≡ s.db.table
  pub events : s'.events ≡ s.events
  pub names : s'.disk.names ≡ s.disk.names
  pub content : s'.disk.content ≡ s.disk.content

module _ {sql : Sqlite} where
  pub Untouched-refl : (s : Store sql) → Untouched s s
  Untouched-refl s = record {
    mem = refl;
    table = refl;
    events = refl;
    names = refl;
    content = refl;
  }

  pub Untouched-trans : {s t u : Store sql} → Untouched s t → Untouched t u → Untouched s u
  Untouched-trans h k = record {
    mem = k.mem ∙ h.mem;
    table = k.table ∙ h.table;
    events = k.events ∙ h.events;
    names = k.names ∙ h.names;
    content = k.content ∙ h.content;
  }

  exec_read-table :
      {A : Type 0} (q : sql.Table → A) (db : SqlDb sql)
      → (exec sql (λ t. (q t, t)) db).1.table ≡ db.table
  exec_read-table {A} q db =
      if_either (λ (x : Result A × SqlDb sql). x.1.table ≡ db.table) _ refl refl

  on_db-Untouched :
      {A : Type 0} (q : SqlDb sql → Result A × SqlDb sql) (s : Store sql)
      → (q s.db).1.table ≡ s.db.table
      → Settles sql (Untouched s) (on_db q s)
  on_db-Untouched q s e =
      settled (q s.db).0 (record s { db = (q s.db).1 })
        (record { mem = refl; table = e; events = refl; names = refl; content = refl })

  pub get-Untouched :
      (json : Codec) (id : Str) (s : Store sql) → Settles sql (Untouched s) (get json id s)
  unfolding get db_get
  get-Untouched json id s = go (lookup id s.mem)
    where
      go :
          (o : Option LiveEntry)
          → Settles sql (Untouched s) (elim o [
            | some live ↦ returns (ok (snapshot live)) s
            | none ↦ on_db (λ db. db_get sql json id db) s
          ])
      go none =
          on_db-Untouched (λ db. db_get sql json id db) s (exec_read-table (sql.select_row id) s.db)
      go (some live) = settled _ s (Untouched-refl s)

  pub list-Untouched :
      (json : Codec) (limit : ℕ) (cursor : Time) (s : Store sql)
      → Settles sql (Untouched s) (list json limit cursor s)
  unfolding list db_list
  list-Untouched json limit cursor s =
      bind-Settles (Untouched s) (on_db (λ db. db_list sql json (page_size limit) cursor db)) _ s
        (on_db-Untouched (λ db. db_list sql json (page_size limit) cursor db) s
          (exec_read-table (λ t. take (page_size limit) (sql.select_order (bound sql cursor) t))
            s.db))
        (λ rows s' h. settled _ s' h)

  with_disk-Untouched :
      (d : Disk) (s : Store sql)
      → d.names ≡ s.disk.names
      → d.content ≡ s.disk.content
      → Untouched s (record s { disk = d })
  with_disk-Untouched d s n c = record {
    mem = refl;
    table = refl;
    events = refl;
    names = n;
    content = c;
  }

  pub body-Untouched :
      (json : Codec) (id : Str) (side : Side) (s : Store sql)
      → Settles sql (Untouched s) (body json id side s)
  unfolding body open_path
  body-Untouched json id side s =
      bind-Settles (Untouched s) (get json id) (λ e. body_of (side_of side e)) s
        (get-Untouched json id s) (λ e s' h. go (side_of side e) s' h)
    where
      open_lem :
          (path : Str) (d : Disk)
          → ((open_path path d).1.names ≡ d.names) × ((open_path path d).1.content ≡ d.content)
      open_lem path d = (refl, refl)

      opened :
          (size : ℕ) (r : Option Str × Disk) (s' : Store sql)
          → Untouched s (record s' { disk = r.1 })
          → Settles sql (Untouched s) (opened_body size r s')
      opened size (none, d) s' h = settled _ _ h
      opened size (some b, d) s' h = settled _ _ h

      go :
          (t : Str × Str × ℕ) (s' : Store sql)
          → Untouched s s'
          → Settles sql (Untouched s) (body_of t s')
      go (path, inline, size) s' h =
          let k = open_lem path s'.disk in
          if_either (Settles sql (Untouched s)) (length path == 0) (settled _ s' h) (
            opened size (open_path path s'.disk) s'
              (Untouched-trans h (with_disk-Untouched (open_path path s'.disk).1 s' k.0 k.1)))
