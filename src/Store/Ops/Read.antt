-- ===== src/Store/Ops/Read.antt =====
-- The methods of `Store` that read: Get, List and Body.
use http_debug.Base.{
  ℕ, ◌==◌, Option, none, some, List, ◌++◌, Str, str_eq, length, take, if◌then◌else◌,
}
use http_debug.Base.Map.{lookup}
use http_debug.Time.{Time}
use http_debug.Store.Entry.{Entry, Side, side_request}
use http_debug.Store.Disk.{Disk, open_path}
use http_debug.Store.Memory.{snapshot, mem_list}
use http_debug.Store.Result.{ok, err, failed}
use http_debug.Store.Rows.{Codec}
use http_debug.Store.Sqlite.{Sqlite, db_get, db_list}
use http_debug.Store.Ops.{Store, on_db, sort_newest}
use http_debug.Store.Action.{Outcome, Action, returns, ◌>>=◌}

-- The path, the bytes in memory and the size of one side.
abbrev pub side_of : Side → Entry → Str × Str × ℕ
side_of side e =
    if str_eq side side_request
    then (e.request_body_path, e.request_body, e.request_body_size)
    else (e.response_body_path, e.response_body, e.response_body_size)

-- A limit of zero stands for any that is not positive.
abbrev pub page_size : ℕ → ℕ
page_size limit = if limit == 0 then 100 else limit

module _ {sql : Sqlite} where
  -- Get
  unfoldable pub get : Codec → Str → Action (Store sql) Entry
  get json id s = elim (lookup id s.mem) [
    | some live ↦ returns (ok (snapshot live)) s
    | none ↦ on_db (λ db. db_get sql json id db) s
  ]

  -- List
  unfoldable pub list : Codec → ℕ → Time → Action (Store sql) (List Entry)
  list json limit cursor = do
    rows ← on_db (λ db. db_list sql json (page_size limit) cursor db)
    λ s. returns (ok (take (page_size limit) (sort_newest (mem_list cursor s.mem ++ rows)))) s

  abbrev pub opened_body : ℕ → Option Str × Disk → Store sql → Outcome (Store sql) (Str × ℕ)
  opened_body size (none, d) s = returns (err failed) (record s { disk = d })
  opened_body size (some bytes, d) s = returns (ok (bytes, size)) (record s { disk = d })

  abbrev pub body_of : Str × Str × ℕ → Action (Store sql) (Str × ℕ)
  body_of (path, inline, size) s =
      if length path == 0
      then returns (ok (inline, size)) s
      else opened_body size (open_path path s.disk) s

  -- Body: the bytes that the reader gives, and the size
  unfoldable pub body : Codec → Str → Side → Action (Store sql) (Str × ℕ)
  unfolding get
  body json id side = do e ← get json id; body_of (side_of side e)
