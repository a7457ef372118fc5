-- ===== src/Web/Answers.antt =====
-- What the REST routes answer.
use http_debug.Base.{
  ℕ, ◌^◌, ◌<◌, ◌≤◌, ◌≡◌, ◌==◌, refl, ap, ◌∙◌, subst, Bool, false, Option, none, some, List, [],
  ◌++◌, Str, codes, str_eq, length, map, min, if_false, if_either, arith,
}
use http_debug.Base.Int.{ℤ, pos, negsuc}
use http_debug.Base.Decimal.{parse_int, format_nat, parse_int-format_nat, format_nat-not_empty}
use http_debug.Base.Map.{lookup}
use http_debug.Time.{Time}
use http_debug.Store.Entry.{Entry, side_response}
use http_debug.Store.Result.{Result, ok}
use http_debug.Store.Rows.{Codec, Row, scan_entry}
use http_debug.Store.Blobs.{buffer}
use http_debug.Store.Blobs.Body.{concat}
use http_debug.Store.Events.FanOut.{IsWired}
use http_debug.Store.Memory.{LiveEntry, snapshot, mem_list}
use http_debug.Store.Action.{returns}
use http_debug.Store.Sqlite.{Sqlite, SqlDb, find_row, db_list, db_get, row_result, scanned}
use http_debug.Store.Sqlite.Retention.{exec-select_row}
use http_debug.Store.Ops.{Store, on_db}
use http_debug.Store.Ops.Read.{get, page_size}
use http_debug.Store.Ops.Page.{IsPage, list-IsPage}
use http_debug.Store.Ops.Bodies.{append_all, append_all-Received, body-Receiving, get-live}
use http_debug.Store.Ops.Receiving.{fixed_of, start-Receiving}
use http_debug.Web.Payloads.{new_list_row, new_detail}
use http_debug.Web.Routes.{
  Answer, requests, detail, raw, write_json, no_such_request, fail, capped, limit_of, before_of,
  listed, list_page, answering, list_requests, shown, get_request, served_type, streamed,
  body_found, get_body,
}

capped-bounds : (o : Option ℤ) (n : ℕ) → capped o ≡ some n → (0 < n) × (n ≤ 500)
capped-bounds none n h = absurd (ground (arith, h))
capped-bounds (some (negsuc m)) n h = absurd (ground (arith, h))
capped-bounds (some (pos m)) n h = ground (arith, h)

-- A limit that is taken is at least 1 and at most 500.
pub limit_of-bounds : (v : Str) (n : ℕ) → limit_of v ≡ some n → (0 < n) × (n ≤ 500)
unfolding limit_of
limit_of-bounds v n =
    if_either (λ o. o ≡ some n → (0 < n) × (n ≤ 500)) (length v == 0) (λ h. ground (arith, h))
      (capped-bounds (parse_int v) n)

-- What is asked for, up to 500.
pub limit_of-format_nat : (n : ℕ) → 0 < n → n < 2 ^ 63 → limit_of (format_nat n) ≡ some (min n 500)
unfolding limit_of
limit_of-format_nat n h k =
    let not_zero : (n == 0) ≡ false = ground arith in
    if_false _ _ (format_nat-not_empty n k)
    ∙ ap capped (parse_int-format_nat n k)
    ∙ if_false _ _ not_zero

-- The answer, by what the store has.
abbrev pub status_of : (Str → Option (Str × Str)) → Option (Option Entry) → Answer
status_of fragment none = no_such_request
status_of fragment (some none) = fail (codes "get request")
status_of fragment (some (some e)) = write_json 200 (detail (new_detail fragment e))

module _ {sql : Sqlite} where
  -- A page of the list, for parameters that are taken, where the query gives `rows`: the answer is 200
  -- with one row for each entry of the page of `List`, at most as many as the limit, so at most 500.
  pub list_requests-IsPage :
      (json : Codec) (limit before : Str) (n : ℕ) (cursor : Time) (s : Store sql)
      (rows : List Entry) (db' : SqlDb sql)
      → limit_of limit ≡ some n
      → before_of before ≡ some cursor
      → db_list sql json (page_size n) cursor s.db ≡ (ok rows, db')
      → (page : List Entry) × (final : Store sql) × (list_requests json limit before s
          ≡ returns (ok (write_json 200 (requests (map new_list_row page)))) final)
        × IsPage sql cursor (page_size n) (mem_list cursor s.mem ++ rows) (returns (ok page) final)
        × (length page ≤ 500)
  unfolding list_requests
  list_requests-IsPage json limit before n cursor s rows db' l b h =
      let p = list-IsPage sql json n cursor s rows db' h in
      let bound = limit_of-bounds limit n l in
      (
        p.page,
        p.final,
        ap (λ o. list_page json o (before_of before) s) l
            ∙ ap (λ o. list_page json (some n) o s) b
            ∙ ap (answering listed) p.returned,
        subst (IsPage sql cursor (page_size n) (mem_list cursor s.mem ++ rows)) p.returned p,
        ground (arith, p.size, bound),
      )

  -- What the store has under an id: in flight, or in the history.
  abbrev pub stored : Codec → Str → Store sql → Option (Option Entry)
  stored json id s = elim (lookup id s.mem) [
    | some live ↦ some (some (snapshot live))
    | none ↦ elim (find_row id (sql.rows s.db.table)) [
      | none ↦ none
      | some r ↦ some (scan_entry json r)
    ]
  ]

  -- Where no statement fails: a request's details are answered with 200 and the entry that is in
  -- flight under the id, or else the one that its row reads as; with 404 if there is neither; and with
  -- 500 if the row cannot be read. The store stays as it was.
  pub get_request-stored :
      (fragment : Str → Option (Str × Str)) (json : Codec) (id : Str) (s : Store sql)
      → s.db.faults ≡ []
      → get_request fragment json id s ≡ returns (ok (status_of fragment (stored json id s))) s
  unfolding get_request get db_get
  get_request-stored fragment json id s f = go (lookup id s.mem)
    where
      scanned-read :
          (o : Option Entry) → shown fragment (scanned sql o) ≡ status_of fragment (some o)
      scanned-read none = refl
      scanned-read (some e) = refl

      row_shown :
          (o : Option Row)
          → shown fragment (row_result sql json (ok o))
            ≡ status_of fragment (elim o [ none ↦ none | some r ↦ some (scan_entry json r) ])
      row_shown none = refl
      row_shown (some r) = scanned-read (scan_entry json r)

      go :
          (o : Option LiveEntry)
          → answering (shown fragment) (elim o [
            | some live ↦ returns (ok (snapshot live)) s
            | none ↦ on_db (λ db. db_get sql json id db) s
          ])
            ≡ returns
                (ok (
                  status_of fragment (elim o [
                    | some live ↦ some (some (snapshot live))
                    | none ↦ elim (find_row id (sql.rows s.db.table)) [
                      | none ↦ none
                      | some r ↦ some (scan_entry json r)
                    ]
                  ])))
                s
      go (some live) = refl
      go none =
          ap
            (λ (x : Result (Option Row) × SqlDb sql).
              answering (shown fragment)
                (returns (row_result sql json x.0) (record s { db = x.1 })))
            (exec-select_row sql id s.db f)
          ∙ ap (λ a. returns (ok a) s) (row_shown (find_row id (sql.rows s.db.table)))

  -- A response that is appended in any number of chunks to an entry in flight that has none yet, with
  -- no file operation failing: the route of its body then answers 200 with exactly the chunks, one
  -- after the other, and with their total length as the content length.
  pub append_all-get_body :
      (json : Codec) (id : Str) (live : LiveEntry) (cs : List (Str × Bool × Time)) (s : Store sql)
      → IsWired s.events
      → lookup id s.mem ≡ some live
      → live.resp ≡ buffer id side_response
      → s.disk.faults ≡ []
      → let bytes = concat (map (λ c. c.0) cs) in
        (s₁ : Store sql) × (s₂ : Store sql) × (type : Str) × (append_all id cs s
          ≡ returns (ok tt) s₁)
        × (get_body json id side_response s₁
            ≡ returns (ok (write_json 200 (raw type (length bytes) bytes))) s₂)
  unfolding get_body str_eq
  append_all-get_body json id live cs s w found fresh f =
      let k = fixed_of live s in
      let start = start-Receiving id live s w found fresh f in
      let all = append_all-Received k id [] cs s start in
      let r = all.receiving in
      let read = body-Receiving json k id _ all.final r in
      (
        all.final,
        read.0,
        served_type side_response (snapshot r.live),
        all.returned,
        ap (body_found json id side_response) (get-live json id r.live all.final r.found)
            ∙ ap (answering (streamed side_response (snapshot r.live))) read.1,
      )
