-- ===== src/Proxy/Opened.antt =====
-- An exchange from its registration to the answer.
use http_debug.Base.{◌≡◌, refl, ap, ◌∙◌, subst, Bool, Option, some, [], ◌++◌, Str, if◌then◌else◌}
use http_debug.Base.Map.{lookup, insert}
use http_debug.Time.{Time}
use http_debug.Store.Entry.{Entry, side_request}
use http_debug.Store.Disk.{Disk}
use http_debug.Store.Blobs.{BodyBuffer, buffer, state, write_body}
use http_debug.Store.Blobs.Spill.{Tracks, write_body-Tracks}
use http_debug.Store.Blobs.Body.{
  buffer-Tracks, write_body-name, write_body-succeeds, state_of, tracked-state,
}
use http_debug.Store.Events.FanOut.{IsWired}
use http_debug.Store.Events.Wired.{fan_out-IsWired}
use http_debug.Store.Memory.{LiveEntry, new_live}
use http_debug.Store.Result.{ok}
use http_debug.Store.Action.{returns, pure, ignoring}
use http_debug.Store.Sqlite.{Sqlite}
use http_debug.Store.Ops.{Store, set_request_body, registered, done_or_failed}
use http_debug.Store.Ops.Registered.{given_id, registered_in, put-registered_in}
use http_debug.Store.Ops.Receiving.{Receiving, fixed_of, start-Receiving, lookup_self}
use http_debug.Proxy.Relay.{open_exchange, with_body}

module _ {sql : Sqlite} where
  -- The request's buffer, when the body was stored.
  abbrev pub request_write : Str → Str → Store sql → Bool × BodyBuffer × Disk
  request_write id body s = write_body s.blobs body (buffer id side_request) s.disk

  -- The store with the entry and the body of the request.
  abbrev pub opened_in : Str → Time → Entry → Str → Store sql → Store sql
  opened_in id now e body s =
      let s₁ = registered_in id now e s in
      let w = request_write id body s in
      record s₁ {
        mem = insert id (record (new_live (registered id now e) now) { req = w.1 }) s₁.mem;
        disk = w.2;
      }

  set_request_body-live :
      (id body : Str) (live : LiveEntry) (s : Store sql)
      → lookup id s.mem ≡ some live
      → let w = write_body s.blobs body live.req s.disk in
        set_request_body id body s
        ≡ returns
            (done_or_failed w.0)
            (record s { mem = insert id (record live { req = w.1 }) s.mem; disk = w.2 })
  unfolding set_request_body
  set_request_body-live id body live s e = rw (set_request_body, e) refl

  pub open_exchange-opened_in :
      (fresh : Option Str) (id : Str) (now : Time) (e : Entry) (body : Str) (s : Store sql)
      → given_id fresh e ≡ some id
      → IsWired s.events
      → open_exchange fresh now e body s
        ≡ returns (ok (some (record { id = id; start_at = now }))) (opened_in id now e body s)
  unfolding open_exchange
  open_exchange-opened_in fresh id now e body s h w =
      let live = new_live (registered id now e) now in
      ap (with_body now body) (put-registered_in fresh id now e s h w)
      ∙ ap (ignoring (pure (some (record { id = id; start_at = now }))))
          (set_request_body-live id body live (registered_in id now e s) (lookup_self id live s))

  pub opened_in-Receiving :
      (id : Str) (now : Time) (e : Entry) (body : Str) (s : Store sql)
      → IsWired s.events
      → s.disk.faults ≡ []
      → let live = record (new_live (registered id now e) now) {
        req = (request_write id body s).1;
      } in
        Receiving (fixed_of live (opened_in id now e body s)) id [] (opened_in id now e body s)
  opened_in-Receiving id now e body s w f =
      let fine = write_body-succeeds s.blobs body (buffer id side_request) s.disk f refl in
      start-Receiving id _ (opened_in id now e body s) (fan_out-IsWired _ s.events w)
        (lookup_self id _ (registered_in id now e s)) refl fine.2

  -- The request's side of the entry is that of its body.
  pub request_write-state :
      (id body : Str) (s : Store sql)
      → s.disk.faults ≡ []
      → state (request_write id body s).1 ≡ state_of s.blobs id side_request body
  request_write-state id body s f =
      let b = buffer id side_request in
      let w = request_write id body s in
      let fine = write_body-succeeds s.blobs body b s.disk f refl in
      let name = write_body-name s.blobs body b s.disk in
      let tracks =
        subst (λ c. Tracks s.blobs (if c then [] ++ body else []) w.1 w.2) fine.0
          (write_body-Tracks s.blobs [] body b s.disk
            (buffer-Tracks s.blobs id side_request s.disk)) in
      (tracked-state s.blobs body w.1 w.2 tracks fine.1).0
      ∙ ap (λ i. state_of s.blobs i w.1.side body) name.0
      ∙ ap (λ side. state_of s.blobs id side body) name.1
