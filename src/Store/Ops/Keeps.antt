-- ===== src/Store/Ops/Keeps.antt =====
-- Every method of the store returns from a sound store, and leaves a sound store.
use http_debug.Base.{
  ◌≡◌, refl, ◌∙◌, Bool, true, false, ◌&&◌, ◌==◌, ltb, Option, none, some, Str, length,
  if◌then◌else◌, if_either,
}
use http_debug.Base.Map.{lookup, insert}
use http_debug.Time.{Time}
use http_debug.Store.Entry.{Entry}
use http_debug.Store.Disk.{Disk}
use http_debug.Store.Blobs.{BodyBuffer, write_body, close_body}
use http_debug.Store.Blobs.Body.{write_body-name}
use http_debug.Store.Memory.{LiveEntry, new_live, mem_put, update_live, touch}
use http_debug.Store.Result.{ok, err, not_found, failed}
use http_debug.Store.Action.{Outcome, returns, pure}
use http_debug.Store.Sqlite.{Sqlite}
use http_debug.Store.Ops.{
  Store, announce, registered, register, put, set_request_body, append_response, update_entry,
  delta_event,
}
use http_debug.Store.Ops.Finish.{ended}
use http_debug.Store.Ops.Sound.{
  Keyed, AllKeyed, AllKeyed-insert, IsSound, settled, StaysSound, bind-StaysSound,
  announce-StaysSound,
}

abbrev SameBody : BodyBuffer → BodyBuffer → Type 0
SameBody b b' = (b'.id ≡ b.id) × (b'.side ≡ b.side)

-- A change of an entry that leaves its id alone.
abbrev pub KeepsId : (Entry → Entry) → Type 0
KeepsId fn = (e : Entry) → (fn e).id ≡ e.id

pub new_live-Keyed : (e : Entry) (now : Time) → Keyed e.id (new_live e now)
new_live-Keyed e now = record {
  entry = refl;
  req_id = refl;
  req_side = refl;
  resp_id = refl;
  resp_side = refl;
}

update_live-Keyed :
    (id : Str) (fn : Entry → Entry) (now : Time) (live : LiveEntry)
    → KeepsId fn
    → Keyed id live
    → Keyed id (update_live fn now live)
unfolding update_live
update_live-Keyed id fn now live f k = record {
  entry = f live.entry ∙ k.entry;
  req_id = k.req_id;
  req_side = k.req_side;
  resp_id = k.resp_id;
  resp_side = k.resp_side;
}

pub ended-Keyed :
    (id : Str) (fn : Entry → Entry) (now : Time) (live : LiveEntry)
    → KeepsId fn
    → Keyed id live
    → Keyed id (ended fn now live)
unfolding update_live close_body
ended-Keyed id fn now live f k = record {
  entry = f live.entry ∙ k.entry;
  req_id = k.req_id;
  req_side = k.req_side;
  resp_id = k.resp_id;
  resp_side = k.resp_side;
}

with_req-Keyed :
    (id : Str) (live : LiveEntry) (req : BodyBuffer)
    → SameBody live.req req
    → Keyed id live
    → Keyed id (record live { req = req })
with_req-Keyed id live req same k = record {
  entry = k.entry;
  req_id = same.0 ∙ k.req_id;
  req_side = same.1 ∙ k.req_side;
  resp_id = k.resp_id;
  resp_side = k.resp_side;
}

with_resp-Keyed :
    (id : Str) (live : LiveEntry) (resp : BodyBuffer) (seen : Time)
    → SameBody live.resp resp
    → Keyed id live
    → Keyed id (record live { resp = resp; last_seen = seen })
with_resp-Keyed id live resp seen same k = record {
  entry = k.entry;
  req_id = k.req_id;
  req_side = k.req_side;
  resp_id = same.0 ∙ k.resp_id;
  resp_side = same.1 ∙ k.resp_side;
}

module _ {sql : Sqlite} where
  register-StaysSound :
      (now : Time) (e : Entry) (s : Store sql) → IsSound sql s → StaysSound (register now e s)
  unfolding register mem_put
  register-StaysSound now e s h =
      let s' = record s { mem = insert e.id (new_live e now) s.mem } in
      bind-StaysSound (announce _) (λ _. pure e.id) s'
        (announce-StaysSound _ s' (record {
          wired = h.wired;
          unique = h.unique;
          keyed = AllKeyed-insert e.id (new_live e now) s.mem (new_live-Keyed e now) h.keyed;
        }))
        (λ _ s'' p. settled (ok e.id) s'' p)

  pub put-StaysSound :
      (fresh : Option Str) (now : Time) (e : Entry) (s : Store sql)
      → IsSound sql s
      → StaysSound (put fresh now e s)
  unfolding put
  put-StaysSound fresh now e s h =
      if_either StaysSound (length e.id == 0) (go fresh) (register-StaysSound now _ s h)
    where
      go :
          (o : Option Str)
          → StaysSound (elim o [
            | none ↦ returns (err failed) s
            | some id ↦ register now (registered id now e) s
          ])
      go none = settled (err failed) s h
      go (some id) = register-StaysSound now _ s h

  -- The entry in flight, or the error for a missing one.
  pub live_cases :
      {A : Type 0} (id : Str) (s : Store sql) (f : LiveEntry → Outcome (Store sql) A)
      → IsSound sql s
      → ((live : LiveEntry) → Keyed id live → StaysSound (f live))
      → StaysSound (elim (lookup id s.mem) [ none ↦ returns (err not_found) s | some l ↦ f l ])
  live_cases id s f h k = go (lookup id s.mem) refl
    where
      go :
          (o : Option LiveEntry)
          → lookup id s.mem ≡ o
          → StaysSound (elim o [ none ↦ returns (err not_found) s | some l ↦ f l ])
      go none e = settled (err not_found) s h
      go (some l) e = k l (h.keyed id l e)

  pub with_live :
      (id : Str) (live : LiveEntry) (s : Store sql)
      → IsSound sql s
      → Keyed id live
      → AllKeyed (insert id live s.mem)
  with_live id live s h k = AllKeyed-insert id live s.mem k h.keyed

  pub set_request_body-StaysSound :
      (id body : Str) (s : Store sql) → IsSound sql s → StaysSound (set_request_body id body s)
  unfolding set_request_body
  set_request_body-StaysSound id body s h = live_cases id s _ h (λ live k. settled _ _ (record {
    wired = h.wired;
    unique = h.unique;
    keyed =
        with_live id _ s h
          (with_req-Keyed id live _ (write_body-name s.blobs body live.req s.disk) k);
  }))

  pub append_response-StaysSound :
      (id chunk : Str) (emit_delta : Bool) (now : Time) (s : Store sql)
      → IsSound sql s
      → StaysSound (append_response id chunk emit_delta now s)
  unfolding append_response touch
  append_response-StaysSound id chunk emit_delta now s h = live_cases id s _ h (λ live k.
      let w = write_body s.blobs chunk live.resp s.disk in
      go live w.0 w.1 w.2 k (write_body-name s.blobs chunk live.resp s.disk))
    where
      stored : LiveEntry → BodyBuffer → Time → Disk → Store sql
      stored live resp seen disk = record s {
        mem = insert id (record live { resp = resp; last_seen = seen }) s.mem;
        disk = disk;
      }

      sound :
          (live : LiveEntry) (resp : BodyBuffer) (seen : Time) (disk : Disk)
          → Keyed id live
          → SameBody live.resp resp
          → IsSound sql (stored live resp seen disk)
      sound live resp seen disk k same = record {
        wired = h.wired;
        unique = h.unique;
        keyed = with_live id _ s h (with_resp-Keyed id live resp seen same k);
      }

      go :
          (live : LiveEntry) (done : Bool) (resp : BodyBuffer) (disk : Disk)
          → Keyed id live
          → SameBody live.resp resp
          → StaysSound (elim done [
            | false ↦ returns (err failed) (stored live resp live.last_seen disk)
            | true ↦
                if emit_delta && ltb 0 (length chunk)
                then announce (delta_event id chunk) (stored live resp now disk)
                else returns (ok tt) (stored live resp now disk)
          ])
      go live false resp disk k same = settled _ _ (sound live resp live.last_seen disk k same)
      go live true resp disk k same =
          if_either StaysSound (emit_delta && ltb 0 (length chunk))
            (announce-StaysSound _ _ (sound live resp now disk k same))
            (settled _ _ (sound live resp now disk k same))

  pub update_entry-StaysSound :
      (id : Str) (fn : Entry → Entry) (now : Time) (s : Store sql)
      → KeepsId fn
      → IsSound sql s
      → StaysSound (update_entry id fn now s)
  unfolding update_entry
  update_entry-StaysSound id fn now s f h = live_cases id s _ h (λ live k.
      announce-StaysSound _ _ (record {
        wired = h.wired;
        unique = h.unique;
        keyed = with_live id _ s h (update_live-Keyed id fn now live f k);
      }))
