-- ===== src/Store/Ops/Receiving.antt =====
-- An entry in flight whose response comes in, and what that leaves as it is.
use http_debug.Base.{
  ℕ, ◌<◌, ◌≡◌, refl, sym, ap, ◌∙◌, subst, Bool, true, false, ◌&&◌, ltb, some, [], ◌++◌, Str,
  str_eq_refl, length, if◌then◌else◌, if_true,
}
use http_debug.Base.Map.{lookup, insert, lookup-insert}
use http_debug.Time.{Time}
use http_debug.Store.Entry.{Entry, side_response}
use http_debug.Store.Disk.{open_file}
use http_debug.Store.Blobs.{BlobStore, BodyBuffer, buffer, path, state, write_body}
use http_debug.Store.Blobs.Spill.{Tracks, write_body-Tracks}
use http_debug.Store.Blobs.Body.{
  buffer-Tracks, write_body-name, write_body-succeeds, state_of, tracked-state,
}
use http_debug.Store.Events.FanOut.{IsWired, fan_out}
use http_debug.Store.Events.Wired.{fan_out-IsWired}
use http_debug.Store.Memory.{LiveEntry, touch}
use http_debug.Store.Result.{ok}
use http_debug.Store.Action.{Outcome, returns}
use http_debug.Store.Sqlite.{Sqlite, SqlDb}
use http_debug.Store.Ops.{Store, announce, append_response, delta_event}
use http_debug.Store.Ops.Finalized.{announce_lem}

-- An entry, its response's format aside.
abbrev pub but_format : Entry → Entry
but_format e = record e { response_format = [] }

module _ (sql : Sqlite) where
  -- What a response that comes in leaves as it is: the entry, but for its format, the request's
  -- buffer, the database and the limits.
  pub record Fixed : Type 0 where
    pub entry : Entry
    pub req : BodyBuffer
    pub db : SqlDb sql
    pub blobs : BlobStore
    pub max_entries : ℕ

module _ {sql : Sqlite} where
  -- An entry in flight whose response is `w` so far.
  pub record Receiving (k : Fixed sql) (id w : Str) (s : Store sql) : Type 0 where
    pub live : LiveEntry
    pub found : lookup id s.mem ≡ some live
    pub tracks : Tracks s.blobs w live.resp s.disk
    pub good : live.resp.failed ≡ false
    pub named : live.resp.id ≡ id
    pub sided : live.resp.side ≡ side_response
    pub no_faults : s.disk.faults ≡ []
    pub wired : IsWired s.events
    pub same_entry : but_format live.entry ≡ but_format k.entry
    pub same_req : live.req ≡ k.req
    pub same_db : s.db ≡ k.db
    pub same_blobs : s.blobs ≡ k.blobs
    pub same_max : s.max_entries ≡ k.max_entries

  pub record Received (k : Fixed sql) (id w : Str) (o : Outcome (Store sql) (Unit {0}))
      : Type 0 where
    pub final : Store sql
    pub returned : o ≡ returns (ok tt) final
    pub receiving : Receiving k id w final

  announced :
      (c : Bool) (k : Fixed sql) (id w chunk : Str) (s : Store sql)
      → Receiving k id w s
      → Received k id w (if c then announce (delta_event id chunk) s else returns (ok tt) s)
  announced true k id w chunk s r = record {
    final = record s { events = fan_out (delta_event id chunk) s.events };
    returned = announce_lem (delta_event id chunk) s r.wired;
    receiving = record {
      live = r.live;
      found = r.found;
      tracks = r.tracks;
      good = r.good;
      named = r.named;
      sided = r.sided;
      no_faults = r.no_faults;
      wired = fan_out-IsWired (delta_event id chunk) s.events r.wired;
      same_entry = r.same_entry;
      same_req = r.same_req;
      same_db = r.same_db;
      same_blobs = r.same_blobs;
      same_max = r.same_max;
    };
  }
  announced false k id w chunk s r = record { final = s; returned = refl; receiving = r }

  pub lookup_self :
      (id : Str) (live : LiveEntry) (s : Store sql) → lookup id (insert id live s.mem) ≡ some live
  lookup_self id live s = lookup-insert id id live s.mem ∙ if_true _ _ (str_eq_refl id)

  pub append_response-Received :
      (k : Fixed sql) (id w chunk : Str) (emit_delta : Bool) (now : Time) (s : Store sql)
      → Receiving k id w s
      → Received k id (w ++ chunk) (append_response id chunk emit_delta now s)
  unfolding append_response touch
  append_response-Received k id w chunk emit_delta now s r =
      let write = write_body s.blobs chunk r.live.resp s.disk in
      let fine = write_body-succeeds s.blobs chunk r.live.resp s.disk r.no_faults r.good in
      let name = write_body-name s.blobs chunk r.live.resp s.disk in
      let live' = record r.live { resp = write.1; last_seen = now } in
      let s' = record s { mem = insert id live' s.mem; disk = write.2 } in
      let emits = emit_delta && ltb 0 (length chunk) in
      let step : append_response id chunk emit_delta now s
          ≡ (if emits then announce (delta_event id chunk) s' else returns (ok tt) s') =
        rw (append_response, r.found) (rw fine.0 refl) in
      subst (Received k id (w ++ chunk)) (sym step) (
        announced emits k id (w ++ chunk) chunk s' (record {
          live = live';
          found = lookup_self id live' s;
          tracks =
              subst (λ c. Tracks s.blobs (if c then w ++ chunk else w) write.1 write.2) fine.0
                (write_body-Tracks s.blobs w chunk r.live.resp s.disk r.tracks);
          good = fine.1;
          named = name.0 ∙ r.named;
          sided = name.1 ∙ r.sided;
          no_faults = fine.2;
          wired = r.wired;
          same_entry = r.same_entry;
          same_req = r.same_req;
          same_db = r.same_db;
          same_blobs = r.same_blobs;
          same_max = r.same_max;
        }))

  abbrev pub fixed_of : LiveEntry → Store sql → Fixed sql
  fixed_of live s = record {
    entry = live.entry;
    req = live.req;
    db = s.db;
    blobs = s.blobs;
    max_entries = s.max_entries;
  }

  pub start-Receiving :
      (id : Str) (live : LiveEntry) (s : Store sql)
      → IsWired s.events
      → lookup id s.mem ≡ some live
      → live.resp ≡ buffer id side_response
      → s.disk.faults ≡ []
      → Receiving (fixed_of live s) id [] s
  start-Receiving id live s w found fresh f = record {
    live = live;
    found = found;
    tracks =
        subst (λ b. Tracks s.blobs [] b s.disk) (sym fresh)
          (buffer-Tracks s.blobs id side_response s.disk);
    good = ap (λ b. b.failed) fresh;
    named = ap (λ b. b.id) fresh;
    sided = ap (λ b. b.side) fresh;
    no_faults = f;
    wired = w;
    same_entry = refl;
    same_req = refl;
    same_db = refl;
    same_blobs = refl;
    same_max = refl;
  }

  -- The buffer's state is that of the response.
  pub Receiving-state :
      (k : Fixed sql) (id w : Str) (s : Store sql) (r : Receiving k id w s)
      → (state r.live.resp ≡ state_of s.blobs id side_response w)
        × (s.blobs.max_inline < length w
            → open_file (path s.blobs id side_response) s.disk ≡ some w)
  Receiving-state k id w s r =
      let resp = r.live.resp in
      let t = tracked-state s.blobs w resp s.disk r.tracks r.good in
      let named =
        ap (λ i. path s.blobs i resp.side) r.named ∙ ap (λ side. path s.blobs id side) r.sided in
      (
        t.0
            ∙ ap (λ i. state_of s.blobs i resp.side w) r.named
            ∙ ap (λ side. state_of s.blobs id side w) r.sided,
        λ over. subst (λ p. open_file p s.disk ≡ some w) named (t.1 over),
      )
