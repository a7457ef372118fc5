-- ===== src/Store/Ops/Appends.antt =====
-- What AppendResponse of internal/store/store.go does to the entries in flight.
use http_debug.Base.{
  ◌≡◌, refl, sym, subst, Bool, true, false, ◌&&◌, ltb, Option, none, some, Str, length,
  if◌then◌else◌, Bool-cases, ◌⊎◌, inl, inr,
}
use http_debug.Base.Map.{lookup, insert}
use http_debug.Time.{Time}
use http_debug.Store.Blobs.{write_body}
use http_debug.Store.Events.FanOut.{IsWired, fan_out}
use http_debug.Store.Events.Wired.{fan_out-IsWired}
use http_debug.Store.Memory.{LiveEntry, touch}
use http_debug.Store.Result.{Result, ok, err, not_found, failed}
use http_debug.Store.Action.{Outcome, returns}
use http_debug.Store.Sqlite.{Sqlite}
use http_debug.Store.Ops.{Store, announce, append_response, delta_event}
use http_debug.Store.Ops.Finalized.{announce_lem}
use http_debug.Store.Ops.Separate.{Separate, IsSeparate, write_body-Separate}

module _ {sql : Sqlite} where
  -- What a write to the response of `j` does to the store.
  pub record Changes (j chunk : Str) (live : LiveEntry) (s s' : Store sql) : Type 0 where
    pub live' : LiveEntry
    pub mem : s'.mem ≡ insert j live' s.mem
    pub resp : live'.resp ≡ (write_body s.blobs chunk live.resp s.disk).1
    pub req : live'.req ≡ live.req
    pub disk : s'.disk ≡ (write_body s.blobs chunk live.resp s.disk).2

  pub record Appends (j chunk : Str) (s : Store sql) (o : Outcome (Store sql) (Unit {0}))
      : Type 0 where
    pub result : Result (Unit {0})
    pub final : Store sql
    pub returned : o ≡ returns result final
    pub wired : IsWired final.events
    pub same : (final.db ≡ s.db) × (final.blobs ≡ s.blobs) × (final.max_entries ≡ s.max_entries)
    pub change :
        ((lookup j s.mem ≡ none) × (final ≡ s))
        ⊎ ((live : LiveEntry) × (lookup j s.mem ≡ some live) × Changes j chunk live s final)

  pub append_response-Appends :
      (j chunk : Str) (emit_delta : Bool) (now : Time) (s : Store sql)
      → IsWired s.events
      → Appends j chunk s (append_response j chunk emit_delta now s)
  unfolding append_response touch
  append_response-Appends j chunk emit_delta now s w = go (lookup j s.mem) refl
    where
      changed : LiveEntry → LiveEntry → Store sql
      changed live live' = record s {
        mem = insert j live' s.mem;
        disk = (write_body s.blobs chunk live.resp s.disk).2;
      }

      told :
          (emits : Bool) (live live' : LiveEntry)
          → lookup j s.mem ≡ some live
          → live'.resp ≡ (write_body s.blobs chunk live.resp s.disk).1
          → live'.req ≡ live.req
          → Appends j chunk s (
              if emits
              then announce (delta_event j chunk) (changed live live')
              else returns (ok tt) (changed live live'))
      told true live live' e r q = record {
        result = ok tt;
        final = record (changed live live') { events = fan_out (delta_event j chunk) s.events };
        returned = announce_lem (delta_event j chunk) (changed live live') w;
        wired = fan_out-IsWired (delta_event j chunk) s.events w;
        same = (refl, refl, refl);
        change =
            inr (live, e, record { live' = live'; mem = refl; resp = r; req = q; disk = refl });
      }
      told false live live' e r q = record {
        result = ok tt;
        final = changed live live';
        returned = refl;
        wired = w;
        same = (refl, refl, refl);
        change =
            inr (live, e, record { live' = live'; mem = refl; resp = r; req = q; disk = refl });
      }

      found :
          (live : LiveEntry)
          → lookup j s.mem ≡ some live
          → let r = write_body s.blobs chunk live.resp s.disk in
            (r.0 ≡ true) ⊎ (r.0 ≡ false)
            → Appends j chunk s (append_response j chunk emit_delta now s)
      found live e (inl done) =
          let r = write_body s.blobs chunk live.resp s.disk in
          let live' = record live { resp = r.1; last_seen = now } in
          let emits = emit_delta && ltb 0 (length chunk) in
          let step : append_response j chunk emit_delta now s ≡ (
              if emits
              then announce (delta_event j chunk) (changed live live')
              else returns (ok tt) (changed live live')) =
            rw (append_response, e) (rw done refl) in
          subst (Appends j chunk s) (sym step) (told emits live live' e refl refl)
      found live e (inr fails) =
          let r = write_body s.blobs chunk live.resp s.disk in
          let live' = record live { resp = r.1 } in
          record {
            result = err failed;
            final = changed live live';
            returned = rw (append_response, e) (rw fails refl);
            wired = w;
            same = (refl, refl, refl);
            change = inr (
              live,
              e,
              record { live' = live'; mem = refl; resp = refl; req = refl; disk = refl },
            );
          }

      go :
          (o : Option LiveEntry)
          → lookup j s.mem ≡ o
          → Appends j chunk s (append_response j chunk emit_delta now s)
      go none e = record {
        result = err not_found;
        final = s;
        returned = rw (append_response, e) refl;
        wired = w;
        same = (refl, refl, refl);
        change = inl (e, refl);
      }
      go (some live) e = found live e (Bool-cases (write_body s.blobs chunk live.resp s.disk).0)

  pub Appends-Separate :
      (j chunk : Str) (s : Store sql) {o : Outcome (Store sql) (Unit {0})} (a : Appends j chunk s o)
      → IsSeparate s
      → IsSeparate a.final
  Appends-Separate j chunk s a h = go a.change
    where
      go :
          ((lookup j s.mem ≡ none) × (a.final ≡ s))
            ⊎ ((live : LiveEntry) × (lookup j s.mem ≡ some live) × Changes j chunk live s a.final)
          → IsSeparate a.final
      go (inl x) = subst IsSeparate (sym x.1) h
      go (inr (live, e, c)) =
          subst (λ b. Separate b a.final.mem a.final.disk) (sym a.same.1)
            (subst (λ m. Separate s.blobs m a.final.disk) (sym c.mem)
              (subst (λ d. Separate s.blobs (insert j c.live' s.mem) d) (sym c.disk)
                (write_body-Separate s.blobs s.mem s.disk j chunk live c.live' h e c.resp c.req)))
