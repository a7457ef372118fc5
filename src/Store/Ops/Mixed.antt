-- ===== src/Store/Ops/Mixed.antt =====
-- Several responses that come in at once: AppendResponse of internal/store/store.go, in any order.
use http_debug.Base.{
  ◌≡◌, refl, sym, ap, ◌∙◌, subst, Bool, false, none, some, List, [], ◌∷◌, ◌++◌, append-nil,
  append_assoc, Str, str_eq, str_eq_iff, length, if◌then◌else◌, if_true, if_false, Bool-cases, ◌⊎◌,
  inl, inr,
}
use http_debug.Base.Map.{lookup, lookup-insert}
use http_debug.Time.{Time}
use http_debug.Store.Entry.{side_response}
use http_debug.Store.Disk.Separate.{Wrote-faults}
use http_debug.Store.Blobs.{buffer, path}
use http_debug.Store.Blobs.Apart.{write_body-Writes, path-apart, Wrote-Tracks}
use http_debug.Store.Blobs.Spill.{Tracks}
use http_debug.Store.Events.FanOut.{IsWired}
use http_debug.Store.Memory.{LiveEntry}
use http_debug.Store.Result.{ok}
use http_debug.Store.Rows.{Codec}
use http_debug.Store.Action.{Outcome, Action, returns, panics, ignoring}
use http_debug.Store.Sqlite.{Sqlite}
use http_debug.Store.Ops.{Store, append_response}
use http_debug.Store.Ops.Read.{body}
use http_debug.Store.Ops.Receiving.{
  Fixed, Receiving, Received, append_response-Received, fixed_of, start-Receiving,
}
use http_debug.Store.Ops.Bodies.{body-Receiving}
use http_debug.Store.Ops.Separate.{Separate, IsSeparate}
use http_debug.Store.Ops.Appends.{Changes, Appends, append_response-Appends, Appends-Separate}

-- The chunks that are for one entry, in order.
abbrev pub chunks_for : Str → List (Str × Str × Bool × Time) → Str
chunks_for id [] = []
chunks_for id ((j, chunk, emit_delta, now) ∷ cs) =
    if str_eq j id then chunk ++ chunks_for id cs else chunks_for id cs

module _ {sql : Sqlite} where
  -- Appends, each with its entry; the callers drop the errors.
  abbrev pub append_mixed : List (Str × Str × Bool × Time) → Action (Store sql) (Unit {0})
  append_mixed [] s = returns (ok tt) s
  append_mixed ((j, chunk, emit_delta, now) ∷ cs) s =
      ignoring (append_mixed cs) (append_response j chunk emit_delta now s)

  -- An append to another entry.
  other-Receiving :
      (k : Fixed sql) (id w j chunk : Str) (s : Store sql) {o : Outcome (Store sql) (Unit {0})}
      (a : Appends j chunk s o)
      → str_eq j id ≡ false
      → IsSeparate s
      → Receiving k id w s
      → Receiving k id w a.final
  other-Receiving k id w j chunk s a n h r = go a.change
    where
      go :
          ((lookup j s.mem ≡ none) × (a.final ≡ s))
            ⊎ ((live : LiveEntry) × (lookup j s.mem ≡ some live) × Changes j chunk live s a.final)
          → Receiving k id w a.final
      go (inl x) = subst (Receiving k id w) (sym x.1) r
      go (inr (live, e, c)) =
          let v = write_body-Writes s.blobs chunk live.resp s.disk h.files (h.each j live e).resp in
          let theirs = (h.each j live e).named in
          let apart : str_eq (path s.blobs live.resp.id live.resp.side)
                (path s.blobs r.live.resp.id r.live.resp.side)
              ≡ false =
            rw (theirs.0, theirs.1, r.named, r.sided) (path-apart s.blobs j id side_response n) in
          record {
            live = r.live;
            found =
                ap (lookup id) c.mem ∙ lookup-insert j id c.live' s.mem ∙ if_false _ _ n ∙ r.found;
            tracks =
                subst (λ b. Tracks b w r.live.resp a.final.disk) (sym a.same.1)
                  (subst (Tracks s.blobs w r.live.resp) (sym c.disk)
                    (Wrote-Tracks s.blobs w r.live.resp v.wrote h.files apart r.tracks));
            good = r.good;
            named = r.named;
            sided = r.sided;
            no_faults = ap (λ d. d.faults) c.disk ∙ Wrote-faults v.wrote r.no_faults;
            wired = a.wired;
            same_entry = r.same_entry;
            same_req = r.same_req;
            same_db = a.same.0 ∙ r.same_db;
            same_blobs = a.same.1 ∙ r.same_blobs;
            same_max = a.same.2 ∙ r.same_max;
          }

  -- An append to the entry.
  own-Receiving :
      (k : Fixed sql) (id w j chunk : Str) (emit_delta : Bool) (now : Time) (s : Store sql)
      (a : Appends j chunk s (append_response j chunk emit_delta now s))
      → j ≡ id
      → Receiving k id w s
      → Receiving k id (w ++ chunk) a.final
  own-Receiving k id w j chunk emit_delta now s a e r =
      let own =
        subst (λ i. Received k id (w ++ chunk) (append_response i chunk emit_delta now s)) (sym e)
          (append_response-Received k id w chunk emit_delta now s r) in
      let same : own.final ≡ a.final =
        ap (λ (o : Outcome (Store sql) (Unit {0})). elim o [ returns x s' ↦ s' | panics ↦ s ])
          (sym own.returned ∙ a.returned) in
      subst (Receiving k id (w ++ chunk)) same own.receiving

  append_mixed-Received :
      (k : Fixed sql) (id w : Str) (cs : List (Str × Str × Bool × Time)) (s : Store sql)
      → IsSeparate s
      → Receiving k id w s
      → Received k id (w ++ chunks_for id cs) (append_mixed cs s)
  append_mixed-Received k id w [] s h r = record {
    final = s;
    returned = refl;
    receiving = rw append-nil r;
  }
  append_mixed-Received k id w ((j, chunk, emit_delta, now) ∷ cs) s h r =
      let a = append_response-Appends j chunk emit_delta now s r.wired in
      let h' = Appends-Separate j chunk s a h in
      elim (Bool-cases (str_eq j id)) [
        | inl same ↦
            let r' = own-Receiving k id w j chunk emit_delta now s a ((str_eq_iff j id).0 same) r in
            then_all a (append_mixed-Received k id (w ++ chunk) cs a.final h' r')
              (append_assoc w chunk (chunks_for id cs) ∙ ap (λ t. w ++ t) (sym (if_true _ _ same)))
        | inr other ↦
            then_all a
              (append_mixed-Received k id w cs a.final h'
                (other-Receiving k id w j chunk s a other h r))
              (ap (λ t. w ++ t) (sym (if_false _ _ other)))
      ]
    where
      then_all :
          {v : Str} (a : Appends j chunk s (append_response j chunk emit_delta now s))
          → Received k id v (append_mixed cs a.final)
          → v ≡ w ++ chunks_for id ((j, chunk, emit_delta, now) ∷ cs)
          → Received k id
              (w ++ chunks_for id ((j, chunk, emit_delta, now) ∷ cs))
              (append_mixed ((j, chunk, emit_delta, now) ∷ cs) s)
      then_all a x e = record {
        final = x.final;
        returned = ap (ignoring (append_mixed cs)) a.returned ∙ x.returned;
        receiving = subst (λ v. Receiving k id v x.final) e x.receiving;
      }

  -- Responses that come in at once, their appends in any order, with entries that are in flight or not, on
  -- a store whose buffers have their own files and with no file operation failing: every append returns,
  -- and `Body` of an entry that was in flight without a response then gives exactly the chunks that were
  -- for it, in their order, with their total length as the size. No byte of one exchange gets into another,
  -- wherever the limit falls in each.
  pub append_mixed-body :
      (json : Codec) (id : Str) (live : LiveEntry) (cs : List (Str × Str × Bool × Time))
      (s : Store sql)
      → IsWired s.events
      → Separate s.blobs s.mem s.disk
      → lookup id s.mem ≡ some live
      → live.resp ≡ buffer id side_response
      → s.disk.faults ≡ []
      → let bytes = chunks_for id cs in
        (s₁ : Store sql) × (s₂ : Store sql) × (append_mixed cs s ≡ returns (ok tt) s₁)
        × (body json id side_response s₁ ≡ returns (ok (bytes, length bytes)) s₂)
  append_mixed-body json id live cs s w h found fresh f =
      let k = fixed_of live s in
      let all = append_mixed-Received k id [] cs s h (start-Receiving id live s w found fresh f) in
      let read = body-Receiving json k id _ all.final all.receiving in
      (all.final, read.0, all.returned, read.1)
