-- ===== src/Proxy/Capture/Stored.antt =====
-- The capture reader and the store together: what is relayed is what the store keeps.
use http_debug.Base.{
  ◌≡◌, refl, sym, ap, ◌∙◌, subst, Bool, Option, none, some, List, [], ◌∷◌, ◌++◌, Str, length, map,
  append-nil, append_assoc,
}
use http_debug.Base.Map.{lookup, insert}
use http_debug.Time.{Time}
use http_debug.Store.Entry.{Entry, Format, side_response}
use http_debug.Store.Blobs.{buffer}
use http_debug.Store.Blobs.Body.{concat}
use http_debug.Store.Events.FanOut.{IsWired, fan_out}
use http_debug.Store.Events.Wired.{fan_out-IsWired}
use http_debug.Store.Memory.{LiveEntry, snapshot, update_live}
use http_debug.Store.Result.{ok}
use http_debug.Store.Rows.{Codec}
use http_debug.Store.Action.{returns}
use http_debug.Store.Sqlite.{Sqlite}
use http_debug.Store.Ops.{Store, announce, update_entry}
use http_debug.Store.Ops.Read.{body}
use http_debug.Store.Ops.Finalized.{announce_lem, update_event}
use http_debug.Store.Ops.Bodies.{body-Receiving}
use http_debug.Store.Ops.Receiving.{
  but_format, Fixed, Receiving, append_response-Received, start-Receiving, fixed_of, lookup_self,
}
use http_debug.Proxy.Capture.Owned.{OnlyFor, OnlyFor-append, read_all-Owns, close_reader-OnlyFor}
use http_debug.Store.Ops.Calls.{Call, appends, updates, call, run_calls, done}
use http_debug.Proxy.Capture.{new_capture_reader, read_all, close_reader}
use http_debug.Proxy.Capture.Lines.{appended}
use http_debug.Proxy.Capture.Whole.{read_all-close_reader}

module _ {sql : Sqlite} where
  pub update_entry-Received :
      (k : Fixed sql) (id w : Str) (fn : Entry → Entry) (now : Time) (s : Store sql) (entry : Entry)
      (r : Receiving k id w s)
      → but_format (fn r.live.entry) ≡ but_format entry
      → (s' : Store sql) × (update_entry id fn now s ≡ returns (ok tt) s')
        × Receiving (record k { entry = entry }) id w s'
  unfolding update_entry update_live
  update_entry-Received k id w fn now s entry r keeps =
      let live' = update_live fn now r.live in
      let s' = record s { mem = insert id live' s.mem } in
      let ev = update_event id (snapshot live') in
      let step : update_entry id fn now s ≡ announce ev s' = rw (update_entry, r.found) refl in
      (
        record s' { events = fan_out ev s.events },
        step ∙ announce_lem ev s' r.wired,
        record {
          live = live';
          found = lookup_self id live' s;
          tracks = r.tracks;
          good = r.good;
          named = r.named;
          sided = r.sided;
          no_faults = r.no_faults;
          wired = fan_out-IsWired ev s.events r.wired;
          same_entry = keeps;
          same_req = r.same_req;
          same_db = r.same_db;
          same_blobs = r.same_blobs;
          same_max = r.same_max;
        },
      )

  -- A call, then the rest.
  abbrev next : Codec → List Call → Option (Store sql) → Option (Store sql)
  next json cs o = elim o [ none ↦ none | some s' ↦ run_calls json cs s' ]

  pub run_calls-Receiving :
      (json : Codec) (k : Fixed sql) (id w : Str) (cs : List Call) (s : Store sql)
      → OnlyFor id cs
      → Receiving k id w s
      → (s' : Store sql) × (run_calls json cs s ≡ some s') × Receiving k id (w ++ appended cs) s'
  unfolding run_calls call
  run_calls-Receiving json k id w [] s h r = (s, refl, rw append-nil r)
  run_calls-Receiving json k id w (appends j chunk e now ∷ cs) s h r =
      let one =
        append_response-Received k j w chunk e now s (subst (λ i. Receiving k i w s) (sym h.0) r) in
      let rest =
        run_calls-Receiving json k id (w ++ chunk) cs one.final h.1
          (subst (λ i. Receiving k i (w ++ chunk) one.final) h.0 one.receiving) in
      (
        rest.0,
        ap (next json cs) (ap done one.returned) ∙ rest.1,
        subst (λ v. Receiving k id v rest.0) (append_assoc w chunk (appended cs)) rest.2,
      )
  run_calls-Receiving json k id w (updates j fn now ∷ cs) s h r =
      let own = subst (λ i. Receiving k i w s) (sym h.0) r in
      let one =
        update_entry-Received k j w fn now s k.entry own
          (ap (λ g. but_format (g own.live.entry)) h.1.1 ∙ own.same_entry) in
      let rest =
        run_calls-Receiving json k id w cs one.0 h.2
          (subst (λ i. Receiving k i w one.0) h.0 one.2) in
      (rest.0, ap (next json cs) (ap done one.1) ∙ rest.1, rest.2)
  run_calls-Receiving json k id w (Call.puts f n e ∷ cs) s h r = absurd h
  run_calls-Receiving json k id w (Call.sets_body i b ∷ cs) s h r = absurd h
  run_calls-Receiving json k id w (Call.finalizes i f n ∷ cs) s h r = absurd h
  run_calls-Receiving json k id w (Call.sweeps t q n ∷ cs) s h r = absurd h
  run_calls-Receiving json k id w (Call.clears ∷ cs) s h r = absurd h
  run_calls-Receiving json k id w (Call.subscribes ∷ cs) s h r = absurd h
  run_calls-Receiving json k id w (Call.gets i ∷ cs) s h r = absurd h
  run_calls-Receiving json k id w (Call.lists l c ∷ cs) s h r = absurd h
  run_calls-Receiving json k id w (Call.reads i q ∷ cs) s h r = absurd h
  run_calls-Receiving json k id w (Call.receives c ∷ cs) s h r = absurd h
  run_calls-Receiving json k id w (Call.drops c ∷ cs) s h r = absurd h

  -- The calls of the capture reader, before `onClose`.
  pub read-Receiving :
      (valid : Str → Bool) (json : Codec) (k : Fixed sql) (id : Str) (format : Format)
      (cs : List (Time × Str)) (now : Time) (s : Store sql)
      → Receiving k id [] s
      → let r = read_all valid cs (new_capture_reader id format) in
        (s' : Store sql) × (run_calls json (r.0 ++ (close_reader now r.1).0) s ≡ some s')
        × Receiving k id (concat (map (λ c. c.1) cs)) s'
  read-Receiving valid json k id format cs now s recv =
      let c = new_capture_reader id format in
      let r = read_all valid cs c in
      let last = close_reader now r.1 in
      let owns = read_all-Owns valid cs c in
      let calls =
        OnlyFor-append id r.0 last.0 owns.0
          (subst (λ i. OnlyFor i last.0) owns.1 (close_reader-OnlyFor now r.1)) in
      let run = run_calls-Receiving json k id [] (r.0 ++ last.0) s calls recv in
      (
        run.0,
        run.1,
        subst (λ v. Receiving k id v run.0) (read_all-close_reader valid id format cs now now).0
            run.2,
      )

  -- A response relayed through a new reader and closed, for an entry in flight that has none yet, on
  -- a store whose broker is wired and with no file operation failing: the reader's calls run on the
  -- store without a panic, and `Body` of the entry then gives exactly the bytes that were read, with
  -- their number, however the response was cut and whatever format was detected.
  pub read_all-body :
      (valid : Str → Bool) (json : Codec) (id : Str) (format : Format) (live : LiveEntry)
      (cs : List (Time × Str)) (now : Time) (s : Store sql)
      → IsWired s.events
      → lookup id s.mem ≡ some live
      → live.resp ≡ buffer id side_response
      → s.disk.faults ≡ []
      → let r = read_all valid cs (new_capture_reader id format) in
        let bytes = concat (map (λ c. c.1) cs) in
        (s₁ : Store sql) × (s₂ : Store sql) × (run_calls json (r.0 ++ (close_reader now r.1).0) s
          ≡ some s₁)
        × (body json id side_response s₁ ≡ returns (ok (bytes, length bytes)) s₂)
  read_all-body valid json id format live cs now s w found fresh f =
      let k = fixed_of live s in
      let run =
        read-Receiving valid json k id format cs now s
          (start-Receiving id live s w found fresh f) in
      let given = body-Receiving json k id (concat (map (λ c. c.1) cs)) run.0 run.2 in
      (run.0, given.0, run.1, given.1)
