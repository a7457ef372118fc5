-- ===== src/Store/Ops/Bodies.antt =====
-- A response that is appended to the store chunk by chunk, and what `Body` then gives.
use http_debug.Base.{
  ℕ, ◌<◌, ◌≡◌, refl, ap, ◌∙◌, subst, Bool, ltb, some, List, [], ◌∷◌, ◌++◌, Str, str_eq, length,
  take, take-all, arith, if◌then◌else◌, Bool-cases, inl, inr, append-nil, append_assoc, map,
}
use http_debug.Base.Map.{lookup}
use http_debug.Time.{Time}
use http_debug.Store.Entry.{side_response}
use http_debug.Store.Disk.{spend, open_file, open_path}
use http_debug.Store.Blobs.{buffer, path}
use http_debug.Store.Blobs.Body.{concat, path-not_empty}
use http_debug.Store.Events.FanOut.{IsWired}
use http_debug.Store.Memory.{LiveEntry, snapshot}
use http_debug.Store.Result.{ok}
use http_debug.Store.Rows.{Codec}
use http_debug.Store.Action.{Action, returns, after_result, ◌>>◌}
use http_debug.Store.Sqlite.{Sqlite}
use http_debug.Store.Ops.{Store, append_response}
use http_debug.Store.Ops.Read.{get, body, body_of, side_of}
use http_debug.Store.Ops.Receiving.{
  Fixed, Receiving, Received, append_response-Received, fixed_of, start-Receiving, Receiving-state,
}

module _ {sql : Sqlite} where
  -- The appends of one response, each at its own time.
  abbrev pub append_all : Str → List (Str × Bool × Time) → Action (Store sql) (Unit {0})
  append_all id [] s = returns (ok tt) s
  append_all id ((chunk, emit_delta, now) ∷ cs) s =
      (append_response id chunk emit_delta now >> append_all id cs) s

  pub append_all-Received :
      (k : Fixed sql) (id w : Str) (cs : List (Str × Bool × Time)) (s : Store sql)
      → Receiving k id w s
      → Received k id (w ++ concat (map (λ c. c.0) cs)) (append_all id cs s)
  append_all-Received k id w [] s r = record {
    final = s;
    returned = refl;
    receiving = rw append-nil r;
  }
  append_all-Received k id w ((chunk, emit_delta, now) ∷ cs) s r =
      let one = append_response-Received k id w chunk emit_delta now s r in
      let rest = append_all-Received k id (w ++ chunk) cs one.final one.receiving in
      record {
        final = rest.final;
        returned = ap (after_result (λ _. append_all id cs)) one.returned ∙ rest.returned;
        receiving =
            subst (λ v. Receiving k id v rest.final)
              (append_assoc w chunk (concat (map (λ c. c.0) cs))) rest.receiving;
      }

  body_of_lem :
      (id w : Str) (s : Store sql)
      → s.disk.faults ≡ []
      → (s.blobs.max_inline < length w → open_file (path s.blobs id side_response) s.disk ≡ some w)
      → let over = ltb s.blobs.max_inline (length w) in
        let p = if over then path s.blobs id side_response else [] in
        (s' : Store sql) × (body_of (p, take s.blobs.max_inline w, length w) s
          ≡ returns (ok (w, length w)) s')
  unfolding open_path
  body_of_lem id w s f file = elim (Bool-cases (ltb s.blobs.max_inline (length w))) [
    | inl over ↦ (
      record s { disk = spend s.disk },
      rw (over, path-not_empty s.blobs id side_response, f, file (ground (arith, over))) refl,
    )
    | inr fits ↦ (s, rw (fits, take-all s.blobs.max_inline w (ground arith)) refl)
  ]

  pub get-live :
      (json : Codec) (id : Str) (live : LiveEntry) (s : Store sql)
      → lookup id s.mem ≡ some live
      → get json id s ≡ returns (ok (snapshot live)) s
  unfolding get
  get-live json id live s e = rw (get, e) refl

  pub body-Receiving :
      (json : Codec) (k : Fixed sql) (id w : Str) (s : Store sql)
      → Receiving k id w s
      → (s' : Store sql) × (body json id side_response s ≡ returns (ok (w, length w)) s')
  unfolding body snapshot str_eq
  body-Receiving json k id w s r =
      let t = Receiving-state k id w s r in
      let read = body_of_lem id w s r.no_faults t.1 in
      (
        read.0,
        ap (after_result (λ e. body_of (side_of side_response e)))
              (get-live json id r.live s r.found)
            ∙ ap (λ (x : Str × Str × ℕ × Bool). body_of (x.1, x.0, x.2) s) t.0
            ∙ read.1,
      )

  -- A response that is appended in any number of chunks to an entry in flight that has none yet, with
  -- no file operation failing: every append succeeds, and `Body` then gives exactly the chunks, one
  -- after the other, with their total length as the size. It does not matter where the limit falls,
  -- nor which of the chunks are announced.
  pub append_all-body :
      (json : Codec) (id : Str) (live : LiveEntry) (cs : List (Str × Bool × Time)) (s : Store sql)
      → IsWired s.events
      → lookup id s.mem ≡ some live
      → live.resp ≡ buffer id side_response
      → s.disk.faults ≡ []
      → let bytes = concat (map (λ c. c.0) cs) in
        (s₁ : Store sql) × (s₂ : Store sql) × (append_all id cs s ≡ returns (ok tt) s₁)
        × (body json id side_response s₁ ≡ returns (ok (bytes, length bytes)) s₂)
  append_all-body json id live cs s w found fresh f =
      let k = fixed_of live s in
      let start = start-Receiving id live s w found fresh f in
      let all = append_all-Received k id [] cs s start in
      let read = body-Receiving json k id _ all.final all.receiving in
      (all.final, read.0, all.returned, read.1)
