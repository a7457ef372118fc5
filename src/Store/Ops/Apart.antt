-- ===== src/Store/Ops/Apart.antt =====
-- The methods that register and change entries leave the entries in flight with files of their own.
use http_debug.Base.{
  ◌≡◌, refl, Bool, true, false, ◌&&◌, ◌==◌, ltb, Option, none, some, Str, length, if◌then◌else◌,
  if_either,
}
use http_debug.Base.Map.{lookup, insert}
use http_debug.Time.{Time}
use http_debug.Store.Entry.{Entry}
use http_debug.Store.Disk.Separate.{Evolves-refl, Wrote-Evolves}
use http_debug.Store.Blobs.{write_body}
use http_debug.Store.Blobs.Apart.{Evolves-OwnHandle, write_body-Writes}
use http_debug.Store.Events.{Event, Broker, publish}
use http_debug.Store.Memory.{LiveEntry, mem_put, update_live, touch}
use http_debug.Store.Result.{ok, err, not_found, failed}
use http_debug.Store.Action.{Outcome, Action, returns, panics, pure, after_result, ignoring, ◌>>=◌}
use http_debug.Store.Sqlite.{Sqlite}
use http_debug.Store.Ops.{
  Store, announce, published, registered, register, put, set_request_body, append_response,
  update_entry, delta_event,
}
use http_debug.Store.Ops.Separate.{
  IsSeparate, insert-Separate, mem_put-Separate, write_body-Separate,
}

module _ {sql : Sqlite} where
  -- The state that a method leaves, unless it panics.
  abbrev pub Leaves : {A : Type 0} → Outcome (Store sql) A → Type 0
  Leaves (returns r s) = IsSeparate s
  Leaves panics = Unit

  pub bind-Leaves :
      {A B : Type 0} (m : Action (Store sql) A) (f : A → Action (Store sql) B) (s : Store sql)
      → Leaves (m s)
      → ((a : A) (s' : Store sql) → IsSeparate s' → Leaves (f a s'))
      → Leaves ((m >>= f) s)
  bind-Leaves {A} m f s h k = go (m s) h
    where
      go : (o : Outcome (Store sql) A) → Leaves o → Leaves (after_result f o)
      go (returns (ok a) s') p = k a s' p
      go (returns (err e) s') p = p
      go panics p = tt

  pub ignoring-Leaves :
      {A B : Type 0} (k : Action (Store sql) B) (o : Outcome (Store sql) A)
      → Leaves o
      → ((s : Store sql) → IsSeparate s → Leaves (k s))
      → Leaves (ignoring k o)
  ignoring-Leaves k (returns r s) h go = go s h
  ignoring-Leaves k panics h go = tt

  pub announce-Leaves : (ev : Event) (s : Store sql) → IsSeparate s → Leaves (announce ev s)
  unfolding announce
  announce-Leaves ev s h = go (publish ev s.events)
    where
      go : (o : Option Broker) → Leaves (published s o)
      go none = tt
      go (some b) = h

  register-Leaves :
      (now : Time) (e : Entry) (s : Store sql) → IsSeparate s → Leaves (register now e s)
  unfolding register
  register-Leaves now e s h =
      let s' = record s { mem = mem_put e now s.mem } in
      bind-Leaves (announce _) (λ _. pure e.id) s'
        (announce-Leaves _ s' (mem_put-Separate s.blobs e now s.mem s.disk h)) (λ _ s'' p. p)

  pub put-Leaves :
      (fresh : Option Str) (now : Time) (e : Entry) (s : Store sql)
      → IsSeparate s
      → Leaves (put fresh now e s)
  unfolding put
  put-Leaves fresh now e s h =
      if_either Leaves (length e.id == 0) (go fresh) (register-Leaves now _ s h)
    where
      go :
          (o : Option Str)
          → (let x : Outcome (Store sql) Str = elim o [
            | none ↦ returns (err failed) s
            | some id ↦ register now (registered id now e) s
          ] in
              Leaves x)
      go none = h
      go (some id) = register-Leaves now _ s h

  -- The cases of an entry that is in flight, or not.
  pub live_cases :
      {A : Type 0} (id : Str) (s : Store sql) (f : LiveEntry → Outcome (Store sql) A)
      → IsSeparate s
      → ((live : LiveEntry) → lookup id s.mem ≡ some live → Leaves (f live))
      → (let x : Outcome (Store sql) A = elim (lookup id s.mem) [
        | none ↦ returns (err not_found) s
        | some live ↦ f live
      ] in
          Leaves x)
  live_cases {A} id s f h k = go (lookup id s.mem) refl
    where
      go :
          (o : Option LiveEntry)
          → lookup id s.mem ≡ o
          → (let x : Outcome (Store sql) A = elim o [
            | none ↦ returns (err not_found) s
            | some live ↦ f live
          ] in
              Leaves x)
      go none e = h
      go (some live) e = k live e

  pub set_request_body-Leaves :
      (id body : Str) (s : Store sql) → IsSeparate s → Leaves (set_request_body id body s)
  unfolding set_request_body
  set_request_body-Leaves id body s h = live_cases id s _ h (λ live e.
      let k = h.each id live e in
      let w = write_body-Writes s.blobs body live.req s.disk h.files k.req in
      let req = (write_body s.blobs body live.req s.disk).1 in
      insert-Separate s.blobs s.mem id (record live { req = req }) (Wrote-Evolves w.wrote) h
        (record {
          req = w.handle;
          resp = Evolves-OwnHandle s.blobs live.resp (Wrote-Evolves w.wrote) k.resp;
          named = k.named;
        }))

  pub append_response-Leaves :
      (id chunk : Str) (emit_delta : Bool) (now : Time) (s : Store sql)
      → IsSeparate s
      → Leaves (append_response id chunk emit_delta now s)
  unfolding append_response touch
  append_response-Leaves id chunk emit_delta now s h =
      live_cases id s _ h (λ live e. go live e (write_body s.blobs chunk live.resp s.disk).0)
    where
      go :
          (live : LiveEntry)
          → lookup id s.mem ≡ some live
          → (done : Bool)
          → (let w = write_body s.blobs chunk live.resp s.disk in
              let failing = record live { resp = w.1 } in
              let taking = record live { resp = w.1; last_seen = now } in
              let s' = record s { mem = insert id taking s.mem; disk = w.2 } in
              let x : Outcome (Store sql) (Unit {0}) = elim done [
                | false ↦
                    returns (err failed) (record s { mem = insert id failing s.mem; disk = w.2 })
                | true ↦
                    if emit_delta && ltb 0 (length chunk)
                    then announce (delta_event id chunk) s'
                    else returns (ok tt) s'
              ] in
              Leaves x)
      go live e false = write_body-Separate s.blobs s.mem s.disk id chunk live _ h e refl refl
      go live e true =
          let w = write_body s.blobs chunk live.resp s.disk in
          let taking = record live { resp = w.1; last_seen = now } in
          let s' = record s { mem = insert id taking s.mem; disk = w.2 } in
          let k = write_body-Separate s.blobs s.mem s.disk id chunk live taking h e refl refl in
          if_either Leaves (emit_delta && ltb 0 (length chunk))
            (announce-Leaves (delta_event id chunk) s' k) k

  pub update_entry-Leaves :
      (id : Str) (fn : Entry → Entry) (now : Time) (s : Store sql)
      → IsSeparate s
      → Leaves (update_entry id fn now s)
  unfolding update_entry update_live
  update_entry-Leaves id fn now s h = live_cases id s _ h (λ live e.
      let k = h.each id live e in
      let live' = update_live fn now live in
      announce-Leaves _ (record s { mem = insert id live' s.mem })
        (insert-Separate s.blobs s.mem id live' (Evolves-refl s.disk) h
          (record { req = k.req; resp = k.resp; named = k.named })))
