-- ===== src/Store/Ops/Registered.antt =====
-- What Put registers, and what Get then gives.
use http_debug.Base.{
  ◌≡◌, refl, sym, ap, ◌∙◌, false, ◌==◌, Option, none, some, [], Str, str_eq, length, if◌then◌else◌,
  ◌∷◌, codes, arith, if_true, if_false, Bool-cases, inl, inr,
}
use http_debug.Base.Map.{lookup, insert, lookup-insert}
use http_debug.Time.{Time, is_zero}
use http_debug.Store.Entry.{Entry, Status, status_pending}
use http_debug.Store.Events.{created}
use http_debug.Store.Events.FanOut.{IsWired, fan_out}
use http_debug.Store.Memory.{new_live, mem_put, snapshot}
use http_debug.Store.Result.{ok}
use http_debug.Store.Rows.{Codec}
use http_debug.Store.Action.{Outcome, returns, after_result, pure}
use http_debug.Store.Sqlite.{Sqlite}
use http_debug.Store.Ops.{Store, entry_event, registered, register, put}
use http_debug.Store.Ops.Read.{get}
use http_debug.Store.Ops.Finalized.{announce_lem}
use http_debug.Store.Ops.Bodies.{get-live}
use http_debug.Store.Ops.Receiving.{lookup_self}

-- The entry's own id, or the fresh one.
abbrev pub given_id : Option Str → Entry → Option Str
given_id fresh e = if length e.id == 0 then fresh else some e.id

-- The entry's own status, or pending.
abbrev pub first_status : Status → Status
first_status [] = codes "pending"
first_status (c ∷ s) = c ∷ s

-- The given entry with its id, its start and its status filled in, and no bodies yet.
abbrev pub first_snapshot : Str → Time → Entry → Entry
first_snapshot id now e = record e {
  id = id;
  started_at = if is_zero e.started_at then now else e.started_at;
  status = first_status e.status;
  request_body = [];
  request_body_path = [];
  request_body_size = 0;
  request_spilled = false;
  response_body = [];
  response_body_path = [];
  response_body_size = 0;
  response_spilled = false;
}

registered-status :
    (st : Status) → (if length st == 0 then status_pending else st) ≡ first_status st
registered-status [] = refl
registered-status (c ∷ s) = ground arith

first_snapshot_lem :
    (id : Str) (now : Time) (e : Entry)
    → snapshot (new_live (registered id now e) now) ≡ first_snapshot id now e
unfolding snapshot
first_snapshot_lem id now e =
    ap (λ st. record (first_snapshot id now e) { status = st }) (registered-status e.status)

abbrev or_else : Str → Option Str → Str
or_else id none = id
or_else id (some i) = i

module _ {sql : Sqlite} where
  pub record Registered (json : Codec) (id : Str) (now : Time) (e : Entry) (s : Store sql)
      (o : Outcome (Store sql) Str) : Type 0 where
    pub final : Store sql
    pub returned : o ≡ returns (ok id) final
    pub got : get json id final ≡ returns (ok (first_snapshot id now e)) final
    pub others : (j : Str) → str_eq id j ≡ false → lookup j final.mem ≡ lookup j s.mem
    pub told : final.events ≡ fan_out (entry_event created (first_snapshot id now e)) s.events

  put-register :
      (fresh : Option Str) (id : Str) (now : Time) (e : Entry) (s : Store sql)
      → given_id fresh e ≡ some id
      → put fresh now e s ≡ register now (registered id now e) s
  unfolding put
  put-register fresh id now e s h = elim (Bool-cases (length e.id == 0)) [
    | inl anonymous ↦
        let from_fresh : fresh ≡ some id = sym (if_true _ _ anonymous) ∙ h in
        rw (anonymous, from_fresh) refl
    | inr named ↦
        let own : e.id ≡ id = ap (or_else id) (sym (if_false _ _ named) ∙ h) in
        if_false _ _ named ∙ ap (λ i. register now (registered i now e) s) own
  ]

  -- The store with a new entry in flight, of which the subscribers are told.
  abbrev pub registered_in : Str → Time → Entry → Store sql → Store sql
  registered_in id now e s =
      let live = new_live (registered id now e) now in
      record s {
        mem = insert id live s.mem;
        events = fan_out (entry_event created (snapshot live)) s.events;
      }

  pub put-registered_in :
      (fresh : Option Str) (id : Str) (now : Time) (e : Entry) (s : Store sql)
      → given_id fresh e ≡ some id
      → IsWired s.events
      → put fresh now e s ≡ returns (ok id) (registered_in id now e s)
  unfolding register mem_put
  put-registered_in fresh id now e s h w =
      let live = new_live (registered id now e) now in
      put-register fresh id now e s h
      ∙ ap (after_result (λ _. pure id)) (
          announce_lem (entry_event created (snapshot live))
            (record s { mem = insert id live s.mem }) w)

  -- Put of an entry that has an id, or is given a fresh one, on a store whose broker is wired: it
  -- succeeds with that id, and Get of the id then gives the entry, with the start
  -- taken from the clock where it was the zero time, the status `pending` where it was empty, every
  -- other field as given, and empty bodies. No other entry in flight changes, and
  -- every subscriber with room is told of this one.
  pub put-Registered :
      (json : Codec) (fresh : Option Str) (id : Str) (now : Time) (e : Entry) (s : Store sql)
      → given_id fresh e ≡ some id
      → IsWired s.events
      → Registered json id now e s (put fresh now e s)
  unfolding snapshot
  put-Registered json fresh id now e s h w =
      let live = new_live (registered id now e) now in
      record {
        final = registered_in id now e s;
        returned = put-registered_in fresh id now e s h w;
        got =
            get-live json id live (registered_in id now e s) (lookup_self id live s)
            ∙ ap (λ x. returns (ok x) (registered_in id now e s)) (first_snapshot_lem id now e);
        others = λ j h. lookup-insert id j live s.mem ∙ if_false _ _ h;
        told = ap (λ x. fan_out (entry_event created x) s.events) (first_snapshot_lem id now e);
      }
