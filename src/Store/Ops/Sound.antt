-- ===== src/Store/Ops/Sound.antt =====
-- What holds of a store between the calls of its methods, and that the steps they share keep it.
use http_debug.Base.{
  ◌≡◌, ◌⊎◌, [], sym, ◌∙◌, subst, true, false, some, Str, str_eq, str_eq_iff, arith, if◌then◌else◌,
  Bool-cases, inl, inr,
}
use http_debug.Base.Map.{lookup, insert, delete, lookup-insert, lookup-delete}
use http_debug.Store.Entry.{side_request, side_response}
use http_debug.Store.Events.{Event}
use http_debug.Store.Events.FanOut.{IsWired, fan_out, publish-fan_out}
use http_debug.Store.Events.Wired.{fan_out-IsWired}
use http_debug.Store.Memory.{MemStore, LiveEntry}
use http_debug.Store.Result.{Result, ok, err}
use http_debug.Store.Action.{Outcome, Action, returns, ◌>>=◌}
use http_debug.Store.Sqlite.{Sqlite, SqlDb}
use http_debug.Store.Sqlite.Keeps.{HasUniqueIds, StaysUnique}
use http_debug.Store.Ops.{Store, announce, on_db}

-- An entry in flight, under its own id, with a buffer for each of its own bodies.
pub record Keyed (id : Str) (live : LiveEntry) : Type 0 where
  pub entry : live.entry.id ≡ id
  pub req_id : live.req.id ≡ id
  pub req_side : live.req.side ≡ side_request
  pub resp_id : live.resp.id ≡ id
  pub resp_side : live.resp.side ≡ side_response

abbrev pub AllKeyed : MemStore → Type 0
AllKeyed m = (id : Str) (live : LiveEntry) → lookup id m ≡ some live → Keyed id live

pub AllKeyed-empty : AllKeyed []
unfolding lookup
AllKeyed-empty j l h = absurd (ground (arith, h))

pub AllKeyed-insert :
    (id : Str) (live : LiveEntry) (m : MemStore)
    → Keyed id live
    → AllKeyed m
    → AllKeyed (insert id live m)
AllKeyed-insert id live m k all j l h = go (Bool-cases (str_eq id j))
  where
    found : (if str_eq id j then some live else lookup j m) ≡ some l
    found = sym (lookup-insert id j live m) ∙ h

    go : (str_eq id j ≡ true) ⊎ (str_eq id j ≡ false) → Keyed j l
    go (inl e) =
        subst (λ i. Keyed i l) ((str_eq_iff id j).0 e) (subst (Keyed id) (ground (arith, found)) k)
    go (inr e) = all j l (ground (arith, found))

pub AllKeyed-delete : (id : Str) (m : MemStore) → AllKeyed m → AllKeyed (delete id m)
AllKeyed-delete id m all j l h = all j l (ground (arith, lookup-delete id j m))

module _ (sql : Sqlite) where
  pub record IsSound (s : Store sql) : Type 0 where
    pub wired : IsWired s.events
    pub unique : HasUniqueIds sql s.db
    pub keyed : AllKeyed s.mem

  -- The method returned, and left such a state.
  pub data Settles {A : Type 0} (P : Store sql → Type 0) : Outcome (Store sql) A → Type 0 where
    settled : (r : Result A) (s : Store sql) → P s → Settles P (returns r s)

module _ {sql : Sqlite} where
  abbrev pub StaysSound : {A : Type 0} → Outcome (Store sql) A → Type 0
  StaysSound {A} = Settles sql (IsSound sql)

  pub bind-Settles :
      {A B : Type 0} (P : Store sql → Type 0) (m : Action (Store sql) A)
      (f : A → Action (Store sql) B) (s : Store sql)
      → Settles sql P (m s)
      → ((a : A) (s' : Store sql) → P s' → Settles sql P (f a s'))
      → Settles sql P ((m >>= f) s)
  bind-Settles {A} {B} P m f s h k = go (m s) h
    where
      go : (o : Outcome (Store sql) A) → Settles sql P o → Settles sql P (((λ _. o) >>= f) s)
      go _ (settled (ok a) s' p) = k a s' p
      go _ (settled (err e) s' p) = settled (err e) s' p

  pub bind-StaysSound :
      {A B : Type 0} (m : Action (Store sql) A) (f : A → Action (Store sql) B) (s : Store sql)
      → StaysSound (m s)
      → ((a : A) (s' : Store sql) → IsSound sql s' → StaysSound (f a s'))
      → StaysSound ((m >>= f) s)
  bind-StaysSound = bind-Settles (IsSound sql)

  pub announce-StaysSound :
      (ev : Event) (s : Store sql) → IsSound sql s → StaysSound (announce ev s)
  unfolding announce
  announce-StaysSound ev s h = rw (publish-fan_out ev s.events h.wired) (
      settled (ok tt) (record s { events = fan_out ev s.events })
        (record {
          wired = fan_out-IsWired ev s.events h.wired;
          unique = h.unique;
          keyed = h.keyed;
        }))

  pub on_db-StaysSound :
      {A : Type 0} (q : SqlDb sql → Result A × SqlDb sql) (s : Store sql)
      → IsSound sql s
      → StaysUnique sql (q s.db)
      → StaysSound (on_db q s)
  on_db-StaysSound q s h u =
      settled (q s.db).0 (record s { db = (q s.db).1 })
        (record { wired = h.wired; unique = u.ids; keyed = h.keyed })
