-- ===== src/Store/Ops/Sweep.antt =====
-- What SweepPending leaves where the database does not fail.
use http_debug.Base.{
  ℕ, keep, if_either, ◌≡◌, refl, sym, ap, ◌∙◌, subst, Bool, true, false, Option, none, some, List,
  [], ◌∷◌, Str, str_eq, str_eq_iff, is_member, length, if◌then◌else◌, if_true, if_false, Bool-cases,
  inl, inr, arith,
}
use http_debug.Base.Int.{◌-ℤ◌}
use http_debug.Base.Map.{lookup, HasUniqueKeys}
use http_debug.Time.{Time, Duration, before}
use http_debug.Store.Entry.{Entry}
use http_debug.Store.Memory.{MemStore, LiveEntry, stale_ids}
use http_debug.Store.Result.{Result, ok, err, not_found}
use http_debug.Store.Rows.{Codec, Row, to_row}
use http_debug.Store.Action.{Outcome, returns, after_result, pure, ignoring}
use http_debug.Store.Sqlite.{Sqlite}
use http_debug.Store.Ops.{Store}
use http_debug.Store.Ops.Finish.{give_up, finalize, sweep, sweep_pending}
use http_debug.Store.Ops.Sound.{IsSound, settled, StaysSound}
use http_debug.Store.Ops.Ends.{finalize-StaysSound}
use http_debug.Store.Ops.Finalized.{final_entry, finalize-Finalized_wired}

-- Every entry can become a row.
abbrev pub Storable : Codec → Type 0
Storable json = (e : Entry) → (r : Row) × (to_row json e ≡ some r)

-- An entry that was seen within the timeout stays; another one, if there is one, goes.
abbrev pub unless_idle : Duration → Time → Option LiveEntry → Option LiveEntry
unless_idle timeout now none = none
unless_idle timeout now (some live) =
    if before live.last_seen (now -ℤ timeout) then none else some live

abbrev pub idle_count : Duration → Time → MemStore → ℕ
idle_count timeout now m = length (keep (λ (_, l). before l.last_seen (now -ℤ timeout)) m)

length-stale_ids :
    (timeout : Duration) (now : Time) (m : MemStore)
    → length (stale_ids timeout now m) ≡ idle_count timeout now m
unfolding stale_ids
length-stale_ids timeout now [] = refl
length-stale_ids timeout now ((j, l) ∷ m) = ground (arith, length-stale_ids timeout now m)

stale_ids-none :
    (timeout : Duration) (now : Time) (id : Str) (m : MemStore)
    → lookup id m ≡ none
    → is_member id (stale_ids timeout now m) ≡ false
unfolding lookup stale_ids
stale_ids-none timeout now id [] h = refl
stale_ids-none timeout now id ((j, l) ∷ m) h = elim (Bool-cases (str_eq j id)) [
  | inl same ↦ absurd (ground (arith, h, same))
  | inr other ↦
      let rest = stale_ids-none timeout now id m (sym (if_false _ _ other) ∙ h) in
      if_either (λ ids. is_member id ids ≡ false) (before l.last_seen (now -ℤ timeout))
        (rw other rest) rest
]

first_idle :
    (b : Bool) (j id : Str) (rest : List Str) (live : LiveEntry)
    → str_eq j id ≡ true
    → is_member id rest ≡ false
    → (if is_member id (if b then j ∷ rest else rest) then none else some live)
      ≡ (if b then none else some live)
first_idle true j id rest live same missing = rw same refl
first_idle false j id rest live same missing = rw missing refl

member_behind :
    (b : Bool) (j id : Str) (rest : List Str)
    → str_eq j id ≡ false
    → is_member id (if b then j ∷ rest else rest) ≡ is_member id rest
member_behind true j id rest other = rw other refl
member_behind false j id rest other = refl

stale_ids-unless_idle :
    (timeout : Duration) (now : Time) (id : Str) (m : MemStore)
    → HasUniqueKeys m
    → (if is_member id (stale_ids timeout now m) then none else lookup id m)
      ≡ unless_idle timeout now (lookup id m)
unfolding lookup stale_ids
stale_ids-unless_idle timeout now id [] h = refl
stale_ids-unless_idle timeout now id ((j, l) ∷ m) h = elim (Bool-cases (str_eq j id)) [
  | inl same ↦
      let missing : lookup id m ≡ none =
        subst (λ i. lookup i m ≡ none) ((str_eq_iff j id).0 same) h.0 in
      ap (λ o. if is_member id ids then none else o) (if_true _ _ same)
      ∙ first_idle (before l.last_seen (now -ℤ timeout)) j id rest l same
          (stale_ids-none timeout now id m missing)
      ∙ sym (ap (unless_idle timeout now) (if_true _ _ same))
  | inr other ↦
      ap (λ o. if is_member id ids then none else o) (if_false _ _ other)
      ∙ ap (λ b. if b then none else lookup id m)
          (member_behind (before l.last_seen (now -ℤ timeout)) j id rest other)
      ∙ stale_ids-unless_idle timeout now id m h.1
      ∙ sym (ap (unless_idle timeout now) (if_false _ _ other))
]
  where
    rest : List Str
    rest = stale_ids timeout now m

    ids : List Str
    ids = if before l.last_seen (now -ℤ timeout) then j ∷ rest else rest

module _ {sql : Sqlite} where
  after-StaysSound :
      {A : Type 0} (r : Result A) (s : Store sql) {o : Outcome (Store sql) A}
      → StaysSound o
      → o ≡ returns r s
      → IsSound sql s
  after-StaysSound r s h e = go (subst StaysSound e h)
    where
      go : StaysSound (returns r s) → IsSound sql s
      go (settled _ _ p) = p

  -- The store after a sweep: what is left of each entry that was in flight.
  pub record Swept {A : Type 0} (kept : Option LiveEntry → Option LiveEntry) (x : A) (s : Store sql)
      (o : Outcome (Store sql) A) : Type 0 where
    pub final : Store sql
    pub returned : o ≡ returns (ok x) final
    pub sound : IsSound sql final
    pub no_faults : final.db.faults ≡ []
    pub left : (j : Str) → lookup j final.mem ≡ kept (lookup j s.mem)

  -- The store after some entries were given up.
  record Without {A : Type 0} (ids : List Str) (x : A) (s : Store sql) (o : Outcome (Store sql) A)
      : Type 0 where
    final : Store sql
    returned : o ≡ returns (ok x) final
    sound : IsSound sql final
    no_faults : final.db.faults ≡ []
    left : (j : Str) → lookup j final.mem ≡ (if is_member j ids then none else lookup j s.mem)

  -- The store after one entry was given up, if it was there.
  record GivenUp (id : Str) (s : Store sql) (o : Outcome (Store sql) (Unit {0})) : Type 0 where
    final : Store sql
    result : Result (Unit {0})
    returned : o ≡ returns result final
    sound : IsSound sql final
    no_faults : final.db.faults ≡ []
    left : (j : Str) → lookup j final.mem ≡ (if str_eq id j then none else lookup j s.mem)

  missing_left :
      (id j : Str) (s : Store sql)
      → lookup id s.mem ≡ none
      → lookup j s.mem ≡ (if str_eq id j then none else lookup j s.mem)
  missing_left id j s e =
      let nothing : str_eq id j ≡ true → lookup j s.mem ≡ none =
        λ q. ap (λ i. lookup i s.mem) (sym ((str_eq_iff id j).0 q)) ∙ e in
      ground (arith, nothing)

  finalize-GivenUp :
      (json : Codec) (id reason : Str) (now : Time) (s : Store sql)
      → Storable json
      → IsSound sql s
      → s.db.faults ≡ []
      → GivenUp id s (finalize json id (some (give_up reason)) now s)
  unfolding finalize
  finalize-GivenUp json id reason now s m h f = go (lookup id s.mem) refl
    where
      fn : Option (Entry → Entry)
      fn = some (give_up reason)

      go : (o : Option LiveEntry) → lookup id s.mem ≡ o → GivenUp id s (finalize json id fn now s)
      go none e = record {
        final = s;
        result = err not_found;
        returned = rw (finalize, e) refl;
        sound = h;
        no_faults = f;
        left = λ j. missing_left id j s e;
      }
      go (some live) e =
          let row = m (final_entry fn now live) in
          let fin =
            (finalize-Finalized_wired json id fn now live row.0 s h.wired h.unique e row.1
              f).1.retired in
          record {
            final = fin.final;
            result = ok tt;
            returned = fin.returned;
            sound =
                after-StaysSound (ok tt) fin.final
                  (finalize-StaysSound json id fn now s (λ x. refl) h) fin.returned;
            no_faults = fin.retained.no_faults;
            left = fin.gone;
          }

  sweep-Without :
      (json : Codec) (ids : List Str) (reason : Str) (now : Time) (s : Store sql)
      → Storable json
      → IsSound sql s
      → s.db.faults ≡ []
      → Without ids tt s (sweep json ids reason now s)
  unfolding sweep
  sweep-Without json [] reason now s m h f = record {
    final = s;
    returned = refl;
    sound = h;
    no_faults = f;
    left = λ j. refl;
  }
  sweep-Without json (id ∷ ids) reason now s m h f =
      let one = finalize-GivenUp json id reason now s m h f in
      let rest = sweep-Without json ids reason now one.final m one.sound one.no_faults in
      record {
        final = rest.final;
        returned = ap (ignoring (sweep json ids reason now)) one.returned ∙ rest.returned;
        sound = rest.sound;
        no_faults = rest.no_faults;
        left = λ j. ground (arith, rest.left j, one.left j);
      }

  -- SweepPending on a sound store whose entries all have rows and whose memory has no id twice, with
  -- no statement failing. It returns the number of the entries in flight that were last seen before
  -- the timeout. Each of these is gone from memory, and under every other id memory has what it had.
  pub sweep_pending-Swept :
      (json : Codec) (timeout : Duration) (reason : Str) (now : Time) (s : Store sql)
      → Storable json
      → IsSound sql s
      → HasUniqueKeys s.mem
      → s.db.faults ≡ []
      → Swept
          (unless_idle timeout now)
          (idle_count timeout now s.mem)
          s
          (sweep_pending json timeout reason now s)
  unfolding sweep_pending
  sweep_pending-Swept json timeout reason now s m h u f =
      let ids = stale_ids timeout now s.mem in
      let w = sweep-Without json ids reason now s m h f in
      record {
        final = w.final;
        returned =
            ap (after_result (λ _. pure (length ids))) w.returned
            ∙ ap (λ n. returns (ok n) w.final) (length-stale_ids timeout now s.mem);
        sound = w.sound;
        no_faults = w.no_faults;
        left = λ j. w.left j ∙ stale_ids-unless_idle timeout now j s.mem u;
      }
