-- ===== src/Program/Closing.antt =====
-- The end of `run` in cmd/debugproxy/main.go: the shutdown and the deferred Close.
use http_debug.Base.{
  ℕ, ◌<◌, has, ◌≡◌, refl, sym, ap, ◌∙◌, subst, Bool, true, false, Option, none, some, List, [], ◌⊎◌,
  inl, inr, Bool-cases, if_true, if_false, if◌then◌else◌,
}
use http_debug.Store.Events.Wired.{close_lem, shut_down, shut_down-IsWired}
use http_debug.Store.Sqlite.{Sqlite}
use http_debug.Store.Ops.{Store}
use http_debug.Store.Ops.Sound.{IsSound}
use http_debug.Store.Ops.Opening.{closed_store, close_store}
use http_debug.Proxy.Url.{Url}
use http_debug.Config.{Config}
use http_debug.Program.{Outside, Happening, RunError, Run, exits, panicked, closed_run, finish}
use http_debug.Program.Turns.{shutdown-Left}

module _ {sql : Sqlite} where
  -- The store that the program leaves: no stream is subscribed, and the channel of every stream that
  -- was ever opened is closed.
  pub record IsClosed (s : Store sql) : Type 0 where
    pub sound : IsSound sql s
    pub closed : s.events.closed ≡ true
    pub empty : s.events.subs ≡ []
    pub over : (ch : ℕ) → ch < s.events.made → (s.events.channels ch).closed ≡ true

  abbrev pub Closes : Run sql → Option RunError → Type 0
  Closes r e = (s : Store sql) × (r ≡ exits e (some s)) × IsClosed s

  closed_run-Closes :
      (e : Option RunError) (closes : Bool) (s : Store sql)
      → IsSound sql s
      → Closes (closed_run e (close_store closes s)) e
  unfolding close_store
  closed_run-Closes e closes s h =
      subst (λ o. Closes (closed_run e (closed_store closes s o)) e)
        (sym (close_lem s.events h.wired)) (_, refl, go (Bool-cases s.events.closed))
    where
      go :
          (s.events.closed ≡ true) ⊎ (s.events.closed ≡ false)
          → IsClosed
              (record s { events = if s.events.closed then s.events else shut_down s.events })
      go (inl t) =
          subst (λ b. IsClosed (record s { events = b })) (sym (if_true _ _ t))
            (record {
              sound = h;
              closed = t;
              empty = h.wired.silent t;
              over = λ ch k. h.wired.over ch k (ap (has ch) (h.wired.silent t));
            })
      go (inr f) =
          subst (λ b. IsClosed (record s { events = b })) (sym (if_false _ _ f))
            (record {
              sound = record {
                wired = shut_down-IsWired s.events h.wired;
                unique = h.unique;
                keyed = h.keyed;
              };
              closed = refl;
              empty = refl;
              over = λ ch k. (shut_down-IsWired s.events h.wired).over ch k refl;
            })

module _ {sql : Sqlite} (o : Outside) where
  pub finish-Closes :
      (closes : Bool) (c : Config) (target : Url) (e : Option RunError) (hs : List Happening)
      (s : Store sql)
      → IsSound sql s
      → Closes (finish o closes c target e hs s) e
  finish-Closes closes c target e hs s h =
      let l = shutdown-Left o c target hs s h in
      let k = closed_run-Closes e closes l.state l.sound in
      (
        k.0,
        ap (λ x. elim x [ none ↦ panicked | some s' ↦ closed_run e (close_store closes s') ])
              l.reached
            ∙ k.1,
        k.2,
      )
