-- ===== src/Web/Reads.antt =====
-- internal/web/server.go: what a served request leaves, and the routes of GET.
use http_debug.Base.{
  ◌⊎◌, inl, inr, ℕ, ◌≡◌, refl, Bool, true, false, Option, none, some, List, [], ◌∷◌, Str, if_either,
}
use http_debug.Time.{Time}
use http_debug.Store.Entry.{Entry, Side}
use http_debug.Store.Result.{Result, ok, err, not_found, failed}
use http_debug.Store.Rows.{Codec}
use http_debug.Store.Action.{Outcome, returns}
use http_debug.Store.Sqlite.{Sqlite}
use http_debug.Store.Ops.{Store}
use http_debug.Store.Ops.Read.{get}
use http_debug.Store.Ops.Calls.{get-StaysSound, list-StaysSound, body-StaysSound}
use http_debug.Store.Ops.Sound.{IsSound, Settles, settled}
use http_debug.Proxy.Replay.{Sending}
use http_debug.Web.Routes.{
  Payload, requests, detail, raw, replayed, target_url, error, replay_error, empty, Answer,
  answering, listed, shown, streamed, body_found, is_side, list_page, limit_of, before_of,
  list_requests, get_request, get_body,
}
use http_debug.Store.Ops.Untouched.{
  Untouched, Untouched-refl, Untouched-trans, get-Untouched, list-Untouched, body-Untouched,
}
use http_debug.Web.Router.{
  Route, listing, watching, settings, page, showing, serving, file, Served, answered, WebRequest,
  WebContext, given, handle, get_route,
}

-- The status that goes with what an answer holds.
abbrev pub Fits : Payload → ℕ → Type 0
Fits (requests rows) status = status ≡ 200
Fits (detail d) status = status ≡ 200
Fits (raw ct size bytes) status = status ≡ 200
Fits (target_url target) status = status ≡ 200
Fits (replayed id) status = status ≡ 202
Fits empty status = status ≡ 204
Fits (error message) status = (status ≡ 400) ⊎ ((status ≡ 404) ⊎ (status ≡ 500))
Fits (replay_error e) status = status ≡ 400

abbrev pub IsFit : Served → Type 0
IsFit (answered a) = Fits a.payload a.status
IsFit other = Unit

-- A route of GET.
pub data IsGetRoute : Route → Type 0 where
  to_listing : IsGetRoute listing
  to_watching : IsGetRoute watching
  to_settings : IsGetRoute settings
  to_page : IsGetRoute page
  to_showing : (id : Str) → IsGetRoute (showing id)
  to_serving : (id : Str) (side : Side) → IsGetRoute (serving id side)
  to_file : (path : List Str) → IsGetRoute (file path)

pub get_route-IsGetRoute : (path : List Str) → IsGetRoute (get_route path)
get_route-IsGetRoute [] = to_file []
get_route-IsGetRoute (a ∷ []) = to_file (a ∷ [])
get_route-IsGetRoute (a ∷ b ∷ []) = if_either IsGetRoute _ to_listing (
    if_either IsGetRoute _ to_watching
      (if_either IsGetRoute _ to_settings (if_either IsGetRoute _ to_page (to_file (a ∷ b ∷ [])))))
get_route-IsGetRoute (a ∷ b ∷ c ∷ []) = if_either IsGetRoute _ (to_showing c) (to_file _)
get_route-IsGetRoute (a ∷ b ∷ c ∷ d ∷ []) = to_file _
get_route-IsGetRoute (a ∷ b ∷ c ∷ d ∷ e ∷ []) = if_either IsGetRoute _ (to_serving c e) (to_file _)
get_route-IsGetRoute (a ∷ b ∷ c ∷ d ∷ e ∷ f ∷ path) = to_file _

module _ {sql : Sqlite} where
  -- What GET and HEAD leave, and what they send.
  abbrev pub Reads : Bool → Store sql → Store sql → Option Sending → Type 0
  Reads true s s' sends = Untouched s s' × (sends ≡ none)
  Reads false s s' sends = Unit

  -- What becomes of a request to the interface, by whether its method is GET or HEAD.
  pub record Serves (gets : Bool) (s : Store sql)
      (o : Outcome (Store sql) (Served × Option Sending)) : Type 0 where
    pub served : Served
    pub sends : Option Sending
    pub final : Store sql
    pub returned : o ≡ returns (ok (served, sends)) final
    pub sound : IsSound sql final
    pub fits : IsFit served
    pub reads : Reads gets s final sends

  abbrev Safe : Store sql → Store sql → Type 0
  Safe s s' = IsSound sql s' × Untouched s s'

  both :
      {A : Type 0} {P Q : Store sql → Type 0} {o : Outcome (Store sql) A}
      → Settles sql P o
      → Settles sql Q o
      → Settles sql (λ s. P s × Q s) o
  both (settled r s p) h = settled r s (p, go h)
    where
      go :
          {A : Type 0} {Q : Store sql → Type 0} {r : Result A} {s : Store sql}
          → Settles sql Q (returns r s)
          → Q s
      go (settled r s q) = q

  pub fixed-Serves :
      (gets : Bool) (x : Served) (s : Store sql)
      → IsSound sql s
      → IsFit x
      → Serves gets s (returns (ok (x, none)) s)
  fixed-Serves gets x s h f = record {
    served = x;
    sends = none;
    final = s;
    returned = refl;
    sound = h;
    fits = f;
    reads = go gets;
  }
    where
      go : (b : Bool) → Reads b s s none
      go true = (Untouched-refl s, refl)
      go false = tt

  answering-Serves :
      {A : Type 0} (f : Result A → Answer) (s : Store sql) {o : Outcome (Store sql) A}
      → ((r : Result A) → IsFit (answered (f r)))
      → Settles sql (Safe s) o
      → Serves true s (given (answering f o))
  answering-Serves f s h (settled r s' p) = record {
    served = answered (f r);
    sends = none;
    final = s';
    returned = refl;
    sound = p.0;
    fits = h r;
    reads = (p.1, refl);
  }

  list-Serves :
      (json : Codec) (limit before : Str) (s : Store sql)
      → IsSound sql s
      → Serves true s (given (list_requests json limit before s))
  unfolding list_requests
  list-Serves json limit before s h = go (limit_of limit) (before_of before)
    where
      fit : (r : Result (List Entry)) → IsFit (answered (listed r))
      fit (ok es) = refl
      fit (err e) = inr (inr refl)

      go : (n : Option ℕ) (t : Option Time) → Serves true s (given (list_page json n t s))
      go none t = fixed-Serves true _ s h (inl refl)
      go (some n) none = fixed-Serves true _ s h (inl refl)
      go (some n) (some t) =
          answering-Serves listed s fit
            (both (list-StaysSound json n t s h) (list-Untouched json n t s))

  get-Safe :
      (json : Codec) (id : Str) (s : Store sql)
      → IsSound sql s
      → Settles sql (Safe s) (get json id s)
  get-Safe json id s h = both (get-StaysSound json id s h) (get-Untouched json id s)

  shown-Serves :
      (fragment : Str → Option (Str × Str)) (json : Codec) (id : Str) (s : Store sql)
      → IsSound sql s
      → Serves true s (given (get_request fragment json id s))
  unfolding get_request
  shown-Serves fragment json id s h = answering-Serves (shown fragment) s fit (get-Safe json id s h)
    where
      fit : (r : Result Entry) → IsFit (answered (shown fragment r))
      fit (ok e) = refl
      fit (err not_found) = inr (inl refl)
      fit (err failed) = inr (inr refl)

  from-Serves :
      {s s' : Store sql} {o : Outcome (Store sql) (Served × Option Sending)}
      → Untouched s s'
      → Serves true s' o
      → Serves true s o
  from-Serves u p = record {
    served = p.served;
    sends = p.sends;
    final = p.final;
    returned = p.returned;
    sound = p.sound;
    fits = p.fits;
    reads = (Untouched-trans u p.reads.0, p.reads.1);
  }

  body-Serves :
      (json : Codec) (id : Str) (side : Side) (s : Store sql)
      → IsSound sql s
      → Serves true s (given (get_body json id side s))
  unfolding get_body
  body-Serves json id side s h =
      if_either (λ o. Serves true s (given o)) (is_side side) (found _ (get-Safe json id s h))
        (fixed-Serves true _ s h (inl refl))
    where
      fit : (e : Entry) (r : Result (Str × ℕ)) → IsFit (answered (streamed side e r))
      fit e (ok (bytes, size)) = refl
      fit e (err x) = inr (inr refl)

      found :
          (o : Outcome (Store sql) Entry)
          → Settles sql (Safe s) o
          → Serves true s (given (body_found json id side o))
      found _ (settled (ok e) s' p) = from-Serves p.1 (
          answering-Serves (streamed side e) s' (fit e)
            (both (body-StaysSound json id side s' p.0) (body-Untouched json id side s')))
      found _ (settled (err not_found) s' p) =
          from-Serves p.1 (fixed-Serves true _ s' p.0 (inr (inl refl)))
      found _ (settled (err failed) s' p) =
          from-Serves p.1 (fixed-Serves true _ s' p.0 (inr (inr refl)))

  pub get-Serves :
      (c : WebContext) (fresh : Option Str) (now : Time) (r : WebRequest) (route : Route)
      (s : Store sql)
      → IsGetRoute route
      → IsSound sql s
      → Serves true s (handle c fresh now r route s)
  get-Serves c fresh now r _ s to_listing h = list-Serves c.lib.json r.limit r.before s h
  get-Serves c fresh now r _ s (to_showing id) h = shown-Serves c.fragment c.lib.json id s h
  get-Serves c fresh now r _ s (to_serving id side) h = body-Serves c.lib.json id side s h
  get-Serves c fresh now r _ s to_settings h = fixed-Serves true _ s h refl
  get-Serves c fresh now r _ s to_watching h = fixed-Serves true _ s h tt
  get-Serves c fresh now r _ s to_page h = fixed-Serves true _ s h tt
  get-Serves c fresh now r _ s (to_file path) h = fixed-Serves true _ s h tt
