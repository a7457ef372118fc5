-- ===== src/Proxy/Replayed.antt =====
-- A replayed request: what is refused, what is sent, and how it is captured.
use http_debug.Base.{◌≡◌, refl, ap, ◌∙◌, true, Option, none, some, List, [], Str, map}
use http_debug.Time.{Time}
use http_debug.Store.Entry.{Entry}
use http_debug.Store.Blobs.Body.{concat}
use http_debug.Store.Result.{ok}
use http_debug.Store.Action.{returns, after_result, pure}
use http_debug.Store.Sqlite.{Sqlite}
use http_debug.Store.Ops.{Store}
use http_debug.Proxy.Exchange.{Response, Upstream, answers, fails, Libraries}
use http_debug.Proxy.Url.{Url}
use http_debug.Proxy.Opened.{opened_in, open_exchange-opened_in}
use http_debug.Proxy.Captured.{Captured, Describes}
use http_debug.Proxy.Answered.{IsHealthy, respond-Recorded}
use http_debug.Proxy.Failed.{Failed, finalize_exchange-Failed}
use http_debug.Proxy.Replay.{
  ReplayRequest, Target, accepted, replay_target, replay_entry, kept_headers, method_of, Sending,
  sending, started, replay, replay_to, send, sent,
}

-- What is sent for a request to an accepted address.
abbrev pub sending_of : Str → Time → ReplayRequest → Url → Sending
sending_of id now r u = record {
  exchange = record { id = id; start_at = now };
  method = method_of r.method;
  target = u;
  header = kept_headers r.headers [];
  body = r.body;
}

abbrev pub entry_of : Libraries → Time → ReplayRequest → Url → Entry
entry_of lib now r u =
    replay_entry lib now (method_of r.method) u (kept_headers r.headers []) r.body

module _ {sql : Sqlite} where
  replay_to-sending :
      (lib : Libraries) (id : Str) (now : Time) (r : ReplayRequest) (u : Url) (t : Target)
      (s : Store sql)
      → t ≡ accepted u
      → IsHealthy lib s
      → replay_to lib (some id) now r t s
        ≡ returns
            (ok (sending (sending_of id now r u)))
            (opened_in id now (entry_of lib now r u) r.body s)
  unfolding replay_entry
  replay_to-sending lib id now r u t s e h =
      ap (λ x. replay_to lib (some id) now r x s) e
      ∙ ap
          (after_result
            (λ ex. pure (started (method_of r.method) u (kept_headers r.headers []) r.body ex)))
          (open_exchange-opened_in (some id) id now (entry_of lib now r u) r.body s refl h.wired)

  -- A composed request whose address is accepted, on a healthy store that gives it an id, when a
  -- request can be built of it and the server answers with a body that is read to its end: `Replay`
  -- returns what is to be sent. Once that is sent, into the history goes a row of an entry that is
  -- done, flagged as a replay, with the method, the address and the headers that were sent, the
  -- response's status and headers, and both bodies. Then retention is applied, which may drop this row
  -- again where the history is full, and the subscribers are told.
  pub replay-Captured :
      (lib : Libraries) (built : Str → Str → Option (Str × Time)) (client : Sending → Upstream)
      (id : Str) (now at : Time) (r : ReplayRequest) (u : Url) (resp : Response)
      (reads : List (Time × Str)) (closed : Time) (s : Store sql)
      → IsHealthy lib s
      → replay_target lib.urls r.url ≡ accepted u
      → built (method_of r.method) (lib.urls.print u) ≡ none
      → client (sending_of id now r u) ≡ answers at resp reads closed
      → (s₁ : Store sql) × (final : Store sql) × (replay lib (some id) now r s
          ≡ returns (ok (sending (sending_of id now r u))) s₁)
        × (send lib built client (sending_of id now r u) s₁ ≡ returns (ok tt) final)
        × (c : Captured lib.json id
            (entry_of lib now r u)
            r.body
            resp
            (concat (map (λ c. c.1) reads))
            s
            (returns (ok tt) final))
        × Describes c.entry (method_of r.method) (lib.urls.print u) (kept_headers r.headers []) true
  unfolding replay send replay_entry
  replay-Captured lib built client id now at r u resp reads closed s h t b c =
      let e = entry_of lib now r u in
      let p = sending_of id now r u in
      let s₁ = opened_in id now e r.body s in
      let done = respond-Recorded lib id now at e r.body resp reads closed s refl h in
      (
        s₁,
        done.final,
        replay_to-sending lib id now r u (replay_target lib.urls r.url) s t h,
        rw (send, b) (ap (λ x. sent lib p.exchange x s₁) c ∙ done.returned),
        done.captured,
        (
          done.captured.method, done.captured.url, done.captured.request_headers,
          done.captured.is_replay,
        ),
      )

  -- A composed request whose address is accepted, on a healthy store that gives it an id, when a
  -- request can be built of it and sending it fails: `Replay` returns what is to be sent. Once that has
  -- failed, into the history goes a row of an entry in error with the message, flagged as a replay,
  -- with the method, the address, the headers and the body that were to be sent, and no response. Then
  -- retention is applied, which may drop this row again where the history is full, and the subscribers
  -- are told.
  pub replay-Failed :
      (lib : Libraries) (built : Str → Str → Option (Str × Time)) (client : Sending → Upstream)
      (id : Str) (now at : Time) (r : ReplayRequest) (u : Url) (message : Str) (s : Store sql)
      → IsHealthy lib s
      → replay_target lib.urls r.url ≡ accepted u
      → built (method_of r.method) (lib.urls.print u) ≡ none
      → client (sending_of id now r u) ≡ fails message at
      → (s₁ : Store sql) × (final : Store sql) × (replay lib (some id) now r s
          ≡ returns (ok (sending (sending_of id now r u))) s₁)
        × (send lib built client (sending_of id now r u) s₁ ≡ returns (ok tt) final)
        × (f : Failed lib.json id (entry_of lib now r u) r.body message s (returns (ok tt) final))
        × Describes f.entry (method_of r.method) (lib.urls.print u) (kept_headers r.headers []) true
  unfolding replay send replay_entry
  replay-Failed lib built client id now at r u message s h t b c =
      let e = entry_of lib now r u in
      let p = sending_of id now r u in
      let s₁ = opened_in id now e r.body s in
      let done = finalize_exchange-Failed lib id now at e r.body message s h in
      (
        s₁,
        done.0,
        replay_to-sending lib id now r u (replay_target lib.urls r.url) s t h,
        rw (send, b) (ap (λ x. sent lib p.exchange x s₁) c ∙ done.1),
        done.2,
        (done.2.method, done.2.url, done.2.request_headers, done.2.is_replay),
      )
