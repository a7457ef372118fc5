-- ===== src/Proxy/Client.antt =====
-- internal/proxy/proxy.go: what the client of the relay is to get, told apart from the code.
use http_debug.Base.{
  ◌≡◌, refl, ap, ◌∙◌, ◌||◌, true, false, Option, none, some, List, [], ◌∷◌, ◌++◌, Str, codes,
  str_eq, map, if◌then◌else◌, append-nil, arith, Bool, Bool-cases, inl, inr, sym, if_true, if_false,
}
use http_debug.Base.Map.{lookup}
use http_debug.Store.Entry.{Header}
use http_debug.Store.Blobs.Body.{concat}
use http_debug.Proxy.Header.{canonical_key, values_of, header_set, header_add, lookup-header_set}
use http_debug.Proxy.Url.{detail_url}
use http_debug.Proxy.Exchange.{
  ProxyConfig, Response, Upstream, answers, breaks_off, switches, fails, Reply, Ending, sent_whole,
  aborted, handed_over, Libraries, correlated, bad_gateway, debug_url_header,
}
use http_debug.Proxy.Forwarded.{lookup-correlated}
use http_debug.Proxy.Sent.{header_add-values}

-- The values under a name other than the two that the correlation uses.
abbrev pub other_values : Str → Header → Option (List Str)
other_values k h =
    if str_eq (codes "X-Debug-Url") k || str_eq (codes "Set-Cookie") k then none else lookup k h

-- The backend's header, with the address of the exchange in the interface, and a cookie of it if so
-- configured.
pub record Correlates (lib : Libraries) (cfg : ProxyConfig) (id : Str) (h h' : Header)
    : Type 0 where
  pub address : lookup (codes "X-Debug-Url") h' ≡ some (detail_url cfg.public_url id ∷ [])
  pub others : (k : Str) → other_values k h' ≡ other_values k h
  pub cookies :
      values_of (lookup (codes "Set-Cookie") h')
      ≡ values_of (lookup (codes "Set-Cookie") h)
        ++ (if cfg.set_debug_cookie
            then lib.cookie (codes "x_debug_url") (detail_url cfg.public_url id) (codes "/") ∷ []
            else [])

-- The header that the client gets, by the exchange that the store has, if it has one.
abbrev pub HasHeader : Libraries → ProxyConfig → Option Str → Header → Header → Type 0
HasHeader lib cfg none h h' = h' ≡ h
HasHeader lib cfg (some id) h h' = Correlates lib cfg id h h'

pub record Passes (lib : Libraries) (cfg : ProxyConfig) (id : Option Str) (resp : Response)
    (bytes : Str) (ending : Ending) (reply : Reply) : Type 0 where
  pub status : reply.status ≡ resp.status_code
  pub header : HasHeader lib cfg id resp.header reply.header
  pub body : reply.body ≡ bytes
  pub ends : reply.ending ≡ ending

-- 502, with a line that names the target and the error.
pub record Is502 (lib : Libraries) (cfg : ProxyConfig) (message : Str) (reply : Reply)
    : Type 0 where
  pub status : reply.status ≡ 502
  pub header : reply.header ≡ []
  pub body :
      reply.body
      ≡ codes "debugproxy: relay to "
        ++ lib.urls.print cfg.target
        ++ codes " failed: "
        ++ message
        ++ codes "\n"
  pub ends : reply.ending ≡ sent_whole

-- The reply, by what became of the request.
abbrev pub IsReply : Libraries → ProxyConfig → Option Str → Upstream → Reply → Type 0
IsReply lib cfg id (answers at resp reads closed) reply =
    Passes lib cfg id resp (concat (map (λ r. r.1) reads)) sent_whole reply
IsReply lib cfg id (breaks_off at resp reads closed) reply =
    Passes lib cfg id resp (concat (map (λ r. r.1) reads)) aborted reply
IsReply lib cfg none (switches at resp message later) reply =
    Passes lib cfg none resp [] handed_over reply
IsReply lib cfg (some id) (switches at resp message later) reply = Is502 lib cfg message reply
IsReply lib cfg id (fails message at) reply = Is502 lib cfg message reply

correlated-others :
    (lib : Libraries) (cfg : ProxyConfig) (id k : Str) (h : Header)
    → other_values k (correlated lib cfg id h) ≡ other_values k h
correlated-others lib cfg id k h =
    let b = str_eq (codes "X-Debug-Url") k || str_eq (codes "Set-Cookie") k in
    elim (Bool-cases b) [
      | inl e ↦ if_true _ _ e ∙ sym (if_true _ _ e)
      | inr e ↦
          if_false _ _ e
          ∙ (lookup-correlated lib cfg id k h (neither _ _ e).0 (neither _ _ e).1).1
          ∙ sym (if_false _ _ e)
    ]
  where
    neither : (x y : Bool) → (x || y) ≡ false → (x ≡ false) × (y ≡ false)
    neither false false e = (refl, refl)
    neither false true e = absurd (ground (arith, e))
    neither true y e = absurd (ground (arith, e))

correlated-cookies :
    (cookie : Str → Str → Str → Str) (detail : Str) (on : Bool) (h : Header)
    → let h' = header_set debug_url_header detail h in
      let c = cookie (codes "x_debug_url") detail (codes "/") in
      values_of
        (lookup (codes "Set-Cookie") (if on then header_add (codes "Set-Cookie") c h' else h'))
      ≡ values_of (lookup (codes "Set-Cookie") h) ++ (if on then c ∷ [] else [])
unfolding canonical_key str_eq
correlated-cookies cookie detail false h =
    ap values_of (lookup-header_set debug_url_header detail (codes "Set-Cookie") h refl)
    ∙ sym (append-nil (values_of (lookup (codes "Set-Cookie") h)))
correlated-cookies cookie detail true h =
    let c = cookie (codes "x_debug_url") detail (codes "/") in
    header_add-values (codes "Set-Cookie") c (codes "Set-Cookie")
      (header_set debug_url_header detail h)
    ∙ ap (λ vs. values_of vs ++ c ∷ [])
        (lookup-header_set debug_url_header detail (codes "Set-Cookie") h refl)

pub correlated-Correlates :
    (lib : Libraries) (cfg : ProxyConfig) (id : Str) (h : Header)
    → Correlates lib cfg id h (correlated lib cfg id h)
unfolding correlated str_eq
correlated-Correlates lib cfg id h = record {
  address = (lookup-correlated lib cfg id [] h refl refl).0;
  others = λ k. correlated-others lib cfg id k h;
  cookies = correlated-cookies lib.cookie (detail_url cfg.public_url id) cfg.set_debug_cookie h;
}

pub bad_gateway-Is502 :
    (lib : Libraries) (cfg : ProxyConfig) (message : Str)
    → Is502 lib cfg message (bad_gateway lib cfg message)
bad_gateway-Is502 lib cfg message = record {
  status = refl;
  header = refl;
  body = refl;
  ends = refl;
}
