-- ===== src/Program/Ended.antt =====
-- How the program ends: cmd/debugproxy/main.go, run and main.
use http_debug.Base.{ℕ, ◌≡◌, Option, none, some, List, [], ◌∷◌, ◌++◌, Str, codes}
use http_debug.Store.Disk.{Disk}
use http_debug.Store.Result.{Result}
use http_debug.Store.Sqlite.{Sqlite}
use http_debug.Store.Ops.{Store}
use http_debug.Store.Ops.Sound.{IsSound}
use http_debug.Proxy.Url.{Url}
use http_debug.Config.{ConfigError, loaded, rejects, Config, load_config}
use http_debug.Program.{
  Outside, Machine, Turn, Happening, works, interrupted, server_ends, Server, ListenError,
  server_closed, listen_failed, proxy_server, web_server, RunError, config_refused, store_refused,
  server_failed, Run, still_running, exits,
}
use http_debug.Program.Closing.{IsClosed}

-- ListenAndServe returned without an error, or because the server was closed.
pub data IsQuiet : Option ListenError → Type 0 where
  no_error : IsQuiet none
  was_closed : IsQuiet (some server_closed)

-- The error of a server, with its name and its address.
abbrev pub failure_text : Config → Server → Str → Str
failure_text c proxy_server message =
    codes "proxy server on " ++ c.listen_addr ++ codes ": " ++ message
failure_text c web_server message = codes "web server on " ++ c.web_addr ++ codes ": " ++ message

-- What the first happening that ends the wait makes `run` return.
pub data Stops (c : Config) : List Happening → Option RunError → Type 0 where
  by_signal : (hs : List Happening) → Stops c (interrupted ∷ hs) none
  by_failure :
      (srv : Server) (message : Str) (hs : List Happening)
      → Stops c
          (server_ends srv (some (listen_failed message)) ∷ hs)
          (some (server_failed (failure_text c srv message)))
  after_turn :
      (t : Turn) {hs : List Happening} {e : Option RunError}
      → Stops c hs e
      → Stops c (works t ∷ hs) e
  after_close :
      (srv : Server) {r : Option ListenError} {hs : List Happening} {e : Option RunError}
      → IsQuiet r
      → Stops c hs e
      → Stops c (server_ends srv r ∷ hs) e

-- Nothing ends the wait.
abbrev pub Waits : Config → List Happening → Type 0
Waits c [] = Unit
Waits c (works t ∷ hs) = Waits c hs
Waits c (interrupted ∷ hs) = ⊥
Waits c (server_ends srv none ∷ hs) = Waits c hs
Waits c (server_ends srv (some server_closed) ∷ hs) = Waits c hs
Waits c (server_ends srv (some (listen_failed message)) ∷ hs) = ⊥

module _ {sql : Sqlite} where
  -- What `run` comes to from the start of the servers, and the status with which the process exits.
  pub data Awaits (c : Config) (hs : List Happening) : Run sql → Option ℕ → Type 0 where
    waits : (s : Store sql) → IsSound sql s → Waits c hs → Awaits c hs (still_running s) none
    stops :
        (s : Store sql) → IsClosed s → Stops c hs none → Awaits c hs (exits none (some s)) (some 0)
    fails :
        (e : RunError) (s : Store sql)
        → IsClosed s
        → Stops c hs (some e)
        → Awaits c hs (exits (some e) (some s)) (some 1)

module _ {sql : Sqlite} (o : Outside) where
  -- What the program comes to, and the status with which the process exits.
  pub data Ends (m : Machine sql) (hs : List Happening) : Run sql → Option ℕ → Type 0 where
    refuses_config :
        (e : ConfigError)
        → load_config o.lib.urls o.durations m.env ≡ rejects e
        → Ends m hs (exits (some (config_refused e)) none) (some 1)
    refuses_store :
        (c : Config)
        → load_config o.lib.urls o.durations m.env ≡ loaded c
        → Ends m hs (exits (some store_refused) none) (some 1)
    runs :
        (c : Config) (r : Run sql) (n : Option ℕ)
        → load_config o.lib.urls o.durations m.env ≡ loaded c
        → Awaits c hs r n
        → Ends m hs r n
