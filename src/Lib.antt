-- ===== src/Lib.antt =====
-- http-debug: a proxy that relays HTTP traffic, captures every exchange, and shows it in a web
-- interface. An entry is registered when a request arrives, grows in memory while the response
-- streams, and is written to a SQLite history when the response ends; every change is an event that
-- the broker fans out to the connected pages.
--
-- Parts and files.
--   Base, Base/*: names of the libraries, tests, lists, byte strings, integers, finite maps.
--   Time: Go's instants and durations, as integers of nanoseconds.
--   Store/Entry: the data model of internal/store/store.go.
--   Store/Events: internal/store/events.go. FanOut and Wired say what each call does and keep the
--     invariant; Delivery follows one subscriber through a history.
--   Store/Disk: the file operations that internal/store/blobs.go uses; Disk/Laws has their outcomes,
--     Disk/Separate what the writer of one file leaves of the others.
--   Store/Blobs: internal/store/blobs.go, its directory sweeps in Blobs/Directory. Spill follows one
--     write, Body a run of them, Orphans the sweep of orphans, Apart a write beside other
--     bodies.
--   Store/Memory: internal/store/memory.go.
--   Store/Rows, Store/Sqlite: internal/store/sqlite.go, the columns and the statements. Engine is an
--     engine that meets the laws.
--   Store/Action, Store/Ops, Store/Ops/*: the methods of `Store` in internal/store/store.go.
--     Receiving follows a response that comes in, Sweep a sweep; Opening has `New` and `Close`, Opened
--     and Restart what a new store has. Page and Listed are on the pages of `List`; Kept has what reads back of an entry in the history, Untouched
--     what a read leaves as it was; Separate, Appends and Mixed are on several responses at once,
--     Apart, ApartEnds and Unshared on the files of any history. Store/Ids has the ids.
--   Proxy/Format, Proxy/Capture: internal/proxy/capture.go, the detection of a format and the reader
--     that copies a response into the store. Capture/Lines and Capture/Whole say what it appends,
--     Capture/Owned and Capture/Stored what the store then holds. Proxy/Preview is the Ollama preview.
--   Proxy/Header, Proxy/Url, Proxy/Exchange, Proxy/Relay: internal/proxy/proxy.go, from the request to
--     the finalization. Opened, Captured and Answered follow an exchange that is answered, Failed one
--     that is not, Client and Transparent what the client gets; Forwarded is on paths and headers.
--   Proxy/Replay: internal/proxy/replay.go. Sent is on what is sent, Replayed on what is captured.
--   Config: the configuration of cmd/debugproxy/main.go, and Config/Checked what is checked of it.
--   Web/Utf8, Web/Payloads, Web/Routes, Web/Stream: internal/web/server.go. Answers is on the routes,
--     Framed and Followed on the event stream; Router is the table of routes, Reads and Served are
--     on every request, Recalled on a relayed body that is looked up.
--   Program: `run` and `main` of cmd/debugproxy/main.go, over the handlers of the other parts. Turns is
--     on what the handlers keep, Closing and Ended on how the program ends.
--   Tests/*: instances of the theorems at small inputs.
--
-- How the model stands to the code.
--   A Go string or byte slice is the list of its bytes. Sizes and counters are unbounded numbers.
--   Values are copied in the model, so `Entry.Clone` is the identity and has no definition.
--   A method that takes a lock is one step. A call that reads the clock several times reads it once.
--   The disk and the database have a list of the outcomes of their next operations, so that a theorem
--   speaks of every way in which they can fail. Only the loop of the capture reader over the lines of
--   its buffer takes fuel: the length of the buffer, since each line has at least one byte.
--   The event stream's `select` is a list of turns, in which the rest of the program may act on the
--   broker. The relay's reverse proxy and its backend are an argument, `Upstream`: the response's header,
--   the reads of its body and their times, whether the body broke off, a 101 that the reverse proxy
--   takes over, or an error; so is the client of a replay. What goes over a connection that was handed
--   over is not modelled.
--   The SQL engine is a parameter, `Sqlite`, with the documented meaning of each statement; the order
--   of rows of one instant is its choice. encoding/json and net/url, the text of a cookie and
--   time.ParseDuration are parameters (`Libraries`, `Codec`, `UrlText`). White space and case are those
--   of ASCII.
--
--   What the program meets is a list of happenings: turns of its handlers, which run one after another,
--   signals, and the returns of its two servers. How the calls of several handlers mix is the matter of
--   Store/Ops/Calls. The router is read as http.ServeMux documents its patterns.
--
-- Not modelled: listening, signals as such, the log and the five seconds of `shutdown` in
--   cmd/debugproxy, the static files of internal/web, opening and closing the database's handle, and the
--   page in internal/web/static.
pub mod Base
pub mod Time
pub mod Store
pub mod Program
pub mod Proxy
pub mod Config
pub mod Web
pub mod Tests
