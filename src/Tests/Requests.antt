-- ===== src/Tests/Requests.antt =====
-- The routes, the event stream, the sweep and a restart.
use http_debug.Base.{
  ◌≡◌, refl, ◌≤◌, ◌++◌, Bool, true, false, Option, none, some, List, [], ◌∷◌, Str, codes, map,
  length, has, arith, ap, sym, ◌∙◌,
}
use http_debug.Base.Int.{pos}
use http_debug.Base.Decimal.{parse_int}
use http_debug.Base.Map.{lookup}
use http_debug.Time.{Time}
use http_debug.Store.Entry.{Entry, side_response}
use http_debug.Store.Events.{Event, delta, Broker, receive}
use http_debug.Store.Events.Wired.{new_broker-IsWired}
use http_debug.Store.Result.{ok}
use http_debug.Store.Action.{returns}
use http_debug.Store.Sqlite.Engine.{engine}
use http_debug.Store.Ops.{Store}
use http_debug.Store.Ops.Bodies.{append_all}
use http_debug.Store.Ops.Finish.{sweep_pending}
use http_debug.Store.Ops.Page.{IsPage}
use http_debug.Store.Ops.Sweep.{Storable, Swept, unless_idle, sweep_pending-Swept}
use http_debug.Store.Ops.Opening.{Options, new_store}
use http_debug.Store.Ops.Restart.{Started, new_store-Started}
use http_debug.Proxy.Captured.{to_row-some}
use http_debug.Web.Payloads.{
  EventPayload, row, progress, piece, only_id, event_payload, new_list_row,
}
use http_debug.Web.Routes.{
  requests, raw, write_json, limit_of, before_of, list_requests, get_request, get_body,
}
use http_debug.Web.Stream.{Turn, channel, ticks, meanwhile, connected, stream}
use http_debug.Web.Framed.{read_stream}
use http_debug.Web.Followed.{stream-pulled}
use http_debug.Web.Answers.{
  stored, status_of, list_requests-IsPage, get_request-stored, append_all-get_body,
}
use http_debug.Tests.Rows.{one_header}
use http_debug.Tests.Bodies.{empty_disk}
use http_debug.Tests.Endings.{live, one_in_flight, one_in_flight-live, one_in_flight-IsSound}
use http_debug.Tests.Pages.{two_entries, history, old_entry, merged, history-page}

abbrev no_fragment : Str → Option (Str × Str)
no_fragment s = none

first_of_two : limit_of (codes "1") ≡ some 1
unfolding limit_of parse_int
first_of_two = refl

at_five : before_of (codes "5") ≡ some (pos 5000000)
unfolding before_of parse_int
at_five = refl

list_requests-IsPage_example :
    (page : List Entry) × (final : Store engine) × (list_requests one_header
        (codes "1")
        (codes "5")
        two_entries
      ≡ returns (ok (write_json 200 (requests (map new_list_row page)))) final)
    × IsPage engine (pos 5000000) 1 merged (returns (ok page) final)
    × (length page ≤ 500)
list_requests-IsPage_example =
    list_requests-IsPage one_header (codes "1") (codes "5") 1 (pos 5000000) two_entries
      (old_entry ∷ []) history first_of_two at_five history-page

get_request-stored_example :
    get_request no_fragment one_header (codes "a1") two_entries
    ≡ returns (ok (status_of no_fragment (stored one_header (codes "a1") two_entries))) two_entries
get_request-stored_example = get_request-stored no_fragment one_header (codes "a1") two_entries refl

abbrev chunks : List (Str × Bool × Time)
chunks = (codes "abc", true, pos 6) ∷ (codes "def", false, pos 7) ∷ []

append_all-get_body_example :
    (s₁ : Store engine) × (s₂ : Store engine) × (type : Str) × (append_all
        (codes "a1")
        chunks
        one_in_flight
      ≡ returns (ok tt) s₁)
    × (get_body one_header (codes "a1") side_response s₁
        ≡ returns (ok (write_json 200 (raw type 6 (codes "abcdef")))) s₂)
append_all-get_body_example =
    append_all-get_body one_header (codes "a1") live chunks one_in_flight new_broker-IsWired
      one_in_flight-live refl refl

-- Two pieces of a body, for a client that waits on channel 0, with a ping in between.
abbrev piece_of : Str → Event
piece_of text = record { type = delta; id = codes "a1"; entry = none; chunk = text }

abbrev waiting : Broker
waiting = record {
  subs = 0 ∷ [];
  closed = false;
  channels =
      λ ch. record { buffer = piece_of (codes "x") ∷ piece_of (codes "y") ∷ []; closed = false };
  made = 1;
}

abbrev turns : List Turn
turns = channel true ∷ ticks true ∷ meanwhile (λ b. b) ∷ channel true ∷ []

abbrev encoded : EventPayload → Option Str
encoded (piece id chunk) = some (codes "{}")
encoded _ = none

abbrev breaks : Option Str → Bool
breaks none = false
breaks (some t) = has 10 t

encoded-whole : (p : EventPayload) → breaks (encoded p) ≡ false
encoded-whole (row r) = refl
encoded-whole (progress id st code a b c) = refl
encoded-whole (piece id chunk) = refl
encoded-whole (only_id id) = refl

encoded-IsCompact : (p : EventPayload) (t : Str) → encoded p ≡ some t → has 10 t ≡ false
encoded-IsCompact p t e = ap breaks (sym e) ∙ encoded-whole p

stream-pulled_example :
    read_stream (connected ++ (stream encoded 0 turns waiting).0)
    ≡ (codes "delta", codes "{}") ∷ (codes "delta", codes "{}") ∷ []
unfolding receive event_payload
stream-pulled_example =
    stream-pulled encoded 0 turns waiting encoded-IsCompact (refl, (refl, (refl, tt)))
      ((λ e. ground (arith, e)), ((λ e. ground (arith, e)), tt))

storable : Storable one_header
storable e = to_row-some one_header e (λ h. (_, refl))

sweep_pending-Swept_example :
    Swept
      (unless_idle (pos 10) (pos 100))
      1
      one_in_flight
      (sweep_pending one_header (pos 10) (codes "idle") (pos 100) one_in_flight)
unfolding http_debug.Base.Map.insert lookup http_debug.Base.Int.◌-ℤ◌
sweep_pending-Swept_example =
    sweep_pending-Swept one_header (pos 10) (codes "idle") (pos 100) one_in_flight storable
      one_in_flight-IsSound (refl, tt) refl

abbrev options : Options
options = record { data_dir = codes "/data"; max_inline_body_size = pos 4; max_entries = pos 0 }

new_store-Started_example :
    Started options
      (codes "b2")
      side_response
      history
      empty_disk
      (new_store options true true (some history) empty_disk)
new_store-Started_example =
    new_store-Started options (codes "b2") side_response history empty_disk refl (refl, tt) refl
      refl (omega arith) refl
