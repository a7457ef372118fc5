-- ===== src/Proxy/Capture.antt =====
-- internal/proxy/capture.go: the reader that copies a response into the store. A read is the bytes
-- that it got from the backend, with its reading of the clock. What the reader asks of the store is a
-- list of calls, made in this order; their errors are dropped.
pub mod Lines
pub mod Whole
pub mod Owned
pub mod Stored
use http_debug.Base.{
  ℕ, zero, suc, Bool, true, false, not, ◌&&◌, ◌==◌, ltb, Option, none, some, List, [], ◌∷◌, ◌++◌,
  Str, str_eq, length, map, if◌then◌else◌,
}
use http_debug.Time.{Time, Duration, is_zero, zero_time, since, milliseconds}
use http_debug.Store.Entry.{Entry, Format, format_raw}
use http_debug.Store.Ops.Calls.{Call, appends, updates}
use http_debug.Proxy.Format.{sniff_format, is_streaming}

pub record CaptureReader : Type 0 where
  pub id : Str
  pub format : Format
  pub stream : Bool
  pub sniffed : Bool
  pub pending : Str
  pub first_at : Time
  pub last_at : Time
  -- closeOnce
  pub closed : Bool

-- newCaptureReader
abbrev pub new_capture_reader : Str → Format → CaptureReader
new_capture_reader id format = record {
  id = id;
  format = format;
  stream = is_streaming format;
  sniffed = not (str_eq format format_raw);
  pending = [];
  first_at = zero_time;
  last_at = zero_time;
  closed = false;
}

-- The bytes up to the first newline, and the rest; none without a newline.
unfoldable pub cut_line : Str → Option (Str × Str)
cut_line [] = none
cut_line (c ∷ s) =
    let rest = cut_line s in
    if c == 10 then some (c ∷ [], s) else elim rest [ none ↦ none | some (l, r) ↦ some (c ∷ l, r) ]

-- The loop over the complete lines, in at most `fuel` rounds: the lines, and what is left.
unfoldable pub drain : ℕ → Str → List Str × Str
unfolding cut_line
drain zero p = ([], p)
drain (suc fuel) p = elim (cut_line p) [
  | none ↦ ([], p)
  | some (l, r) ↦ let (ls, q) = drain fuel r in (l ∷ ls, q)
]

abbrev pub set_format : Format → Entry → Entry
set_format f e = record e { response_format = f }

abbrev pub seen_at : Time → CaptureReader → CaptureReader
seen_at now c = record c {
  first_at = if is_zero c.first_at then now else c.first_at;
  last_at = now;
}

module _ (valid : Str → Bool) where
  -- The one detection on the first chunk.
  abbrev pub detect : Time → Str → CaptureReader → List Call × CaptureReader
  detect now chunk c =
      let f = sniff_format valid chunk in
      if c.sniffed
      then ([], c)
      else if str_eq f format_raw
      then ([], record c { sniffed = true })
      else (
        updates c.id (set_format f) now ∷ [],
        record c { sniffed = true; format = f; stream = is_streaming f },
      )

  -- Each line takes at least one byte, so that the length is fuel enough.
  abbrev pub copy : Time → Str → CaptureReader → List Call × CaptureReader
  copy now chunk c =
      let pending = c.pending ++ chunk in
      let (ls, rest) = drain (length pending) pending in
      if c.stream
      then (map (λ l. appends c.id l true now) ls, record c { pending = rest })
      else (appends c.id chunk false now ∷ [], c)

  unfoldable pub consume : Time → Str → CaptureReader → List Call × CaptureReader
  unfolding drain sniff_format is_streaming
  consume now chunk c =
      let (calls, c') = detect now chunk c in
      let (more, c'') = copy now chunk c' in (calls ++ more, c'')

  -- Read, of the bytes that the backend gave
  unfoldable pub read : Time → Str → CaptureReader → List Call × CaptureReader
  unfolding consume
  read now chunk c = if length chunk == 0 then ([], c) else consume now chunk (seen_at now c)

  -- Successive reads.
  unfoldable pub read_all : List (Time × Str) → CaptureReader → List Call × CaptureReader
  unfolding read
  read_all [] c = ([], c)
  read_all ((now, chunk) ∷ cs) c =
      let (calls, c') = read now chunk c in let (more, c'') = read_all cs c' in (calls ++ more, c'')

-- The duration that `onClose` is given.
abbrev pub stream_time : CaptureReader → Option Duration
stream_time c =
    if c.stream && not (is_zero c.first_at)
    then some (milliseconds (since c.last_at c.first_at))
    else none

-- Close: the calls, and what `onClose` is called with, if it is.
unfoldable pub close_reader :
    Time → CaptureReader → List Call × Option (Option Duration) × CaptureReader
close_reader now c = if c.closed then ([], none, c) else (
  (if ltb 0 (length c.pending) then appends c.id c.pending true now ∷ [] else []),
  some (stream_time c),
  record c { pending = []; closed = true },
)
