-- ===== src/Store/Rows/RoundTrip.antt =====
-- An entry written to the table and read back.
use mathlib.Core.Option
use http_debug.Base.{
  ℕ, ◌≡◌, ◌≢◌, refl, sym, ap, ◌∙◌, ◌==◌, Bool, true, false, not, Option, none, some, [], ◌∷◌, Str,
  length, arith, if◌then◌else◌,
}
use http_debug.Time.{Time, unix_milli, of_unix_milli}
use http_debug.Store.Entry.{Entry, Header}
use http_debug.Store.Rows.{
  Codec, Row, marshal_header, unmarshal_header, row_of, entry_of, to_row, scan_entry, text_of,
  int_of, null_string, null_int, blob_column, is_valid, time_of, null_time,
}

-- A header that its JSON text gives back.
pub record IsFaithful (json : Codec) (h : Header) : Type 0 where
  pub text : Str
  pub marshals : json.marshal h ≡ some text
  pub not_empty : text ≢ []
  pub unmarshals : json.unmarshal text ≡ some h

-- The marks and the paths of an entry agree, as `snapshot` makes them.
pub record IsFolded (e : Entry) : Type 0 where
  pub request : e.request_spilled ≡ not (length e.request_body_path == 0)
  pub response : e.response_spilled ≡ not (length e.response_body_path == 0)

-- An instant, at the precision of the table.
abbrev pub to_milli : Time → Time
to_milli t = of_unix_milli (unix_milli t)

abbrev milli_option : Option Time → Option Time
milli_option none = none
milli_option (some t) = some (to_milli t)

-- What comes back of an entry: times in whole milliseconds, and no preview of a spilled body.
abbrev pub stored : Entry → Entry
stored e = record e {
  request_body = if e.request_spilled then [] else e.request_body;
  response_body = if e.response_spilled then [] else e.response_body;
  started_at = to_milli e.started_at;
  finished_at = milli_option e.finished_at;
}

header_back :
    (json : Codec) (h : Header)
    → (h ≢ [] → IsFaithful json h)
    → (c : Option Str) × (marshal_header json h ≡ some c) × (unmarshal_header json c ≡ some h)
unfolding marshal_header unmarshal_header
header_back json [] f = (none, refl, refl)
header_back json (x ∷ h) f =
    go faithful.text faithful.not_empty faithful.marshals faithful.unmarshals
  where
    faithful : IsFaithful json (x ∷ h)
    faithful = f (λ e. cc)

    go :
        (t : Str)
        → t ≢ []
        → json.marshal (x ∷ h) ≡ some t
        → json.unmarshal t ≡ some (x ∷ h)
        → (c : Option Str) × (marshal_header json (x ∷ h) ≡ some c)
          × (unmarshal_header json c ≡ some (x ∷ h))
    go [] n m u = absurd (n refl)
    go (c ∷ t) n m u = (some (c ∷ t), ap (Option.map some) m, u)

text_of-null_string : (s : Str) → text_of (null_string s) ≡ s
text_of-null_string [] = refl
text_of-null_string (c ∷ s) = refl

int_of-null_int : (n : ℕ) → int_of (null_int n (not (n == 0))) ≡ n
int_of-null_int n = ground arith

is_valid-null_string : (s : Str) → is_valid (null_string s) ≡ not (length s == 0)
is_valid-null_string [] = refl
is_valid-null_string (c ∷ s) = ground arith

text_of-blob_column :
    (s : Str) (spilled : Bool) → text_of (blob_column s spilled) ≡ (if spilled then [] else s)
text_of-blob_column [] true = refl
text_of-blob_column [] false = refl
text_of-blob_column (c ∷ s) true = refl
text_of-blob_column (c ∷ s) false = ground arith

time_of-null_time : (t : Option Time) → time_of (null_time t) ≡ milli_option t
time_of-null_time none = refl
time_of-null_time (some t) = refl

entry_of-row_of :
    (e : Entry) (req resp : Option Str)
    → IsFolded e
    → entry_of e.request_headers e.response_headers (row_of req resp e) ≡ stored e
entry_of-row_of e req resp f = λ i. record e {
  status_code = int_of-null_int e.status_code i;
  error = text_of-null_string e.error i;
  request_format = text_of-null_string e.request_format i;
  response_format = text_of-null_string e.response_format i;
  request_body = text_of-blob_column e.request_body e.request_spilled i;
  request_body_path = text_of-null_string e.request_body_path i;
  request_spilled = (is_valid-null_string e.request_body_path ∙ sym f.request) i;
  response_body = text_of-blob_column e.response_body e.response_spilled i;
  response_body_path = text_of-null_string e.response_body_path i;
  response_spilled = (is_valid-null_string e.response_body_path ∙ sym f.response) i;
  started_at = to_milli e.started_at;
  finished_at = time_of-null_time e.finished_at i;
}

-- If the JSON codec gives the headers of an entry back, and its marks agree with its paths, then the
-- entry has a row, and the row reads back as the same entry, but for times cut to whole milliseconds
-- and the previews of spilled bodies, which are gone.
pub scan_entry-to_row :
    (json : Codec) (e : Entry)
    → (e.request_headers ≢ [] → IsFaithful json e.request_headers)
    → (e.response_headers ≢ [] → IsFaithful json e.response_headers)
    → IsFolded e
    → (r : Row) × (to_row json e ≡ some r) × (scan_entry json r ≡ some (stored e))
unfolding to_row scan_entry
scan_entry-to_row json e fq fr folded =
    let q = header_back json e.request_headers fq in
    let p = header_back json e.response_headers fr in
    (
      row_of q.0 p.0 e,
      rw (to_row, q.1, p.1),
      rw (scan_entry, q.2, p.2) (ap some (entry_of-row_of e q.0 p.0 folded)),
    )
