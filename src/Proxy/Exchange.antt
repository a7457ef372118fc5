-- ===== src/Proxy/Exchange.antt =====
-- internal/proxy: the data of an exchange, and how an entry is filled in from it. The libraries enter as
-- the parameters that `Libraries` lists.
use http_debug.Base.{
  ℕ, Bool, false, Option, none, some, List, [], ◌∷◌, ◌++◌, Str, codes, if◌then◌else◌,
}
use http_debug.Time.{Time, Duration, since, milliseconds}
use http_debug.Store.Entry.{Entry, Header, status_pending, status_error}
use http_debug.Store.Rows.{Codec}
use http_debug.Proxy.Format.{detect_format, is_ollama_path}
use http_debug.Proxy.Header.{header_get, header_set, header_add}
use http_debug.Proxy.Url.{Url, UrlText, join_path, detail_url}
use http_debug.Proxy.Capture.{CaptureReader, new_capture_reader}

abbrev pub debug_url_header : Str
debug_url_header = codes "X-Debug-Url"

abbrev pub debug_url_cookie : Str
debug_url_cookie = codes "x_debug_url"

-- Config
pub record ProxyConfig : Type 0 where
  pub target : Url
  pub public_url : Str
  pub set_debug_cookie : Bool

-- http.Request; `host` is its Host field.
pub record Request : Type 0 where
  pub method : Str
  pub url : Url
  pub host : Str
  pub header : Header
  pub body : Str

pub record Response : Type 0 where
  pub status_code : ℕ
  pub header : Header

-- What becomes of a request that is sent, with the times at which the hooks run.
pub data Upstream : Type 0 where
  -- a response, whose body is read to its end and closed; of the relay's, any but a 101
  answers : Time → Response → List (Time × Str) → Time → Upstream
  -- a response whose body is not copied to its end: a read of it fails, or the client is gone
  breaks_off : Time → Response → List (Time × Str) → Time → Upstream
  -- a 101, which the reverse proxy shows to `modifyResponse` and then takes over; with the error of
  -- the reverse proxy where the body is a wrapped one, which cannot be written to
  switches : Time → Response → Str → Time → Upstream
  -- no response: the error
  fails : Str → Time → Upstream

-- How a reply ends: after its body, by an abort of the connection in it, or by the reverse proxy taking
-- the connection over.
pub data Ending : Type 0 where
  sent_whole aborted handed_over : Ending

-- What the client gets; of the errors, http.Error writes the first.
pub record Reply : Type 0 where
  pub status : ℕ
  pub header : Header
  pub body : Str
  pub ending : Ending

pub record Exchange : Type 0 where
  pub id : Str
  pub start_at : Time

-- What the libraries give: json.Valid, encoding/json at a header, net/url, and the text of a cookie of
-- a name, a value and a path.
pub record Libraries : Type 0 where
  pub valid : Str → Bool
  pub json : Codec
  pub urls : UrlText
  pub cookie : Str → Str → Str → Str

-- direct
unfoldable pub direct : ProxyConfig → Request → Request
unfolding join_path
direct cfg r = record r {
  url = record r.url {
    scheme = cfg.target.scheme;
    host = cfg.target.host;
    path = join_path cfg.target.path r.url.path;
  };
  host = cfg.target.host;
}

abbrev pub target_of : ProxyConfig → Request → Url
target_of cfg r = record cfg.target {
  path = join_path cfg.target.path r.url.path;
  raw_query = r.url.raw_query;
}

-- The fields that `ServeHTTP` and `Replay` leave to their zero values.
abbrev pub blank_entry : Time → Entry
blank_entry now = record {
  id = [];
  method = [];
  url = [];
  status = status_pending;
  status_code = 0;
  error = [];
  request_format = [];
  response_format = [];
  is_ollama = false;
  is_replay = false;
  request_headers = [];
  response_headers = [];
  request_body = [];
  request_body_path = [];
  request_body_size = 0;
  request_spilled = false;
  response_body = [];
  response_body_path = [];
  response_body_size = 0;
  response_spilled = false;
  started_at = now;
  finished_at = none;
  ttfb_ms = none;
  stream_ms = none;
  total_ms = none;
}

abbrev pub content_type : Str
content_type = codes "Content-Type"

module _ (lib : Libraries) where
  unfoldable pub relayed_entry : ProxyConfig → Time → Request → Entry
  unfolding detect_format is_ollama_path header_get join_path
  relayed_entry cfg now r = record (blank_entry now) {
    method = r.method;
    url = lib.urls.print (target_of cfg r);
    request_headers = r.header;
    request_format = detect_format lib.valid (header_get content_type r.header) r.body;
    is_ollama = is_ollama_path r.url.path;
  }

  -- The change of an entry when the response's header is there.
  abbrev pub answered : Exchange → Time → Response → Entry → Entry
  answered ex now resp e = record e {
    status_code = resp.status_code;
    response_headers = resp.header;
    response_format = detect_format lib.valid (header_get content_type resp.header) [];
    ttfb_ms = some (milliseconds (since now ex.start_at));
  }

  -- The correlation header, and the cookie.
  unfoldable pub correlated : ProxyConfig → Str → Header → Header
  unfolding detail_url header_set header_add
  correlated cfg id h =
      let detail = detail_url cfg.public_url id in
      let h' = header_set debug_url_header detail h in
      if cfg.set_debug_cookie
      then header_add (codes "Set-Cookie") (lib.cookie debug_url_cookie detail (codes "/")) h'
      else h'

  abbrev pub reader_of : Exchange → Response → CaptureReader
  reader_of ex resp =
      new_capture_reader ex.id (detect_format lib.valid (header_get content_type resp.header) [])

  abbrev pub bad_gateway : ProxyConfig → Str → Reply
  bad_gateway cfg message = record {
    status = 502;
    header = [];
    body =
        codes "debugproxy: relay to "
        ++ lib.urls.print cfg.target
        ++ codes " failed: "
        ++ message
        ++ codes "\n";
    ending = sent_whole;
  }

abbrev pub unreadable : Reply
unreadable = record {
  status = 400;
  header =
      (content_type, codes "text/plain; charset=utf-8" ∷ [])
      ∷ (codes "X-Content-Type-Options", codes "nosniff" ∷ [])
      ∷ [];
  body = codes "cannot read request body\n";
  ending = sent_whole;
}

-- The change that `finalize` makes.
abbrev pub settled_by : Option Duration → Option Str → Entry → Entry
settled_by stream_ms none e = record e { stream_ms = stream_ms }
settled_by stream_ms (some message) e = record e {
  stream_ms = stream_ms;
  status = status_error;
  error = message;
}
