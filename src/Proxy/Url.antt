-- ===== src/Proxy/Url.antt =====
-- internal/proxy/proxy.go: the paths and addresses. `net/url` is a library: its reading and printing
-- of an address are parameters.
use http_debug.Base.{
  Bool, true, ◌&&◌, ◌==◌, Option, [], ◌∷◌, ◌++◌, Str, codes, length, if◌then◌else◌,
}

-- url.URL; `other` stands for the user and the fragment.
pub record Url : Type 0 where
  pub scheme : Str
  pub host : Str
  pub path : Str
  pub raw_path : Str
  pub raw_query : Str
  pub other : Str

pub record UrlText : Type 0 where
  pub parse : Str → Option Url
  pub print : Url → Str

-- strings.TrimSuffix(s, "/")
unfoldable pub trim_slash_end : Str → Str
trim_slash_end [] = []
trim_slash_end (c ∷ s) =
    let rest = trim_slash_end s in if (c == b'/') && (length s == 0) then [] else c ∷ rest

-- strings.TrimPrefix(s, "/")
abbrev pub trim_slash_start : Str → Str
trim_slash_start [] = []
trim_slash_start (c ∷ s) = if c == b'/' then s else c ∷ s

abbrev pub is_root : Str → Bool
is_root [] = true
is_root (c ∷ s) = (c == b'/') && (length s == 0)

-- joinPath
unfoldable pub join_path : Str → Str → Str
unfolding trim_slash_end
join_path base path =
    if is_root base
    then path
    else if is_root path
    then base
    else trim_slash_end base ++ b'/' ∷ trim_slash_start path

-- DetailURL
unfoldable pub detail_url : Str → Str → Str
unfolding trim_slash_end
detail_url public_url id = trim_slash_end public_url ++ codes "/r/" ++ id
