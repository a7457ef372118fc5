-- ===== src/Proxy/Format.antt =====
-- internal/proxy/capture.go: the format of a payload. `json.Valid` is a parameter.
use http_debug.Base.{
  ℕ, Bool, true, false, not, ◌&&◌, ◌||◌, ◌==◌, ltb, leb, Option, none, some, List, [], ◌∷◌, Str,
  codes, str_eq, has, length, keep, all, any, map, if◌then◌else◌, ◌+◌,
}
use http_debug.Store.Entry.{Format, format_sse, format_ndjson, format_json, format_xml, format_raw}

-- The white space of `bytes.TrimSpace` and `strings.TrimSpace`, among the ASCII bytes.
abbrev pub is_space : ℕ → Bool
is_space c = (c == 32) || (leb 9 c && leb c 13)

unfoldable pub trim_left : Str → Str
trim_left [] = []
trim_left (c ∷ s) = if is_space c then trim_left s else c ∷ s

-- The bytes up to the last one that is not white space.
unfoldable pub trim_right : Str → Str
trim_right [] = []
trim_right (c ∷ s) =
    let rest = trim_right s in if is_space c && (length rest == 0) then [] else c ∷ rest

unfoldable pub trim_space : Str → Str
unfolding trim_left trim_right
trim_space s = trim_right (trim_left s)

-- strings.ToLower, on ASCII
abbrev pub lower : ℕ → ℕ
lower c = if leb 65 c && leb c 90 then c + 32 else c

unfoldable pub to_lower : Str → Str
to_lower s = map lower s

unfoldable pub has_prefix : Str → Str → Bool
has_prefix s [] = true
has_prefix [] (c ∷ p) = false
has_prefix (x ∷ s) (c ∷ p) = (x == c) && has_prefix s p

unfoldable pub contains : Str → Str → Bool
unfolding has_prefix
contains [] p = has_prefix [] p
contains (x ∷ s) p = has_prefix (x ∷ s) p || contains s p

unfoldable pub has_suffix : Str → Str → Bool
unfolding str_eq
has_suffix [] p = str_eq [] p
has_suffix (x ∷ s) p = str_eq (x ∷ s) p || has_suffix s p

-- The bytes before the first `;`.
unfoldable pub before_params : Str → Str
before_params [] = []
before_params (c ∷ s) = if c == b';' then [] else c ∷ before_params s

unfoldable pub media_type : Str → Str
unfolding trim_space to_lower before_params
media_type content_type =
    let ct = to_lower (trim_space content_type) in
    if has b';' ct then trim_space (before_params ct) else ct

-- formatFromContentType; `none` is false
unfoldable pub format_from_content_type : Str → Option Format
unfolding media_type contains has_suffix
format_from_content_type content_type =
    let ct = media_type content_type in
    if length ct == 0
    then none
    else if contains ct (codes "event-stream")
    then some format_sse
    else if contains ct (codes "ndjson")
        || contains ct (codes "jsonlines")
        || has_suffix ct (codes "jsonl")
    then some format_ndjson
    else if str_eq ct (codes "application/json")
        || has_suffix ct (codes "+json")
        || str_eq ct (codes "text/json")
    then some format_json
    else if str_eq ct (codes "application/xml")
        || str_eq ct (codes "text/xml")
        || has_suffix ct (codes "+xml")
    then some format_xml
    else none

-- bytes.Split at the newlines
unfoldable pub split_lines : Str → Str × List Str
split_lines [] = ([], [])
split_lines (c ∷ s) =
    let (line, rest) = split_lines s in if c == 10 then ([], line ∷ rest) else (c ∷ line, rest)

unfoldable pub lines : Str → List Str
unfolding split_lines
lines s = let (line, rest) = split_lines s in line ∷ rest

unfoldable pub looks_like_sse : Str → Bool
unfolding has_prefix
looks_like_sse body =
    any (has_prefix body)
      (codes "data:" ∷ codes "event:" ∷ codes "id:" ∷ codes "retry:" ∷ codes ":" ∷ [])

module _ (valid : Str → Bool) where
  -- isNDJSON
  unfoldable pub is_ndjson : Str → Bool
  unfolding lines trim_space
  is_ndjson body =
      let ls = keep (λ l. not (length l == 0)) (map trim_space (lines body)) in
      all valid ls && ltb 1 (length ls)

  abbrev sniff_trimmed : Str → Format
  sniff_trimmed [] = format_raw
  sniff_trimmed (c ∷ s) =
      if (c == b'{') || (c == b'[')
      then (if is_ndjson (c ∷ s) then format_ndjson else format_json)
      else if c == b'<'
      then format_xml
      else if looks_like_sse (c ∷ s)
      then format_sse
      else format_raw

  -- sniffFormat
  unfoldable pub sniff_format : Str → Format
  unfolding is_ndjson looks_like_sse trim_space
  sniff_format body = sniff_trimmed (trim_space body)

  -- detectFormat
  unfoldable pub detect_format : Str → Str → Format
  unfolding format_from_content_type sniff_format
  detect_format content_type body = elim (format_from_content_type content_type) [
    | some f ↦ f
    | none ↦ sniff_format body
  ]

-- isStreaming
unfoldable pub is_streaming : Format → Bool
unfolding str_eq
is_streaming f = str_eq f format_ndjson || str_eq f format_sse

-- isOllamaPath
unfoldable pub is_ollama_path : Str → Bool
unfolding str_eq has_suffix
is_ollama_path path =
    any (λ p. str_eq path p || has_suffix path p)
      (codes "/api/generate" ∷ codes "/api/chat" ∷ codes "/api/embeddings" ∷ [])
