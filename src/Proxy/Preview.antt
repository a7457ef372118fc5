-- ===== src/Proxy/Preview.antt =====
-- internal/proxy/capture.go: the text that an Ollama answer shows. `fragment` stands for json.Unmarshal
-- into `ollamaFragment`: the response and the content of the message.
use http_debug.Base.{
  ◌==◌, Option, none, some, List, [], ◌∷◌, ◌++◌, Str, codes, str_eq, length, drop, if◌then◌else◌,
}
use http_debug.Store.Entry.{Format, format_sse}
use http_debug.Proxy.Format.{trim_space, has_prefix, lines}

abbrev pub data_field : Str
data_field = codes "data:"

-- What is to be read of a line that is not blank, if it is not passed over.
unfoldable pub payload_of : Format → Str → Option Str
unfolding trim_space has_prefix str_eq
payload_of format line =
    let rest = trim_space (drop (length data_field) line) in
    if str_eq format format_sse
    then if has_prefix line data_field
      then if str_eq rest (codes "[DONE]") then none else some rest
      else none
    else some line

module _ (fragment : Str → Option (Str × Str)) where
  abbrev pub text_of : Option Str → Str
  text_of none = []
  text_of (some payload) = elim (fragment payload) [
    | none ↦ []
    | some (response, content) ↦ response ++ content
  ]

  -- The body of the loop.
  unfoldable pub line_text : Format → Str → Str
  unfolding payload_of trim_space
  line_text format raw =
      let line = trim_space raw in if length line == 0 then [] else text_of (payload_of format line)

  abbrev pub preview_lines : Format → List Str → Str
  preview_lines format [] = []
  preview_lines format (l ∷ ls) = line_text format l ++ preview_lines format ls

  -- OllamaPreview
  unfoldable pub ollama_preview : Format → Str → Str
  unfolding lines line_text
  ollama_preview format body = preview_lines format (lines body)
