-- ===== src/Web/Framed.antt =====
-- What a client reads from the event stream.
use http_debug.Base.{
  ◌≡◌, refl, ap, ◌∙◌, false, ◌==◌, Option, none, some, List, [], ◌∷◌, ◌++◌, Str, codes, has, drop,
  append_assoc, if◌then◌else◌, if_false, arith,
}
use http_debug.Proxy.Format.{has_prefix, lines, split_lines}
use http_debug.Web.Stream.{frame}

-- The parts of a stream.
pub data Part : Type 0 where
  comment : Str → Part
  message : Str → Str → Part

abbrev pub text_of : Part → Str
text_of (comment c) = codes ": " ++ (c ++ codes "\n\n")
text_of (message type payload) = frame type payload

abbrev pub written : List Part → Str
written [] = []
written (p ∷ ps) = text_of p ++ written ps

abbrev pub messages : List Part → List (Str × Str)
messages [] = []
messages (comment c ∷ ps) = messages ps
messages (message type payload ∷ ps) = (type, payload) ∷ messages ps

-- No line of a part is broken.
abbrev pub OneLine : Str → Type 0
OneLine s = has 10 s ≡ false

abbrev pub IsFlat : Part → Type 0
IsFlat (comment c) = OneLine c
IsFlat (message type payload) = OneLine type × OneLine payload

abbrev pub AllFlat : List Part → Type 0
AllFlat [] = Unit
AllFlat (p ∷ ps) = IsFlat p × AllFlat ps

-- The reader of the standard, where lines end in a newline: a blank line dispatches the event, if it has
-- data, and a line that begins with a colon is passed over. The state is the type and the data so far.
abbrev pub Pending : Type 0
Pending = Str × Option Str

-- The value of a field, less the space before it.
abbrev pub value_of : Str → Str
value_of [] = []
value_of (c ∷ s) = if c == 32 then s else c ∷ s

abbrev pub more_data : Option Str → Str → Str
more_data none v = v
more_data (some d) v = d ++ 10 ∷ v

abbrev pub dispatched : Str → Option Str → List (Str × Str)
dispatched type none = []
dispatched type (some d) = (type, d) ∷ []

unfoldable pub read_line : Pending → Str → List (Str × Str) × Pending
unfolding has_prefix
read_line (type, content) [] = (dispatched type content, ([], none))
read_line (type, content) (c ∷ s) =
    if c == b':'
    then ([], (type, content))
    else if has_prefix (c ∷ s) (codes "event:")
    then ([], (value_of (drop 6 (c ∷ s)), content))
    else if has_prefix (c ∷ s) (codes "data:")
    then ([], (type, some (more_data content (value_of (drop 5 (c ∷ s))))))
    else ([], (type, content))

abbrev pub read_lines : Pending → List Str → List (Str × Str)
read_lines st [] = []
read_lines st (l ∷ ls) = let (out, st') = read_line st l in out ++ read_lines st' ls

abbrev pub read_stream : Str → List (Str × Str)
read_stream text = read_lines ([], none) (lines text)

split_lines-newline : (a rest : Str) → OneLine a → split_lines (a ++ 10 ∷ rest) ≡ (a, lines rest)
unfolding lines split_lines
split_lines-newline [] rest h = refl
split_lines-newline (c ∷ s) rest h =
    let other : (c == 10) ≡ false = ground arith in
    let below : OneLine s = ground arith in
    if_false _ _ other
    ∙ ap (λ (x : Str × List Str). (c ∷ x.0, x.1)) (split_lines-newline s rest below)

lines-newline : (a rest : Str) → OneLine a → lines (a ++ 10 ∷ rest) ≡ a ∷ lines rest
unfolding lines
lines-newline a rest h = ap (λ (x : Str × List Str). x.0 ∷ x.1) (split_lines-newline a rest h)

-- A line, and the rest of a text.
abbrev line : Str → Str → Str
line l rest = l ++ 10 ∷ rest

read_stream-line :
    (st : Pending) (l rest : Str)
    → OneLine l
    → read_lines st (lines (line l rest))
      ≡ (read_line st l).0 ++ read_lines (read_line st l).1 (lines rest)
read_stream-line st l rest h = ap (read_lines st) (lines-newline l rest h)

comment_text : (c rest : Str) → text_of (comment c) ++ rest ≡ line (codes ": " ++ c) (line [] rest)
comment_text c rest = ap (λ x. codes ": " ++ x) (append_assoc c (10 ∷ 10 ∷ []) rest)

message_text :
    (t p rest : Str)
    → text_of (message t p) ++ rest
      ≡ line (codes "event: " ++ t) (line (codes "data: " ++ p) (line [] rest))
message_text t p rest =
    let ends : (p ++ 10 ∷ 10 ∷ []) ++ rest ≡ line p (line [] rest) =
      append_assoc p (10 ∷ 10 ∷ []) rest in
    let tail : (t ++ 10 ∷ (codes "data: " ++ (p ++ 10 ∷ 10 ∷ []))) ++ rest
        ≡ t ++ 10 ∷ (codes "data: " ++ ((p ++ 10 ∷ 10 ∷ []) ++ rest)) =
      append_assoc t (10 ∷ (codes "data: " ++ (p ++ 10 ∷ 10 ∷ []))) rest in
    ap (λ x. codes "event: " ++ x) tail
    ∙ ap (λ x. codes "event: " ++ (t ++ 10 ∷ (codes "data: " ++ x))) ends

-- A part is read as the message that it is, and leaves the reader where it was.
read_stream-part :
    (p : Part) (rest : Str)
    → IsFlat p
    → read_stream (text_of p ++ rest) ≡ messages (p ∷ []) ++ read_stream rest
unfolding read_line has_prefix
read_stream-part (comment c) rest h =
    ap read_stream (comment_text c rest)
    ∙ read_stream-line ([], none) (codes ": " ++ c) (line [] rest) h
    ∙ read_stream-line ([], none) [] rest refl
read_stream-part (message t p) rest h =
    ap read_stream (message_text t p rest)
    ∙ read_stream-line ([], none) (codes "event: " ++ t) (line (codes "data: " ++ p) (line [] rest))
        h.0
    ∙ read_stream-line (t, none) (codes "data: " ++ p) (line [] rest) h.1
    ∙ read_stream-line (t, some p) [] rest refl

-- A client that reads a stream of comments and messages, of which none holds a newline, gets exactly
-- the messages, each with its type and its payload, in their order.
pub read_stream-written : (ps : List Part) → AllFlat ps → read_stream (written ps) ≡ messages ps
unfolding read_line lines split_lines
read_stream-written [] h = refl
read_stream-written (comment c ∷ ps) h =
    read_stream-part (comment c) (written ps) h.0 ∙ read_stream-written ps h.1
read_stream-written (message type payload ∷ ps) h =
    read_stream-part (message type payload) (written ps) h.0
    ∙ ap (λ ms. (type, payload) ∷ ms) (read_stream-written ps h.1)
