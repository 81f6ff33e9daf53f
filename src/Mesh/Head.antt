-- ===== src/Mesh/Head.antt =====
-- src/cluster_mesh.rs, the headers that hand a request over to a peer. A request head is the list of
-- its bytes; `trim` takes away the ASCII whitespace, which is all there is in the heads of the
-- protocol.
pub mod Handoff
use royak.Prelude.{
  leb, ◌==◌, if◌then◌else◌, unwrap_or, ◌>>=◌, decimal, parse_unsigned, drop, Text, codes, text_eq,
  is_empty, starts_with, ℕ, ◌+◌, ◌-◌, ◌^◌, Bool, ◌&&◌, ◌||◌, Option, none, some, List, [], ◌∷◌,
  ◌++◌, map,
}
use royak.Mesh.{nonzero}

abbrev pub is_space : ℕ → Bool
is_space c = c == 32 || (leb 9 c && leb c 13)

unfoldable pub trim_start : Text → Text
trim_start [] = []
trim_start (c ∷ cs) = let rest = trim_start cs in if is_space c then rest else c ∷ cs

unfoldable pub trim_end : Text → Text
trim_end [] = []
trim_end (c ∷ cs) = let rest = trim_end cs in if is_space c && is_empty rest then [] else c ∷ rest

unfoldable pub trim : Text → Text
unfolding trim_start trim_end
trim s = trim_end (trim_start s)

-- `s.split_once(c)`
unfoldable pub split_once : ℕ → Text → Option (Text × Text)
split_once c [] = none
split_once c (b ∷ bs) =
    let rest = split_once c bs in
    if b == c then some ([], bs) else (rest >>= λ p. some (b ∷ p.0, p.1))

abbrev pub lower : ℕ → ℕ
lower c = if leb 65 c && leb c 90 then c + 32 else c

-- `k.eq_ignore_ascii_case(name)`
unfoldable pub eq_ignore_ascii_case : Text → Text → Bool
eq_ignore_ascii_case s t = text_eq (map lower s) (map lower t)

-- A line feed takes the carriage return before it away.
unfoldable pub strip_cr : Text → Text
strip_cr [] = []
strip_cr (c ∷ []) = if c == 13 then [] else c ∷ []
strip_cr (c ∷ d ∷ cs) = c ∷ strip_cr (d ∷ cs)

-- The lines after the bytes of the current one. The last line is kept as it is, where it does not
-- end in a line feed, and left out where it is empty.
unfoldable pub lines_from : Text → Text → List Text
unfolding strip_cr
lines_from line [] = if is_empty line then [] else line ∷ []
lines_from line (c ∷ cs) =
    let ended = strip_cr line ∷ lines_from [] cs in
    let more = lines_from (line ++ c ∷ []) cs in if c == 10 then ended else more

unfoldable pub lines : Text → List Text
lines s = lines_from [] s

-- The value of a header on one line.
unfoldable pub header_value : Text → Text → Option Text
header_value name line = elim (split_once 58 line) [
  | none ↦ none
  | some (k, v) ↦ if eq_ignore_ascii_case (trim k) name then some (trim v) else none
]

unfoldable pub find_header : Text → List Text → Option Text
find_header name [] = none
find_header name (line ∷ rest) =
    let later = find_header name rest in
    if is_empty line then none else elim (header_value name line) [ none ↦ later | some v ↦ some v ]

unfoldable pub parse_header : Text → Text → Option Text
parse_header head name = find_header name (lines head)

unfoldable pub parse_pod_port : Text → ℕ
parse_pod_port head =
    unwrap_or
      (nonzero (parse_header head (codes "x-royak-port") >>= λ v. parse_unsigned (2 ^ 16) (trim v)))
      80

-- A carriage return and a line feed.
abbrev pub crlf : Text
crlf = 13 ∷ 10 ∷ []

-- The bytes up to and with the first line end, and those after it.
unfoldable pub split_line_end : Text → Option (Text × Text)
split_line_end [] = none
split_line_end (c ∷ cs) =
    let rest = split_line_end cs in
    if starts_with (c ∷ cs) crlf
    then some (crlf, drop 2 (c ∷ cs))
    else (rest >>= λ p. some (c ∷ p.0, p.1))

unfoldable pub handoff_lines : Text → ℕ → Text
handoff_lines pod port =
    codes "X-Royak-Pod: " ++ pod ++ crlf ++ codes "X-Royak-Port: " ++ decimal port ++ crlf

unfoldable pub inject_handoff : Text → Text → ℕ → Text
inject_handoff raw pod port = elim (split_line_end raw) [
  | none ↦ handoff_lines pod port ++ raw
  | some (line, rest) ↦ line ++ handoff_lines pod port ++ rest
]
