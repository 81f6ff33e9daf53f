-- ===== src/Mesh/Head/Handoff.antt =====
-- The receiving peer reads the pod and the port that the sending node wrote.
use royak.Prelude.{
  ◌==◌, decimal, parse_unsigned-decimal, IsDigit, decimal-IsDigit, All, all, All-append, Text,
  codes, text_eq, is_empty, starts_with, ℕ, ◌^◌, ◌<◌, ◌≡◌, refl, ap, ◌∙◌, ◌≢◌, true, false, not,
  ◌&&◌, none, some, List, [], ◌∷◌, ◌++◌, append-nil, append_assoc, arith,
}
use royak.Mesh.Head.{
  trim_start, trim_end, trim, split_once, eq_ignore_ascii_case, strip_cr, lines_from, lines,
  header_value, find_header, parse_header, parse_pod_port, crlf, split_line_end, handoff_lines,
  inject_handoff,
}

-- A text of one line has no line feed and no carriage return.
unfoldable pub IsLine : Text → Type 0
IsLine s = All (λ c. (c ≢ 10) × (c ≢ 13)) s

strip_cr-append : (s : Text) → strip_cr (s ++ 13 ∷ []) ≡ s
unfolding strip_cr
strip_cr-append [] = refl
strip_cr-append (c ∷ []) = refl
strip_cr-append (c ∷ d ∷ cs) = ap (◌∷◌ c) (strip_cr-append (d ∷ cs))

-- A line that ends in a carriage return and a line feed is one line of the text.
lines_from-line :
    (acc line rest : Text)
    → IsLine line
    → lines_from acc (line ++ crlf ++ rest) ≡ (acc ++ line) ∷ lines rest
unfolding lines_from lines IsLine
lines_from-line acc [] rest h = rw (append-nil acc, strip_cr-append acc) refl
lines_from-line acc (c ∷ cs) rest h =
    ground (arith, h.0.0, lines_from-line (acc ++ c ∷ []) cs rest h.1, append_assoc acc (c ∷ []) cs)

split_line_end-line :
    (line rest : Text)
    → IsLine line
    → split_line_end (line ++ crlf ++ rest) ≡ some (line ++ crlf, rest)
unfolding split_line_end IsLine starts_with
split_line_end-line [] rest h = refl
split_line_end-line (c ∷ cs) rest h = ground (arith, split_line_end-line cs rest h.1, h.0.1)

trim_start-digits : (s : Text) → All IsDigit s → trim_start s ≡ s
unfolding trim_start IsDigit
trim_start-digits [] h = refl
trim_start-digits (c ∷ cs) h = ground (arith, h.0.0)

trim_end-digits : (s : Text) → All IsDigit s → trim_end s ≡ s
unfolding trim_end IsDigit
trim_end-digits [] h = refl
trim_end-digits (c ∷ cs) h = ground (arith, h.0.0, trim_end-digits cs h.1)

trim-digits : (s : Text) → All IsDigit s → trim s ≡ s
unfolding trim
trim-digits s h = ap trim_end (trim_start-digits s h) ∙ trim_end-digits s h

header_value-port :
    (s : Text)
    → All IsDigit s
    → header_value (codes "x-royak-port") (codes "X-Royak-Port: " ++ s) ≡ some s
unfolding header_value split_once trim trim_start trim_end eq_ignore_ascii_case text_eq
header_value-port s h = ap some (trim-digits s h)

header_value-pod :
    (s : Text) → header_value (codes "x-royak-port") (codes "X-Royak-Pod: " ++ s) ≡ none
unfolding header_value split_once trim trim_start trim_end eq_ignore_ascii_case text_eq
header_value-pod s = refl

append-IsLine : (s t : Text) → IsLine s → IsLine t → IsLine (s ++ t)
unfolding IsLine
append-IsLine s t h k = All-append (λ c. (c ≢ 10) × (c ≢ 13)) s t h k

pub literal-IsLine : (s : Text) → all (λ c. not (c == 10) && not (c == 13)) s ≡ true → IsLine s
unfolding IsLine all
literal-IsLine [] h = tt
literal-IsLine (c ∷ cs) h =
    ((λ e. ground arith, λ e. ground arith), literal-IsLine cs (ground arith))

digits-IsLine : (s : Text) → All IsDigit s → IsLine s
unfolding IsLine IsDigit
digits-IsLine [] h = tt
digits-IsLine (c ∷ cs) h =
    ((λ e. omega (arith, h.0.0), λ e. omega (arith, h.0.0)), digits-IsLine cs h.1)

inject_handoff-line :
    (line rest pod : Text) (port : ℕ)
    → IsLine line
    → inject_handoff (line ++ crlf ++ rest) pod port
      ≡ line
        ++ crlf
        ++ ((codes "X-Royak-Pod: " ++ pod)
            ++ crlf
            ++ ((codes "X-Royak-Port: " ++ decimal port) ++ crlf ++ rest))
unfolding inject_handoff handoff_lines
inject_handoff-line line rest pod port h =
    rw (split_line_end-line line rest h, inject_handoff) (simp append_assoc)

lines-inject_handoff :
    (line rest pod : Text) (port : ℕ)
    → IsLine line
    → IsLine pod
    → lines (inject_handoff (line ++ crlf ++ rest) pod port)
      ≡ line
        ∷ (codes "X-Royak-Pod: " ++ pod)
        ∷ (codes "X-Royak-Port: " ++ decimal port)
        ∷ lines rest
unfolding lines all
lines-inject_handoff line rest pod port h k =
    let second : Text = codes "X-Royak-Pod: " ++ pod in
    let third : Text = codes "X-Royak-Port: " ++ decimal port in
    ap lines (inject_handoff-line line rest pod port h)
    ∙ lines_from-line [] line (second ++ crlf ++ (third ++ crlf ++ rest)) h
    ∙ ap (◌∷◌ line) (
        lines_from-line [] second (third ++ crlf ++ rest) (
          append-IsLine (codes "X-Royak-Pod: ") pod (literal-IsLine (codes "X-Royak-Pod: ") refl) k)
        ∙ ap (◌∷◌ second) (
            lines_from-line [] third rest (
              append-IsLine (codes "X-Royak-Port: ") (decimal port)
                (literal-IsLine (codes "X-Royak-Port: ") refl)
                (digits-IsLine (decimal port) (decimal-IsDigit port)))))

find_header-skip :
    (name line : Text) (rest : List Text)
    → is_empty line ≡ false
    → header_value name line ≡ none
    → find_header name (line ∷ rest) ≡ find_header name rest
unfolding find_header
find_header-skip name line rest e h = ground arith

find_header-here :
    (name line v : Text) (rest : List Text)
    → is_empty line ≡ false
    → header_value name line ≡ some v
    → find_header name (line ∷ rest) ≡ some v
unfolding find_header
find_header-here name line v rest e h = ground arith

parse_header-inject_handoff :
    (line rest pod : Text) (port : ℕ)
    → IsLine line
    → is_empty line ≡ false
    → header_value (codes "x-royak-port") line ≡ none
    → IsLine pod
    → parse_header (inject_handoff (line ++ crlf ++ rest) pod port) (codes "x-royak-port")
      ≡ some (decimal port)
unfolding parse_header is_empty
parse_header-inject_handoff line rest pod port h i j k =
    let name : Text = codes "x-royak-port" in
    let second : Text = codes "X-Royak-Pod: " ++ pod in
    let third : Text = codes "X-Royak-Port: " ++ decimal port in
    ap (find_header name) (lines-inject_handoff line rest pod port h k)
    ∙ find_header-skip name line (second ∷ third ∷ lines rest) i j
    ∙ find_header-skip name second (third ∷ lines rest) refl (header_value-pod pod)
    ∙ find_header-here name third (decimal port) (lines rest) refl
        (header_value-port (decimal port) (decimal-IsDigit port))

-- The peer reads back the port that the sending node injected, for a request line that is not itself
-- a port header, a pod name without line ends, and every port but 0.
pub parse_pod_port-inject_handoff :
    (line rest pod : Text) (port : ℕ)
    → IsLine line
    → is_empty line ≡ false
    → header_value (codes "x-royak-port") line ≡ none
    → IsLine pod
    → 0 < port
    → port < 2 ^ 16
    → parse_pod_port (inject_handoff (line ++ crlf ++ rest) pod port) ≡ port
unfolding parse_pod_port
parse_pod_port-inject_handoff line rest pod port h i j k l u =
    rw (parse_header-inject_handoff line rest pod port h i j k, parse_pod_port)
      (rw (trim-digits (decimal port) (decimal-IsDigit port))
        (rw (parse_unsigned-decimal (2 ^ 16) port u) (ground arith)))
