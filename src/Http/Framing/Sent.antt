-- ===== src/Http/Framing/Sent.antt =====
-- What Encode writes is received as the message that was sent.
use libnbf.Prelude.{
  ℕ, ◌≡◌, refl, ◌∙◌, ap, List, [], ◌∷◌, ◌++◌, arith, append_assoc, append-nil, length, Bool-cases,
  inl, inr, map, if◌then◌else◌, not, ◌&&◌, ltb, ◌==◌,
}
use libnbf.Prelude.Bytes.{codes}
use libnbf.Prelude.Clib.{print_64}
use libnbf.Http.{Dict, HttpMessage, has_header}
use libnbf.Http.Encode.{
  crlf, header_line, get_header_str, convert_status_code, is_response, first_pieces, header_pieces,
  length_pieces, connection_pieces, body_pieces, pieces,
}
use libnbf.Http.Framing.Lines.{concat, concat-append, line_text, line_text-append}

-- The lines of a message.
abbrev pub first_line : List ℕ → HttpMessage → List ℕ
first_line version msg =
    if is_response msg.event.direction
    then version ++ (codes " " ++ convert_status_code msg.status_code)
    else msg.http_info.method ++ (codes " " ++ (msg.http_info.url ++ (codes " " ++ version)))

abbrev pub length_lines : HttpMessage → List (List ℕ)
length_lines msg =
    if not (has_header (codes "Content-Length") msg) && ltb 0 (length msg.http_info.body)
    then (codes "Content-Length: " ++ print_64 (length msg.http_info.body)) ∷ []
    else []

abbrev pub connection_lines : HttpMessage → List (List ℕ)
connection_lines msg =
    if has_header (codes "Connection") msg
    then []
    else if msg.keep_alive
    then codes "Connection: keep-alive" ∷ []
    else codes "Connection: close" ∷ []

abbrev pub header_lines : HttpMessage → List (List ℕ)
header_lines msg =
    map header_line msg.http_info.headers ++ (length_lines msg ++ connection_lines msg)

get_header_str-line_text :
    (headers : Dict) → get_header_str headers ≡ line_text (map header_line headers)
unfolding get_header_str
get_header_str-line_text [] = refl
get_header_str-line_text (e ∷ headers) =
    ap (λ t. header_line e ++ (crlf ++ t)) (get_header_str-line_text headers)

header_pieces_lem :
    (msg : HttpMessage)
    → concat (header_pieces msg) ≡ line_text (map header_line msg.http_info.headers)
unfolding header_pieces
header_pieces_lem msg =
    elim (msg.http_info.headers)
      as (λ headers.
        concat (elim headers [ [] ↦ [] | e ∷ more ↦ get_header_str (e ∷ more) ∷ [] ])
        ≡ line_text (map header_line headers)) [
          | [] ↦ refl
          | e ∷ more ↦ append-nil (get_header_str (e ∷ more)) ∙ get_header_str-line_text (e ∷ more)
        ]

first_pieces_lem :
    (version : List ℕ) (msg : HttpMessage)
    → concat (first_pieces version msg) ≡ first_line version msg ++ crlf
unfolding first_pieces
first_pieces_lem version msg = elim (Bool-cases (is_response msg.event.direction)) [
  | inl e ↦ rw e (simp (append_assoc, append-nil))
  | inr e ↦ rw e (simp (append_assoc, append-nil))
]

length_pieces_lem : (msg : HttpMessage) → concat (length_pieces msg) ≡ line_text (length_lines msg)
unfolding length_pieces
length_pieces_lem msg =
    elim (Bool-cases
      (not (has_header (codes "Content-Length") msg) && ltb 0 (length msg.http_info.body))) [
        | inl e ↦ rw e (simp append-nil)
        | inr e ↦ rw e refl
      ]

connection_pieces_lem :
    (msg : HttpMessage) → concat (connection_pieces msg) ≡ line_text (connection_lines msg)
unfolding connection_pieces
connection_pieces_lem msg = ground arith

body_pieces_lem : (msg : HttpMessage) → concat (body_pieces msg) ≡ crlf ++ msg.http_info.body
unfolding body_pieces
body_pieces_lem msg =
    elim (msg.http_info.body)
      as (λ body.
        concat (if length body == 0 then crlf ∷ [] else crlf ∷ body ∷ []) ≡ crlf ++ body) [
          | [] ↦ refl
          | c ∷ s ↦ ground (arith, append-nil s)
        ]

pub concat-pieces :
    (version : List ℕ) (msg : HttpMessage)
    → concat (pieces version msg)
      ≡ line_text (first_line version msg ∷ header_lines msg) ++ (crlf ++ msg.http_info.body)
unfolding pieces
concat-pieces version msg = simp (
  concat-append,
  line_text-append,
  first_pieces_lem version msg,
  header_pieces_lem msg,
  length_pieces_lem msg,
  connection_pieces_lem msg,
  body_pieces_lem msg,
  append_assoc,
)
