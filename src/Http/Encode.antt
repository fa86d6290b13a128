-- ===== src/Http/Encode.antt =====
-- src/protocol/http/http_protocol.cpp: Encode and WirteToBuf.
use libnbf.Prelude.{
  ℕ, Bool, true, false, not, ◌&&◌, List, [], ◌∷◌, ◌++◌, Option, none, some, ◌==◌, ltb,
  if◌then◌else◌, length,
}
use libnbf.Prelude.TextMap.{insert}
use libnbf.Prelude.Bytes.{codes}
use libnbf.Prelude.Clib.{print_64}
use libnbf.Text.{to_low}
use libnbf.Message.{Direction, incoming_response, outgoing_response}
use libnbf.Buffer
use libnbf.Buffer.{Buffer}
use libnbf.Http.{Dict, HttpMessage, blank_message, has_header, init_reply, init_request}

abbrev pub crlf : List ℕ
crlf = 13 ∷ 10 ∷ []

abbrev pub g_favicon_ico : List ℕ
g_favicon_ico =
    0 ∷ 0 ∷ 1 ∷ 0 ∷ 1 ∷ 0 ∷ 16 ∷ 16 ∷ 16 ∷ 0 ∷ 0 ∷ 0 ∷ 0 ∷ 0 ∷ 40 ∷ 1 ∷ 0 ∷ 0 ∷ 22 ∷ 0 ∷ 0 ∷ 0 ∷ 40
    ∷ 0 ∷ 0 ∷ 0 ∷ 16 ∷ 0 ∷ 0 ∷ 0 ∷ 32 ∷ 0 ∷ 0 ∷ 0 ∷ 1 ∷ 0 ∷ 4 ∷ 0 ∷ 0 ∷ 0 ∷ 0 ∷ 0 ∷ 128 ∷ 0 ∷ 0 ∷ 0
    ∷ 0 ∷ 0 ∷ 0 ∷ 0 ∷ 0 ∷ 0 ∷ 0 ∷ 0 ∷ 16 ∷ 0 ∷ 0 ∷ 0 ∷ 0 ∷ 0 ∷ 0 ∷ 0 ∷ 0 ∷ 0 ∷ 0 ∷ 0 ∷ 222 ∷ 113
    ∷ 235 ∷ 0 ∷ 0 ∷ 0 ∷ 0 ∷ 0 ∷ 0 ∷ 0 ∷ 0 ∷ 0 ∷ 0 ∷ 0 ∷ 0 ∷ 0 ∷ 0 ∷ 0 ∷ 0 ∷ 0 ∷ 0 ∷ 0 ∷ 0 ∷ 0 ∷ 0
    ∷ 0 ∷ 0 ∷ 0 ∷ 0 ∷ 0 ∷ 0 ∷ 0 ∷ 0 ∷ 0 ∷ 0 ∷ 0 ∷ 0 ∷ 0 ∷ 0 ∷ 0 ∷ 0 ∷ 0 ∷ 0 ∷ 0 ∷ 0 ∷ 0 ∷ 0 ∷ 0 ∷ 0
    ∷ 0 ∷ 0 ∷ 0 ∷ 0 ∷ 0 ∷ 0 ∷ 0 ∷ 0 ∷ 0 ∷ 0 ∷ 0 ∷ 0 ∷ 1 ∷ 17 ∷ 17 ∷ 17 ∷ 0 ∷ 0 ∷ 0 ∷ 0 ∷ 1 ∷ 17 ∷ 17
    ∷ 17 ∷ 0 ∷ 0 ∷ 0 ∷ 0 ∷ 1 ∷ 17 ∷ 17 ∷ 17 ∷ 0 ∷ 0 ∷ 0 ∷ 0 ∷ 1 ∷ 17 ∷ 17 ∷ 17 ∷ 0 ∷ 0 ∷ 0 ∷ 0 ∷ 1
    ∷ 17 ∷ 17 ∷ 17 ∷ 0 ∷ 0 ∷ 0 ∷ 0 ∷ 1 ∷ 17 ∷ 17 ∷ 17 ∷ 0 ∷ 0 ∷ 0 ∷ 0 ∷ 1 ∷ 17 ∷ 17 ∷ 17 ∷ 0 ∷ 0 ∷ 0
    ∷ 0 ∷ 0 ∷ 0 ∷ 0 ∷ 1 ∷ 0 ∷ 0 ∷ 0 ∷ 0 ∷ 0 ∷ 0 ∷ 0 ∷ 1 ∷ 0 ∷ 1 ∷ 0 ∷ 0 ∷ 0 ∷ 0 ∷ 0 ∷ 1 ∷ 0 ∷ 16 ∷ 0
    ∷ 0 ∷ 0 ∷ 0 ∷ 0 ∷ 1 ∷ 1 ∷ 0 ∷ 0 ∷ 0 ∷ 0 ∷ 0 ∷ 0 ∷ 1 ∷ 16 ∷ 17 ∷ 16 ∷ 0 ∷ 0 ∷ 0 ∷ 0 ∷ 1 ∷ 0 ∷ 17
    ∷ 0 ∷ 0 ∷ 0 ∷ 0 ∷ 0 ∷ 1 ∷ 1 ∷ 16 ∷ 0 ∷ 0 ∷ 0 ∷ 0 ∷ 0 ∷ 1 ∷ 17 ∷ 0 ∷ 0 ∷ 0 ∷ 0 ∷ 0 ∷ 0 ∷ 1 ∷ 16
    ∷ 0 ∷ 0 ∷ 224 ∷ 63 ∷ 0 ∷ 0 ∷ 224 ∷ 63 ∷ 0 ∷ 0 ∷ 224 ∷ 63 ∷ 0 ∷ 0 ∷ 224 ∷ 63 ∷ 0 ∷ 0 ∷ 224 ∷ 63
    ∷ 0 ∷ 0 ∷ 224 ∷ 63 ∷ 0 ∷ 0 ∷ 224 ∷ 63 ∷ 0 ∷ 0 ∷ 255 ∷ 191 ∷ 0 ∷ 0 ∷ 255 ∷ 187 ∷ 0 ∷ 0 ∷ 255
    ∷ 183 ∷ 0 ∷ 0 ∷ 255 ∷ 175 ∷ 0 ∷ 0 ∷ 255 ∷ 157 ∷ 0 ∷ 0 ∷ 255 ∷ 187 ∷ 0 ∷ 0 ∷ 255 ∷ 183 ∷ 0 ∷ 0
    ∷ 255 ∷ 175 ∷ 0 ∷ 0 ∷ 255 ∷ 159 ∷ 0 ∷ 0 ∷ []

-- A line of GetHeaderStr, without its end.
abbrev pub header_line : List ℕ × List ℕ → List ℕ
header_line e = to_low e.0 ++ (codes ": " ++ e.1)

unfoldable pub get_header_str : Dict → List ℕ
get_header_str [] = []
get_header_str (e ∷ headers) = header_line e ++ (crlf ++ get_header_str headers)

-- The cases of ConvertStatusCode, and the number itself where there is none.
abbrev pub status_texts : List (ℕ × List ℕ)
status_texts =
    (200, codes "200 OK")
    ∷ (201, codes "201 Created")
    ∷ (202, codes "202 Accepted")
    ∷ (204, codes "204 No Content")
    ∷ (300, codes "300 Multiple Choices")
    ∷ (301, codes "301 Moved Permanently")
    ∷ (302, codes "302 Moved Temporarily")
    ∷ (304, codes "304 Not Modified")
    ∷ (400, codes "400 Bad Request")
    ∷ (401, codes "401 Unauthorized")
    ∷ (403, codes "403 Forbidden")
    ∷ (404, codes "404 Not Found")
    ∷ (405, codes "405 Method Not Allowed")
    ∷ (500, codes "500 Internal Server Error")
    ∷ (501, codes "501 Not Implemented")
    ∷ (502, codes "502 Bad Gateway")
    ∷ (503, codes "503 Service Unavailable")
    ∷ []

unfoldable pub status_in : ℕ → List (ℕ × List ℕ) → List ℕ
status_in status [] = print_64 status
status_in status (e ∷ more) =
    let rest = status_in status more in if e.0 == status then e.1 else rest

unfoldable pub convert_status_code : ℕ → List ℕ
unfolding status_in
convert_status_code status = status_in status status_texts

abbrev pub is_response : Direction → Bool
is_response incoming_response = true
is_response outgoing_response = true
is_response d = false

-- The name of a version that WirteToBuf writes.
unfoldable pub http_version : ℕ → Option (List ℕ)
http_version minor =
    if minor == 0
    then some (codes "HTTP/1.0")
    else if minor == 1
    then some (codes "HTTP/1.1")
    else none

-- What WirteToBuf writes call by call, up to the end of the first line.
unfoldable pub first_pieces : List ℕ → HttpMessage → List (List ℕ)
first_pieces version msg =
    if is_response msg.event.direction
    then version ∷ codes " " ∷ convert_status_code msg.status_code ∷ crlf ∷ []
    else msg.http_info.method ∷ codes " " ∷ msg.http_info.url ∷ codes " " ∷ version ∷ crlf ∷ []

unfoldable pub header_pieces : HttpMessage → List (List ℕ)
header_pieces msg = elim (msg.http_info.headers) [
  | [] ↦ []
  | e ∷ headers ↦ get_header_str (e ∷ headers) ∷ []
]

unfoldable pub length_pieces : HttpMessage → List (List ℕ)
length_pieces msg =
    let size : ℕ = length msg.http_info.body in
    if not (has_header (codes "Content-Length") msg) && ltb 0 size
    then codes "Content-Length" ∷ codes ": " ∷ print_64 size ∷ crlf ∷ []
    else []

unfoldable pub connection_pieces : HttpMessage → List (List ℕ)
connection_pieces msg =
    if has_header (codes "Connection") msg
    then []
    else if msg.keep_alive
    then (codes "Connection: keep-alive" ++ crlf) ∷ []
    else (codes "Connection: close" ++ crlf) ∷ []

unfoldable pub body_pieces : HttpMessage → List (List ℕ)
body_pieces msg =
    if length msg.http_info.body == 0 then crlf ∷ [] else crlf ∷ msg.http_info.body ∷ []

unfoldable pub pieces : List ℕ → HttpMessage → List (List ℕ)
pieces version msg =
    first_pieces version msg
    ++ (header_pieces msg ++ (length_pieces msg ++ (connection_pieces msg ++ body_pieces msg)))

-- What Encode is given: one of the two types of message it knows, or another.
pub data Encodable : Type 0 where
  http_event : HttpMessage → Encodable
  heart_beat : (direction : Direction) → (load_avg : ℕ) → Encodable
  foreign_event : Encodable

-- The message that stands for a heart beat.
unfoldable pub heart_beat_info : Direction → ℕ → HttpMessage
heart_beat_info direction load_avg =
    let one : HttpMessage = record blank_message {
      event = record blank_message.event { direction = direction };
    } in
    let msg : HttpMessage =
      if is_response direction
      then (let reply : HttpMessage = init_reply none 200 false true one in
          record reply {
            http_info = record reply.http_info {
              body = g_favicon_ico;
              headers =
                  (insert (codes "Content-Type") (codes "image/x-icon") reply.http_info.headers).0;
            };
          })
      else (let asked : HttpMessage = init_request (codes "GET") true true true one in
          record asked { http_info = record asked.http_info { url = codes "/favicon.ico" } }) in
    record msg {
      http_info = record msg.http_info {
        headers = (insert (codes "LoadAvg") (print_64 load_avg) msg.http_info.headers).0;
      };
    }

abbrev pub message_to_write : Encodable → Option HttpMessage
message_to_write (http_event msg) = some msg
message_to_write (heart_beat direction load_avg) = some (heart_beat_info direction load_avg)
message_to_write foreign_event = none

module _ (malloc : ℕ → Option (List ℕ)) where
  -- Writes one after the other, until one returns false. `none` is a growth that does not end.
  unfoldable pub write_all : List (List ℕ) → Buffer → Option (Bool × Buffer)
  write_all [] output = some (true, output)
  write_all (p ∷ ps) output = elim (Buffer.write malloc p output) [
    | none ↦ none
    | some (false, out) ↦ some (false, out)
    | some (true, out) ↦ write_all ps out
  ]

  unfoldable pub wirte_to_buf : HttpMessage → Buffer → Option (Bool × Buffer)
  wirte_to_buf msg output = elim (http_version msg.http_minor) [
    | none ↦ some (false, output)
    | some version ↦ write_all (pieces version msg) output
  ]

  unfoldable pub encode : Encodable → Buffer → Option (Bool × Buffer)
  encode pv output = elim (message_to_write pv) [
    | none ↦ some (false, output)
    | some msg ↦ if msg.http_major == 1 then wirte_to_buf msg output else some (false, output)
  ]
