-- ===== src/Http.antt =====
-- src/protocol/http/http_info.h and HttpMessage of src/message.h. A Dict is an unordered_map: its
-- entries in the order in which the map lists them, which stands for any order. `find` is its lookup.
pub mod Encode
pub mod Framing
pub mod Decode
pub mod Rounds
pub mod Util
pub mod Request
pub mod Domains
use libnbf.Prelude.{
  ℕ, Bool, true, false, not, ◌&&◌, ◌||◌, List, [], ◌∷◌, Option, none, some, if◌then◌else◌,
}
use libnbf.Prelude.TextMap.{TextMap, find, place, insert, replace}
use libnbf.Message.{EventMessage, new_message, http_message}

abbrev pub Dict : Type 0
Dict = TextMap (List ℕ)

-- headers[key] = value
unfoldable pub assign : List ℕ → List ℕ → Dict → Dict
assign key value headers = elim (find key headers) [
  | none ↦ place key value headers
  | some old ↦ replace key value headers
]

pub record HttpRequestInfo : Type 0 where
  pub method : List ℕ
  pub url : List ℕ
  pub headers : Dict
  pub new_field : List ℕ
  pub body : List ℕ
  pub is_parsed_complete : Bool

abbrev pub empty_info : HttpRequestInfo
empty_info = record {
  method = [];
  url = [];
  headers = [];
  new_field = [];
  body = [];
  is_parsed_complete = false;
}

-- ReSet leaves is_parsed_complete.
abbrev pub reset_info : HttpRequestInfo → HttpRequestInfo
reset_info info = record empty_info { is_parsed_complete = info.is_parsed_complete }

-- Swap, and what it leaves in its argument: is_parsed_complete is copied and new_field stays.
abbrev pub swap_info : HttpRequestInfo → HttpRequestInfo → HttpRequestInfo × HttpRequestInfo
swap_info mine info = (
  record info { new_field = mine.new_field },
  record mine { new_field = info.new_field; is_parsed_complete = info.is_parsed_complete },
)

pub record HttpMessage : Type 0 where
  pub event : EventMessage
  pub http_major : ℕ
  pub http_minor : ℕ
  pub status_code : ℕ
  pub keep_alive : Bool
  pub encode_gzip : Bool
  pub http_info : HttpRequestInfo

-- A new message; the constructor leaves the numbers and flags open, and each use sets them.
abbrev pub blank_message : HttpMessage
blank_message = record {
  event = new_message http_message;
  http_major = 0;
  http_minor = 0;
  status_code = 0;
  keep_alive = false;
  encode_gzip = false;
  http_info = empty_info;
}

-- GetHeader with a null pointer for the value.
unfoldable pub has_header : List ℕ → HttpMessage → Bool
has_header field msg = elim (find field (msg.http_info.headers)) [ none ↦ false | some v ↦ true ]

-- InitReply of another message, or of a null pointer.
unfoldable pub init_reply : Option HttpMessage → ℕ → Bool → Bool → HttpMessage → HttpMessage
init_reply none status gzip alive msg = record msg {
  http_major = 1;
  http_minor = if alive then 1 else 0;
  status_code = status;
  keep_alive = alive;
  encode_gzip = gzip;
}
init_reply (some ev) status gzip alive msg = record msg {
  http_major = ev.http_major;
  http_minor = ev.http_minor;
  status_code = status;
  keep_alive = ev.keep_alive && alive;
  encode_gzip = ev.encode_gzip && gzip;
}

unfoldable pub init_request : List ℕ → Bool → Bool → Bool → HttpMessage → HttpMessage
init_request cmd http_1_1 gzip alive msg = record msg {
  http_major = 1;
  http_minor = if http_1_1 then 1 else 0;
  status_code = 0;
  keep_alive = alive;
  encode_gzip = gzip;
  http_info = record msg.http_info { method = cmd };
}
