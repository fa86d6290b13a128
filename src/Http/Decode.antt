-- ===== src/Http/Decode.antt =====
-- src/protocol/http/http_helper.cpp, the callbacks of HttpParser, and HttpProtocol::Decode. The parser
-- under protocol/http/third is a parameter: what it is after it has read some bytes, the callbacks that
-- it makes on the way, in order, and the number of bytes that it took.
use libnbf.Prelude.{
  ℕ, zero, suc, ◌+◌, ◌*◌, ◌%◌, ◌^◌, Bool, true, false, not, ◌||◌, List, [], ◌∷◌, ◌++◌, Option, none,
  some, ◌==◌, ltb, if◌then◌else◌, take,
}
use libnbf.Prelude.TextMap.{same_text}
use libnbf.Prelude.Bytes.{codes}
use libnbf.Message.{
  Direction, incoming_request, incoming_response, outgoing_request, outgoing_response,
  heart_beat_message, new_message,
}
use libnbf.Buffer.{Buffer, contents, get_reading_size, drain_reading}
use libnbf.Http.{
  HttpRequestInfo, HttpMessage, empty_info, reset_info, swap_info, blank_message, assign,
}

-- What the parser knows of a complete message.
pub record Completion : Type 0 where
  pub major : ℕ
  pub minor : ℕ
  pub status : ℕ
  pub should_keep_alive : Bool
  pub is_request : Bool
  pub method_str : List ℕ

pub data Callback : Type 0 where
  message_begin : Callback
  url_part : List ℕ → Callback
  header_field : List ℕ → Callback
  header_value : List ℕ → Callback
  headers_complete : Callback
  body_part : List ℕ → Callback
  message_complete : Completion → Callback

-- HttpAgent without its parser.
pub record HttpAgent : Type 0 where
  pub msgs : List HttpMessage
  pub http_request : HttpRequestInfo

abbrev pub with_request : HttpAgent → HttpRequestInfo → HttpAgent
with_request agent info = record agent { http_request = info }

-- OnMessageComplete
unfoldable pub on_message_complete : Completion → HttpAgent → HttpAgent
on_message_complete c agent =
    let info : HttpRequestInfo = record agent.http_request {
      is_parsed_complete = true;
      method = c.method_str;
    } in
    let swapped : HttpRequestInfo × HttpRequestInfo = swap_info empty_info info in
    let msg : HttpMessage = record blank_message {
      event = record blank_message.event {
        direction = if c.is_request then incoming_request else incoming_response;
      };
      http_major = c.major;
      http_minor = c.minor;
      status_code = c.status;
      keep_alive = c.should_keep_alive;
      http_info = swapped.0;
    } in
    record { msgs = agent.msgs ++ (msg ∷ []); http_request = reset_info (swapped.1) }

unfoldable pub on_callback : Callback → HttpAgent → HttpAgent
unfolding on_message_complete
on_callback message_begin agent =
    with_request agent (record (reset_info agent.http_request) { is_parsed_complete = false })
on_callback (url_part part) agent =
    with_request agent (record agent.http_request { url = agent.http_request.url ++ part })
on_callback (header_field part) agent =
    with_request agent (record agent.http_request { new_field = part })
on_callback (header_value part) agent = with_request agent (record agent.http_request {
  headers = assign agent.http_request.new_field part agent.http_request.headers;
})
on_callback headers_complete agent = agent
on_callback (body_part part) agent =
    with_request agent (record agent.http_request { body = agent.http_request.body ++ part })
on_callback (message_complete c) agent = on_message_complete c agent

unfoldable pub on_callbacks : List Callback → HttpAgent → HttpAgent
on_callbacks [] agent = agent
on_callbacks (c ∷ cs) agent = on_callbacks cs (on_callback c agent)

-- The parser: http_parser_execute, and two of its fields.
pub record HttpParser : Type 1 where
  pub Parser : Type 0
  pub execute : Parser → List ℕ → Parser × List Callback × ℕ
  pub upgrade : Parser → Bool
  pub http_errno : Parser → ℕ

-- What Decode returns: a message, or the heart beat that it makes of a request for the icon.
pub data Decoded : Type 0 where
  decoded_message : HttpMessage → Decoded
  decoded_beat : (direction : Direction) → (load_avg : ℕ) → Decoded

abbrev pub icon_url : List ℕ
icon_url = codes "/favicon.ico"

abbrev pub parsed_all : Option ℕ → ℕ → Bool
parsed_all none size = false
parsed_all (some n) size = n == size

abbrev pub parse_limit : ℕ
parse_limit = 1024 * 1024

module _ (h : HttpParser) where
  open h use {Parser, execute, upgrade, http_errno}

  -- The protocol of a connection, and `idx`, which all share.
  pub record HttpProtocol : Type 0 where
    pub agent : HttpAgent
    pub parser : Parser
    pub idx : ℕ

  pub record Run : Type 0 where
    pub msg : Option Decoded
    pub failed : Bool
    pub input : Buffer
    pub protocol : HttpProtocol

  -- HttpParseRequest: none for the return of -1.
  unfoldable pub http_parse_request : List ℕ → HttpProtocol → HttpProtocol × Option ℕ
  http_parse_request inbuf p =
      let ran : Parser × List Callback × ℕ = execute p.parser inbuf in
      (
        record p { agent = on_callbacks (ran.1) p.agent; parser = ran.0 },
        if http_errno (ran.0) == 0 then some (ran.2) else none,
      )

  -- The first message of the list.
  unfoldable pub take_first : HttpMessage → List HttpMessage → Bool → Buffer → HttpProtocol → Run
  take_first msg more failed input p =
      let agent : HttpAgent = record p.agent { msgs = more } in
      let count : ℕ = (p.idx + 1) % 2 ^ 64 in
      if same_text msg.http_info.url icon_url
      then record {
        msg = some (decoded_beat msg.event.direction count);
        failed = failed;
        input = input;
        protocol = record p { agent = agent; idx = count };
      }
      else record {
        msg = some (decoded_message msg);
        failed = failed;
        input = input;
        protocol = record p { agent = agent };
      }

  -- A round that parses: what `failed` and the input are behind it.
  unfoldable pub parse_round : Buffer → HttpProtocol → HttpProtocol × Bool × Buffer
  unfolding http_parse_request
  parse_round input p =
      let all : ℕ = get_reading_size input in
      let size : ℕ = if ltb parse_limit all then parse_limit else all in
      let ran : HttpProtocol × Option ℕ = http_parse_request (take size (contents input)) p in
      let next : HttpProtocol = ran.0 in
      if upgrade next.parser || not (parsed_all (ran.1) size)
      then (next, true, drain_reading size input)
      else if next.agent.http_request.is_parsed_complete
      then (next, false, drain_reading size input)
      else (next, true, if ltb (256 * 1024) size then drain_reading size input else input)

  -- The loop of Decode; none means that the fuel ran out.
  unfoldable pub decode : ℕ → Buffer → Bool → HttpProtocol → Option Run
  decode zero input failed p = none
  decode (suc fuel) input failed p =
      let parsed : HttpProtocol × Bool × Buffer = parse_round input p in
      let next : Option Run = decode fuel (parsed.2) (parsed.1) (parsed.0) in
      elim (p.agent.msgs) [
        | msg ∷ more ↦ some (take_first msg more failed input p)
        | [] ↦
            if (get_reading_size input == 0) || failed
            then some (record { msg = none; failed = failed; input = input; protocol = p })
            else next
      ]

-- HeartBeatRequest: an HttpMessage with the type of a heart beat.
unfoldable pub heart_beat_request : HttpMessage
heart_beat_request = record blank_message {
  event = record (new_message heart_beat_message) { direction = outgoing_request };
  keep_alive = true;
}

unfoldable pub heart_beat_response : HttpMessage → HttpMessage
heart_beat_response request = record request {
  event = record request.event { direction = outgoing_response };
  status_code = 200;
}
