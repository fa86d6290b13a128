-- ===== src/Tests/HttpTests.antt =====
-- src/protocol/http on concrete inputs.
use libnbf.Prelude.{
  ℕ, ◌≡◌, ◌↔◌, refl, true, false, List, [], ◌∷◌, ◌++◌, Option, none, some, arith, replicate, length,
}
use libnbf.Prelude.Bytes.{codes}
use libnbf.Prelude.Clib.{print_64, decimal_on}
use libnbf.Prelude.TextMap.{find, same_text}
use libnbf.Text.{cut_at, split, split_from, to_low}
use libnbf.Message.{new_message, http_message, outgoing_request}
use libnbf.Buffer
use libnbf.Buffer.{Buffer, contents}
use libnbf.Http.{HttpMessage, blank_message, empty_info, has_header}
use libnbf.Http.Encode.{
  crlf, encode, http_event, get_header_str, first_pieces, header_pieces, length_pieces,
  connection_pieces, body_pieces, pieces, http_version,
}
use libnbf.Http.Framing.{IsSendable}
use libnbf.Http.Framing.Lines.{concat}
use libnbf.Http.Framing.Written.{Received, encode-Received}
use libnbf.Http.Decode.{HttpParser, HttpProtocol, message_begin, url_part, message_complete}
use libnbf.Http.Util.{
  check_root_domain_match, get_domain, after_scheme, up_to_end, find_word, starts_with,
  get_root_domain,
}
use libnbf.Http.Request.{first_pos, param_pos, find_byte}
use libnbf.Http.Domains.{check_root_domain_match-suffix}

abbrev post : HttpMessage
post = record blank_message {
  event = record (new_message http_message) { direction = outgoing_request };
  http_major = 1;
  http_minor = 1;
  keep_alive = true;
  http_info = record empty_info {
    method = codes "POST";
    url = codes "/a";
    headers = (codes "Host", codes "b") ∷ [];
    body = codes "x=1";
  };
}

abbrev room : Buffer
room = record {
  begin = true;
  mem = replicate 128 0;
  pos_end = 128;
  pos_reading = 0;
  pos_writing = 0;
}

room-IsValid : Buffer.IsValid room
room-IsValid = record {
  block = refl;
  reading = omega arith;
  writing = omega arith;
  unset = λ h. cc;
  nonempty = λ h. omega arith;
}

abbrev full : ℕ → Option (List ℕ)
full n = none

post_text :
    concat (pieces (codes "HTTP/1.1") post)
    ≡ codes "POST /a HTTP/1.1"
      ++ crlf
      ++ codes "host: b"
      ++ crlf
      ++ codes "Content-Length: 3"
      ++ crlf
      ++ codes "Connection: keep-alive"
      ++ crlf
      ++ crlf
      ++ codes "x=1"
unfolding pieces first_pieces header_pieces length_pieces connection_pieces body_pieces
    get_header_str to_low has_header find same_text print_64 decimal_on
post_text = refl

post-IsSendable : IsSendable post
unfolding same_text to_low
post-IsSendable = record {
  major = refl;
  minor = omega arith;
  method_plain = (omega arith, (omega arith, (omega arith, (omega arith, tt))));
  url_plain = (omega arith, (omega arith, tt));
  headers_plain = (
    (
      refl,
      (omega arith, (omega arith, (omega arith, (omega arith, tt)))),
      (omega arith, (omega arith, (omega arith, (omega arith, tt)))),
      (omega arith, tt),
    ),
    tt,
  );
  body_bounded = omega arith;
}

encode-Received_example : Received (codes "HTTP/1.1") post room (encode full (http_event post) room)
unfolding http_version pieces first_pieces header_pieces length_pieces connection_pieces body_pieces
    get_header_str to_low has_header find same_text print_64 decimal_on
encode-Received_example =
    encode-Received full (λ n block e. cc) post room (codes "HTTP/1.1") post-IsSendable refl
      room-IsValid (omega arith)

-- A parser that takes every text for a request with that url, where the text is not empty.
abbrev toy : HttpParser
toy = record {
  Parser = ℕ;
  execute = λ p text. (
    p,
    message_begin
        ∷ url_part text
        ∷ message_complete (record {
          major = 1;
          minor = 1;
          status = 0;
          should_keep_alive = true;
          is_request = true;
          method_str = codes "GET";
        })
        ∷ [],
    length text,
  );
  upgrade = λ p. false;
  http_errno = λ p. 0;
}

abbrev fresh : HttpProtocol toy
fresh = record { agent = record { msgs = []; http_request = empty_info }; parser = 0; idx = 0 }

abbrev arrived : Buffer
arrived = record { begin = true; mem = codes "/a"; pos_end = 2; pos_reading = 0; pos_writing = 2 }

check_root_domain_match-suffix_example :
    (check_root_domain_match (codes "b.com") (codes "a.b.com") ≡ true) ↔ (
      (front : List (List ℕ)) × (split [] (codes "a.b.com") b'.' true
        ≡ front ++ split [] (codes "b.com") b'.' true))
check_root_domain_match-suffix_example =
    check_root_domain_match-suffix (codes "b.com") (codes "a.b.com")

domain_of : get_domain (codes "http://a.b.com:80/c") ≡ codes "a.b.com"
unfolding get_domain after_scheme up_to_end find_word starts_with
domain_of = refl

root_of : get_root_domain (codes "www.a.com.cn") ≡ codes "a.com.cn"
unfolding get_root_domain get_domain after_scheme up_to_end find_word starts_with split split_from
    cut_at same_text
root_of = refl

-- The parameters of an absolute url without a '?' begin behind the first slash of "http://", before
-- its path.
absolute : (first_pos (codes "http://ab/c") ≡ 9) × (param_pos (codes "http://ab/c") ≡ some 5)
unfolding first_pos param_pos find_byte starts_with cut_at
absolute = (refl, refl)
