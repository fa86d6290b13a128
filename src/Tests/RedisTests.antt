-- ===== src/Tests/RedisTests.antt =====
-- src/protocol/redis/redis_parser.cpp and redis_protocol.cpp on concrete bytes.
use libnbf.Prelude.{
  ℕ, zero, suc, ◌+◌, ◌≡◌, ◌≢◌, ◌≤◌, refl, true, false, List, [], ◌∷◌, ◌++◌, some, none, arith,
  length,
}
use libnbf.Prelude.Clib.{print_unsigned}
use libnbf.Buffer
use libnbf.Buffer.{Buffer, contents}
use libnbf.Redis.{
  sep, cr, lf, parse_reply, reply_ok, reply_error, reply_overrun, reply_rest, find_crlf,
}
use libnbf.Redis.Size.{Sized, parse_reply-Sized}
use libnbf.Redis.Commands.{decode, Decoded, decoded, parse_cmd, find_sep, request_of}
use libnbf.Redis.Decode.{Result, decode-Result, decode-cut}
use libnbf.Redis.Encode.{join, bulks, parse_cmd-join}

-- "$2\r\nhi\r\n"
abbrev bulk : List ℕ
bulk = 36 ∷ 50 ∷ 13 ∷ 10 ∷ 104 ∷ 105 ∷ 13 ∷ 10 ∷ []

parse-bulk : parse_reply bulk ≡ reply_ok 8 false (49 ∷ 1 ∷ 104 ∷ 105 ∷ [])
unfolding parse_reply libnbf.Redis.dispatch find_crlf libnbf.Redis.parse_single_str
    libnbf.Redis.read_sized libnbf.Redis.get_length_line_length libnbf.Redis.read_string
    libnbf.Prelude.Clib.strtoll libnbf.Prelude.Clib.number libnbf.Prelude.Clib.spaces
    libnbf.Prelude.Clib.digits libnbf.Redis.read_body libnbf.Redis.check_crlf libnbf.Redis.check_lf
parse-bulk = refl

parse-array :
    parse_reply (42 ∷ 50 ∷ 13 ∷ 10 ∷ (bulk ++ (36 ∷ 45 ∷ 49 ∷ 13 ∷ 10 ∷ [])))
    ≡ reply_ok 17 false (50 ∷ 1 ∷ 104 ∷ 105 ∷ 1 ∷ 45 ∷ 49 ∷ [])
unfolding parse_reply libnbf.Redis.dispatch find_crlf libnbf.Redis.array_reply
    libnbf.Prelude.Clib.strtoll libnbf.Prelude.Clib.number libnbf.Prelude.Clib.spaces
    libnbf.Prelude.Clib.digits libnbf.Redis.array_loop libnbf.Redis.add_single
    libnbf.Redis.parse_single_str libnbf.Redis.read_sized libnbf.Redis.get_length_line_length
    libnbf.Redis.read_string libnbf.Redis.read_body libnbf.Redis.check_crlf libnbf.Redis.check_lf
    Buffer.starts_with
parse-array = refl

-- "+PONG\r\n"
parse-pong : parse_reply (43 ∷ 80 ∷ 79 ∷ 78 ∷ 71 ∷ 13 ∷ 10 ∷ []) ≡ reply_ok 7 true (48 ∷ [])
unfolding parse_reply libnbf.Redis.dispatch find_crlf Buffer.starts_with
parse-pong = refl

-- "$0\r\n\r\n", the empty string.
parse-empty : parse_reply (36 ∷ 48 ∷ 13 ∷ 10 ∷ 13 ∷ 10 ∷ []) ≡ reply_error
unfolding parse_reply libnbf.Redis.dispatch find_crlf libnbf.Redis.parse_single_str
    libnbf.Redis.read_sized libnbf.Redis.get_length_line_length libnbf.Redis.read_string
    libnbf.Prelude.Clib.strtoll libnbf.Prelude.Clib.number libnbf.Prelude.Clib.spaces
    libnbf.Prelude.Clib.digits
parse-empty = refl

-- "$\r\n\n\n\n\n3": the number stands behind white space that holds the end of the line, and the
-- check of the string's end reads past the text.
parse-overrun : parse_reply (36 ∷ 13 ∷ 10 ∷ 10 ∷ 10 ∷ 10 ∷ 10 ∷ 51 ∷ []) ≡ reply_overrun
unfolding parse_reply libnbf.Redis.dispatch find_crlf libnbf.Redis.parse_single_str
    libnbf.Redis.read_sized libnbf.Redis.get_length_line_length libnbf.Redis.read_string
    libnbf.Prelude.Clib.strtoll libnbf.Prelude.Clib.number libnbf.Prelude.Clib.spaces
    libnbf.Prelude.Clib.digits libnbf.Redis.read_body libnbf.Redis.check_crlf
parse-overrun = refl

parse_reply-Sized_example : Sized 2 8 (parse_reply bulk)
parse_reply-Sized_example = parse_reply-Sized bulk

abbrev holding : List ℕ → Buffer
holding bytes = record {
  begin = true;
  mem = bytes;
  pos_end = length bytes;
  pos_reading = 0;
  pos_writing = length bytes;
}

holding-IsValid : Buffer.IsValid (holding bulk)
holding-IsValid = record {
  block = refl;
  reading = omega arith;
  writing = omega arith;
  unset = λ h. cc;
  nonempty = λ h. omega arith;
}

decode-Result_example : Result (holding bulk) false (decode (holding bulk) false)
decode-Result_example = decode-Result (holding bulk) false holding-IsValid

-- "+PO", the first bytes of a reply.
abbrev cut : List ℕ
cut = 43 ∷ 80 ∷ 79 ∷ []

decode-cut_run : decode (holding cut) true ≡ decoded none false (Buffer.reset_all (holding cut))
unfolding find_crlf
decode-cut_run = decode-cut (holding cut) true (λ e. omega (arith, e)) refl

abbrev get : List ℕ
get = 71 ∷ 69 ∷ 84 ∷ []

abbrev key : List ℕ
key = 107 ∷ []

-- "GET\1k" gives "*2\r\n$3\r\nGET\r\n$1\r\nk\r\n".
parse_cmd-get :
    parse_cmd (get ++ (1 ∷ key))
    ≡ some (
        42 ∷ 50 ∷ 13 ∷ 10 ∷ 36 ∷ 51 ∷ 13 ∷ 10 ∷ 71 ∷ 69 ∷ 84 ∷ 13 ∷ 10 ∷ 36 ∷ 49 ∷ 13 ∷ 10 ∷ 107
        ∷ 13 ∷ 10 ∷ [])
unfolding parse_cmd libnbf.Redis.Commands.split_cmd find_sep print_unsigned
    libnbf.Prelude.Clib.decimal_on libnbf.Redis.Commands.segment
parse_cmd-get = refl

parse_cmd-join_run :
    parse_cmd (join get (key ∷ []))
    ≡ some (42 ∷ (print_unsigned 2 ++ (cr ∷ lf ∷ bulks (get ∷ key ∷ []))))
unfolding find_sep
parse_cmd-join_run = parse_cmd-join get (key ∷ []) (omega arith, refl) ((omega arith, refl), tt)
