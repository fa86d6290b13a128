-- ===== src/Redis.antt =====
-- src/protocol/redis/redis_parser.h and redis_parser.cpp: the parser of redis replies. A string is the
-- list of its bytes; a read in the zero that ends a C string is a read of 0, one past it an overrun.
-- Lengths are below 2 ^ 31, where the casts to int in the source change nothing.
pub mod Commands
pub mod Size
pub mod Decode
pub mod Encode
use libnbf.Prelude.{
  ℕ, zero, suc, ◌+◌, ◌-◌, ◌*◌, ◌^◌, Bool, true, false, ◌&&◌, ◌||◌, List, [], ◌∷◌, ◌++◌, Option,
  none, some, leb, ltb, ◌==◌, if◌then◌else◌, length, take, drop, get_elem?, min,
}
use libnbf.Prelude.Clib.{ℤ, pos, negsuc, strtoll}
use libnbf.Buffer.{starts_with}

abbrev pub cr : ℕ
cr = 13

abbrev pub lf : ℕ
lf = 10

-- RedisParser::kSep
abbrev pub sep : ℕ
sep = 1

abbrev pub starts_lf : List ℕ → Bool
starts_lf [] = false
starts_lf (x ∷ xs) = x == lf

-- The offset of the first "\r\n", counted from `i`.
unfoldable pub find_crlf : ℕ → List ℕ → Option ℕ
find_crlf i [] = none
find_crlf i (x ∷ xs) =
    let rest = find_crlf (i + 1) xs in if x == cr && starts_lf xs then some i else rest

-- The line up to and with its "\r\n", the first byte left out of the search.
unfoldable pub get_length_line_length : List ℕ → Option ℕ
get_length_line_length line = elim (find_crlf 1 (drop 1 line)) [
  | none ↦ none
  | some at ↦ some (at + 2)
]

-- What ParseSingleStr returns: 0, 1, 2 and -1, and a read past the string.
pub data Single : Type 0 where
  single_ok : (has_read_len : ℕ) → (out : List ℕ) → Single
  single_empty : (has_read_len : ℕ) → Single
  single_rest : Single
  single_error : Single
  single_overrun : Single

abbrev pub read_at : List ℕ → ℕ → Option ℕ
read_at line i = get_elem? (line ++ (0 ∷ [])) i

unfoldable pub check_lf : Option ℕ → Single → Single
check_lf none ok = single_overrun
check_lf (some b) ok = if b == lf then ok else single_error

-- The two bytes behind the string have to be "\r\n"; the second is read if the first is right.
unfoldable pub check_crlf : Option ℕ → Option ℕ → Single → Single
check_crlf none second ok = single_overrun
check_crlf (some a) second ok =
    let rest = check_lf second ok in if a == cr then rest else single_error

-- The string of `len` bytes at `at`, and the "\r\n" behind it.
unfoldable pub read_body : List ℕ → ℕ → ℕ → ℕ → Single
read_body line has_read at len =
    check_crlf (read_at line (at + len)) (read_at line (at + len + 1))
      (single_ok (has_read + (len + 2)) (take len (drop at line)))

-- ParseSingleStr where the line is long enough for its length: the branches on the length read.
unfoldable pub read_string : List ℕ → ℕ → ℤ × ℕ → Single
read_string line has_read (pos zero, used) = single_error
read_string line has_read (pos (suc n), used) =
    if leb (suc n + 2) (length line - has_read)
    then read_body line has_read (1 + used + 2) (suc n)
    else single_rest
read_string line has_read (negsuc zero, used) = single_empty has_read
read_string line has_read (negsuc (suc n), used) = single_error

-- ParseSingleStr behind the '$', at the length of the first line.
unfoldable pub read_sized : List ℕ → ℕ → List ℕ → Option ℕ → Single
read_sized line has_read behind none = single_error
read_sized line has_read behind (some n) = read_string line (has_read + n) (strtoll behind)

unfoldable pub parse_single_str : List ℕ → ℕ → Single
parse_single_str [] has_read = single_error
parse_single_str (x ∷ xs) has_read =
    if x == 36
    then read_sized (x ∷ xs) has_read xs (get_length_line_length (x ∷ xs))
    else single_error

-- What ParseReply returns: -1, 1, an overrun, and 0 with *size_reply, *is_pong and *out.
pub data Reply : Type 0 where
  reply_error : Reply
  reply_rest : Reply
  reply_overrun : Reply
  reply_ok : (size : ℕ) → (is_pong : Bool) → (out : List ℕ) → Reply

abbrev pub minus_one : List ℕ
minus_one = 45 ∷ 49 ∷ []

-- The case '$' of ParseReply.
abbrev pub string_reply : Single → Reply
string_reply (single_ok n out) = reply_ok n false (49 ∷ sep ∷ out)
string_reply (single_empty n) = reply_ok n false (48 ∷ [])
string_reply single_rest = reply_rest
string_reply single_error = reply_error
string_reply single_overrun = reply_overrun

-- One string of an array put into *out, and the rest of the loop from there.
unfoldable pub add_single : Single → ℕ → List ℕ → (ℕ → List ℕ → Reply) → Reply
add_single (single_ok n one) size out rest = rest (size + n) (out ++ (sep ∷ one))
add_single (single_empty n) size out rest = rest (size + n) (out ++ (sep ∷ minus_one))
add_single single_rest size out rest = reply_rest
add_single single_error size out rest = reply_error
add_single single_overrun size out rest = reply_overrun

-- The loop of the case '*': the strings that are left, how much of the reply is read, *out.
unfoldable pub array_loop : ℕ → List ℕ → ℕ → List ℕ → Reply
array_loop zero reply size out = reply_ok size false out
array_loop (suc left) reply size out =
    add_single (parse_single_str (drop size reply) 0) size out (array_loop left reply)

-- The case '*' of ParseReply, at the number of strings read.
unfoldable pub array_reply : List ℕ → ℕ → ℤ → Reply
array_reply reply at (pos zero) = reply_error
array_reply reply at (pos (suc n)) =
    array_loop (suc n) reply (at + 2) (take (at - 1) (drop 1 reply))
array_reply reply at (negsuc zero) = reply_ok (at + 2) false (48 ∷ [])
array_reply reply at (negsuc (suc n)) = reply_error

abbrev pub is_pong_line : ℕ → List ℕ → Bool
is_pong_line at xs = (at == 5) && starts_with (80 ∷ 79 ∷ 78 ∷ 71 ∷ []) xs

-- ParseReply at the offset of its first "\r\n": the first byte and those behind it.
unfoldable pub dispatch : ℕ → List ℕ → Option ℕ → Reply
dispatch x xs none = reply_error
dispatch x xs (some at) =
    if x == 45
    then reply_ok (at + 2) false minus_one
    else if x == 43
    then reply_ok (at + 2) (is_pong_line at xs) (48 ∷ [])
    else if x == 58
    then reply_ok (at + 2) false (49 ∷ sep ∷ take (at - 1) xs)
    else if x == 36
    then string_reply (parse_single_str (x ∷ xs) 0)
    else if x == 42
    then array_reply (x ∷ xs) at (strtoll xs).0
    else reply_error

unfoldable pub parse_reply : List ℕ → Reply
parse_reply [] = reply_error
parse_reply (x ∷ xs) = dispatch x xs (find_crlf 0 (x ∷ xs))
