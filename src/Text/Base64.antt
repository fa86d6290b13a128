-- ===== src/Text/Base64.antt =====
-- src/common/string_util.cpp: Base64Encode and Base64Decode. A result of -1, with which resize then
-- fails, is none.
pub mod Digits
pub mod Blocks
pub mod RoundTrip
use Prim.Native.Nat.{bit_or}
use libnbf.Prelude.{
  ℕ, zero, suc, ◌+◌, ◌-◌, ◌*◌, ◌/◌, ◌%◌, ◌^◌, Bool, true, false, ◌&&◌, ◌||◌, List, [], ◌∷◌, ◌++◌,
  Option, none, some, leb, ltb, ◌==◌, if◌then◌else◌, length, take, get_or, replicate,
}
use libnbf.Prelude.Bytes.{codes}

-- kEncodeTable
abbrev pub encode_table : List ℕ
encode_table = codes "ABCDEFGHIJKLMNOPQRSTUVWXYZabcdefghijklmnopqrstuvwxyz0123456789+/"

abbrev pub range_from : ℕ → ℕ → List ℕ
range_from start zero = []
range_from start (suc n) = start ∷ range_from (start + 1) n

-- kDecodeTable
abbrev pub decode_table : List ℕ
decode_table =
    replicate 43 0xff
    ++ (0x3e ∷ replicate 3 0xff)
    ++ (0x3f ∷ range_from 0x34 10)
    ++ replicate 7 0xff
    ++ range_from 0 26
    ++ replicate 6 0xff
    ++ range_from 0x1a 26
    ++ replicate 133 0xff

unfoldable pub digit : ℕ → ℕ
digit i = get_or encode_table i 0

unfoldable pub value : ℕ → ℕ
value c = get_or decode_table c 0

-- _base64_encode, of one to three bytes
unfoldable pub encode_block : List ℕ → List ℕ
encode_block [] = []
encode_block (a ∷ []) = digit (a / 4 % 64) ∷ digit (a * 16 % 64) ∷ []
encode_block (a ∷ b ∷ []) =
    digit (a / 4 % 64) ∷ digit ((a * 16 + b / 16) % 64) ∷ digit (b * 4 % 64) ∷ []
encode_block (a ∷ b ∷ c ∷ s) =
    digit (a / 4 % 64)
    ∷ digit ((a * 16 + b / 16) % 64)
    ∷ digit ((b * 4 + c / 64) % 64)
    ∷ digit (c % 64)
    ∷ []

-- What go_base64_encode writes at its end.
unfoldable pub flush : List ℕ → ℕ → List ℕ → Option (List ℕ)
flush buf dst_len out =
    if (0 == length buf)
    then some out
    else if ltb dst_len (length buf)
    then none
    else some (out ++ buf)

-- go_base64_encode for `wraps` of at most 508, with what it has in `buf` and what it has written.
unfoldable pub encode_loop : ℕ → List ℕ → List ℕ → ℕ → List ℕ → Option (List ℕ)
encode_loop wraps [] buf dst_len out = flush buf dst_len out
encode_loop wraps (a ∷ []) buf dst_len out =
    flush (buf ++ (encode_block (a ∷ []) ++ (b'=' ∷ b'=' ∷ []))) dst_len out
encode_loop wraps (a ∷ b ∷ []) buf dst_len out =
    flush (buf ++ (encode_block (a ∷ b ∷ []) ++ (b'=' ∷ []))) dst_len out
encode_loop wraps (a ∷ b ∷ c ∷ s) buf dst_len out =
    let more = buf ++ encode_block (a ∷ b ∷ c ∷ []) in
    let line = if ltb 0 wraps then more ++ (10 ∷ []) else more in
    let kept = encode_loop wraps s more dst_len out in
    let written = encode_loop wraps s [] (dst_len - length line) (out ++ line) in
    if leb wraps (length more) then (if ltb dst_len (length line) then none else written) else kept

-- A size_t that is given for an int. A negative int makes no round and leaves no room, as 0 does.
unfoldable pub as_int : ℕ → ℕ
as_int n = if ltb (n % 2 ^ 32) (2 ^ 31) then n % 2 ^ 32 else 0

-- Base64Encode for `wraps` that is not negative
unfoldable pub base64_encode : List ℕ → ℕ → Option (List ℕ)
base64_encode src wraps =
    let len = length src in
    let per = if ltb 64 wraps then 64 else wraps in
    let dst_len = (4 * len + 2) % 2 ^ 64 / 3 + 3 + (if ltb 0 wraps then len / per else 0) in
    encode_loop (if ltb 508 wraps then 508 else wraps) (take (as_int len) src) [] (as_int dst_len)
      []

-- _base64_decode, of two to four characters
unfoldable pub decode_block : List ℕ → List ℕ
decode_block [] = []
decode_block (a ∷ []) = []
decode_block (a ∷ b ∷ []) = bit_or (value a * 4 % 256) (value b / 16) ∷ []
decode_block (a ∷ b ∷ c ∷ []) =
    bit_or (value a * 4 % 256) (value b / 16) ∷ bit_or (value b % 16 * 16) (value c / 4) ∷ []
decode_block (a ∷ b ∷ c ∷ d ∷ s) =
    bit_or (value a * 4 % 256) (value b / 16)
    ∷ bit_or (value b % 16 * 16) (value c / 4)
    ∷ bit_or (value c % 4 * 64) (value d)
    ∷ []

-- The characters that go_base64_decode skips.
abbrev pub is_blank : ℕ → Bool
is_blank c = (c == 10) || (c == 13) || (c == 9) || (c == 32) || (c == 12) || (c == 8) || (c == 127)

-- The body of its loop behind the switch: the characters that wait, the room left, what is written.
unfoldable pub decode_flush : Bool → List ℕ → ℕ → List ℕ → Option (List ℕ × ℕ × List ℕ)
decode_flush stop buf dst_len out =
    if (length buf == 4) || (stop && ltb 1 (length buf))
    then (if ltb dst_len (length buf - 1)
        then none
        else some ([], dst_len - (length buf - 1), out ++ decode_block buf))
    else some (buf, dst_len, out)

unfoldable pub decode_loop : List ℕ → List ℕ → ℕ → List ℕ → Option (List ℕ)
decode_loop [] buf dst_len out = some out
decode_loop (c ∷ s) buf dst_len out =
    let stop = c == b'=' in
    let more = if is_blank c || stop then buf else buf ++ (c ∷ []) in
    elim (decode_flush stop more dst_len out) [
      | none ↦ none
      | some (b, d, o) ↦ if stop then some o else decode_loop s b d o
    ]

-- Base64Decode of a C string, which holds no zero, with its length or with 0 for it
unfoldable pub base64_decode : List ℕ → Option (List ℕ)
base64_decode str = decode_loop (take (as_int (length str)) str) [] (as_int (length str + 1)) []
