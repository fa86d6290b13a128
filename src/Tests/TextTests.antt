-- ===== src/Tests/TextTests.antt =====
-- src/common/string_util.cpp and string_util.h on concrete inputs.
use libnbf.Prelude.{ℕ, ◌≡◌, refl, true, false, List, [], ◌∷◌, ◌++◌, none, some, arith, replicate}
use libnbf.Prelude.Bytes.{codes}
use libnbf.Text.{
  AllBytes, binary_to_16_hex, url_encode, url_encode_ext, url_decode, split, split_from, cut_at,
  trim, ltrim, rtrim, to_hex, from_hex, url_escape, to_upper, to_low,
}
use libnbf.Text.Hex.{from_pairs, from_pairs-binary_to_16_hex}
use libnbf.Text.Url.{url_decode-url_encode}
use libnbf.Text.Split.{Splits, filled, split-Splits}
use libnbf.Text.Base64.{
  digit, as_int, encode_block, flush, encode_loop, base64_encode, base64_decode,
}
use libnbf.Text.Base64.RoundTrip.{base64_decode-base64_encode, base64_encode_unwrapped}
use libnbf.Text.SafeBase64.{
  values_of, safe_value, decoded, refused, bad_length, url_safe_encode, url_safe_decode,
  safe_base64_to_base64,
}
use libnbf.Text.SafeBase64.RoundTrip.{safe_base64_to_base64-url_safe_encode}

-- Bytes of which some are letters, some are reserved and one is above 127.
abbrev sample : List ℕ
sample = b'a' ∷ b' ' ∷ b'+' ∷ 251 ∷ b'~' ∷ []

sample-AllBytes : AllBytes sample
sample-AllBytes = (omega arith, (omega arith, (omega arith, (omega arith, (omega arith, tt)))))

url_sample : url_encode sample ≡ codes "a+%2B%FB~"
unfolding url_encode to_hex
url_sample = refl

-- A percent sign with one digit is read with the zero that ends the string, one without reads past it.
url_cut : url_decode (codes "%4") ≡ some (64 ∷ [])
unfolding url_decode url_escape from_hex
url_cut = refl

url_past : url_decode (codes "ab%") ≡ none
unfolding url_decode url_escape from_hex
url_past = refl

url_decode-url_encode_example :
    (url_decode (url_encode sample) ≡ some sample)
    × (url_decode (url_encode_ext sample) ≡ some sample)
url_decode-url_encode_example = url_decode-url_encode sample sample-AllBytes

hex_sample : from_pairs (binary_to_16_hex sample) ≡ sample
hex_sample = from_pairs-binary_to_16_hex sample sample-AllBytes

trim_run : trim (codes "  a b ") ≡ codes "a b"
unfolding trim ltrim rtrim
trim_run = refl

case_run : to_upper (to_low (codes "Ab-9")) ≡ codes "AB-9"
unfolding to_upper to_low
case_run = refl

split_run : split [] (codes ",a,,b") b',' false ≡ [] ∷ codes "a" ∷ [] ∷ codes "b" ∷ []
unfolding split split_from cut_at
split_run = refl

split-Splits_example :
    Splits b',' (codes ",a,,b") (split [] (codes ",a,,b") b',' false)
    × (split [] (codes ",a,,b") b',' true ≡ filled (split [] (codes ",a,,b") b',' false))
split-Splits_example = split-Splits [] (codes ",a,,b") b',' (λ e. cc)

base64_sample : base64_encode sample 0 ≡ some (codes "YSAr+34=")
unfolding base64_encode as_int encode_loop encode_block flush digit
base64_sample = refl

-- Lines of four characters: the room that Base64Encode reckons is too small.
base64_short : base64_encode (replicate 48 0) 4 ≡ none
unfolding base64_encode as_int encode_loop encode_block flush digit
base64_short = refl

base64_decode-base64_encode_example : base64_decode (codes "YSAr+34=") ≡ some sample
unfolding base64_encode as_int encode_loop encode_block flush digit
base64_decode-base64_encode_example =
    base64_decode-base64_encode sample (codes "YSAr+34=") 0 sample-AllBytes (omega arith)
      (omega arith) refl

base64_unwrapped_run :
    (e : List ℕ) × (base64_encode sample 0 ≡ some e) × (base64_decode e ≡ some sample)
base64_unwrapped_run = base64_encode_unwrapped sample sample-AllBytes (omega arith)

-- A byte behind the table's rows is taken for a zero; text of one character has a code of its own.
safe_high : url_safe_decode (codes "AA" ++ (255 ∷ codes "A")) ≡ decoded (0 ∷ 0 ∷ 0 ∷ [])
unfolding url_safe_decode values_of safe_value
safe_high = refl

safe_refuses : url_safe_decode (codes "AB") ≡ refused
unfolding url_safe_decode values_of safe_value
safe_refuses = refl

safe_odd : url_safe_decode (codes "AAAAA") ≡ bad_length
unfolding url_safe_decode values_of safe_value
safe_odd = refl

safe_base64_to_base64-url_safe_encode_run :
    base64_encode sample 0 ≡ some (safe_base64_to_base64 (url_safe_encode sample))
safe_base64_to_base64-url_safe_encode_run =
    safe_base64_to_base64-url_safe_encode sample sample-AllBytes (omega arith)
