-- ===== src/Http/Framing.antt =====
-- How a receiver takes a message off a text: the lines up to the empty one, and as many bytes behind it
-- as the line of the content length says, in letters of either case, or none where there is no such
-- line.
pub mod Numbers
pub mod Lines
pub mod Sent
pub mod Declared
pub mod Written
use libnbf.Prelude.{
  ℕ, zero, suc, ◌+◌, Bool, true, false, ◌&&◌, List, [], ◌∷◌, ◌++◌, Option, none, some, ◌==◌, ltb,
  if◌then◌else◌, take, drop, ◌≡◌, ◌<◌, ◌^◌, length,
}
use libnbf.Prelude.TextMap.{same_text, AllEntries}
use libnbf.Prelude.Bytes.{codes}
use libnbf.Prelude.Clib.{digits}
use libnbf.Text.{to_low, cut_at}
use libnbf.Text.Split.{Lacks}
use libnbf.Http.{Dict, HttpMessage}
use libnbf.Http.Encode.{http_version}

-- The line up to "\r\n", and the text behind it, if there is one.
unfoldable pub read_line : List ℕ → List ℕ × Option (List ℕ)
read_line [] = ([], none)
read_line (c ∷ []) = (c ∷ [], none)
read_line (c ∷ d ∷ s) =
    let rest = read_line (d ∷ s) in
    if (c == 13) && (d == 10) then ([], some s) else (c ∷ rest.0, rest.1)

-- The lines up to the empty one, as far as the fuel goes, and the text behind it.
unfoldable pub read_lines : ℕ → List ℕ → Option (List (List ℕ) × List ℕ)
read_lines zero text = none
read_lines (suc fuel) text =
    let line : List ℕ × Option (List ℕ) = read_line text in
    elim (line.1) [
      | none ↦ none
      | some rest ↦ elim (line.0) [
        | [] ↦ some ([], rest)
        | c ∷ s ↦ elim (read_lines fuel rest) [
          | none ↦ none
          | some more ↦ some ((c ∷ s) ∷ more.0, more.1)
        ]
      ]
    ]

abbrev pub spaces_off : List ℕ → List ℕ
spaces_off [] = []
spaces_off (c ∷ s) = let rest = spaces_off s in if c == 32 then rest else c ∷ s

abbrev pub value_text : Option (List ℕ) → List ℕ
value_text none = []
value_text (some s) = spaces_off s

abbrev pub is_length_name : List ℕ → Bool
is_length_name name = same_text (to_low name) (codes "content-length")

-- The content length of header lines.
unfoldable pub declared_length : List (List ℕ) → ℕ
declared_length [] = 0
declared_length (line ∷ more) =
    let rest = declared_length more in
    let cut = cut_at b':' line in
    if is_length_name cut.0 then (digits 0 0 (value_text cut.1)).0 else rest

-- The first line, the others, the body, and the text behind the message.
unfoldable pub receive : ℕ → List ℕ → Option (List ℕ × List (List ℕ) × List ℕ × List ℕ)
receive fuel text = elim (read_lines fuel text) [
  | none ↦ none
  | some got ↦ elim (got.0) [
    | [] ↦ none
    | first ∷ headers ↦
        let n : ℕ = declared_length headers in some (first, headers, take n (got.1), drop n (got.1))
  ]
]

-- A header whose name has no colon, is no content length, and which stands on one line.
abbrev pub PlainHeader : List ℕ → List ℕ → Type 0
PlainHeader key value =
    (is_length_name key ≡ false) × Lacks b':' key × Lacks 13 key × Lacks 13 value

-- A message that Encode sends: of version 1.0 or 1.1, with no carriage return in its first line.
pub record IsSendable (msg : HttpMessage) : Type 0 where
  pub major : msg.http_major ≡ 1
  pub minor : msg.http_minor < 2
  pub method_plain : Lacks 13 msg.http_info.method
  pub url_plain : Lacks 13 msg.http_info.url
  pub headers_plain : AllEntries PlainHeader msg.http_info.headers
  pub body_bounded : length msg.http_info.body < 2 ^ 64
