-- ===== src/Http/Framing/Declared.antt =====
-- The lines of a message that is sent: each is a line, and they declare the length of the body.
use libnbf.Prelude.{
  ℕ, ◌<◌, ◌^◌, ◌≡◌, ◌≢◌, refl, ◌∙◌, ap, List, [], ◌∷◌, ◌++◌, some, true, false, arith, length,
  Bool-cases, Option-by, inl, inr, map, not, ◌&&◌, ltb, append-ne,
}
use libnbf.Prelude.TextMap.{find, AllEntries, find-AllEntries, same_text}
use libnbf.Prelude.Bytes.{codes}
use libnbf.Prelude.Clib.{print_64}
use libnbf.Text.{to_low, low, cut_at}
use libnbf.Text.Split.{Lacks, cut_at-append, Lacks-append, lacks, lacks-Lacks}
use libnbf.Http.{Dict, HttpMessage, has_header}
use libnbf.Http.Encode.{
  header_line, convert_status_code, http_version, is_response, status_in, status_texts,
}
use libnbf.Http.Framing.{PlainHeader, IsSendable, declared_length}
use libnbf.Http.Framing.Numbers.{digits-print_64, print_64-Lacks, print_64-spaces_off}
use libnbf.Http.Framing.Lines.{AreLines, AreLines-append, Lacks-low}
use libnbf.Http.Framing.Sent.{first_line, length_lines, connection_lines, header_lines}

AreStatuses : List (ℕ × List ℕ) → Type 0
AreStatuses [] = Unit
AreStatuses (e ∷ more) = (lacks 13 e.1 ≡ true) × AreStatuses more

status_in-Lacks :
    (status : ℕ) (table : List (ℕ × List ℕ)) → AreStatuses table → Lacks 13 (status_in status table)
unfolding status_in AreStatuses
status_in-Lacks status [] h = print_64-Lacks status
status_in-Lacks status (e ∷ more) h =
    ground (arith, lacks-Lacks 13 e.1 h.0, status_in-Lacks status more h.1)

convert_status_code-Lacks : (status : ℕ) → Lacks 13 (convert_status_code status)
unfolding convert_status_code AreStatuses
convert_status_code-Lacks status = status_in-Lacks status status_texts (
  refl,
  (
    refl,
    (
      refl,
      (
        refl,
        (
          refl,
          (
            refl,
            (
              refl,
              (refl, (refl, (refl, (refl, (refl, (refl, (refl, (refl, (refl, (refl, tt)))))))))),
            ),
          ),
        ),
      ),
    ),
  ),
)

http_version-Lacks :
    (minor : ℕ) (version : List ℕ) → http_version minor ≡ some version → Lacks 13 version
unfolding http_version
http_version-Lacks minor version e = lacks-Lacks 13 version (ground arith)

first_line-Lacks :
    (version : List ℕ) (msg : HttpMessage)
    → IsSendable msg
    → Lacks 13 version
    → Lacks 13 (first_line version msg)
first_line-Lacks version msg h v = elim (Bool-cases (is_response msg.event.direction)) [
  | inl e ↦ rw e (
      Lacks-append 13 version _ v (
        Lacks-append 13 (codes " ") _ (omega arith, tt)
          (convert_status_code-Lacks msg.status_code)))
  | inr e ↦ rw e (
      Lacks-append 13 msg.http_info.method _ h.method_plain (
        Lacks-append 13 (codes " ") _ (omega arith, tt)
          (Lacks-append 13 msg.http_info.url _ h.url_plain
            (Lacks-append 13 (codes " ") _ (omega arith, tt) v))))
]

first_line-ne : (version : List ℕ) (msg : HttpMessage) → first_line version msg ≢ []
first_line-ne version msg = elim (Bool-cases (is_response msg.event.direction)) [
  | inl e ↦ rw e (append-ne version _ (λ f. cc))
  | inr e ↦ rw e (append-ne msg.http_info.method _ (λ f. cc))
]

map-AreLines :
    (headers : Dict) → AllEntries PlainHeader headers → AreLines (map header_line headers)
map-AreLines [] h = tt
map-AreLines (e ∷ headers) h = (
  (
    append-ne (to_low e.0) _ (λ f. cc),
    Lacks-append 13 (to_low e.0) _ (Lacks-low 13 e.0 (omega arith) h.0.2)
        (omega arith, (omega arith, h.0.3)),
  ),
  map-AreLines headers h.1,
)

length_lines-AreLines : (msg : HttpMessage) → AreLines (length_lines msg)
length_lines-AreLines msg =
    elim (Bool-cases
      (not (has_header (codes "Content-Length") msg) && ltb 0 (length msg.http_info.body))) [
        | inl e ↦ rw e (
          (
            (λ g. cc),
            Lacks-append 13 (codes "Content-Length: ") _
                (lacks-Lacks 13 (codes "Content-Length: ") refl)
                (print_64-Lacks (length msg.http_info.body)),
          ),
          tt,
        )
        | inr e ↦ rw e tt
      ]

connection_lines-AreLines : (msg : HttpMessage) → AreLines (connection_lines msg)
connection_lines-AreLines msg = elim (Bool-cases (has_header (codes "Connection") msg)) [
  | inl e ↦ rw e tt
  | inr e ↦ elim (Bool-cases (msg.keep_alive)) [
    | inl f ↦ rw (e, f) (((λ g. cc), lacks-Lacks 13 (codes "Connection: keep-alive") refl), tt)
    | inr f ↦ rw (e, f) (((λ g. cc), lacks-Lacks 13 (codes "Connection: close") refl), tt)
  ]
]

pub all_lines-AreLines :
    (version : List ℕ) (msg : HttpMessage)
    → IsSendable msg
    → http_version msg.http_minor ≡ some version
    → AreLines (first_line version msg ∷ header_lines msg)
all_lines-AreLines version msg h e = (
  (
    first_line-ne version msg,
    first_line-Lacks version msg h (http_version-Lacks msg.http_minor version e),
  ),
  AreLines-append (map header_line msg.http_info.headers) _
      (map-AreLines msg.http_info.headers h.headers_plain)
      (AreLines-append (length_lines msg) _ (length_lines-AreLines msg)
        (connection_lines-AreLines msg)),
)

low-low : (c : ℕ) → low (low c) ≡ low c
low-low c = ground arith

to_low-twice : (s : List ℕ) → to_low (to_low s) ≡ to_low s
unfolding to_low
to_low-twice [] = refl
to_low-twice (c ∷ s) = rw (to_low-twice s) (ap (λ d. d ∷ to_low s) (low-low c))

declared_length-header :
    (e : List ℕ × List ℕ) (more : List (List ℕ))
    → PlainHeader e.0 e.1
    → declared_length (header_line e ∷ more) ≡ declared_length more
unfolding declared_length
declared_length-header e more h =
    rw
      (
        cut_at-append b':' (to_low e.0) (b' ' ∷ e.1) (Lacks-low b':' e.0 (omega arith) h.1),
        to_low-twice e.0,
        h.0,
      )
      refl

declared_length-headers :
    (headers : Dict) (more : List (List ℕ))
    → AllEntries PlainHeader headers
    → declared_length (map header_line headers ++ more) ≡ declared_length more
declared_length-headers [] more h = refl
declared_length-headers (e ∷ headers) more h =
    declared_length-header e (map header_line headers ++ more) h.0
    ∙ declared_length-headers headers more h.1

no_length-header :
    (msg : HttpMessage) → IsSendable msg → has_header (codes "Content-Length") msg ≡ false
unfolding has_header same_text to_low
no_length-header msg h =
    Option-by (λ b. b ≡ false) (find (codes "Content-Length") msg.http_info.headers) _ _ (λ _. refl)
      (λ v e.
        let p =
          find-AllEntries PlainHeader (codes "Content-Length") v msg.http_info.headers
            h.headers_plain e in
        p.0)

connection_lines-declared : (msg : HttpMessage) → declared_length (connection_lines msg) ≡ 0
unfolding declared_length same_text to_low cut_at
connection_lines-declared msg = elim (Bool-cases (has_header (codes "Connection") msg)) [
  | inl e ↦ rw e refl
  | inr e ↦ elim (Bool-cases (msg.keep_alive)) [ inl f ↦ rw (e, f) refl | inr f ↦ rw (e, f) refl ]
]

length_line-declared :
    (n : ℕ) (more : List (List ℕ))
    → n < 2 ^ 64
    → declared_length ((codes "Content-Length: " ++ print_64 n) ∷ more) ≡ n
unfolding declared_length same_text to_low cut_at
length_line-declared n more h = rw (print_64-spaces_off n) (digits-print_64 n h)

pub header_lines-declared :
    (msg : HttpMessage)
    → IsSendable msg
    → declared_length (header_lines msg) ≡ length msg.http_info.body
header_lines-declared msg h =
    declared_length-headers msg.http_info.headers _ h.headers_plain
    ∙ rw (no_length-header msg h) (elim (Bool-cases (ltb 0 (length msg.http_info.body))) [
      | inl e ↦
          rw e
            (length_line-declared (length msg.http_info.body) (connection_lines msg) h.body_bounded)
      | inr e ↦ rw e (connection_lines-declared msg ∙ ground arith)
    ])
