-- ===== src/Text/Base64/RoundTrip.antt =====
-- Base64Decode undoes Base64Encode, with and without line breaks.
use libnbf.Prelude.{
  ℕ, ◌+◌, ◌-◌, ◌*◌, ◌/◌, ◌%◌, ◌^◌, ◌≤◌, ◌<◌, ◌≡◌, refl, ap, sym, ◌∙◌, Bool, true, false, List, [],
  ◌∷◌, ◌++◌, append-nil, append_assoc, Option, none, some, leb, ltb, if◌then◌else◌, arith,
  Bool-cases, inl, inr, length, take, length-append,
}
use libnbf.Prelude.Slices.{take_all}
use libnbf.Text.{AllBytes}
use libnbf.Text.Base64.{
  encode_block, flush, encode_loop, as_int, base64_encode, decode_loop, base64_decode,
}
use libnbf.Text.Base64.Blocks.{decode-blank, decode-one-end, decode-two-end, decode-three}

-- The text that the encoder writes behind the `n` characters of the line that it has begun.
unfoldable pub rest_text : ℕ → ℕ → List ℕ → List ℕ
rest_text w n [] = []
rest_text w n (a ∷ []) = encode_block (a ∷ []) ++ (b'=' ∷ b'=' ∷ [])
rest_text w n (a ∷ b ∷ []) = encode_block (a ∷ b ∷ []) ++ (b'=' ∷ [])
rest_text w n (a ∷ b ∷ c ∷ s) =
    let next = rest_text w 0 s in
    let kept = rest_text w (n + 4) s in
    encode_block (a ∷ b ∷ c ∷ [])
    ++ (if leb w (n + 4) then (if ltb 0 w then 10 ∷ next else next) else kept)

flush_lem : (buf out e : List ℕ) (d : ℕ) → flush buf d out ≡ some e → e ≡ out ++ buf
unfolding flush
flush_lem [] out e d h = ground (arith, append-nil out)
flush_lem (x ∷ buf) out e d h = ground arith

else_of :
    (t : Bool) (r : Option (List ℕ)) (e : List ℕ) → (if t then none else r) ≡ some e → r ≡ some e
else_of true r e h = cc
else_of false r e h = h

block_size :
    (a b c : ℕ) (buf : List ℕ) → length (buf ++ encode_block (a ∷ b ∷ c ∷ [])) ≡ length buf + 4
unfolding encode_block
block_size a b c buf = length-append buf (encode_block (a ∷ b ∷ c ∷ []))

-- A block that has been put into the line, which is then ended or not.
block_text :
    (w d : ℕ) (block s buf out e : List ℕ) (written kept : List ℕ → Option (List ℕ))
    (next more : List ℕ)
    → length (buf ++ block) ≡ length buf + 4
    → (let line = if ltb 0 w then (buf ++ block) ++ (10 ∷ []) else buf ++ block in
        if leb w (length (buf ++ block))
        then (if ltb d (length line) then none else written line)
        else kept (buf ++ block))
      ≡ some e
    → ((line : List ℕ) → written line ≡ some e → e ≡ (out ++ line) ++ next)
    → ((line : List ℕ)
        → length line ≡ length buf + 4
        → kept line ≡ some e
        → e ≡ out ++ (line ++ more))
    → e
      ≡ out
        ++ (buf
            ++ (block
                ++ (if leb w (length buf + 4)
                    then (if ltb 0 w then 10 ∷ next else next)
                    else more)))
block_text w d block s buf out e written kept next more size h f g =
    elim (Bool-cases (leb w (length buf + 4))) [
      | inl full ↦ elim (Bool-cases (ltb 0 w)) [
        | inl broken ↦
            rw (full, broken)
              (f ((buf ++ block) ++ (10 ∷ [])) (else_of _ _ e (rw (size, full, broken) at h))
                ∙ simp append_assoc)
        | inr whole ↦
            rw (full, whole)
              (f (buf ++ block) (else_of _ _ e (rw (size, full, whole) at h)) ∙ simp append_assoc)
      ]
      | inr begun ↦ rw begun (
          g (buf ++ block) size (rw (size, begun) at h)
          ∙ ap (λ t. out ++ t) (append_assoc buf block more))
    ]

-- What the encoder returns is what it had written, the line begun, and that text.
encode_loop-text :
    (w : ℕ) (src buf out e : List ℕ) (d : ℕ)
    → encode_loop w src buf d out ≡ some e
    → e ≡ out ++ (buf ++ rest_text w (length buf) src)
unfolding encode_loop rest_text
encode_loop-text w [] buf out e d h =
    flush_lem buf out e d h ∙ ap (λ t. out ++ t) (sym (append-nil buf))
encode_loop-text w (a ∷ []) buf out e d h = flush_lem _ out e d h
encode_loop-text w (a ∷ b ∷ []) buf out e d h = flush_lem _ out e d h
encode_loop-text w (a ∷ b ∷ c ∷ s) buf out e d h =
    block_text w d (encode_block (a ∷ b ∷ c ∷ [])) s buf out e
      (λ line. encode_loop w s [] (d - length line) (out ++ line))
      (λ line. encode_loop w s line d out) (rest_text w 0 s) (rest_text w (length buf + 4) s)
      (block_size a b c buf) h
      (λ line k. encode_loop-text w s [] (out ++ line) e (d - length line) k)
      (λ line size k. rw size at (encode_loop-text w s line out e d k))

-- The end of a line, where the decoder skips the line break.
line_end :
    (w n : ℕ) (next more : List ℕ) (d : ℕ) (out : List ℕ) (r : Option (List ℕ))
    → decode_loop next [] d out ≡ r
    → decode_loop more [] d out ≡ r
    → decode_loop (if leb w (n + 4) then (if ltb 0 w then 10 ∷ next else next) else more) [] d out
      ≡ r
line_end w n next more d out r p q = elim (Bool-cases (leb w (n + 4))) [
  | inl full ↦ elim (Bool-cases (ltb 0 w)) [
    | inl broken ↦ rw (full, broken) (decode-blank 10 next out d refl refl ∙ p)
    | inr whole ↦ rw (full, whole) p
  ]
  | inr begun ↦ rw begun q
]

-- Decoding that text gives the bytes.
decode-text :
    (w n : ℕ) (src out : List ℕ) (d : ℕ)
    → AllBytes src
    → length src + 2 ≤ d
    → decode_loop (rest_text w n src) [] d out ≡ some (out ++ src)
unfolding rest_text decode_loop
decode-text w n [] out d b h = ap some (sym (append-nil out))
decode-text w n (a ∷ []) out d b h = decode-one-end a out d b.0 (omega arith)
decode-text w n (a ∷ a' ∷ []) out d b h = decode-two-end a a' out d b.0 b.1.0 (omega arith)
decode-text w n (a ∷ a' ∷ c ∷ s) out d b h =
    decode-three a a' c _ out d b.0 b.1.0 b.1.1.0 (omega arith)
    ∙ line_end w n (rest_text w 0 s) (rest_text w (n + 4) s) (d - 3) (out ++ (a ∷ a' ∷ c ∷ [])) _
        (decode-text w 0 s (out ++ (a ∷ a' ∷ c ∷ [])) (d - 3) b.1.1.1 (omega arith))
        (decode-text w (n + 4) s (out ++ (a ∷ a' ∷ c ∷ [])) (d - 3) b.1.1.1 (omega arith))
    ∙ ap some (append_assoc out (a ∷ a' ∷ c ∷ []) s)

-- A line that ends or goes on, by what it may be followed with.
line_size :
    (w n b : ℕ) (next more : List ℕ)
    → b ≤ 3 * length next
    → b ≤ 3 * length more
    → b ≤ 3 * length (if leb w (n + 4) then (if ltb 0 w then 10 ∷ next else next) else more)
line_size w n b next more p q = elim (Bool-cases (leb w (n + 4))) [
  | inl full ↦ elim (Bool-cases (ltb 0 w)) [
    | inl broken ↦ rw (full, broken) (omega arith)
    | inr whole ↦ rw (full, whole) p
  ]
  | inr begun ↦ rw begun q
]

rest_text_size : (w n : ℕ) (src : List ℕ) → 4 * length src ≤ 3 * length (rest_text w n src)
unfolding rest_text encode_block
rest_text_size w n [] = omega arith
rest_text_size w n (a ∷ []) = omega arith
rest_text_size w n (a ∷ b ∷ []) = omega arith
rest_text_size w n (a ∷ b ∷ c ∷ s) =
    let tail =
      line_size w n (4 * length s) (rest_text w 0 s) (rest_text w (n + 4) s) (rest_text_size w 0 s)
        (rest_text_size w (n + 4) s) in
    omega (arith, tail)

as_int-small : (n : ℕ) → n < 2 ^ 31 → as_int n ≡ n
unfolding as_int
as_int-small n h = ground arith

take-as_int : (xs : List ℕ) → length xs < 2 ^ 31 → take (as_int (length xs)) xs ≡ xs
take-as_int xs h = rw (as_int-small (length xs) h) (take_all (length xs) xs (omega arith))

decoded :
    (w : ℕ) (src e : List ℕ)
    → e ≡ rest_text w 0 src
    → AllBytes src
    → decode_loop e [] (length e + 1) [] ≡ some src
unfolding decode_loop rest_text
decoded w [] e t b = rw t refl
decoded w (a ∷ s) e t b =
    rw t (decode-text w 0 (a ∷ s) [] _ b (omega (arith, rest_text_size w 0 (a ∷ s))))

-- Base64Decode of what Base64Encode gives for a string of fewer than 2 ^ 31 bytes, whatever `wraps`
-- is, gives the string back, where the text that it is given and a zero behind it are fewer than
-- 2 ^ 31 bytes.
pub base64_decode-base64_encode :
    (src e : List ℕ) (wraps : ℕ)
    → AllBytes src
    → length src < 2 ^ 31
    → length e + 1 < 2 ^ 31
    → base64_encode src wraps ≡ some e
    → base64_decode e ≡ some src
unfolding base64_encode base64_decode
base64_decode-base64_encode src e wraps b few short h =
    let w = if ltb 508 wraps then 508 else wraps in
    let text = encode_loop-text w src [] [] e _ (rw (take-as_int src few) at h) in
    rw (take-as_int e (omega arith), as_int-small (length e + 1) short) (decoded w src e text b)

-- What fits is written: without line breaks the encoder never fails.
pub encode_loop_fits :
    (src out : List ℕ) (d : ℕ)
    → 4 * ((length src + 2) / 3) ≤ d
    → encode_loop 0 src [] d out ≡ some (out ++ rest_text 0 0 src)
unfolding encode_loop flush rest_text encode_block
encode_loop_fits [] out d h = ap some (sym (append-nil out))
encode_loop_fits (a ∷ []) out d h = ground arith
encode_loop_fits (a ∷ b ∷ []) out d h = ground arith
encode_loop_fits (a ∷ b ∷ c ∷ s) out d h =
    let block = encode_block (a ∷ b ∷ c ∷ []) in
    let room : ltb d 4 ≡ false = ground arith in
    rw room (
      encode_loop_fits s (out ++ block) (d - 4) (omega arith)
      ∙ ap some (append_assoc out block (rest_text 0 0 s)))

pub base64_encode_fits :
    (src : List ℕ) → length src < 2 ^ 29 → base64_encode src 0 ≡ some (rest_text 0 0 src)
unfolding base64_encode
base64_encode_fits src few =
    let room = (4 * length src + 2) % 2 ^ 64 / 3 + 3 + 0 in
    rw (take-as_int src (omega arith), as_int-small room (omega arith))
      (encode_loop_fits src [] room (omega arith))

-- That text is at most four characters for three bytes, the last ones padded.
rest_text_bound : (src : List ℕ) → 3 * length (rest_text 0 0 src) ≤ 4 * length src + 8
unfolding rest_text encode_block
rest_text_bound [] = omega arith
rest_text_bound (a ∷ []) = omega arith
rest_text_bound (a ∷ b ∷ []) = omega arith
rest_text_bound (a ∷ b ∷ c ∷ s) = omega (arith, rest_text_bound s)

-- Base64Encode without line breaks has room for its result, for a string of fewer than 2 ^ 29 bytes,
-- and Base64Decode gives the string back.
pub base64_encode_unwrapped :
    (src : List ℕ)
    → AllBytes src
    → length src < 2 ^ 29
    → (e : List ℕ) × (base64_encode src 0 ≡ some e) × (base64_decode e ≡ some src)
base64_encode_unwrapped src b few =
    let e = base64_encode_fits src few in
    let size = rest_text_bound src in
    (
      rest_text 0 0 src,
      e,
      base64_decode-base64_encode src (rest_text 0 0 src) 0 b (omega arith) (omega (arith, size)) e,
    )
