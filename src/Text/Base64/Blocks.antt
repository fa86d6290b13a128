-- ===== src/Text/Base64/Blocks.antt =====
-- Base64Decode on the characters of one block and at the end of its text.
use libnbf.Prelude.{
  ℕ, ◌-◌, ◌≤◌, ◌<◌, ◌≡◌, refl, ap, ◌∙◌, true, false, List, [], ◌∷◌, ◌++◌, some, ltb, ◌==◌, arith,
  Bool-cases, inl, inr, length, length-append,
}
use libnbf.Text.Base64.{encode_block, decode_block, is_blank, decode_flush, decode_loop}
use libnbf.Text.Base64.Digits.{
  IsPlain, digit-IsPlain, decode_block-one, decode_block-two, decode_block-three,
}

-- Characters that wait: fewer than four, so that a further one is kept.
decode-keep :
    (c : ℕ) (s buf out : List ℕ) (d : ℕ)
    → IsPlain c
    → length buf < 3
    → decode_loop (c ∷ s) buf d out ≡ decode_loop s (buf ++ (c ∷ [])) d out
unfolding decode_loop decode_flush
decode-keep c s buf out d p h =
    let few : (length (buf ++ (c ∷ [])) == 4) ≡ false =
      ground (arith, length-append buf (c ∷ [])) in
    rw (p.0, p.1, decode_loop) (rw (few, p.1) refl)

decode-fourth :
    (c : ℕ) (s buf out : List ℕ) (d : ℕ)
    → IsPlain c
    → length buf ≡ 3
    → 3 ≤ d
    → decode_loop (c ∷ s) buf d out
      ≡ decode_loop s [] (d - 3) (out ++ decode_block (buf ++ (c ∷ [])))
unfolding decode_loop decode_flush
decode-fourth c s buf out d p h room =
    let four : length (buf ++ (c ∷ [])) ≡ 4 = omega (arith, length-append buf (c ∷ [])) in
    let wide : ltb d 3 ≡ false = ground arith in
    rw (p.0, p.1, decode_loop) (rw (four, wide, p.1) refl)

pub decode-blank :
    (c : ℕ) (s out : List ℕ) (d : ℕ)
    → is_blank c ≡ true
    → (c == b'=') ≡ false
    → decode_loop (c ∷ s) [] d out ≡ decode_loop s [] d out
unfolding decode_loop decode_flush
decode-blank c s out d p q = rw (p, q, decode_loop) (rw q refl)

flush-stop :
    (buf out : List ℕ) (d : ℕ)
    → 2 ≤ length buf
    → length buf ≤ d
    → decode_flush true buf d out ≡ some ([], d - (length buf - 1), out ++ decode_block buf)
unfolding decode_flush
flush-stop buf out d two room =
    let more : ltb 1 (length buf) ≡ true = ground arith in
    let wide : ltb d (length buf - 1) ≡ false = ground arith in
    elim (Bool-cases (length buf == 4)) [
      | inl four ↦ rw (four, wide) refl
      | inr other ↦ rw (other, more, wide) refl
    ]

decode-stop :
    (s buf out : List ℕ) (d : ℕ)
    → 2 ≤ length buf
    → length buf ≤ d
    → decode_loop (b'=' ∷ s) buf d out ≡ some (out ++ decode_block buf)
unfolding decode_loop
decode-stop s buf out d two room = rw (flush-stop buf out d two room, decode_loop) refl

decode-two :
    (x y : ℕ) (s out : List ℕ) (d : ℕ)
    → IsPlain x
    → IsPlain y
    → decode_loop (x ∷ y ∷ s) [] d out ≡ decode_loop s (x ∷ y ∷ []) d out
decode-two x y s out d p q =
    decode-keep x (y ∷ s) [] out d p (omega arith) ∙ decode-keep y s (x ∷ []) out d q (omega arith)

pub decode-one-end :
    (a : ℕ) (out : List ℕ) (d : ℕ)
    → a < 256
    → 2 ≤ d
    → decode_loop (encode_block (a ∷ []) ++ (b'=' ∷ b'=' ∷ [])) [] d out ≡ some (out ++ (a ∷ []))
unfolding encode_block
decode-one-end a out d h room =
    decode-two _ _ (b'=' ∷ b'=' ∷ []) out d (digit-IsPlain _ (omega arith))
      (digit-IsPlain _ (omega arith))
    ∙ decode-stop (b'=' ∷ []) _ out d (omega arith) room
    ∙ ap (λ t. some (out ++ t)) (decode_block-one a h)

pub decode-two-end :
    (a b : ℕ) (out : List ℕ) (d : ℕ)
    → a < 256
    → b < 256
    → 3 ≤ d
    → decode_loop (encode_block (a ∷ b ∷ []) ++ (b'=' ∷ [])) [] d out ≡ some (out ++ (a ∷ b ∷ []))
unfolding encode_block
decode-two-end a b out d h k room =
    decode-two _ _ _ out d (digit-IsPlain _ (omega arith)) (digit-IsPlain _ (omega arith))
    ∙ decode-keep _ (b'=' ∷ []) _ out d (digit-IsPlain _ (omega arith)) (omega arith)
    ∙ decode-stop [] _ out d (omega arith) room
    ∙ ap (λ t. some (out ++ t)) (decode_block-two a b h k)

pub decode-three :
    (a b c : ℕ) (s out : List ℕ) (d : ℕ)
    → a < 256
    → b < 256
    → c < 256
    → 3 ≤ d
    → decode_loop (encode_block (a ∷ b ∷ c ∷ []) ++ s) [] d out
      ≡ decode_loop s [] (d - 3) (out ++ (a ∷ b ∷ c ∷ []))
unfolding encode_block
decode-three a b c s out d h k l room =
    decode-two _ _ _ out d (digit-IsPlain _ (omega arith)) (digit-IsPlain _ (omega arith))
    ∙ decode-keep _ _ _ out d (digit-IsPlain _ (omega arith)) (omega arith)
    ∙ decode-fourth _ s _ out d (digit-IsPlain _ (omega arith)) (omega arith) room
    ∙ ap (λ t. decode_loop s [] (d - 3) (out ++ t)) (decode_block-three a b c h k l)
