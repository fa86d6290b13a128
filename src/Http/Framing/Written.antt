-- ===== src/Http/Framing/Written.antt =====
-- A message that Encode writes into a buffer is received as it was sent.
use libnbf.Prelude.{
  ℕ, ◌+◌, ◌<◌, ◌≤◌, ◌≡◌, refl, sym, ◌∙◌, ap, List, [], ◌∷◌, ◌++◌, Option, some, Bool, true, arith,
  append_assoc, append-nil, length, take, drop, length-append,
}
use libnbf.Prelude.Slices.{take-append_self, drop-append_self}
use libnbf.Buffer
use libnbf.Buffer.{Buffer, contents, write, store}
use libnbf.Buffer.Write.{write-fits, store_lem}
use libnbf.Http.{HttpMessage}
use libnbf.Http.Encode.{pieces, http_version, write_all, wirte_to_buf, encode, http_event, crlf}
use libnbf.Http.Framing.{IsSendable, receive, read_lines, declared_length}
use libnbf.Http.Framing.Lines.{concat, line_text, read_lines-line_text}
use libnbf.Http.Framing.Sent.{first_line, header_lines, concat-pieces}
use libnbf.Http.Framing.Declared.{all_lines-AreLines, header_lines-declared}

receive-read :
    (fuel n : ℕ) (text first rest : List ℕ) (headers : List (List ℕ))
    → read_lines fuel text ≡ some (first ∷ headers, rest)
    → declared_length headers ≡ n
    → receive fuel text ≡ some (first, headers, take n rest, drop n rest)
unfolding receive
receive-read fuel n text first rest headers e d = ground arith

-- The text of a message, and whatever follows it.
receive-pieces :
    (fuel : ℕ) (version more : List ℕ) (msg : HttpMessage)
    → IsSendable msg
    → http_version msg.http_minor ≡ some version
    → length (first_line version msg ∷ header_lines msg) < fuel
    → receive fuel (concat (pieces version msg) ++ more)
      ≡ some (first_line version msg, header_lines msg, msg.http_info.body, more)
receive-pieces fuel version more msg h e f =
    ap (λ t. receive fuel (t ++ more)) (concat-pieces version msg)
    ∙ ap (receive fuel) (
        append_assoc (line_text (first_line version msg ∷ header_lines msg))
          (crlf ++ msg.http_info.body) more)
    ∙ receive-read fuel (length msg.http_info.body) _ (first_line version msg)
        (msg.http_info.body ++ more) (header_lines msg)
        (read_lines-line_text fuel (first_line version msg ∷ header_lines msg)
          (msg.http_info.body ++ more) f (all_lines-AreLines version msg h e))
        (header_lines-declared msg h)
    ∙ ap
        (λ b. some (
          first_line version msg,
          header_lines msg,
          b,
          drop (length msg.http_info.body) (msg.http_info.body ++ more),
        ))
        (take-append_self (length msg.http_info.body) msg.http_info.body more refl)
    ∙ ap (λ r. some (first_line version msg, header_lines msg, msg.http_info.body, r))
        (drop-append_self (length msg.http_info.body) msg.http_info.body more refl)

store-pos :
    (d : List ℕ) (b : Buffer)
    → ((store d b).pos_writing ≡ b.pos_writing + length d) × ((store d b).pos_end ≡ b.pos_end)
unfolding store
store-pos d b = (refl, refl)

-- What Encode leaves of a message: it ends and returns true, and behind the bytes that were there
-- stands a text of which a receiver reads the lines of the message, its body, and what follows.
pub record Received (version : List ℕ) (msg : HttpMessage) (output : Buffer)
    (r : Option (Bool × Buffer)) : Type 0 where
  pub out : Buffer
  pub ends : r ≡ some (true, out)
  pub text : List ℕ
  pub appended : contents out ≡ contents output ++ text
  pub reads :
      (more : List ℕ)
      → receive (length (header_lines msg) + 2) (text ++ more)
        ≡ some (first_line version msg, header_lines msg, msg.http_info.body, more)

module _ (malloc : ℕ → Option (List ℕ))
    (sized : (n : ℕ) (block : List ℕ) → malloc n ≡ some block → length block ≡ n) where
  write_all-next :
      (p : List ℕ) (ps : List (List ℕ)) (b c : Buffer)
      → write malloc p b ≡ some (true, c)
      → write_all malloc (p ∷ ps) b ≡ write_all malloc ps c
  unfolding write_all
  write_all-next p ps b c e = ground arith

  -- Writes that fit append what they write.
  write_all-fits :
      (ps : List (List ℕ)) (b : Buffer)
      → Buffer.IsValid b
      → b.pos_writing + length (concat ps) ≤ b.pos_end
      → (out : Buffer) × (write_all malloc ps b ≡ some (true, out))
        × (contents out ≡ contents b ++ concat ps)
  unfolding write_all
  write_all-fits [] b v room = (b, refl, sym (append-nil (contents b)))
  write_all-fits (p ∷ ps) b v room =
      let fits : b.pos_writing + length p ≤ b.pos_end =
        omega (arith, length-append p (concat ps)) in
      let s = store_lem p v fits in
      let rest =
        write_all-fits ps (store p b) s.0
          (omega (arith, store-pos p b, length-append p (concat ps), room)) in
      (
        rest.0,
        write_all-next p ps b (store p b) (write-fits malloc sized p b (ground arith)) ∙ rest.1,
        rest.2 ∙ ap (λ c. c ++ concat ps) s.1 ∙ append_assoc (contents b) p (concat ps),
      )

  encode-version :
      (msg : HttpMessage) (output : Buffer) (version : List ℕ)
      → msg.http_major ≡ 1
      → http_version msg.http_minor ≡ some version
      → encode malloc (http_event msg) output ≡ write_all malloc (pieces version msg) output
  unfolding encode wirte_to_buf
  encode-version msg output version m e = ground arith

  -- Encode of a message of version 1.0 or 1.1 into a buffer with room for it: it ends and returns
  -- true, and behind the bytes that were there stands a text of which a receiver reads the first line,
  -- the header lines and the body that were sent, and leaves all that follows, where the first line and
  -- the headers have no carriage return, the names no colon, and none is a content length.
  pub encode-Received :
      (msg : HttpMessage) (output : Buffer) (version : List ℕ)
      → IsSendable msg
      → http_version msg.http_minor ≡ some version
      → Buffer.IsValid output
      → output.pos_writing + length (concat (pieces version msg)) ≤ output.pos_end
      → Received version msg output (encode malloc (http_event msg) output)
  encode-Received msg output version h e v room =
      let w = write_all-fits (pieces version msg) output v room in
      record {
        out = w.0;
        ends = encode-version msg output version h.major e ∙ w.1;
        text = concat (pieces version msg);
        appended = w.2;
        reads = λ more. receive-pieces _ version more msg h e (omega arith);
      }
