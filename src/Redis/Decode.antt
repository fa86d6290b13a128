-- ===== src/Redis/Decode.antt =====
-- RedisProtocol::Decode: its loop ends, takes the whole input, and throws away a reply whose first
-- line is not complete.
use libnbf.Prelude.{
  ℕ, zero, suc, ◌+◌, ◌≤◌, ◌<◌, ◌≡◌, ◌∙◌, append_assoc, ◌≢◌, refl, Bool, true, false, List, [], ◌∷◌,
  ◌++◌, Option, none, some, arith, ◌==◌, length, drop, length-drop, Bool-cases, inl, inr, ltb,
}
use libnbf.Message.{new_message, redis_message}
use libnbf.Buffer
use libnbf.Buffer.{Buffer, contents}
use libnbf.Buffer.Ops.{length-contents}
use libnbf.Redis.{
  Reply, reply_ok, reply_error, reply_rest, reply_overrun, parse_reply, dispatch, find_crlf,
}
use libnbf.Redis.Size.{Sized, parse_reply-Sized}
use libnbf.Redis.Commands.{
  Loop, loop_rest, loop_error, loop_overrun, loop_done, next_reply, decode_loop, finish, decode,
  Decoded, decoded, decoded_overrun, max_size_allowed,
}

-- The text is a row of replies, each of them what ParseReply reads off the rest: whether the last of
-- them is a pong, and what the replies hold.
pub data Replies : List ℕ → Bool → List (List ℕ) → Type 0 where
  last_reply :
      (reply : List ℕ) (n : ℕ) (is_pong : Bool) (out : List ℕ)
      → parse_reply reply ≡ reply_ok n is_pong out
      → length (drop n reply) ≡ 0
      → Replies reply is_pong (out ∷ [])
  more_replies :
      (reply : List ℕ) (n : ℕ) (is_pong : Bool) (out : List ℕ) (last_pong : Bool)
      (outs : List (List ℕ))
      → parse_reply reply ≡ reply_ok n is_pong out
      → length (drop n reply) ≢ 0
      → Replies (drop n reply) last_pong outs
      → Replies reply last_pong (out ∷ outs)

-- The text is such a row up to a place where ParseReply returns `r`.
pub data Stuck (r : Reply) : List ℕ → Type 0 where
  stuck_here : (reply : List ℕ) → parse_reply reply ≡ r → Stuck r reply
  stuck_later :
      (reply : List ℕ) (n : ℕ) (is_pong : Bool) (out : List ℕ)
      → parse_reply reply ≡ reply_ok n is_pong out
      → length (drop n reply) ≢ 0
      → Stuck r (drop n reply)
      → Stuck r reply

-- A loop that ends as the text says; where it ends with bodies, it has read `whole` bytes.
abbrev pub Ends : ℕ → List ℕ → List (List ℕ) → Option Loop → Type 0
Ends whole reply bodies none = ⊥
Ends whole reply bodies (some loop_rest) = Stuck reply_rest reply
Ends whole reply bodies (some loop_error) = Stuck reply_error reply
Ends whole reply bodies (some loop_overrun) = Stuck reply_overrun reply
Ends whole reply bodies (some (loop_done size is_pong all)) =
    (size ≡ whole) × ((outs : List (List ℕ)) × Replies reply is_pong outs × (all ≡ bodies ++ outs))

one_more :
    (reply : List ℕ) (n : ℕ) (is_pong : Bool) (out : List ℕ) (bodies : List (List ℕ))
    (before whole : ℕ) (l : Option Loop)
    → parse_reply reply ≡ reply_ok n is_pong out
    → length (drop n reply) ≢ 0
    → before ≡ whole
    → Ends before (drop n reply) (bodies ++ (out ∷ [])) l
    → Ends whole reply bodies l
one_more reply n is_pong out bodies before whole none e some_left same q = absurd q
one_more reply n is_pong out bodies before whole (some loop_rest) e some_left same q =
    stuck_later reply n is_pong out e some_left q
one_more reply n is_pong out bodies before whole (some loop_error) e some_left same q =
    stuck_later reply n is_pong out e some_left q
one_more reply n is_pong out bodies before whole (some loop_overrun) e some_left same q =
    stuck_later reply n is_pong out e some_left q
one_more reply n is_pong out bodies before whole (some (loop_done size p all)) e some_left same q =
    let r = q.1 in
    (
      q.0 ∙ same,
      (
        out ∷ r.0,
        more_replies reply n is_pong out p r.0 e some_left r.1,
        r.2 ∙ append_assoc bodies (out ∷ []) r.0,
      ),
    )

next_reply-Ends :
    (r : Reply) (reply : List ℕ) (size : ℕ) (bodies : List (List ℕ))
    (again : List ℕ → ℕ → List (List ℕ) → Option Loop)
    → parse_reply reply ≡ r
    → Sized 2 (length reply) r
    → ((t : List ℕ) (n : ℕ) (bs : List (List ℕ))
        → 1 ≤ length t
        → length t + 2 ≤ length reply
        → Ends (n + length t) t bs (again t n bs))
    → Ends (size + length reply) reply bodies (next_reply r reply size bodies again)
unfolding next_reply
next_reply-Ends reply_error reply size bodies again p s e = stuck_here reply p
next_reply-Ends reply_rest reply size bodies again p s e = stuck_here reply p
next_reply-Ends reply_overrun reply size bodies again p s e = stuck_here reply p
next_reply-Ends (reply_ok n is_pong out) reply size bodies again p s e =
    elim (Bool-cases (length (drop n reply) == 0)) [
      | inl empty ↦
          let none_left : length (drop n reply) ≡ 0 = ground arith in
          rw empty (
            omega (arith, s.1, length-drop n reply, none_left),
            (out ∷ [], last_reply reply n is_pong out p none_left, refl),
          )
      | inr more ↦
          let some_left : length (drop n reply) ≢ 0 = ground arith in
          rw more (
            one_more reply n is_pong out bodies (size + n + length (drop n reply)) _ _ p some_left
              (omega (arith, s.1, length-drop n reply))
              (e (drop n reply) (size + n) (bodies ++ (out ∷ [])) (omega (arith, some_left))
                (omega (arith, s.0, s.1, length-drop n reply))))
    ]

decode_loop-Ends :
    (fuel : ℕ) (reply : List ℕ) (size : ℕ) (bodies : List (List ℕ))
    → 1 ≤ length reply
    → length reply ≤ fuel
    → Ends (size + length reply) reply bodies (decode_loop fuel reply size bodies)
unfolding decode_loop
decode_loop-Ends zero reply size bodies lo hi = absurd (omega arith)
decode_loop-Ends (suc fuel) reply size bodies lo hi =
    next_reply-Ends (parse_reply reply) reply size bodies (decode_loop fuel) refl
      (parse_reply-Sized reply)
      (λ t n bs some_left less. decode_loop-Ends fuel t n bs some_left (omega arith))

-- What Decode did, and where: it read past the text; it changed nothing and gave no message; it threw
-- the input away; or it took exactly the whole input, with the message of all replies, or with none
-- where the last one is a pong.
pub data Result (input : Buffer) (failed : Bool) : Decoded → Type 0 where
  overran :
      Buffer.get_reading_size input ≤ max_size_allowed
      → Stuck reply_overrun (contents input)
      → Result input failed decoded_overrun
  empty_waits : Buffer.get_reading_size input ≡ 0 → Result input failed (decoded none failed input)
  waits :
      Buffer.get_reading_size input ≤ max_size_allowed
      → Stuck reply_rest (contents input)
      → Result input failed (decoded none failed input)
  too_large :
      max_size_allowed < Buffer.get_reading_size input
      → Result input failed (decoded none false (Buffer.reset_all input))
  drops :
      Buffer.get_reading_size input ≤ max_size_allowed
      → Stuck reply_error (contents input)
      → Result input failed (decoded none false (Buffer.reset_all input))
  takes :
      (outs : List (List ℕ))
      → Buffer.get_reading_size input ≤ max_size_allowed
      → Replies (contents input) false outs
      → Result input failed (
          decoded
            (some (record { event = new_message redis_message; bodys = outs }))
            failed
            (Buffer.drain_reading (Buffer.get_reading_size input) input))
  pongs :
      (outs : List (List ℕ))
      → Buffer.get_reading_size input ≤ max_size_allowed
      → Replies (contents input) true outs
      → Result input failed
          (decoded none failed (Buffer.drain_reading (Buffer.get_reading_size input) input))

finish-Result :
    (input : Buffer) (failed : Bool) (l : Option Loop)
    → Buffer.get_reading_size input ≤ max_size_allowed
    → Ends (Buffer.get_reading_size input) (contents input) [] l
    → Result input failed (finish input failed l)
unfolding finish
finish-Result input failed none h e = absurd e
finish-Result input failed (some loop_rest) h e = waits h e
finish-Result input failed (some loop_error) h e = drops h e
finish-Result input failed (some loop_overrun) h e = overran h e
finish-Result input failed (some (loop_done size false bodies)) h e =
    rw (e.0, e.1.2) (takes e.1.0 h e.1.1)
finish-Result input failed (some (loop_done size true bodies)) h e = rw e.0 (pongs e.1.0 h e.1.1)

-- On a valid buffer the loop of Decode ends with the fuel given, and Decode does this. With nothing to
-- read, or where the replies end in one that ParseReply calls incomplete, it gives no message and changes
-- nothing. With more than 8 MB, or where they come to an error, it throws the whole input away and clears
-- `failed`. Where ParseReply reads past its text, so does Decode. Where the input is a row of whole
-- replies, it takes exactly the whole input, and its message holds what all of them hold, in order; where
-- the last of them is a pong, it gives no message.
pub decode-Result :
    (input : Buffer) (failed : Bool)
    → Buffer.IsValid input
    → Result input failed (decode input failed)
unfolding decode
decode-Result input failed v = elim (Bool-cases (Buffer.get_reading_size input == 0)) [
  | inl empty ↦ rw empty (empty_waits (ground arith))
  | inr more ↦ elim (Bool-cases (ltb max_size_allowed (Buffer.get_reading_size input))) [
    | inl large ↦ rw (more, large) (too_large (ground arith))
    | inr small ↦
        rw (more, small) (finish-Result input failed _ (ground arith) (ended (ground arith)))
  ]
]
  where
    ended :
        1 ≤ Buffer.get_reading_size input
        → Ends
            (Buffer.get_reading_size input)
            (contents input)
            []
            (decode_loop (Buffer.get_reading_size input) (contents input) 0 [])
    ended pos =
        let size = length-contents input v in
        let same : 0 + length (contents input) ≡ Buffer.get_reading_size input =
          omega (arith, size) in
        rw same at (
          decode_loop-Ends (Buffer.get_reading_size input) (contents input) 0 []
            (omega (arith, size)) (omega (arith, size)))

parse-cut : (xs : List ℕ) → find_crlf 0 xs ≡ none → parse_reply xs ≡ reply_error
unfolding parse_reply dispatch
parse-cut [] e = refl
parse-cut (x ∷ xs) e = rw e

loop-cut :
    (fuel : ℕ) (xs : List ℕ)
    → 1 ≤ fuel
    → find_crlf 0 xs ≡ none
    → decode_loop fuel xs 0 [] ≡ some loop_error
unfolding decode_loop next_reply
loop-cut zero xs h e = absurd (omega arith)
loop-cut (suc fuel) xs h e = rw (parse-cut xs e)

-- Where the input is not empty and holds no "\r\n" yet, as when the first line of a reply has come in
-- part, Decode gives no message, throws the input away, and clears `failed`, so that nothing reports
-- the loss.
pub decode-cut :
    (input : Buffer) (failed : Bool)
    → Buffer.get_reading_size input ≢ 0
    → find_crlf 0 (contents input) ≡ none
    → decode input failed ≡ decoded none false (Buffer.reset_all input)
unfolding decode finish
decode-cut input failed some_left e =
    let more : (Buffer.get_reading_size input == 0) ≡ false = ground (arith, some_left) in
    let cut =
      loop-cut (Buffer.get_reading_size input) (contents input) (omega (arith, some_left)) e in
    elim (Bool-cases (ltb max_size_allowed (Buffer.get_reading_size input))) [
      | inl large ↦ rw (more, large)
      | inr small ↦ rw (more, small, cut)
    ]
