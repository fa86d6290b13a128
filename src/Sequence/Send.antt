-- ===== src/Sequence/Send.antt =====
-- src/net/async_client_connect.cpp, EncodeMsg: a message goes into the output and, where an answer is
-- due, into the sequence. The protocol's Encode is an argument.
use libnbf.Prelude.{ℕ, Bool, true, false, if◌then◌else◌}
use libnbf.Message.{EventMessage, Direction, only_send}
use libnbf.Buffer.{Buffer}
use libnbf.Sequence.{AsyncSequence, put}
use libnbf.Sequence.Matched.{IsMatched, Puts, refused, added, put-Puts}

-- The results 0, -1, -2 and -3.
pub data Code : Type 0 where
  code_ok code_broken code_encode code_put : Code

abbrev pub is_only_send : Direction → Bool
is_only_send only_send = true
is_only_send d = false

abbrev pub put_code : Bool → Code
put_code true = code_ok
put_code false = code_put

-- EncodeMsg behind Encode: what it gives for a message without and with an answer due.
abbrev pub after_put :
    {T : Type 0}
    → Bool
    → Bool × AsyncSequence T
    → Buffer
    → AsyncSequence T
    → Code × Buffer × AsyncSequence T
after_put true stored outbuf s = (code_ok, outbuf, s)
after_put false stored outbuf s = (put_code stored.0, outbuf, stored.1)

module _ {T : Type 0} (start_timer : ℕ → T → ℕ × T) (cancel : ℕ → T → T) (sequence_id : ℕ → ℕ)
    (has_thread : Bool) (store : ℕ → EventMessage)
    (encode : EventMessage → Buffer → Bool × Buffer) where
  -- EncodeMsg at what Encode returned.
  abbrev pub after_encode : ℕ → AsyncSequence T → Bool × Buffer → Code × Buffer × AsyncSequence T
  after_encode m s (false, outbuf) = (code_encode, outbuf, s)
  after_encode m s (true, outbuf) =
      after_put (is_only_send (store m).direction)
        (put start_timer cancel sequence_id has_thread m s) outbuf s

  unfoldable pub encode_msg : Bool → ℕ → Buffer → AsyncSequence T → Code × Buffer × AsyncSequence T
  encode_msg connected m outbuf s =
      if connected then after_encode m s (encode (store m) outbuf) else (code_broken, outbuf, s)

  put-IsMatched :
      (m : ℕ) (s : AsyncSequence T) (r : Bool × AsyncSequence T)
      → IsMatched sequence_id s
      → Puts start_timer cancel sequence_id has_thread m s r
      → IsMatched sequence_id r.1
  put-IsMatched m s _ v (refused other e) = v
  put-IsMatched m s _ v (added s' e w l) = w

  choice-IsMatched :
      (b : Bool) (outbuf : Buffer) (s : AsyncSequence T) (r : Bool × AsyncSequence T)
      → IsMatched sequence_id s
      → IsMatched sequence_id r.1
      → IsMatched sequence_id (after_put b r outbuf s).2
  choice-IsMatched true outbuf s r v w = v
  choice-IsMatched false outbuf s r v w = w

  sent-IsMatched :
      (m : ℕ) (s : AsyncSequence T) (r : Bool × Buffer)
      → IsMatched sequence_id s
      → IsMatched sequence_id (after_encode m s r).2
  sent-IsMatched m s (false, outbuf) v = v
  sent-IsMatched m s (true, outbuf) v =
      choice-IsMatched (is_only_send (store m).direction) outbuf s _ v
        (put-IsMatched m s _ v (put-Puts start_timer cancel sequence_id has_thread s m v))

  -- EncodeMsg leaves a matched sequence matched, whatever Encode does and whatever it returns.
  pub encode_msg-IsMatched :
      (connected : Bool) (m : ℕ) (outbuf : Buffer) (s : AsyncSequence T)
      → IsMatched sequence_id s
      → IsMatched sequence_id (encode_msg connected m outbuf s).2
  unfolding encode_msg
  encode_msg-IsMatched true m outbuf s v = sent-IsMatched m s (encode (store m) outbuf) v
  encode_msg-IsMatched false m outbuf s v = v
