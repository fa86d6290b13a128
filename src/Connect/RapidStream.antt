-- ===== src/Connect/RapidStream.antt =====
-- DecodeMsg with the rapid protocol, on a stream of frames.
use libnbf.Prelude.{
  ℕ, zero, suc, ◌≤◌, ◌<◌, ◌≡◌, refl, ◌∙◌, ap, Bool, true, false, Option, some, arith, ◌∷◌, [], List,
  ◌++◌, length, length-append, length-drop,
}
use libnbf.Message.{RapidMessage}
use libnbf.Buffer
use libnbf.Buffer.{Buffer, contents, get_reading_size}
use libnbf.Buffer.Ops.{length-contents, drain_reading_lem}
use libnbf.Rapid.{frame, decode, head_bytes, head_of, head_size, read_head}
use libnbf.Rapid.Bytes.{IsSendable, length-frame}
use libnbf.Rapid.RoundTrip.{SameWire, decode-frame, decode-short, decode-incomplete}
use libnbf.Connect.{DecodeRun, deliver, decode_msg}
use libnbf.Connect.DecodeLoop.{
  decode_msg-closing, decode_msg-waiting, decode_msg-next, Drains, decode_msg_ends,
}

-- The frames of the messages, one after the other.
abbrev pub frames : List RapidMessage → List ℕ → List ℕ
frames [] rest = rest
frames (m ∷ ms) rest = frame m ++ frames ms rest

abbrev pub AllSendable : List RapidMessage → Type 0
AllSendable [] = Unit {0}
AllSendable (m ∷ ms) = IsSendable m × AllSendable ms

abbrev pub AllSame : List RapidMessage → List RapidMessage → Type 0
AllSame [] [] = Unit {0}
AllSame [] (b ∷ bs) = ⊥
AllSame (a ∷ as') [] = ⊥
AllSame (a ∷ as') (b ∷ bs) = SameWire a b × AllSame as' bs

-- What the loop has done with a stream: the messages delivered, and how it stopped.
pub record Streamed (ms : List RapidMessage) (closing : Bool)
    (r : Option (DecodeRun Buffer RapidMessage)) : Type 0 where
  pub run : DecodeRun Buffer RapidMessage
  pub ends : r ≡ some run
  pub same : AllSame run.delivered ms
  pub stop : run.closing ≡ closing

length-le-frames : (ms : List RapidMessage) (rest : List ℕ) → length ms ≤ length (frames ms rest)
length-le-frames [] rest = omega arith
length-le-frames (m ∷ ms) rest =
    omega
      (arith, length-le-frames ms rest, length-append (frame m) (frames ms rest), length-frame m)

-- One round that delivers a message.
next_round :
    (m : RapidMessage) (ms : List RapidMessage) (closing : Bool) (fuel : ℕ) (input : Buffer)
    (message : RapidMessage) (out : Buffer)
    → decode input false ≡ (some message, false, out)
    → SameWire message m
    → Streamed ms closing (decode_msg decode fuel out)
    → Streamed (m ∷ ms) closing (decode_msg decode (suc fuel) input)
next_round m ms closing fuel input message out e same later = record {
  run = record later.run { delivered = message ∷ later.run.delivered };
  ends = decode_msg-next decode fuel input e ∙ ap (deliver message) later.ends;
  same = (same, later.same);
  stop = later.stop;
}

-- The rounds for the frames of a stream, before what the loop does with the rest.
stream_rounds :
    (ms : List RapidMessage) (rest : List ℕ) (closing : Bool)
    → ((fuel : ℕ) (input : Buffer)
        → Buffer.IsValid input
        → contents input ≡ rest
        → Streamed [] closing (decode_msg decode (suc fuel) input))
    → (fuel : ℕ) (input : Buffer) → Buffer.IsValid input
    → AllSendable ms
    → contents input ≡ frames ms rest
    → length ms < fuel
    → Streamed ms closing (decode_msg decode fuel input)
stream_rounds [] rest closing last zero input v s c h = absurd (omega arith)
stream_rounds [] rest closing last (suc fuel) input v s c h = last fuel input v c
stream_rounds (m ∷ ms) rest closing last zero input v s c h = absurd (omega arith)
stream_rounds (m ∷ ms) rest closing last (suc fuel) input v s c h =
    let d = decode-frame m s.0 input v false (frames ms rest) c in
    let out = (decode input false).2 in
    next_round m ms closing fuel input d.message out (λ i. (d.returned i, d.flag i, out)) d.same
      (stream_rounds ms rest closing last fuel out d.valid s.1 d.left (omega arith))

-- On the frames of messages that can be sent, followed by less than a head, the loop delivers every
-- message once, in order, with its command, body and sequence id, and does not ask to close.
pub decode_msg-stream :
    (ms : List RapidMessage) (rest : List ℕ) (fuel : ℕ) (input : Buffer)
    → Buffer.IsValid input
    → AllSendable ms
    → contents input ≡ frames ms rest
    → length rest < head_size
    → get_reading_size input < fuel
    → Streamed ms false (decode_msg decode fuel input)
decode_msg-stream ms rest fuel input v s c short enough =
    stream_rounds ms rest false wait fuel input v s c
      (omega (arith, length-le-frames ms rest, length-contents input v, ap length c))
  where
    wait :
        (fuel : ℕ) (input : Buffer)
        → Buffer.IsValid input
        → contents input ≡ rest
        → Streamed [] false (decode_msg decode (suc fuel) input)
    wait fuel input v c = record {
      run = record { delivered = []; closing = false; inbuf = input };
      ends =
          decode_msg-waiting decode fuel input
            (decode-short input false (omega (arith, length-contents input v, ap length c)));
      same = tt;
      stop = refl;
    }

-- A stream of frames that ends with a head and less than its whole body makes the loop deliver the
-- messages before it and then ask to close, however much of the body has arrived.
pub decode_msg-cut :
    (ms : List RapidMessage) (m : RapidMessage) (part : List ℕ) (fuel : ℕ) (input : Buffer)
    → Buffer.IsValid input
    → AllSendable (m ∷ ms)
    → contents input ≡ frames ms (head_bytes (head_of m) ++ part)
    → length part < length m.body
    → get_reading_size input < fuel
    → Streamed ms true (decode_msg decode fuel input)
decode_msg-cut ms m part fuel input v s c short enough =
    stream_rounds ms (head_bytes (head_of m) ++ part) true close fuel input v s.1 c (
      omega (
        arith,
        length-le-frames ms (head_bytes (head_of m) ++ part),
        length-contents input v,
        ap length c,
      ))
  where
    close :
        (fuel : ℕ) (input : Buffer)
        → Buffer.IsValid input
        → contents input ≡ head_bytes (head_of m) ++ part
        → Streamed [] true (decode_msg decode (suc fuel) input)
    close fuel input v c =
        let d = decode-incomplete m s.0 input v false part c short in
        let r = decode input false in
        record {
          run = record { delivered = []; closing = true; inbuf = r.2 };
          ends =
              decode_msg-closing decode fuel input {msg = r.0} {out = r.2} (λ i. (r.0, d.1 i, r.2));
          same = tt;
          stop = refl;
        }

-- Where Decode returns a message, it has drained the size that the head names.
decode-drained :
    (input : Buffer) (msg : RapidMessage) (out : Buffer)
    → decode input false ≡ (some msg, false, out)
    → let n = (read_head (contents input)).size in
      (out ≡ Buffer.drain_reading n input) × (head_size ≤ n) × (n ≤ get_reading_size input)
unfolding decode
decode-drained input msg out e = ground arith

-- Decode of the rapid protocol takes at least one byte for a message.
pub decode-Drains : Drains decode
decode-Drains input msg out v e =
    let (same, large, fits) = decode-drained input msg out e in
    let n = (read_head (contents input)).size in
    let d = drain_reading_lem n v in
    rw same (
      d.0,
      omega (
        arith,
        length-contents (Buffer.drain_reading n input) d.0,
        ap length d.1,
        length-drop n (contents input),
        length-contents input v,
      ),
    )

-- With the rapid protocol, DecodeMsg ends on every valid input, whatever bytes it holds: fuel for one
-- round more than there are bytes is enough.
pub rapid_decode_msg_ends :
    (fuel : ℕ) (input : Buffer)
    → Buffer.IsValid input
    → get_reading_size input < fuel
    → (run : DecodeRun Buffer RapidMessage) × (decode_msg decode fuel input ≡ some run)
rapid_decode_msg_ends fuel input v h = decode_msg_ends decode fuel input decode-Drains v h
