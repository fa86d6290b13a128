-- ===== src/Tests/RapidTests.antt =====
-- src/protocol/rapid/rapid_protocol.cpp and the loop of src/net/connect.cpp on concrete inputs.
use libnbf.Prelude.{ℕ, ◌≡◌, refl, true, false, List, [], ◌∷◌, ◌++◌, some, arith, length, inl, inr}
use libnbf.Message.{RapidMessage, new_message, rapid_message}
use libnbf.Buffer
use libnbf.Buffer.{Buffer, contents}
use libnbf.Rapid
use libnbf.Rapid.{frame, head_of, head_bytes, decode, encode}
use libnbf.Rapid.Bytes.{IsSendable}
use libnbf.Rapid.Encode.{Encoded, encode-Encoded, encode-refuses}
use libnbf.Connect.{decode_msg, DecodeRun}
use libnbf.Connect.RapidStream.{Streamed, decode_msg-stream, decode_msg-cut, rapid_decode_msg_ends}
use libnbf.Tests.BufferTests.{zeroed, zeroed_sized}

abbrev ping : RapidMessage
ping = record {
  event = record (new_message rapid_message) { sequence_id = 0x0102030405 };
  body = 7 ∷ 8 ∷ [];
  command = 3;
}

ping-IsSendable : IsSendable ping
ping-IsSendable = omega arith

-- The frame of `ping`, and five bytes of the next one.
abbrev wire : List ℕ
wire =
    0x2b ∷ 0x67 ∷ 0 ∷ 3 ∷ 0 ∷ 0 ∷ 0 ∷ 1 ∷ 2 ∷ 3 ∷ 4 ∷ 5 ∷ 0 ∷ 0 ∷ 0 ∷ 18 ∷ 7 ∷ 8 ∷ 0x2b ∷ 0x67 ∷ 0
    ∷ []

frame-ping : frame ping ++ (0x2b ∷ 0x67 ∷ 0 ∷ []) ≡ wire
unfolding head_bytes head_of
frame-ping = refl

abbrev holding : List ℕ → Buffer
holding bytes = record {
  begin = true;
  mem = bytes;
  pos_end = length bytes;
  pos_reading = 0;
  pos_writing = length bytes;
}

abbrev input : Buffer
input = holding (frame ping ++ (0x2b ∷ 0x67 ∷ 0 ∷ []))

input-IsValid : Buffer.IsValid input
unfolding head_bytes
input-IsValid = record {
  block = refl;
  reading = omega arith;
  writing = omega arith;
  unset = λ h. cc;
  nonempty = λ h. omega arith;
}

input-contents : contents input ≡ frame ping ++ (0x2b ∷ 0x67 ∷ 0 ∷ [])
unfolding head_bytes
input-contents = refl

encode-Encoded_example : Encoded (frame ping) Buffer.empty (encode zeroed ping Buffer.empty)
encode-Encoded_example =
    encode-Encoded zeroed zeroed_sized ping Buffer.Ops.empty-IsValid refl (inl (omega arith))
      (omega arith) (omega arith)

decode_msg-stream_example : Streamed (ping ∷ []) false (decode_msg decode 22 input)
unfolding head_bytes
decode_msg-stream_example =
    decode_msg-stream (ping ∷ []) (0x2b ∷ 0x67 ∷ 0 ∷ []) 22 input input-IsValid
      (ping-IsSendable, tt) input-contents (omega arith) (omega arith)

-- The same message, with the last byte of a second copy still on its way.
abbrev cut : Buffer
cut = holding (frame ping ++ (head_bytes (head_of ping) ++ (7 ∷ [])))

cut-IsValid : Buffer.IsValid cut
unfolding head_bytes
cut-IsValid = record {
  block = refl;
  reading = omega arith;
  writing = omega arith;
  unset = λ h. cc;
  nonempty = λ h. omega arith;
}

cut-contents : contents cut ≡ frame ping ++ (head_bytes (head_of ping) ++ (7 ∷ []))
unfolding head_bytes
cut-contents = refl

decode_msg-cut_run : Streamed (ping ∷ []) true (decode_msg decode 36 cut)
unfolding head_bytes
decode_msg-cut_run =
    decode_msg-cut (ping ∷ []) ping (7 ∷ []) 36 cut cut-IsValid
      (ping-IsSendable, (ping-IsSendable, tt)) cut-contents (omega arith) (omega arith)

rapid_decode_msg_ends_example :
    (run : DecodeRun Buffer RapidMessage) × (decode_msg decode 36 cut ≡ some run)
unfolding head_bytes
rapid_decode_msg_ends_example = rapid_decode_msg_ends 36 cut cut-IsValid (omega arith)

encode_refused_run :
    encode zeroed Rapid.heart_beat_request Buffer.empty ≡ some (false, Buffer.empty)
unfolding Rapid.heart_beat_request
encode_refused_run =
    encode-refuses zeroed zeroed_sized Rapid.heart_beat_request Buffer.empty (inr (refl, refl))
