-- ===== src/Connect.antt =====
-- src/net/connect.cpp, Connecting::DecodeMsg: the loop that takes messages off the input buffer
-- until the protocol has no more, or has failed. The protocol's Decode is a parameter, over the input
-- buffer together with what the protocol keeps from call to call: `Input` is the buffer alone for the
-- rapid protocol and for redis, which keep nothing, and a pair of it for http.
pub mod DecodeLoop
pub mod RapidStream
use libnbf.Prelude.{ℕ, zero, suc, Bool, true, false, List, [], ◌∷◌, Option, none, some}

-- What a run of the loop did: the messages given to OnDecodeMessage, whether the result is -1 (the
-- caller then closes the connection), and the input buffer.
pub record DecodeRun (Input Msg : Type 0) : Type 0 where
  pub delivered : List Msg
  pub closing : Bool
  pub inbuf : Input

module _ {Input Msg : Type 0} where
  abbrev pub deliver : Msg → Option (DecodeRun Input Msg) → Option (DecodeRun Input Msg)
  deliver msg none = none
  deliver msg (some run) = some (record run { delivered = msg ∷ run.delivered })

  -- One round: what Decode returned, and the rest of the loop.
  pub decode_round :
      Option Msg × Bool × Input
      → (Input → Option (DecodeRun Input Msg))
      → Option (DecodeRun Input Msg)
  decode_round (msg, true, inbuf) again =
      some (record { delivered = []; closing = true; inbuf = inbuf })
  decode_round (none, false, inbuf) again =
      some (record { delivered = []; closing = false; inbuf = inbuf })
  decode_round (some msg, false, inbuf) again = deliver msg (again inbuf)

  -- `none` means that the fuel ran out.
  unfoldable pub decode_msg :
      (Input → Bool → Option Msg × Bool × Input) → ℕ → Input → Option (DecodeRun Input Msg)
  unfolding decode_round
  decode_msg decode zero inbuf = none
  decode_msg decode (suc fuel) inbuf = decode_round (decode inbuf false) (decode_msg decode fuel)
