-- ===== src/Connect/DecodeLoop.antt =====
-- The loop of DecodeMsg ends for every protocol that drains what it returns a message for.
use libnbf.Prelude.{
  ℕ, zero, suc, ◌<◌, ◌≡◌, refl, ap, Bool, true, false, Option, none, some, arith, ◌∷◌, [],
}
use libnbf.Buffer
use libnbf.Buffer.{Buffer, get_reading_size}
use libnbf.Connect.{DecodeRun, deliver, decode_round, decode_msg}

module _ {Input Msg : Type 0} (decode : Input → Bool → Option Msg × Bool × Input) where
  -- The equations of the loop, one for each outcome of Decode.
  pub decode_msg-closing :
      (fuel : ℕ) (input : Input) {msg : Option Msg} {out : Input}
      → decode input false ≡ (msg, true, out)
      → decode_msg decode (suc fuel) input
        ≡ some (record { delivered = []; closing = true; inbuf = out })
  unfolding decode_msg
  decode_msg-closing fuel input e = ap (λ r. decode_round r (decode_msg decode fuel)) e

  pub decode_msg-waiting :
      (fuel : ℕ) (input : Input) {out : Input}
      → decode input false ≡ (none, false, out)
      → decode_msg decode (suc fuel) input
        ≡ some (record { delivered = []; closing = false; inbuf = out })
  unfolding decode_msg
  decode_msg-waiting fuel input e = ap (λ r. decode_round r (decode_msg decode fuel)) e

  pub decode_msg-next :
      (fuel : ℕ) (input : Input) {msg : Msg} {out : Input}
      → decode input false ≡ (some msg, false, out)
      → decode_msg decode (suc fuel) input ≡ deliver msg (decode_msg decode fuel out)
  unfolding decode_msg
  decode_msg-next fuel input e = ap (λ r. decode_round r (decode_msg decode fuel)) e

module _ {Msg : Type 0} (decode : Buffer → Bool → Option Msg × Bool × Buffer) where
  -- A message that Decode returns costs at least one byte of the input.
  abbrev pub Drains : Type 0
  Drains =
      (input : Buffer) (msg : Msg) (out : Buffer)
      → Buffer.IsValid input
      → decode input false ≡ (some msg, false, out)
      → Buffer.IsValid out × (get_reading_size out < get_reading_size input)

  deliver-some :
      (msg : Msg) {r : Option (DecodeRun Buffer Msg)}
      → (run : DecodeRun Buffer Msg) × (r ≡ some run)
      → (run : DecodeRun Buffer Msg) × (deliver msg r ≡ some run)
  deliver-some msg (run, e) = (record run { delivered = msg ∷ run.delivered }, ap (deliver msg) e)

  -- With such a Decode and fuel for one round more than there are bytes, the loop ends.
  pub decode_msg_ends :
      (fuel : ℕ) (input : Buffer)
      → Drains
      → Buffer.IsValid input
      → get_reading_size input < fuel
      → (run : DecodeRun Buffer Msg) × (decode_msg decode fuel input ≡ some run)
  decode_msg_ends zero input drains v h = absurd (omega arith)
  decode_msg_ends (suc fuel) input drains v h = go (decode input false) refl (decode_msg_ends fuel)
    where
      go :
          (r : Option Msg × Bool × Buffer)
          → decode input false ≡ r
          → ((out : Buffer)
              → Drains
              → Buffer.IsValid out
              → get_reading_size out < fuel
              → (run : DecodeRun Buffer Msg) × (decode_msg decode fuel out ≡ some run))
          → (run : DecodeRun Buffer Msg) × (decode_msg decode (suc fuel) input ≡ some run)
      go (msg, true, out) e ih = (_, decode_msg-closing decode fuel input e)
      go (none, false, out) e ih = (_, decode_msg-waiting decode fuel input e)
      go (some msg, false, out) e ih =
          let d = drains input msg out v e in
          rw (decode_msg-next decode fuel input e)
            (deliver-some msg (ih out drains d.0 (omega (arith, d.1))))
