-- ===== src/Rapid/Encode.antt =====
-- RapidProtocol::Encode: what it appends to the output, and what it refuses.
use libnbf.Prelude.{
  ℕ, ◌+◌, ◌^◌, ◌≤◌, ◌<◌, ◌≡◌, refl, sym, ◌≢◌, ◌⊎◌, ◌∙◌, ap, Bool, Cases, true, false, ◌&&◌, List,
  ◌++◌, Option, some, arith, ◌==◌, length, inl, inr,
}
use libnbf.Message.{RapidMessage, rapid_message}
use libnbf.Buffer
use libnbf.Buffer.{Buffer, contents, get_reading_size, get_writing_size}
use libnbf.Buffer.Ensure.{ensure_size-Ensured}
use libnbf.Buffer.Write.{store_lem}
use libnbf.Rapid.{head_size, frame, encode, heart_beat_request}
use libnbf.Rapid.Bytes.{length-frame}

-- Where there is room, writing at the writing position and moving it on is one append.
pub pour-put :
    (d : List ℕ) (n : ℕ) (b : Buffer)
    → n ≡ length d
    → b.pos_writing + n ≤ b.pos_end
    → Buffer.pour_writing n (Buffer.put_at_writing d b) ≡ (true, Buffer.store d b)
unfolding Buffer.pour_writing Buffer.put_at_writing Buffer.store
pour-put d n b e h = ground arith

-- What Encode leaves: the frame is appended whole, or the bytes to be read stay as they were.
pub record Encoded (data' : List ℕ) (output : Buffer) (r : Option (Bool × Buffer)) : Type 0 where
  pub result : Bool × Buffer
  pub ends : r ≡ some result
  pub valid : Buffer.IsValid result.1
  pub outcome : Cases (contents result.1 ≡ contents output ++ data') (result.1 ≡ output) result.0

module _ (malloc : ℕ → Option (List ℕ))
    (sized : (n : ℕ) (block : List ℕ) → malloc n ≡ some block → length block ≡ n) where
  after_ensure :
      (msg : RapidMessage) {output : Buffer} (ok : Bool) (out : Buffer)
      → msg.event.type_id ≡ rapid_message
      → (length msg.body == 0 && msg.command == 0) ≡ false
      → Buffer.ensure_size malloc (head_size + length msg.body) output ≡ some (ok, out)
      → Buffer.IsValid out
      → contents out ≡ contents output
      → Cases (head_size + length msg.body ≤ get_writing_size out) (out ≡ output) ok
      → Encoded (frame msg) output (encode malloc msg output)
  unfolding encode
  after_ensure msg true out rapid full e v kept outcome =
      let fits : out.pos_writing + (head_size + length msg.body) ≤ out.pos_end =
        omega (arith, outcome, v) in
      let s = store_lem (frame msg) v (omega (arith, length-frame msg)) in
      simp (rapid, full, e, pour-put (frame msg) _ out (sym (length-frame msg)) fits)
        (record {
          result = (true, Buffer.store (frame msg) out);
          ends = refl;
          valid = s.0;
          outcome = s.1 ∙ ap (λ t. t ++ frame msg) kept;
        })
  after_ensure msg false out rapid full e v kept outcome =
      simp (rapid, full, e)
        (record { result = (false, out); ends = refl; valid = v; outcome = outcome })

  -- A rapid message with a body or a command: Encode ends, keeps the output's invariant, appends
  -- exactly the message's frame if it returns true, and changes nothing if it returns false.
  pub encode-Encoded :
      (msg : RapidMessage) {output : Buffer}
      → Buffer.IsValid output
      → msg.event.type_id ≡ rapid_message
      → (0 < length msg.body) ⊎ (0 < msg.command)
      → get_reading_size output + (head_size + length msg.body) ≤ 2 ^ 62
      → output.pos_end ≤ 2 ^ 62
      → Encoded (frame msg) output (encode malloc msg output)
  encode-Encoded msg {output} v rapid some_part small bounded =
      let e = ensure_size-Ensured malloc sized (head_size + length msg.body) v small bounded in
      let full : (length msg.body == 0 && msg.command == 0) ≡ false = ground arith in
      after_ensure msg e.result.0 e.result.1 rapid full e.ends e.valid e.kept e.outcome

  -- Encode refuses a message of another type, and one with neither a body nor a command, and leaves
  -- the output as it is.
  pub encode-refuses :
      (msg : RapidMessage) (output : Buffer)
      → (msg.event.type_id ≢ rapid_message) ⊎ ((length msg.body ≡ 0) × (msg.command ≡ 0))
      → encode malloc msg output ≡ some (false, output)
  unfolding encode
  encode-refuses msg output (inl other) = ground arith
  encode-refuses msg output (inr empty) = ground arith

  -- The heartbeat that HeartBeatRequest makes is refused by Encode of the same protocol.
  pub encode-heart_beat_request :
      (output : Buffer) → encode malloc heart_beat_request output ≡ some (false, output)
  unfolding encode heart_beat_request
  encode-heart_beat_request output = refl
