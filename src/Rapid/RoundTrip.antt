-- ===== src/Rapid/RoundTrip.antt =====
-- Decode after Encode, and what Decode makes of an incomplete or a foreign frame.
use libnbf.Prelude.{
  ℕ, ◌+◌, ◌-◌, ◌*◌, ◌≤◌, ◌<◌, ◌≡◌, refl, sym, ap, ◌∙◌, Bool, true, false, List, ◌++◌, Option, ◌⊎◌,
  ◌≢◌, none, some, arith, ltb, ◌==◌, inl, inr, length, take, drop, length-append, append_assoc,
  if◌then◌else◌,
}
use libnbf.Prelude.Slices.{take-append_self, drop-append_self}
use libnbf.Message.{RapidMessage, rapid_message}
use libnbf.Buffer
use libnbf.Buffer.{Buffer, contents, get_reading_size}
use libnbf.Buffer.Ops.{drain_reading_lem, length-contents}
use libnbf.Rapid.{
  RapidHead, head_bytes, read_head, head_of, head_size, frame, message_of, magic, max_version,
  decode,
}
use libnbf.Rapid.Bytes.{
  IsSendable, head_of-IsHead, read_head-head_bytes, drop-head_bytes, length-head_bytes,
  length-frame, sequence_lem,
}

-- What arrives: the command, the body and the sequence id of what was sent.
abbrev pub SameWire : RapidMessage → RapidMessage → Type 0
SameWire a b =
    (a.command ≡ b.command)
    × (a.body ≡ b.body)
    × (a.event.sequence_id ≡ b.event.sequence_id)
    × (a.event.type_id ≡ rapid_message)

-- The branch of Decode that returns a message.
decode-message :
    (input : Buffer) (failed : Bool) (h : RapidHead) (data' : List ℕ)
    → contents input ≡ data'
    → read_head data' ≡ h
    → ltb (get_reading_size input) head_size ≡ false
    → (h.magic == magic) ≡ true
    → ltb max_version h.version ≡ false
    → ltb (get_reading_size input) h.size ≡ false
    → ltb h.size head_size ≡ false
    → decode input failed ≡ (
      some (message_of h (take (h.size - head_size) (drop head_size data'))),
      failed,
      Buffer.drain_reading h.size input,
    )
unfolding decode
decode-message input failed h data' c r a b d e f = simp (c, r, a, b, d, e, f)

-- The branch of Decode for a size that the input does not hold.
decode-wants :
    (input : Buffer) (failed : Bool) (h : RapidHead)
    → read_head (contents input) ≡ h
    → ltb (get_reading_size input) head_size ≡ false
    → (h.magic == magic) ≡ true
    → ltb max_version h.version ≡ false
    → ltb (get_reading_size input) h.size ≡ true
    → decode input failed ≡ (
      none,
      true,
      if ltb (30 * 1024 * 1024) (get_reading_size input)
          then Buffer.drain_reading (get_reading_size input) input
          else input,
    )
unfolding decode
decode-wants input failed h r a b d e = simp (r, a, b, d, e)

module _ (m : RapidMessage) (s : IsSendable m) (input : Buffer) (v : Buffer.IsValid input)
    (failed : Bool) where
  -- What Decode leaves after it has taken the message `m` off the input.
  pub record Delivered (rest : List ℕ) (r : Option RapidMessage × Bool × Buffer) : Type 0 where
    pub message : RapidMessage
    pub returned : r.0 ≡ some message
    pub same : SameWire message m
    pub flag : r.1 ≡ failed
    pub valid : Buffer.IsValid r.2
    pub left : contents r.2 ≡ rest

  read_frame :
      (rest : List ℕ) → contents input ≡ frame m ++ rest → read_head (contents input) ≡ head_of m
  read_frame rest c =
      rw (c, append_assoc (head_bytes (head_of m)) m.body rest)
        (read_head-head_bytes (head_of m) (m.body ++ rest) (head_of-IsHead m s))

  body_of_frame :
      (rest : List ℕ)
      → contents input ≡ frame m ++ rest
      → take (length m.body) (drop head_size (contents input)) ≡ m.body
  body_of_frame rest c =
      rw
        (
          c,
          append_assoc (head_bytes (head_of m)) m.body rest,
          drop-head_bytes (head_of m) (m.body ++ rest),
        )
        (take-append_self (length m.body) m.body rest refl)

  size_of_frame :
      (rest : List ℕ)
      → contents input ≡ frame m ++ rest
      → get_reading_size input ≡ head_size + length m.body + length rest
  size_of_frame rest c =
      omega
        (arith, length-contents input v, ap length c, length-append (frame m) rest, length-frame m)

  pub decode-frame :
      (rest : List ℕ) → contents input ≡ frame m ++ rest → Delivered rest (decode input failed)
  unfolding head_of message_of
  decode-frame rest c =
      let total = size_of_frame rest c in
      let d = drain_reading_lem (head_size + length m.body) v in
      rw
        (decode-message input failed (head_of m) (contents input) refl (read_frame rest c)
          (ground arith) refl refl (ground arith) (ground arith))
        (record {
          message = message_of (head_of m) (take (length m.body) (drop head_size (contents input)));
          returned =
              (let e : head_size + length m.body - head_size ≡ length m.body = omega arith in
                ap (λ k. some (message_of (head_of m) (take k (drop head_size (contents input)))))
                  e);
          same = (omega (arith, s), body_of_frame rest c, sequence_lem _ s.sequence, refl);
          flag = refl;
          valid = d.0;
          left =
              d.1
              ∙ ap (drop (head_size + length m.body)) c
              ∙ drop-append_self _ (frame m) rest (sym (length-frame m));
        })

  -- Where the input is a frame's head and less than the whole body, of whatever length so far, Decode
  -- returns no message and raises the flag.
  pub decode-incomplete :
      (part : List ℕ)
      → contents input ≡ head_bytes (head_of m) ++ part
      → length part < length m.body
      → ((decode input failed).0 ≡ none) × ((decode input failed).1 ≡ true)
  unfolding head_of
  decode-incomplete part c short =
      let t : get_reading_size input ≡ head_size + length part = omega (
        arith,
        length-contents input v,
        ap length c,
        length-append (head_bytes (head_of m)) part,
        length-head_bytes (head_of m),
      ) in
      let h : read_head (contents input) ≡ head_of m =
        rw c (read_head-head_bytes (head_of m) part (head_of-IsHead m s)) in
      rw (decode-wants input failed (head_of m) h (ground arith) refl refl (ground arith))
        (refl, refl)

-- Fewer bytes than a head: Decode waits, and changes nothing.
pub decode-short :
    (input : Buffer) (failed : Bool)
    → get_reading_size input < head_size
    → decode input failed ≡ (none, failed, input)
unfolding decode
decode-short input failed h = ground arith

-- A head of another protocol, or of a later version: Decode raises the flag and drops all input.
pub decode-foreign :
    (input : Buffer) (failed : Bool)
    → head_size ≤ get_reading_size input
    → ((read_head (contents input)).magic ≢ magic)
      ⊎ (max_version < (read_head (contents input)).version)
    → decode input failed ≡ (none, true, Buffer.reset_all input)
unfolding decode
decode-foreign input failed h (inl bad) = ground arith
decode-foreign input failed h (inr bad) = ground arith
