-- ===== src/Sequence.antt =====
-- src/net/async_sequence.cpp and sync_sequence.cpp: the messages of a client connection that wait for
-- an answer, and what src/net/async_client_connect.cpp does when one comes, is late, or the
-- connection is lost. A message is a number, its address. The timers of the connection's event loop
-- are a parameter, their state `T`; a lock makes an operation one step.
pub mod Matched
pub mod Queue
pub mod Client
pub mod Send
use libnbf.Prelude.{
  ℕ, zero, suc, Bool, true, false, not, ◌&&◌, List, [], ◌∷◌, ◌++◌, Option, none, some, ltb, ◌==◌,
  if◌then◌else◌,
}
use libnbf.Prelude.Memory.{update}

-- std::list::remove
unfoldable pub remove : ℕ → List ℕ → List ℕ
remove m [] = []
remove m (x ∷ xs) = let rest = remove m xs in if x == m then rest else x ∷ rest

-- registery_, list_, the field timer_out_id of each message, and the timers.
pub record AsyncSequence (T : Type 0) : Type 0 where
  pub registery : ℕ → Option ℕ
  pub list : List ℕ
  pub timer_out_id : ℕ → ℕ
  pub timers : T

pub record SyncSequence (T : Type 0) : Type 0 where
  pub list : List ℕ
  pub timer_out_id : ℕ → ℕ
  pub timers : T

-- What DoSendBack is called with.
pub data Answer : Type 0 where
  status_timeout : (message : ℕ) → Answer
  internal_failure : (message : ℕ) → Answer

module _ {T : Type 0} (start_timer : ℕ → T → ℕ × T) (cancel : ℕ → T → T) (sequence_id : ℕ → ℕ)
    (has_thread : Bool) where
  -- Put; false stands for -1.
  unfoldable pub put : ℕ → AsyncSequence T → Bool × AsyncSequence T
  put message s = elim (s.registery (sequence_id message)) [
    | some other ↦ (false, s)
    | none ↦
        let started = start_timer (sequence_id message) s.timers in
        (
          true,
          record {
            registery = update s.registery (sequence_id message) (some message);
            list = s.list ++ (message ∷ []);
            timer_out_id = update s.timer_out_id message started.0;
            timers = started.1;
          },
        )
  ]

  unfoldable pub cancel_timer : ℕ → T → T
  cancel_timer timer_id t = if ltb 0 timer_id && has_thread then cancel timer_id t else t

  unfoldable pub get : ℕ → AsyncSequence T → Option ℕ × AsyncSequence T
  get id s = elim (s.registery id) [
    | none ↦ (none, s)
    | some message ↦ (
      some message,
      record s {
        registery = update s.registery id none;
        list = remove message s.list;
        timers = cancel_timer (s.timer_out_id message) s.timers;
      },
    )
  ]

  -- Clear
  unfoldable pub clear : AsyncSequence T → List ℕ × AsyncSequence T
  clear s = (s.list, record s { registery = λ id. none; list = [] })

  -- OnTimer, with AsyncClientConnect::OnTimeout for a message that is no heartbeat.
  unfoldable pub on_timer : ℕ → AsyncSequence T → List Answer × AsyncSequence T
  on_timer id s =
      let got = get id s in
      (elim got.0 [ none ↦ [] | some message ↦ status_timeout message ∷ [] ], got.1)

  -- The loop of CleanSequenceQueue.
  unfoldable pub fail_all : List ℕ → (ℕ → ℕ) → T → List Answer × T
  fail_all [] timer_out_id t = ([], t)
  fail_all (message ∷ messages) timer_out_id t =
      let cancelled =
        if ltb 0 (timer_out_id message) then cancel_timer (timer_out_id message) t else t in
      let rest = fail_all messages timer_out_id cancelled in
      (internal_failure message ∷ rest.0, rest.1)

  -- AsyncClientConnect::CleanSequenceQueue
  unfoldable pub clean_sequence_queue : AsyncSequence T → List Answer × AsyncSequence T
  clean_sequence_queue s =
      let cleared = clear s in
      let failed = fail_all cleared.0 s.timer_out_id s.timers in
      (failed.0, record cleared.1 { timers = failed.1 })

  -- SyncSequence::Put; the timer carries no data.
  unfoldable pub put_sync : ℕ → SyncSequence T → SyncSequence T
  put_sync message s =
      let started = start_timer 0 s.timers in
      record {
        list = s.list ++ (message ∷ []);
        timer_out_id = update s.timer_out_id message started.0;
        timers = started.1;
      }

  -- SyncSequence::Get
  unfoldable pub get_sync : SyncSequence T → Option ℕ × SyncSequence T
  get_sync s = elim s.list [
    | [] ↦ (none, s)
    | fired ∷ rest ↦ (
      some fired,
      record s {
        list = rest;
        timers =
            if ltb 0 (s.timer_out_id fired)
            then cancel (s.timer_out_id fired) s.timers
            else s.timers;
      },
    )
  ]

  unfoldable pub clear_sync : SyncSequence T → List ℕ × SyncSequence T
  clear_sync s = (s.list, record s { list = [] })
