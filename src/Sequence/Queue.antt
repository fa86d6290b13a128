-- ===== src/Sequence/Queue.antt =====
-- SyncSequence: answers are matched to messages by their order alone.
use libnbf.Prelude.{
  ℕ, zero, suc, ◌≡◌, refl, ap, sym, ◌∙◌, Bool, List, [], ◌∷◌, ◌++◌, append-nil, append_assoc,
  Option, none, some, length,
}
use libnbf.Sequence.{SyncSequence, put_sync, get_sync}

abbrev with_message : Option ℕ → List ℕ → List ℕ
with_message none ms = ms
with_message (some m) ms = m ∷ ms

module _ {T : Type 0} (start_timer : ℕ → T → ℕ × T) (cancel : ℕ → T → T) (sequence_id : ℕ → ℕ)
    (has_thread : Bool) where
  -- Put of each message in turn.
  abbrev pub put_all : List ℕ → SyncSequence T → SyncSequence T
  put_all [] s = s
  put_all (m ∷ ms) s = put_all ms (put_sync start_timer cancel sequence_id has_thread m s)

  -- The messages that Get gives in so many calls, and what is left.
  abbrev pub get_all : ℕ → SyncSequence T → List ℕ × SyncSequence T
  get_all zero s = ([], s)
  get_all (suc n) s =
      let got = get_sync start_timer cancel sequence_id has_thread s in
      let rest = get_all n got.1 in (with_message got.0 rest.0, rest.1)

  put_all-list : (ms : List ℕ) (s : SyncSequence T) → (put_all ms s).list ≡ s.list ++ ms
  unfolding put_sync
  put_all-list [] s = sym (append-nil s.list)
  put_all-list (m ∷ ms) s = put_all-list ms _ ∙ append_assoc s.list (m ∷ []) ms

  first_out :
      (x : ℕ) (l : List ℕ) (s : SyncSequence T)
      → s.list ≡ x ∷ l
      → ((get_sync start_timer cancel sequence_id has_thread s).0 ≡ some x)
        × ((get_sync start_timer cancel sequence_id has_thread s).1.list ≡ l)
  unfolding get_sync
  first_out x l s e = (rw (e, get_sync) refl, rw (e, get_sync) refl)

  get_all-list :
      (xs ys : List ℕ) (s : SyncSequence T)
      → s.list ≡ xs ++ ys
      → ((get_all (length xs) s).0 ≡ xs) × ((get_all (length xs) s).1.list ≡ ys)
  get_all-list [] ys s e = (refl, e)
  get_all-list (x ∷ xs) ys s e =
      let out = first_out x (xs ++ ys) s e in
      let rest =
        get_all-list xs ys (get_sync start_timer cancel sequence_id has_thread s).1 out.1 in
      (rw out.0 (ap (◌∷◌ x) rest.0), rest.1)

  -- After messages are put, as many calls of Get as were waiting before give those in order, and as
  -- many calls again as were put give these in order and leave nothing.
  pub get_all-put_all :
      (ms : List ℕ) (s : SyncSequence T)
      → ((get_all (length s.list) (put_all ms s)).0 ≡ s.list)
        × ((get_all (length ms) (get_all (length s.list) (put_all ms s)).1).0 ≡ ms)
        × ((get_all (length ms) (get_all (length s.list) (put_all ms s)).1).1.list ≡ [])
  get_all-put_all ms s =
      let first = get_all-list s.list ms (put_all ms s) (put_all-list ms s) in
      let second =
        get_all-list ms [] (get_all (length s.list) (put_all ms s)).1
          (first.1 ∙ sym (append-nil ms)) in
      (first.0, second.0, second.1)
