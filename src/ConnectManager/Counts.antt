-- ===== src/ConnectManager/Counts.antt =====
-- How often a number stands in a list, and how the maps' operations change that.
use libnbf.Prelude.{
  ℕ, ◌+◌, ◌≤◌, ◌<◌, ◌≡◌, refl, Bool, true, false, List, [], ◌∷◌, ◌++◌, arith, ltb, ◌==◌,
  if◌then◌else◌, Bool-cases, inl, inr, ◌⊎◌,
}
use libnbf.ConnectManager.{
  Connected, Delayed, delay_delete_times, sweep, has_connected, has_delayed, erase_connected,
}

abbrev pub one_if : ℕ → ℕ → ℕ
one_if x y = if x == y then 1 else 0

abbrev pub count : ℕ → List ℕ → ℕ
count y [] = 0
count y (x ∷ xs) = one_if x y + count y xs

pub count-append : (y : ℕ) (xs ys : List ℕ) → count y (xs ++ ys) ≡ count y xs + count y ys
count-append y [] ys = omega arith
count-append y (x ∷ xs) ys = omega (arith, count-append y xs ys)

abbrev pub ids : List Connected → List ℕ
ids [] = []
ids (e ∷ es) = e.id ∷ ids es

abbrev pub cons : List Connected → List ℕ
cons [] = []
cons (e ∷ es) = e.con ∷ cons es

abbrev pub delayed_ids : List Delayed → List ℕ
delayed_ids [] = []
delayed_ids (e ∷ es) = e.id ∷ delayed_ids es

abbrev pub delayed_cons : List Delayed → List ℕ
delayed_cons [] = []
delayed_cons (e ∷ es) = e.con ∷ delayed_cons es

-- The connection waits since its release at the time given.
abbrev pub Waits : ℕ → ℕ → List Delayed → Type 0
Waits since con [] = ⊥
Waits since con (e ∷ es) = ((e.since ≡ since) × (e.con ≡ con)) ⊎ Waits since con es

-- Each of the connections waits since more than the delay.
abbrev pub AllOverdue : ℕ → List Delayed → List ℕ → Type 0
AllOverdue now es [] = Unit
AllOverdue now es (c ∷ cs) =
    ((since : ℕ) × (Waits since c es) × (since + delay_delete_times < now)) × AllOverdue now es cs

AllOverdue-more :
    (now : ℕ) (e : Delayed) (es : List Delayed) (cs : List ℕ)
    → AllOverdue now es cs
    → AllOverdue now (e ∷ es) cs
AllOverdue-more now e es [] o = tt
AllOverdue-more now e es (c ∷ cs) o = ((o.0.0, inr o.0.1, o.0.2), AllOverdue-more now e es cs o.1)

pub sweep-AllOverdue : (now : ℕ) (es : List Delayed) → AllOverdue now es (sweep now es).0
unfolding sweep
sweep-AllOverdue now [] = tt
sweep-AllOverdue now (e ∷ es) = elim (Bool-cases (ltb (e.since + delay_delete_times) now)) [
  | inl late ↦ rw late (
    (e.since, inl (refl, refl), ground arith),
    AllOverdue-more now e es _ (sweep-AllOverdue now es),
  )
  | inr early ↦ rw early (AllOverdue-more now e es _ (sweep-AllOverdue now es))
]

-- A sweep deletes and keeps what there is.
pub count-sweep :
    (now a : ℕ) (es : List Delayed)
    → count a (sweep now es).0 + count a (delayed_cons (sweep now es).1) ≡ count a (delayed_cons es)
unfolding sweep
count-sweep now a [] = refl
count-sweep now a (e ∷ es) = elim (Bool-cases (ltb (e.since + delay_delete_times) now)) [
  | inl late ↦ rw late (omega (arith, count-sweep now a es))
  | inr early ↦ rw early (omega (arith, count-sweep now a es))
]

pub count_ids-sweep :
    (now k : ℕ) (es : List Delayed)
    → count k (delayed_ids (sweep now es).1) ≤ count k (delayed_ids es)
unfolding sweep
count_ids-sweep now k [] = omega arith
count_ids-sweep now k (e ∷ es) = elim (Bool-cases (ltb (e.since + delay_delete_times) now)) [
  | inl late ↦ rw late (omega (arith, count_ids-sweep now k es))
  | inr early ↦ rw early (omega (arith, count_ids-sweep now k es))
]

pub has_connected_lem :
    (id : ℕ) (es : List Connected) → count id (ids es) ≡ 0 → has_connected id es ≡ false
unfolding has_connected
has_connected_lem id [] h = refl
has_connected_lem id (e ∷ es) h = ground (arith, has_connected_lem id es)

pub has_delayed_lem :
    (id : ℕ) (es : List Delayed) → count id (delayed_ids es) ≡ 0 → has_delayed id es ≡ false
unfolding has_delayed
has_delayed_lem id [] h = refl
has_delayed_lem id (e ∷ es) h = ground (arith, has_delayed_lem id es)

-- The connection stands under the id.
abbrev pub Listed : ℕ → ℕ → List Connected → Type 0
Listed id con [] = ⊥
Listed id con (e ∷ es) = ((e.id ≡ id) × (e.con ≡ con)) ⊎ Listed id con es

Listed-counts : (id con : ℕ) (es : List Connected) → Listed id con es → 1 ≤ count id (ids es)
Listed-counts id con [] l = absurd l
Listed-counts id con (e ∷ es) (inl p) = ground (arith, p.0)
Listed-counts id con (e ∷ es) (inr l) = omega (arith, Listed-counts id con es l)

-- Erasing the id of a connection takes out that connection alone, where the id stands once.
pub record Erases (id con : ℕ) (es : List Connected) (r : Bool × List Connected) : Type 0 where
  pub found : r.0 ≡ true
  pub count_con : (a : ℕ) → one_if con a + count a (cons r.1) ≡ count a (cons es)
  pub count_id : (k : ℕ) → one_if id k + count k (ids r.1) ≡ count k (ids es)

pub erase_connected-Erases :
    (id con : ℕ) (es : List Connected)
    → count id (ids es) ≤ 1
    → Listed id con es
    → Erases id con es (erase_connected id es)
unfolding erase_connected
erase_connected-Erases id con [] one l = absurd l
erase_connected-Erases id con (e ∷ es) one l = elim (Bool-cases (e.id == id)) [
  | inl here ↦
      let same : e.id ≡ id = ground arith in
      let con_same : e.con ≡ con = elim l [
        | inl p ↦ p.1
        | inr later ↦ absurd (ground (arith, Listed-counts id con es later))
      ] in
      rw here
        (record { found = refl; count_con = λ a. rw con_same refl; count_id = λ k. rw same refl })
  | inr on ↦
      let rest : Listed id con es = elim l [
        | inl p ↦ absurd (ground (arith, p.0))
        | inr later ↦ later
      ] in
      let ih = erase_connected-Erases id con es (ground arith) rest in
      rw on (record {
        found = ih.found;
        count_con = λ a. omega (arith, ih.count_con a);
        count_id = λ k. omega (arith, ih.count_id k);
      })
]
