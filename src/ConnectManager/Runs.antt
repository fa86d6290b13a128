-- ===== src/ConnectManager/Runs.antt =====
-- Runs of a server's manager of connections.
use libnbf.Prelude.{
  ℕ, ◌+◌, ◌^◌, ◌<◌, ◌≡◌, refl, false, List, [], ◌∷◌, ◌++◌, ◌==◌, Bool-cases, inl, inr, arith,
}
use libnbf.ConnectManager.{
  Connected, Manager, new_manager, add_connect, set_release, has_connected, erase_connected,
}
use libnbf.ConnectManager.Counts.{count, count-append, Listed}
use libnbf.ConnectManager.Kept.{IsValid, live, add_connect-Adds, set_release-Releases}

-- What AddConnect and SetRelease make of a new manager, at any times: the connections added, and those
-- deleted. A connection is added where it is in neither map and the counter of ids has not run out. It
-- is released where it is connected, or where its id is that of no connected one, as when it has been
-- released before.
pub data Runs : List ℕ → List ℕ → Manager → Type 0 where
  start : (unset : ℕ → ℕ) → Runs [] [] (new_manager unset)
  adds :
      (con now : ℕ) (came gone : List ℕ) (m : Manager)
      → Runs came gone m
      → live m con ≡ 0
      → m.connect_squency + 1 < 2 ^ 63
      → Runs (con ∷ came) ((add_connect con now m).0 ++ gone) (add_connect con now m).2
  releases :
      (id con now : ℕ) (came gone : List ℕ) (m : Manager)
      → Runs came gone m
      → Listed id con m.connected_list
      → Runs came gone (set_release con now m).1
  refuses :
      (con now : ℕ) (came gone : List ℕ) (m : Manager)
      → Runs came gone m
      → has_connected (m.connect_id con) m.connected_list ≡ false
      → Runs came gone (set_release con now m).1

not_erased :
    (id : ℕ) (es : List Connected)
    → has_connected id es ≡ false
    → erase_connected id es ≡ (false, es)
unfolding has_connected erase_connected
not_erased id [] e = refl
not_erased id (x ∷ es) e = elim (Bool-cases (x.id == id)) [
  | inl here ↦ cc (rw here at e)
  | inr on ↦ rw on (rw (not_erased id es (rw on at e)) refl)
]

-- SetRelease of a connection whose id is not connected changes nothing.
set_release-refused :
    (con now : ℕ) (m : Manager)
    → has_connected (m.connect_id con) m.connected_list ≡ false
    → set_release con now m ≡ (false, m)
unfolding set_release
set_release-refused con now m e = rw (not_erased (m.connect_id con) m.connected_list e) refl

abbrev pub Balanced : List ℕ → List ℕ → Manager → Type 0
Balanced came gone m = IsValid m × ((a : ℕ) → count a gone + live m a ≡ count a came)

new-IsValid : (unset : ℕ → ℕ) → IsValid (new_manager unset)
unfolding new_manager
new-IsValid unset = record {
  once = λ k. omega arith;
  given = λ k h. omega arith;
  own = λ id con l. absurd l;
  positive = omega arith;
}

-- In every run of AddConnect and SetRelease on a new manager, at any times, that adds only connections
-- that stand in neither map, while the counter of ids has not run out, and that releases only connected
-- connections or ones whose id is that of no connected one, a connection has been deleted and stands in
-- the maps together as often as it was added: none is lost, and none is deleted twice.
pub Runs-Balanced : (came gone : List ℕ) (m : Manager) → Runs came gone m → Balanced came gone m
unfolding new_manager
Runs-Balanced came gone m (start unset) = (new-IsValid unset, λ a. omega arith)
Runs-Balanced came gone m (adds con now before gone' m' r none_live room) =
    let ih = Runs-Balanced before gone' m' r in
    let step = add_connect-Adds con now m' ih.0 none_live room in
    (
      step.valid,
      λ a. omega (arith, ih.1 a, step.kept a, count-append a (add_connect con now m').0 gone'),
    )
Runs-Balanced came gone m (releases id con now before gone' m' r l) =
    let ih = Runs-Balanced before gone' m' r in
    let step = set_release-Releases id con now m' ih.0 l in
    (step.valid, λ a. omega (arith, ih.1 a, step.kept a))
Runs-Balanced came gone m (refuses con now before gone' m' r free) =
    rw (set_release-refused con now m' free) (Runs-Balanced before gone' m' r)
