-- ===== src/Tests/ConnectManagerTests.antt =====
-- src/net/connect_manager.cpp on concrete inputs.
use libnbf.Prelude.{◌≡◌, refl, [], ◌∷◌, arith, inl}
use libnbf.ConnectManager.{
  Manager, new_manager, add_connect, set_release, sweep, delete_dalay_con, has_connected,
  has_delayed, erase_connected,
}
use libnbf.ConnectManager.Kept.{IsValid, Adds, add_connect-Adds, Releases, set_release-Releases}
use libnbf.ConnectManager.Runs.{Runs, start, adds, releases, Balanced, Runs-Balanced}

abbrev empty : Manager
empty = new_manager (λ c. 0)

-- A connection is added, released, and deleted when another comes 91 seconds later.
abbrev with_one : Manager
with_one = (add_connect 500 1000 empty).2

abbrev released : Manager
released = (set_release 500 1001 with_one).1

deletes_late : (add_connect 600 1092 released).0 ≡ 500 ∷ []
unfolding new_manager add_connect set_release delete_dalay_con has_connected has_delayed
    erase_connected sweep
deletes_late = refl

run : Runs (600 ∷ 500 ∷ []) (500 ∷ []) (add_connect 600 1092 released).2
unfolding new_manager add_connect set_release delete_dalay_con has_connected has_delayed
    erase_connected sweep
run =
    adds 600 1092 _ _ released
      (releases 1 500 1001 _ _ with_one
        (adds 500 1000 _ _ empty (start (λ c. 0)) refl (omega arith)) (inl (refl, refl)))
      refl (omega arith)

Runs-Balanced_example : Balanced (600 ∷ 500 ∷ []) (500 ∷ []) (add_connect 600 1092 released).2
Runs-Balanced_example = Runs-Balanced (600 ∷ 500 ∷ []) (500 ∷ []) _ run

with_one-IsValid : IsValid with_one
unfolding new_manager
with_one-IsValid =
    (Runs-Balanced _ _ _ (adds 500 1000 _ _ empty (start (λ c. 0)) refl (omega arith))).0

set_release_run : Releases 500 1001 with_one (set_release 500 1001 with_one)
unfolding new_manager add_connect delete_dalay_con has_connected
set_release_run = set_release-Releases 1 500 1001 with_one with_one-IsValid (inl (refl, refl))

add_connect-Adds_run : Adds 501 1005 with_one (add_connect 501 1005 with_one)
unfolding new_manager add_connect delete_dalay_con has_connected
add_connect-Adds_run = add_connect-Adds 501 1005 with_one with_one-IsValid refl (omega arith)
