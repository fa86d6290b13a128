-- ===== src/Prelude/Memory.antt =====
-- Memory as a function from addresses (or array slots) to what stands there.
use Prim.Native.Nat.{ℕ}
use libnbf.Prelude.Tests.{◌==◌, if◌then◌else◌}

-- A write of `v` at `i`.
abbrev pub update {ℓ} : {A : Type ℓ} → (ℕ → A) → ℕ → A → ℕ → A
update f i v j = if j == i then v else f j
