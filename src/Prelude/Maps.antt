-- ===== src/Prelude/Maps.antt =====
-- Maps with numeric keys (`BTreeMap<u64, V>`), as functions to `Option`.
use Prim.Native.Nat.{ℕ}
use mathlib.Core.Option.{Option, none, some}
use llm_guard_proxy.Prelude.Tests.{◌==◌, if◌then◌else◌}

abbrev pub Map {ℓ} : Type ℓ → Type ℓ
Map V = ℕ → Option V

module _ {ℓ} {V : Type ℓ} where
  abbrev pub empty : Map V
  empty k = none

  abbrev pub insert : ℕ → V → Map V → Map V
  insert k v m j = if j == k then some v else m j

  abbrev pub remove : ℕ → Map V → Map V
  remove k m j = if j == k then none else m j
