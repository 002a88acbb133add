-- ===== src/Prelude/Maps.antt =====
-- A Go map with a zero value for missing keys, whose keys the program never counts or iterates
-- over: a total function. `update` is `m[k] = v`, and with the zero value it is `delete(m, k)`.
use Prim.Native.String.{String}
use mathlib.Core.Path.{◌≡◌}
use mathlib.Core.Logic.{◌≢◌}
use text.Mathlib.Text.{◌==◌}
use text.Mathlib.TextPositions.{eq_refl}
use uade_bot.Prelude.Tests.{if◌then◌else◌, ==-false}

abbrev pub Map {ℓ} : Type ℓ → Type ℓ
Map V = String → V

module _ {ℓ} {V : Type ℓ} where
  abbrev pub update : Map V → String → V → Map V
  update m k v j = if k == j then v else m j

  pub update_self : (m : Map V) (k : String) (v : V) → update m k v k ≡ v
  update_self m k v = rw (eq_refl k)

  pub update_ne : (m : Map V) (k j : String) (v : V) → k ≢ j → update m k v j ≡ m j
  update_ne m k j v h = rw (==-false k j h)
