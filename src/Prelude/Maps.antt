-- ===== src/Prelude/Maps.antt =====
-- `HashMap<String, V>`, whose operations the sources use by key only, as a function of the key.
use Prim.Native.String.{String}
use mathlib.Core.Option.{Option, none, some}
use text.Mathlib.Text.{◌==◌}
use lazybones.Prelude.Tests.{if◌then◌else◌}

abbrev pub Map {ℓ} : Type ℓ → Type ℓ
Map V = String → Option V

module _ {ℓ} {V : Type ℓ} where
  abbrev pub empty_map : Map V
  empty_map k = none

  abbrev pub insert : String → V → Map V → Map V
  insert k v m j = if k == j then some v else m j

  abbrev pub remove : String → Map V → Map V
  remove k m j = if k == j then none else m j
