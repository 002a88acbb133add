-- ===== src/Prelude/Sort.antt =====
-- `sort.Strings`: the library's result is determined by the order of the bytes, which is that of
-- `compare`; insertion sort computes it.
pub mod Order
use Prim.Native.String.{String, compare}
use Prim.Native.Nat.{Ordering}
use mathlib.Core.Bool.{Bool, true, false}
use mathlib.Core.List.{List, [], ◌∷◌}
use uade_bot.Prelude.Tests.{if◌then◌else◌}

abbrev pub is_le : Ordering → Bool
is_le Ordering.gt = false
is_le Ordering.lt = true
is_le Ordering.eq = true

-- s <= t
pub les : String → String → Bool
les s t = is_le (compare s t)

pub insert : String → List String → List String
insert s [] = s ∷ []
insert s (t ∷ ts) = if les s t then s ∷ t ∷ ts else t ∷ insert s ts

unfoldable pub sort : List String → List String
unfolding les insert
sort [] = []
sort (s ∷ ss) = insert s (sort ss)
