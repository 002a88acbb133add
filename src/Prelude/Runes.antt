-- ===== src/Prelude/Runes.antt =====
-- A text as Go's runes: how many it has, its first ones, the rest, and the texts of a list in a row.
use Prim.Native.Nat.{ℕ, zero, suc, ◌+◌, ◌-◌, ◌≤◌}
use Prim.Native.String.{String, ◌++◌ as append}
use mathlib.Core.Path.{◌≡◌, ap, ◌∙◌}
use mathlib.Core.List.{List, [], ◌∷◌}
use text.Mathlib.TextLemmas.{nil-append, cons-append}
use native.Mathlib.Omega.{arith}

-- utf8.RuneCountInString
abbrev pub rune_count : String → ℕ
rune_count String.[] = 0
rune_count (String.◌∷◌ c s) = suc (rune_count s)

-- runes[:n] and runes[n:], up to the end
abbrev pub take_runes : ℕ → String → String
take_runes zero s = ""
take_runes (suc n) String.[] = ""
take_runes (suc n) (String.◌∷◌ c s) = String.◌∷◌ c (take_runes n s)

abbrev pub drop_runes : ℕ → String → String
drop_runes zero s = s
drop_runes (suc n) String.[] = ""
drop_runes (suc n) (String.◌∷◌ c s) = drop_runes n s

-- the texts one after the other
abbrev pub joined : List String → String
joined [] = ""
joined (s ∷ ss) = append s (joined ss)

pub rune_count-append : (s t : String) → rune_count (append s t) ≡ rune_count s + rune_count t
rune_count-append String.[] t = rw (nil-append t) (omega arith)
rune_count-append (String.◌∷◌ c s) t = rw (cons-append c s t) (omega (arith, rune_count-append s t))

pub take-drop : (n : ℕ) (s : String) → append (take_runes n s) (drop_runes n s) ≡ s
take-drop zero s = nil-append s
take-drop (suc n) String.[] = nil-append ""
take-drop (suc n) (String.◌∷◌ c s) =
    cons-append c (take_runes n s) (drop_runes n s) ∙ ap (λ t. String.◌∷◌ c t) (take-drop n s)

pub rune_count-drop : (n : ℕ) (s : String) → rune_count (drop_runes n s) ≡ rune_count s - n
rune_count-drop zero s = omega arith
rune_count-drop (suc n) String.[] = omega arith
rune_count-drop (suc n) (String.◌∷◌ c s) = omega (arith, rune_count-drop n s)

pub rune_count-take : (n : ℕ) (s : String) → rune_count (take_runes n s) ≤ n
rune_count-take zero s = omega arith
rune_count-take (suc n) String.[] = omega arith
rune_count-take (suc n) (String.◌∷◌ c s) = omega (arith, rune_count-take n s)
