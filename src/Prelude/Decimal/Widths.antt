-- ===== src/Prelude/Decimal/Widths.antt =====
-- How many digits a number has.
use Prim.Native.Nat.{ℕ, zero, suc, ◌+◌, ◌/◌, ◌%◌, ◌≤◌, ◌<◌}
use Prim.Native.String.{String, ◌++◌ as append}
use mathlib.Core.Path.{◌≡◌, refl}
use mathlib.Core.Bool.{Bool, true, false}
use native.Mathlib.Omega.{arith}
use uade_bot.Prelude.Tests.{ltb, eqb, if◌then◌else◌}
use uade_bot.Prelude.Runes.{rune_count, rune_count-append}
use uade_bot.Prelude.Decimal.{digit, digits_before, decimal}

abbrev pub width_on : ℕ → ℕ → ℕ
width_on zero n = 0
width_on (suc fuel) n = let more = width_on fuel (n / 10) in if ltb n 10 then 1 else suc more

abbrev pub width : ℕ → ℕ
width n = width_on (suc n) n

width_on_mono : (f g a b : ℕ) → a < f → b < g → a ≤ b → width_on f a ≤ width_on g b
width_on_mono zero g a b h h' le = absurd (omega arith)
width_on_mono (suc f) zero a b h h' le = absurd (omega arith)
width_on_mono (suc f) (suc g) a b h h' le = ground (arith, width_on_mono f g (a / 10) (b / 10))

pub width_mono : (a b : ℕ) → a ≤ b → width a ≤ width b
width_mono a b le = width_on_mono (suc a) (suc b) a b (omega arith) (omega arith) le

either : (P : String → Type 0) (b : Bool) (s t : String) → P s → P t → P (if b then s else t)
either P true s t h h' = h
either P false s t h h' = h'

-- What holds of the ten digits holds of every digit.
pub digit-Holds :
    (P : String → Type 0) (n : ℕ)
    → P "0"
    → P "1"
    → P "2"
    → P "3"
    → P "4"
    → P "5"
    → P "6"
    → P "7"
    → P "8"
    → P "9"
    → P (digit n)
unfolding digit
digit-Holds P n h0 h1 h2 h3 h4 h5 h6 h7 h8 h9 = either P (eqb n 0) "0" _ h0 (
    either P (eqb n 1) "1" _ h1 (
      either P (eqb n 2) "2" _ h2 (
        either P (eqb n 3) "3" _ h3 (
          either P (eqb n 4) "4" _ h4 (
            either P (eqb n 5) "5" _ h5 (
              either P (eqb n 6) "6" _ h6
                (either P (eqb n 7) "7" _ h7 (either P (eqb n 8) "8" "9" h8 h9))))))))

rune_count-digit : (n : ℕ) → rune_count (digit n) ≡ 1
rune_count-digit n =
    digit-Holds (λ s. rune_count s ≡ 1) n refl refl refl refl refl refl refl refl refl refl

rune_count-digits_before :
    (fuel n : ℕ) (rest : String)
    → rune_count (digits_before fuel n rest) ≡ width_on fuel n + rune_count rest
unfolding digits_before
rune_count-digits_before zero n rest = omega arith
rune_count-digits_before (suc fuel) n rest = ground (
  arith,
  rune_count-digits_before fuel (n / 10) (append (digit (n % 10)) rest),
  rune_count-append (digit (n % 10)) rest,
  rune_count-append (digit n) rest,
  rune_count-digit n,
  rune_count-digit (n % 10),
)

pub rune_count-decimal : (n : ℕ) → rune_count (decimal n) ≡ width n
unfolding decimal
rune_count-decimal n = ground (arith, rune_count-digits_before (suc n) n "")
