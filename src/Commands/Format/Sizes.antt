-- ===== src/Commands/Format/Sizes.antt =====
-- Discord's bounds: the size of an administrator's list in bytes, and of a choice in runes.
use Prim.Native.Char.{code}
use Prim.Native.String.{◌++◌ as append}
use text.Mathlib.TextLemmas.{nil-append, cons-append}
use uade_bot.Prelude.{
  ℕ, zero, suc, ◌+◌, ◌-◌, ◌/◌, ◌%◌, ◌≤◌, ◌≡◌, refl, sym, ap, ◌∙◌, String, List, [], ◌∷◌, ◌++◌, ltb,
  leb, eqb, length, length-append, arith, Bool-cases, inl, inr, join, append_assoc,
}
use uade_bot.Prelude.Bytes.{bytes, utf8}
use uade_bot.Prelude.Decimal.{decimal, digit, digits_before}
use uade_bot.Prelude.Decimal.Widths.{width, width_on, width_mono, digit-Holds}
use uade_bot.Prelude.Runes.{rune_count, take_runes, rune_count-append, rune_count-take}
use uade_bot.Commands.Format.{fitting, truncate_admin_list, truncate_choice_name}

pub bytes-append : (s t : String) → bytes (append s t) ≡ bytes s ++ bytes t
unfolding bytes
bytes-append String.[] t = rw (nil-append t) refl
bytes-append (String.◌∷◌ c s) t =
    rw (cons-append c s t, bytes-append s t)
      (sym (append_assoc (utf8 (code c)) (bytes s) (bytes t)))

abbrev pub size : String → ℕ
size s = length (bytes s)

size-append : (s t : String) → size (append s t) ≡ size s + size t
size-append s t = ap length (bytes-append s t) ∙ length-append (bytes s) (bytes t)

-- A choice's name has at most 100 runes.
pub truncate_choice_name-short : (value : String) → rune_count (truncate_choice_name value) ≤ 100
unfolding truncate_choice_name
truncate_choice_name-short value =
    ground (arith, rune_count-append (take_runes 99 value) "…", rune_count-take 99 value)

fitting-size :
    (built : String) (shown : ℕ) (lines : List String)
    → size built ≤ 1850
    → size (fitting built shown lines).0 ≤ 1850
unfolding fitting
fitting-size built shown [] h = h
fitting-size built shown (line ∷ lines) h =
    elim (Bool-cases (ltb 1850 (size built + (size line + 1)))) [
      | inl over ↦ rw over h
      | inr fits ↦ elim (Bool-cases (eqb (size built) 0)) [
        | inl first ↦ rw (fits, first) (fitting-size line (suc shown) lines (ground arith))
        | inr more ↦
            rw (fits, more)
              (fitting-size (append built (append "\n" line)) (suc shown) lines
                (ground (arith, size-append built (append "\n" line), size-append "\n" line)))
      ]
    ]

size-digit : (n : ℕ) → size (digit n) ≡ 1
unfolding bytes
size-digit n = digit-Holds (λ s. size s ≡ 1) n refl refl refl refl refl refl refl refl refl refl

size-digits_before :
    (fuel n : ℕ) (rest : String) → size (digits_before fuel n rest) ≡ width_on fuel n + size rest
unfolding digits_before
size-digits_before zero n rest = omega arith
size-digits_before (suc fuel) n rest = ground (
  arith,
  size-digits_before fuel (n / 10) (append (digit (n % 10)) rest),
  size-append (digit (n % 10)) rest,
  size-append (digit n) rest,
  size-digit n,
  size-digit (n % 10),
)

size-decimal : (n : ℕ) → size (decimal n) ≡ width n
unfolding decimal bytes
size-decimal n = size-digits_before (suc n) n "" ∙ omega arith

abbrev suffix : String
suffix = " mas (no entran en un solo mensaje)._"

size-suffix : (size "\n_...y " ≡ 7) × (size suffix ≡ 37)
unfolding bytes
size-suffix = (refl, refl)

size-marked :
    (text : String) (n : ℕ)
    → size (append text (append "\n_...y " (append (decimal n) suffix)))
      ≡ size text + (7 + (width n + 37))
size-marked text n =
    rw
      (
        size-append text (append "\n_...y " (append (decimal n) suffix)),
        size-append "\n_...y " (append (decimal n) suffix),
        size-append (decimal n) suffix,
        size-decimal n,
        size-suffix.0,
        size-suffix.1,
      )
      refl

size-nil : size "" ≡ 0
unfolding bytes
size-nil = refl

-- An administrator's list takes at most 1900 bytes and the digits of the number of its lines.
pub truncate_admin_list-short :
    (lines : List String) → size (truncate_admin_list lines) ≤ 1900 + width (length lines)
unfolding truncate_admin_list
truncate_admin_list-short lines = elim (Bool-cases (leb (size (join "\n" lines)) 1900)) [
  | inl short ↦ rw short (ground arith)
  | inr long ↦
      let shown = (fitting "" 0 lines).1 in
      rw (long, size-marked (fitting "" 0 lines).0 (length lines - shown))
        (omega (
          arith,
          fitting-size "" 0 lines (omega (arith, size-nil)),
          width_mono (length lines - shown) (length lines) (omega arith),
        ))
]
