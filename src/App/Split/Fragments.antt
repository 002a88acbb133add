-- ===== src/App/Split/Fragments.antt =====
-- What the fragments of a text are: each fits, and without their prefixes they are the text again.
use Prim.Native.String.{◌++◌ as append}
use uade_bot.Prelude.{
  ℕ, zero, suc, ◌+◌, ◌-◌, ◌<◌, ◌≤◌, ◌≡◌, ◌≢◌, inl, inr, refl, sym, ap, ◌∙◌, subst, String, true,
  false, List, [], ◌∷◌, if◌then◌else◌, eqb, length, arith, All, Bool-cases,
}
use uade_bot.Prelude.Decimal.{decimal}
use uade_bot.Prelude.Decimal.Widths.{width, width_mono, rune_count-decimal}
use uade_bot.Prelude.Runes.{
  rune_count, take_runes, drop_runes, joined, rune_count-append, rune_count-drop, rune_count-take,
  take-drop,
}
use uade_bot.App.Split.{Split, contents, limit, mark, prefix, capacity, before, parts}

-- the fragments of some bodies, from an index
abbrev pub numbered : String → ℕ → ℕ → List String → List String
numbered first expected index [] = []
numbered first expected index (b ∷ bs) =
    append (prefix first index expected) b ∷ numbered first expected (suc index) bs

abbrev pub Fits : List String → Type 0
Fits = All (λ content. rune_count content ≤ limit)

abbrev pub head_room : String → ℕ → ℕ
head_room first index = if eqb index 1 then rune_count first else 0

rune_count-mark :
    (index expected : ℕ) → rune_count (mark index expected) ≡ 10 + width index + width expected
unfolding mark
rune_count-mark index expected =
    rw
      (
        rune_count-append "⟦parte "
            (append (decimal index) (append "/" (append (decimal expected) "⟧\n"))),
        rune_count-append (decimal index) (append "/" (append (decimal expected) "⟧\n")),
        rune_count-append "/" (append (decimal expected) "⟧\n"),
        rune_count-append (decimal expected) "⟧\n",
        rune_count-decimal index,
        rune_count-decimal expected,
      )
      (omega arith)

pub rune_count-prefix :
    (first : String) (index expected : ℕ)
    → rune_count (prefix first index expected)
      ≡ head_room first index + (10 + width index + width expected)
rune_count-prefix first index expected =
    ground (arith, rune_count-mark index expected, rune_count-append first (mark index expected))

capacity_mono :
    (first : String) (index a b : ℕ) → a ≤ b → capacity first index b ≤ capacity first index a
capacity_mono first index a b le =
    omega
      (arith, rune_count-prefix first index a, rune_count-prefix first index b, width_mono a b le)

-- how many fragments the inner loop makes of `n` runes
abbrev pub pieces : ℕ → String → ℕ → ℕ → ℕ → ℕ
pieces zero first expected index n = 0
pieces (suc fuel) first expected index n =
    let others = pieces fuel first expected (suc index) (n - capacity first index expected) in
    if eqb n 0 then 0 else suc others

pub pieces_mono :
    (fuel : ℕ) (first : String) (a b index n m : ℕ)
    → a ≤ b
    → n ≤ m
    → pieces fuel first a index n ≤ pieces fuel first b index m
pieces_mono zero first a b index n m le le' = omega arith
pieces_mono (suc fuel) first a b index n m le le' = ground (
  arith,
  pieces_mono fuel first a b (suc index) (n - capacity first index a) (m - capacity first index b)
      le,
  capacity_mono first index a b le,
)

-- what the inner loop has made of `rest`
abbrev pub Cut : ℕ → String → ℕ → ℕ → String → Split → Type 0
Cut fuel first expected index rest s =
    (bodies : List String) × (s ≡ contents (numbered first expected index bodies))
    × (joined bodies ≡ rest)
    × (length bodies ≡ pieces fuel first expected index (rune_count rest))
    × (length bodies ≤ rune_count rest)
    × Fits (numbered first expected index bodies)

Cut-more :
    (fuel : ℕ) (first : String) (expected index : ℕ) (rest : String) (others : Split)
    → rune_count rest ≢ 0
    → 0 < capacity first index expected
    → (let room = capacity first index expected in
        Cut fuel first expected (suc index) (drop_runes room rest) others)
    → (let room = capacity first index expected in
        Cut
          (suc fuel)
          first
          expected
          index
          rest
          (before (append (prefix first index expected) (take_runes room rest)) others))
Cut-more fuel first expected index rest others some_left room
      (bodies, e, whole, count, bound, fits) =
    let n = capacity first index expected in
    let content = append (prefix first index expected) (take_runes n rest) in
    let left : rune_count (drop_runes n rest) ≡ rune_count rest - n = rune_count-drop n rest in
    (
      take_runes n rest ∷ bodies,
      ap (before content) e,
      ap (append (take_runes n rest)) whole ∙ take-drop n rest,
      ground (arith, count, left),
      ground (arith, bound, left),
      (
        omega (
          arith,
          rune_count-append (prefix first index expected) (take_runes n rest),
          rune_count-take n rest,
          room,
        ),
        fits,
      ),
    )

rune_count-nil : (s : String) → rune_count s ≡ 0 → s ≡ ""
rune_count-nil String.[] h = refl
rune_count-nil (String.◌∷◌ c s) h = absurd (omega arith)

parts_done :
    (fuel : ℕ) (first : String) (expected index : ℕ) (rest : String)
    → rune_count rest ≡ 0
    → 1 < index
    → parts (suc fuel) first expected index rest ≡ contents []
unfolding parts
parts_done fuel first expected index rest z later_on =
    let e : eqb (rune_count rest) 0 ≡ true = ground arith in
    let e' : eqb index 1 ≡ false = ground arith in rw (e, e') refl

parts_step :
    (fuel : ℕ) (first : String) (expected index : ℕ) (rest : String)
    → rune_count rest ≢ 0
    → 0 < capacity first index expected
    → let room = capacity first index expected in
      parts (suc fuel) first expected index rest
      ≡ before
          (append (prefix first index expected) (take_runes room rest))
          (parts fuel first expected (suc index) (drop_runes room rest))
unfolding parts
parts_step fuel first expected index rest some_left room =
    let e : eqb (rune_count rest) 0 ≡ false = ground arith in
    let e' : eqb (capacity first index expected) 0 ≡ false = ground arith in rw (e, e') refl

pub parts-Cut :
    (fuel : ℕ) (first : String) (expected index : ℕ) (rest : String)
    → ((i : ℕ) → i < index + rune_count rest → 0 < capacity first i expected)
    → rune_count rest < fuel
    → (rune_count rest ≡ 0 → 1 < index)
    → 0 < index
    → Cut fuel first expected index rest (parts fuel first expected index rest)
parts-Cut zero first expected index rest room enough starts from_one = absurd (omega arith)
parts-Cut (suc fuel) first expected index rest room enough starts from_one =
    elim (Bool-cases (eqb (rune_count rest) 0)) [
      | inl e ↦
          let z : rune_count rest ≡ 0 = ground arith in
          (
            [],
            parts_done fuel first expected index rest z (starts z),
            sym (rune_count-nil rest z),
            rw e refl,
            omega arith,
            tt,
          )
      | inr ne ↦
          let n = capacity first index expected in
          let some_left : rune_count rest ≢ 0 = ground arith in
          let room_here : 0 < n = room index (ground arith) in
          let left : rune_count (drop_runes n rest) ≡ rune_count rest - n =
            rune_count-drop n rest in
          subst (Cut (suc fuel) first expected index rest)
            (sym (parts_step fuel first expected index rest some_left room_here))
            (Cut-more fuel first expected index rest
              (parts fuel first expected (suc index) (drop_runes n rest)) some_left room_here
              (parts-Cut fuel first expected (suc index) (drop_runes n rest)
                (λ i h. room i (omega (arith, h, left, room_here, some_left))) (omega (arith, left))
                (λ _. omega arith) (omega arith)))
    ]
