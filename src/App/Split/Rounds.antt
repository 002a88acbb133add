-- ===== src/App/Split/Rounds.antt =====
-- The rounds of the cutting: the count of fragments settles, and what is returned is the text.
use Prim.Native.String.{◌++◌ as append}
use uade_bot.Prelude.{
  ℕ, zero, suc, ◌+◌, ◌*◌, ◌<◌, ◌≤◌, ◌≡◌, ◌≢◌, ◌⊎◌, inl, inr, refl, sym, ap, ◌∙◌, subst, String,
  List, [], ◌∷◌, leb, eqb, length, arith, Bool-cases, eqb→eq, eqb→ne,
}
use uade_bot.Prelude.Decimal.Widths.{width, width_mono}
use uade_bot.Prelude.Runes.{rune_count, joined, rune_count-append}
use uade_bot.App.Split.{Split, contents, limit, capacity, parts, settled, rounds, split}
use uade_bot.App.Split.Fragments.{
  numbered, Fits, pieces, pieces_mono, Cut, parts-Cut, rune_count-prefix,
}

-- enough fuel for the inner loop
abbrev fuel_for : String → ℕ
fuel_for payload = suc (suc (rune_count payload))

-- the messages of a text that was cut
abbrev pub Numbered : String → String → List String → Type 0
Numbered payload first messages =
    (bodies : List String) × (messages ≡ numbered first (length bodies) 1 bodies)
    × (joined bodies ≡ payload)

abbrev Settled : String → String → Split → Type 0
Settled payload first s =
    (messages : List String) × (s ≡ contents messages)
    × Fits messages
    × Numbered payload first messages

length-numbered :
    (first : String) (expected index : ℕ) (bodies : List String)
    → length (numbered first expected index bodies) ≡ length bodies
length-numbered first expected index [] = refl
length-numbered first expected index (b ∷ bs) =
    ap suc (length-numbered first expected (suc index) bs)

-- a prefix leaves room in every fragment
abbrev pub Roomy : String → String → Type 0
Roomy payload first = rune_count first + 10 + 2 * width (rune_count payload) < limit

Roomy-capacity :
    (payload first : String) (i expected : ℕ)
    → Roomy payload first
    → i ≤ rune_count payload
    → expected ≤ rune_count payload
    → 0 < capacity first i expected
Roomy-capacity payload first i expected roomy le le' = ground (
  arith,
  rune_count-prefix first i expected,
  width_mono i (rune_count payload) le,
  width_mono expected (rune_count payload) le',
)

-- one round, of which `s` is the inner loop's result
round-Settled :
    (payload first : String) (expected : ℕ) (retry : ℕ → Split) (s : Split)
    → Cut (fuel_for payload) first expected 1 payload s
    → (let n = pieces (fuel_for payload) first expected 1 (rune_count payload) in
        n ≢ expected → n ≤ rune_count payload → Settled payload first (retry n))
    → Settled payload first (settled expected retry s)
round-Settled payload first expected retry s (bodies, e, whole, count, bound, fits) again =
    elim (Bool-cases (eqb (length bodies) expected)) [
      | inl same ↦
          let k : length bodies ≡ expected = eqb→eq (length bodies) expected same in
          (
            numbered first expected 1 bodies,
            rw (e, length-numbered first expected 1 bodies, same) refl,
            fits,
            (bodies, rw k refl, whole),
          )
      | inr other ↦
          subst (Settled payload first)
            (rw (e, length-numbered first expected 1 bodies, other) (ap retry (sym count)))
            (again (λ e. eqb→ne (length bodies) expected other (count ∙ e))
              (omega (arith, count, bound)))
    ]

rounds-Settled :
    (fuel : ℕ) (payload first : String) (expected : ℕ)
    → Roomy payload first
    → 0 < rune_count payload
    → expected ≤ rune_count payload
    → expected ≤ pieces (fuel_for payload) first expected 1 (rune_count payload)
    → rune_count payload < expected + fuel
    → Settled payload first (rounds fuel first payload expected)
unfolding rounds
rounds-Settled zero payload first expected roomy some_text small grows enough = absurd (omega arith)
rounds-Settled (suc fuel) payload first expected roomy some_text small grows enough =
    let f = fuel_for payload in
    let l = rune_count payload in
    let n = pieces f first expected 1 l in
    round-Settled payload first expected (λ n. rounds fuel first payload n)
      (parts f first expected 1 payload)
      (parts-Cut f first expected 1 payload
        (λ i h. Roomy-capacity payload first i expected roomy (omega arith) small) (omega arith)
        (λ z. absurd (omega arith)) (omega arith))
      (λ ne le.
        rounds-Settled fuel payload first n roomy some_text le
          (pieces_mono f first expected n 1 l l grows (omega arith)) (ground arith))

-- A text whose first prefix leaves room for the marks is cut in finitely many rounds and without a
-- panic. Each message has at most 2000 runes; either one message is the prefix and the text, or the
-- messages are marked with their index and their count, and what follows the marks is the text.
pub split-Numbered :
    (payload first : String)
    → Roomy payload first
    → (messages : List String) × (split payload first ≡ contents messages)
      × Fits messages
      × ((messages ≡ append first payload ∷ []) ⊎ Numbered payload first messages)
unfolding split
split-Numbered payload first roomy =
    elim (Bool-cases (leb (rune_count first + rune_count payload) limit)) [
      | inl fits ↦ (
        append first payload ∷ [],
        rw fits refl,
        (ground (arith, rune_count-append first payload), tt),
        inl refl,
      )
      | inr long ↦
          let some_text : 0 < rune_count payload = ground arith in
          let (messages, e, fits, cut) =
            rounds-Settled (suc (rune_count payload)) payload first 1 roomy some_text (omega arith)
              (ground arith) (omega arith) in
          (messages, rw long e, fits, inr cut)
    ]
