-- ===== src/App/Split.antt =====
-- splitNotificationContent of internal/app/runtime.go, which cuts a text into messages of at most
-- 2000 runes. A panic is a value, and the two loops run on fuel.
use Prim.Native.String.{◌++◌ as append}
use uade_bot.Prelude.{
  ℕ, zero, suc, ◌+◌, ◌-◌, String, ◌==◌, Bool, true, false, ◌&&◌, not, List, [], ◌∷◌, if◌then◌else◌,
  leb, eqb, length,
}
use uade_bot.Prelude.Decimal.{decimal}
use uade_bot.Prelude.Runes.{rune_count, take_runes, drop_runes}
pub mod Fragments
pub mod Rounds

abbrev pub limit : ℕ
limit = 2000

pub data Split : Type 0 where
  contents : List String → Split
  panics : Split
  unfinished : Split  -- out of fuel

unfoldable pub mark : ℕ → ℕ → String
unfolding decimal
mark index expected =
    append "⟦parte " (append (decimal index) (append "/" (append (decimal expected) "⟧\n")))

abbrev pub prefix : String → ℕ → ℕ → String
prefix first index expected =
    if eqb index 1 then append first (mark index expected) else mark index expected

abbrev pub capacity : String → ℕ → ℕ → ℕ
capacity first index expected = limit - rune_count (prefix first index expected)

abbrev pub before : String → Split → Split
before content (contents rest) = contents (content ∷ rest)
before content panics = panics
before content unfinished = unfinished

-- the inner loop, from an index and what follows the position
unfoldable pub parts : ℕ → String → ℕ → ℕ → String → Split
unfolding mark
parts zero first expected index rest = unfinished
parts (suc fuel) first expected index rest =
    let room = capacity first index expected in
    let others = parts fuel first expected (suc index) (drop_runes room rest) in
    if eqb (rune_count rest) 0 && not (eqb index 1)
    then contents []
    else if eqb room 0
    then panics
    else before (append (prefix first index expected) (take_runes room rest)) others

abbrev pub settled : ℕ → (ℕ → Split) → Split → Split
settled expected retry (contents cs) =
    if eqb (length cs) expected then contents cs else retry (length cs)
settled expected retry panics = panics
settled expected retry unfinished = unfinished

-- the outer loop
unfoldable pub rounds : ℕ → String → String → ℕ → Split
unfolding parts
rounds zero first payload expected = unfinished
rounds (suc fuel) first payload expected =
    settled expected (λ n. rounds fuel first payload n)
      (parts (suc (suc (rune_count payload))) first expected 1 payload)

unfoldable pub split : String → String → Split
unfolding rounds
split payload first =
    if leb (rune_count first + rune_count payload) limit
    then contents (append first payload ∷ [])
    else rounds (suc (rune_count payload)) first payload 1
