-- ===== src/Dashboard/History.antt =====
-- The history of a job: polls in a row with one outcome are shown as one change.
pub mod Alternating
use uade_bot.Prelude.{◌∙◌}
use uade_bot.Prelude.{ap}
use uade_bot.Prelude.{
  ℕ, zero, suc, ◌+◌, ◌≡◌, refl, String, ◌==◌, Bool, true, false, ◌&&◌, Option, none, some, List, [],
  ◌∷◌, if◌then◌else◌, leb, arith, Bool-cases, inl, inr,
}
use uade_bot.Prelude.Int.{ℤ, eqz}
use uade_bot.Dashboard.Labels.{Outcome, outcome_code}

pub record HistoryItem : Type 0 where
  pub id : ℤ
  pub recorded_at : ℤ
  pub outcome : Outcome

unfoldable pub int_ptr_equal : Option ℤ → Option ℤ → Bool
int_ptr_equal none none = true
int_ptr_equal none (some b) = false
int_ptr_equal (some a) none = false
int_ptr_equal (some a) (some b) = eqz a b

-- the comparison of two `any` that hold a text or nil
abbrev pub code_equal : Option String → Option String → Bool
code_equal none none = true
code_equal none (some b) = false
code_equal (some a) none = false
code_equal (some a) (some b) = a == b

unfoldable pub outcomes_equal : Outcome → Outcome → Bool
unfolding int_ptr_equal
outcomes_equal a b =
    code_equal a.code b.code
    && (int_ptr_equal a.vacancy_count b.vacancy_count && int_ptr_equal a.total_cupos b.total_cupos)

-- whether raw[i] repeats raw[i+1]
abbrev pub repeats : HistoryItem → List HistoryItem → Bool
repeats item [] = false
repeats item (next ∷ _) = outcomes_equal item.outcome next.outcome

-- the loop of `dedupeHistory`, with the items in `out`; it ends when they reach the limit
unfoldable pub dedupe_from : ℕ → ℕ → List HistoryItem → List HistoryItem
unfolding outcomes_equal
dedupe_from out limit [] = []
dedupe_from out limit (item ∷ raw) =
    let skipped = dedupe_from out limit raw in
    let rest = dedupe_from (out + 1) limit raw in
    if repeats item raw then skipped else item ∷ (if leb limit (out + 1) then [] else rest)

unfoldable pub dedupe_history : ℕ → List HistoryItem → List HistoryItem
unfolding dedupe_from
dedupe_history limit raw = dedupe_from 0 limit raw

abbrev pub history_display_limit : ℕ
history_display_limit = 10

-- a row of `poll_outcome_history`
pub record HistoryRow : Type 0 where
  pub id : ℤ
  pub recorded_at : ℤ
  pub outcome_code : String
  pub vacancy_count : Option ℤ
  pub total_cupos : Option ℤ

unfoldable pub items : List HistoryRow → List HistoryItem
unfolding outcome_code
items [] = []
items (r ∷ rs) =
    record {
      id = r.id;
      recorded_at = r.recorded_at;
      outcome = outcome_code r.outcome_code r.vacancy_count r.total_cupos;
    }
    ∷ items rs

-- loadHistory, of the rows that its query gives
unfoldable pub load_history : List HistoryRow → List HistoryItem
unfolding items dedupe_history
load_history rows = dedupe_history history_display_limit (items rows)

-- the items that begin a new outcome, by looking at the poll before each
unfoldable pub changes : List HistoryItem → List HistoryItem
unfolding outcomes_equal
changes [] = []
changes (item ∷ raw) = let rest = changes raw in if repeats item raw then rest else item ∷ rest

abbrev pub take : ℕ → List HistoryItem → List HistoryItem
take zero xs = []
take (suc n) [] = []
take (suc n) (x ∷ xs) = x ∷ take n xs

dedupe_from-take :
    (out left : ℕ) (raw : List HistoryItem)
    → dedupe_from out (out + suc left) raw ≡ take (suc left) (changes raw)
unfolding dedupe_from changes
dedupe_from-take out left [] = refl
dedupe_from-take out left (item ∷ raw) = elim (Bool-cases (repeats item raw)) [
  | inl same ↦ rw same (dedupe_from-take out left raw)
  | inr new ↦ rw new (at left (λ l. dedupe_from-take (out + 1) l raw))
]
  where
    at :
        (l : ℕ)
        → ((k : ℕ) → dedupe_from (out + 1) (out + 1 + suc k) raw ≡ take (suc k) (changes raw))
        → (item
            ∷ (if leb (out + suc l) (out + 1) then [] else dedupe_from (out + 1) (out + suc l) raw))
          ≡ take (suc l) (item ∷ changes raw)
    at zero rest = ground arith
    at (suc l) rest =
        let more : leb (out + suc (suc l)) (out + 1) ≡ false = ground arith in
        let same : out + suc (suc l) ≡ out + 1 + suc l = omega arith in
        rw more (ap (λ t. item ∷ t) (ap (λ k. dedupe_from (out + 1) k raw) same ∙ rest l))

-- The history that is shown, for a limit of at least one, is the first polls up to the limit among
-- those with which the outcome changed, the latest first: each whose outcome is not that of the
-- poll before it.
pub dedupe_history-take :
    (left : ℕ) (raw : List HistoryItem)
    → dedupe_history (suc left) raw ≡ take (suc left) (changes raw)
unfolding dedupe_history
dedupe_history-take left raw =
    let same : suc left ≡ 0 + suc left = omega arith in
    ap (λ k. dedupe_from 0 k raw) same ∙ dedupe_from-take 0 left raw
