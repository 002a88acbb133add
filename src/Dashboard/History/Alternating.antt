-- ===== src/Dashboard/History/Alternating.antt =====
-- The entries of the history that is shown.
use uade_bot.Prelude.{
  ℕ, zero, suc, ◌≤◌, ◌≡◌, refl, ap, ◌∙◌, String, true, false, Option, none, some, List, [], ◌∷◌,
  length, arith, Bool-cases, inl, inr, eq_iff,
}
use uade_bot.Prelude.Int.{ℤ, pos, negsuc}
use uade_bot.Dashboard.Labels.{Outcome}
use uade_bot.Dashboard.History.{
  HistoryItem, int_ptr_equal, code_equal, outcomes_equal, repeats, changes, take, dedupe_history,
  dedupe_history-take,
}

int_ptr_equal-path : (a b : Option ℤ) → int_ptr_equal a b ≡ true → a ≡ b
unfolding int_ptr_equal
int_ptr_equal-path none none e = refl
int_ptr_equal-path none (some b) e = cc
int_ptr_equal-path (some a) none e = cc
int_ptr_equal-path (some (pos m)) (some (pos n)) e = ap (λ k. some (pos k)) (ground arith)
int_ptr_equal-path (some (pos m)) (some (negsuc n)) e = cc
int_ptr_equal-path (some (negsuc m)) (some (pos n)) e = cc
int_ptr_equal-path (some (negsuc m)) (some (negsuc n)) e = ap (λ k. some (negsuc k)) (ground arith)

code_equal-path : (a b : Option String) → code_equal a b ≡ true → a ≡ b
code_equal-path none none e = refl
code_equal-path none (some b) e = cc
code_equal-path (some a) none e = cc
code_equal-path (some a) (some b) e = ap some ((eq_iff a b).0 e)

-- equal outcomes compare alike
outcomes_equal_right :
    (a b c : Outcome) → outcomes_equal a b ≡ true → outcomes_equal c b ≡ outcomes_equal c a
unfolding outcomes_equal
outcomes_equal_right a b c e =
    let code : code_equal a.code b.code ≡ true = ground arith in
    let count : int_ptr_equal a.vacancy_count b.vacancy_count ≡ true = ground arith in
    let total : int_ptr_equal a.total_cupos b.total_cupos ≡ true = ground arith in
    rw
      (
        code_equal-path a.code b.code code,
        int_ptr_equal-path a.vacancy_count b.vacancy_count count,
        int_ptr_equal-path a.total_cupos b.total_cupos total,
      )
      refl

-- no two items in a row have one outcome
abbrev pub Alternates : List HistoryItem → Type 0
Alternates [] = Unit
Alternates (item ∷ items) = (repeats item items ≡ false) × Alternates items

-- to repeat a list of polls is to repeat the first change among them
repeats-changes :
    (item : HistoryItem) (raw : List HistoryItem) → repeats item (changes raw) ≡ repeats item raw
unfolding changes
repeats-changes item [] = refl
repeats-changes item (next ∷ raw) = elim (Bool-cases (repeats next raw)) [
  | inl same ↦ rw same (repeats-changes item raw ∙ earlier raw same)
  | inr new ↦ rw new refl
]
  where
    earlier :
        (rest : List HistoryItem)
        → repeats next rest ≡ true
        → repeats item rest ≡ outcomes_equal item.outcome next.outcome
    earlier [] e = cc
    earlier (last ∷ _) e = outcomes_equal_right next.outcome last.outcome item.outcome e

changes-Alternates : (raw : List HistoryItem) → Alternates (changes raw)
unfolding changes
changes-Alternates [] = tt
changes-Alternates (item ∷ raw) = elim (Bool-cases (repeats item raw)) [
  | inl same ↦ rw same (changes-Alternates raw)
  | inr new ↦ rw new (repeats-changes item raw ∙ new, changes-Alternates raw)
]

take-Alternates : (n : ℕ) (xs : List HistoryItem) → Alternates xs → Alternates (take n xs)
take-Alternates zero xs h = tt
take-Alternates (suc n) [] h = tt
take-Alternates (suc zero) (x ∷ xs) h = (refl, tt)
take-Alternates (suc (suc n)) (x ∷ []) h = (refl, tt)
take-Alternates (suc (suc n)) (x ∷ y ∷ xs) h = (h.0, take-Alternates (suc n) (y ∷ xs) h.1)

length-take : (n : ℕ) (xs : List HistoryItem) → length (take n xs) ≤ n
length-take zero xs = omega arith
length-take (suc n) [] = omega arith
length-take (suc n) (x ∷ xs) = omega (arith, length-take n xs)

-- The history that is shown, for a limit of at least one, is not longer than the limit, and no two
-- of its entries in a row have the same code and the same counts.
pub dedupe_history-Alternates :
    (left : ℕ) (raw : List HistoryItem)
    → Alternates (dedupe_history (suc left) raw)
      × (length (dedupe_history (suc left) raw) ≤ suc left)
dedupe_history-Alternates left raw = rw (dedupe_history-take left raw) (
  take-Alternates (suc left) (changes raw) (changes-Alternates raw),
  length-take (suc left) (changes raw),
)
