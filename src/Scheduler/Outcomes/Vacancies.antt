-- ===== src/Scheduler/Outcomes/Vacancies.antt =====
-- Announcements of vacancies, where the scheduler keeps its state in memory.
use uade_bot.Prelude.{not}
use uade_bot.Prelude.{not}
use mathlib.Core.List.{Permᴰ}
use mathlib.Core.Path.{ap₂}
use uade_bot.Prelude.{ℕ, ◌≡◌, refl, ap, ◌∙◌, String, true, List, arith, if◌then◌else◌, join}
use uade_bot.Prelude.Sort.Order.{sort-perm}
use uade_bot.Prelude.Int.{ℤ, pos, ltz, lez}
use uade_bot.Scheduler.Types.{Vacancy, Event, NotificationState}
use uade_bot.Scheduler.Ports.{Act}
use uade_bot.Scheduler.Outcomes.{keys, max_cupos, vacancy_key, vacancy_fingerprint}

keys-perm : {xs ys : List Vacancy} → Permᴰ xs ys → Permᴰ (keys xs) (keys ys)
unfolding keys
keys-perm Permᴰ.nil = Permᴰ.nil
keys-perm (Permᴰ.cons e p) = Permᴰ.cons (ap vacancy_key e) (keys-perm p)
keys-perm (Permᴰ.swap e f) = Permᴰ.swap (ap vacancy_key e) (ap vacancy_key f)
keys-perm (Permᴰ.trans p q) = Permᴰ.trans (keys-perm p) (keys-perm q)

abbrev maxz : ℤ → ℤ → ℤ
maxz m c = if ltz m c then c else m

maxz_comm : (m c d : ℤ) → maxz (maxz m c) d ≡ maxz (maxz m d) c
maxz_comm m c d = ground arith

max_cupos-perm : (m : ℤ) {xs ys : List Vacancy} → Permᴰ xs ys → max_cupos m xs ≡ max_cupos m ys
unfolding max_cupos
max_cupos-perm m Permᴰ.nil = refl
max_cupos-perm m (Permᴰ.cons {b = b} {l₁ = l} e p) =
    ap (λ (v : Vacancy). max_cupos (maxz m v.cupos) l) e ∙ max_cupos-perm (maxz m b.cupos) p
max_cupos-perm m (Permᴰ.swap {a = a} {b = b} {l = l} e f) =
    ap (λ k. max_cupos k l) (maxz_comm m a.cupos b.cupos)
    ∙ ap₂ (λ (v w : Vacancy). max_cupos (maxz (maxz m v.cupos) w.cupos) l) f e
max_cupos-perm m (Permᴰ.trans p q) = max_cupos-perm m p ∙ max_cupos-perm m q

-- The fingerprint of the vacancies, the key and the largest number of places, does not depend on
-- the order in which UADE lists them.
pub vacancy_fingerprint-perm :
    {xs ys : List Vacancy} → Permᴰ xs ys → vacancy_fingerprint xs ≡ vacancy_fingerprint ys
unfolding vacancy_fingerprint
vacancy_fingerprint-perm p =
    ap₂ (λ ks m. (join "\n" ks, m)) (sort-perm (keys-perm p)) (max_cupos-perm (pos 0) p)

module _ {W : Type 0} (now : W → ℕ) (digest : List ℕ → String) (n : Event → Act W Unit) where
  -- what the last notification of a job has already said
  abbrev Covers : NotificationState → String × ℤ → Type 0
  Covers s f = (s.vacancy_key ≡ f.0) × (lez f.1 s.max_cupos ≡ true)
