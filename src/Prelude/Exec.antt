-- ===== src/Prelude/Exec.antt =====
-- Go functions that return `(T, error)`, may panic, and change state. What was written before an
-- error or a panic stays written, so the state comes back beside these too.

use mathlib.Core.Path.{◌≡◌, refl}
use mathlib.Core.Bool.{Bool, true, false, not}
use uade_bot.Prelude.Tests.{if◌then◌else◌}

pub data Result {ℓ} (E A : Type ℓ) : Type ℓ where
  ok : A → Result E A
  err : E → Result E A
  panic : Result E A

abbrev pub Exec {ℓ} : Type ℓ → Type ℓ → Type ℓ → Type ℓ
Exec E S A = S → Result E A × S

module _ {ℓ} {E S A : Type ℓ} where
  abbrev pub pure : A → Exec E S A
  pure a s = (ok a, s)

  abbrev pub fail : E → Exec E S A
  fail e s = (err e, s)

  abbrev pub lift : Result E A → Exec E S A
  lift r s = (r, s)

module _ {ℓ} {E S A B : Type ℓ} where
  abbrev pub continue : Result E A → (A → Exec E S B) → Exec E S B
  continue (ok a) f s = f a s
  continue (err e) f s = (err e, s)
  continue panic f s = (panic, s)

  infixl 5 ◌>>=◌ ◌>>◌
  abbrev pub ◌>>=◌ : Exec E S A → (A → Exec E S B) → Exec E S B
  ◌>>=◌ m f s = let (r, s') = m s in continue r f s'

  abbrev pub ◌>>◌ : Exec E S A → Exec E S B → Exec E S B
  m >> n = m >>= λ _. n

-- A property of every continuation's end, of errors and of panics is one of the composition's end.
pub after_bind :
    {E A B S : Type 0} (P : Result E B × S → Type 0)
    → ((e : E) (s : S) → P (err e, s))
    → ((s : S) → P (panic, s))
    → (m : Exec E S A) (f : A → Exec E S B) (s : S) → ((a : A) (s' : S) → P (f a s'))
    → P ((m >>= f) s)
after_bind {E} {A} {B} {S} P on_err on_panic m f s h = ends (m s)
  where
    ends : (r : Result E A × S) → P (let (r, s') = r in continue r f s')
    ends (ok a, s') = h a s'
    ends (err e, s') = on_err e s'
    ends (panic, s') = on_panic s'

pub after_guard :
    {E B S : Type 0} (P : Result E B × S → Type 0)
    → (b : Bool) (m n : Exec E S B) (s : S) → P (m s)
    → P (n s)
    → P ((if not b then m else n) s)
after_guard P true m n s h h' = h'
after_guard P false m n s h h' = h

pub >>=-assoc :
    {E A B C S : Type 0} (m : Exec E S A) (f : A → Exec E S B) (g : B → Exec E S C) (s : S)
    → ((m >>= f) >>= g) s ≡ (m >>= λ a. (f a >>= g)) s
>>=-assoc {E} {A} {B} {C} {S} m f g s = ends (m s)
  where
    ends :
        (r : Result E A × S)
        → (let (b, s') = (let (a, s'') = r in continue a f s'') in continue b g s')
          ≡ (let (a, s') = r in continue a (λ a. (f a >>= g)) s')
    ends (ok a, s') = refl
    ends (err e, s') = refl
    ends (panic, s') = refl
