-- ===== src/Prelude/Sort/Order.antt =====
-- The order of texts is total, and sorting forgets the order of a list.
use Prim.Native.Nat.{ℕ, Ordering, compare as compare_ℕ}
use Prim.Native.Char.{code}
use Prim.Native.String.{String, compare, then as lex}
use Prim.Native.String.compare as clauses
use mathlib.Core.Path.{◌≡◌, refl, ap, ap₂, ◌∙◌}
use mathlib.Core.Bool.{true, false}
use mathlib.Core.List.{List, [], ◌∷◌, Permᴰ}
use native.Mathlib.Omega.{arith}
use text.Mathlib.TextEquality.{path_by_compare}
use uade_bot.Prelude.Sort.{is_le, les, insert, sort}

abbrev flip : Ordering → Ordering
flip Ordering.lt = Ordering.gt
flip Ordering.eq = Ordering.eq
flip Ordering.gt = Ordering.lt

compare_ℕ-flip : (m n : ℕ) → compare_ℕ n m ≡ flip (compare_ℕ m n)
compare_ℕ-flip m n = ground arith

compare-flip : (s t : String) → compare t s ≡ flip (compare s t)
compare-flip String.[] String.[] = rw clauses.nil-nil refl
compare-flip String.[] (String.◌∷◌ d t) = rw (clauses.nil-cons, clauses.cons-nil) refl
compare-flip (String.◌∷◌ c s) String.[] = rw (clauses.nil-cons, clauses.cons-nil) refl
compare-flip (String.◌∷◌ c s) (String.◌∷◌ d t) =
    rw (clauses.cons-cons c d s t, clauses.cons-cons d c t s)
      (ground (arith, compare_ℕ-flip (code c) (code d), compare-flip s t))

les_total : (s t : String) → les s t ≡ false → les t s ≡ true
unfolding les
les_total s t h = ground (arith, compare-flip s t)

les_antisymm : (s t : String) → les s t ≡ true → les t s ≡ true → s ≡ t
unfolding les
les_antisymm s t h k = path_by_compare s t (ground (arith, compare-flip s t))

-- one step of the comparison of three texts
lex_trans :
    (a b c : ℕ) (x y z : Ordering)
    → (is_le x ≡ true → is_le y ≡ true → is_le z ≡ true)
    → is_le (lex (compare_ℕ a b) x) ≡ true
    → is_le (lex (compare_ℕ b c) y) ≡ true
    → is_le (lex (compare_ℕ a c) z) ≡ true
lex_trans a b c x y z h p q = ground arith

compare_trans :
    (s t u : String)
    → is_le (compare s t) ≡ true
    → is_le (compare t u) ≡ true
    → is_le (compare s u) ≡ true
compare_trans String.[] t String.[] h k = refl
compare_trans String.[] t (String.◌∷◌ e u) h k = rw clauses.nil-cons refl
compare_trans (String.◌∷◌ c s) String.[] u h k = cc (clauses.cons-nil c s)
compare_trans (String.◌∷◌ c s) (String.◌∷◌ d t) String.[] h k = cc (clauses.cons-nil d t)
compare_trans (String.◌∷◌ c s) (String.◌∷◌ d t) (String.◌∷◌ e u) h k =
    rw (clauses.cons-cons c e s u) (
      lex_trans (code c) (code d) (code e) (compare s t) (compare t u) (compare s u)
        (compare_trans s t u) (rw (clauses.cons-cons c d s t) at h)
        (rw (clauses.cons-cons d e t u) at k))

les_trans : (s t u : String) → les s t ≡ true → les t u ≡ true → les s u ≡ true
unfolding les
les_trans = compare_trans

-- Two insertions in a row commute.
insert_comm : (s t : String) (l : List String) → insert s (insert t l) ≡ insert t (insert s l)
unfolding insert
insert_comm s t [] = ground (arith, les_total s t, les_total t s, les_antisymm s t)
insert_comm s t (x ∷ l) = ground (
  arith,
  les_total s t,
  les_total t s,
  les_antisymm s t,
  les_trans s t x,
  les_trans t s x,
  insert_comm s t l,
)

-- A sorted list does not depend on the order of what is sorted.
pub sort-perm : {xs ys : List String} → Permᴰ xs ys → sort xs ≡ sort ys
unfolding sort
sort-perm Permᴰ.nil = refl
sort-perm (Permᴰ.cons {b = b} {l₁ = l} e p) =
    ap (λ x. insert x (sort l)) e ∙ ap (insert b) (sort-perm p)
sort-perm (Permᴰ.swap {a = a} {b = b} {l = l} e f) =
    insert_comm a b (sort l) ∙ ap₂ (λ x y. insert x (insert y (sort l))) f e
sort-perm (Permᴰ.trans p q) = sort-perm p ∙ sort-perm q
