-- ===== src/Uade/Delta/Total.antt =====
-- Every text gets an answer, and one of ASCII characters never panics.
use uade_bot.Prelude.{
  ℕ, zero, suc, ◌+◌, ◌-◌, ◌<◌, ◌≡◌, refl, Bool, true, false, not, ◌||◌, Option, none, some, [], ◌∷◌,
  if◌then◌else◌, ltb, leb, eqb, length, All, arith, Bool-cases, inl, inr,
}
use uade_bot.Prelude.Bytes.{utf8}
use uade_bot.Prelude.Int.{ℤ, pos, ltz, lez}
use uade_bot.Uade.Delta.{
  Text, Delta, Failure, Parsed, parsed, failed, panics, Answer, Read, missing, out_of_range, got,
  past, take, drop, index_bar, sliced, read, later, atoi, length_of, closed, content_of, id_of,
  type_of, past_type, node, nodes, is_blank, parse_delta, same, keep, error_type, redirect_type,
  read_at, missing_delimiter, truncated, invalid_length, error, redirect, too_many_nodes,
  byte_length, nothing, too_large, invalid_limits,
}

abbrev pub Ascii : Text → Type 0
Ascii = All (λ c. c < 128)

abbrev pub is_panic : Parsed → Bool
is_panic panics = true
is_panic _ = false

-- an answer that is no panic where `A` holds
abbrev Answers : Type 0 → Answer → Type 0
Answers A a = (r : Parsed) × (a ≡ some r) × (A → is_panic r ≡ false)

-- what a read of `cs` leaves: less than `k`, and no cursor behind the end where `A` holds
abbrev Leaves : Type 0 → ℕ → Read → Type 0
Leaves A k missing = Unit
Leaves A k out_of_range = A → ⊥
Leaves A k (past v) = A → ⊥
Leaves A k (got v rest) = (length rest < k) × (A → Ascii rest)

length-drop : (n : ℕ) (cs : Text) → length (drop n cs) ≡ length cs - n
unfolding drop
length-drop zero cs = omega arith
length-drop (suc n) [] = omega arith
length-drop (suc n) (c ∷ cs) = omega (arith, length-drop n cs)

drop-Ascii : (n : ℕ) (cs : Text) → Ascii cs → Ascii (drop n cs)
unfolding drop
drop-Ascii zero cs h = h
drop-Ascii (suc n) [] h = h
drop-Ascii (suc n) (c ∷ cs) h = drop-Ascii n cs h.1

index_bar-below : (cs : Text) (i : ℕ) → Ascii cs → index_bar cs ≡ some i → i < length cs
unfolding index_bar utf8
index_bar-below [] i a e = cc
index_bar-below (c ∷ cs) i a e = behind (index_bar cs) (λ j. index_bar-below cs j a.1) e
  where
    behind :
        (o : Option ℕ)
        → ((j : ℕ) → o ≡ some j → j < length cs)
        → (if eqb c b'|' then some 0 else later (length (utf8 c)) o) ≡ some i
        → i < suc (length cs)
    behind none h e = ground arith
    behind (some j) h e = ground (arith, h j refl, a.0)

sliced-Leaves :
    (spare : ℕ) (cs : Text) (i : ℕ)
    → (Ascii cs → i < length cs)
    → Leaves (Ascii cs) (length cs) (sliced spare cs i)
unfolding sliced
sliced-Leaves spare cs i h = elim (Bool-cases (ltb i (length cs))) [
  | inl inside ↦ rw inside (ground (arith, length-drop (suc i) cs), λ a. drop-Ascii (suc i) cs a)
  | inr outside ↦ elim (Bool-cases (leb i (length cs + spare))) [
    | inl room ↦ rw (outside, room) (λ a. ground (arith, h a))
    | inr over ↦ rw (outside, over) (λ a. ground (arith, h a))
  ]
]

read-Leaves : (spare : ℕ) (cs : Text) → Leaves (Ascii cs) (length cs) (read spare cs)
unfolding read
read-Leaves spare cs = at (index_bar cs) (λ i a. index_bar-below cs i a)
  where
    at :
        (o : Option ℕ)
        → ((i : ℕ) → Ascii cs → o ≡ some i → i < length cs)
        → Leaves (Ascii cs) (length cs) (read_at spare cs o)
    at none h = tt
    at (some i) h = sliced-Leaves spare cs i (λ a. h i a refl)

module _ (A : Type 0) (k : ℕ) (again : Text → Delta → Answer)
    (next : (rest : Text) (d : Delta)
      → length rest < k
      → (A → Ascii rest)
      → Answers A (again rest d)) where
  fails : (f : Failure) → Answers A (some (failed f))
  fails f = (failed f, refl, λ _. refl)

  closed-Answers :
      (typ id content : Text) (out : Delta) (cs : Text)
      → length cs < k
      → (A → Ascii cs)
      → Answers A (closed typ id content out again cs)
  closed-Answers typ id content out [] l a = fails missing_delimiter
  closed-Answers typ id content out (c ∷ rest) l a = elim (Bool-cases (not (eqb c b'|'))) [
    | inl other ↦ rw other (fails missing_delimiter)
    | inr bar ↦ elim (Bool-cases (same typ error_type)) [
      | inl e ↦ rw (bar, e) (fails error)
      | inr e ↦ elim (Bool-cases (same typ redirect_type)) [
        | inl r ↦ rw (bar, e, r) (fails redirect)
        | inr r ↦
            rw (bar, e, r) (next rest (keep typ id content out) (omega (arith, l)) (λ x. (a x).1))
      ]
    ]
  ]

  content_of-Answers :
      (n : ℕ) (typ : Text) (r : Read) (out : Delta)
      → Leaves A k r
      → Answers A (content_of n typ r out again)
  content_of-Answers n typ missing out h = fails missing_delimiter
  content_of-Answers n typ out_of_range out h = (panics, refl, λ a. absurd (h a))
  content_of-Answers n typ (past v) out h = fails truncated
  content_of-Answers n typ (got id cs) out h = elim (Bool-cases (ltb (length cs) n)) [
    | inl short ↦ rw short (fails truncated)
    | inr long ↦ rw long (
        closed-Answers typ id (take n cs) out (drop n cs) (omega (arith, length-drop n cs, h.0))
          (λ a. drop-Ascii n cs (h.1 a)))
  ]

  -- a read of what is left leaves less still
  further : (spare : ℕ) (cs : Text) → length cs < k → (A → Ascii cs) → Leaves A k (read spare cs)
  further spare cs l a = weaken (read spare cs) (read-Leaves spare cs)
    where
      weaken : (r : Read) → Leaves (Ascii cs) (length cs) r → Leaves A k r
      weaken missing h = tt
      weaken out_of_range h = λ x. h (a x)
      weaken (past v) h = λ x. h (a x)
      weaken (got v rest) h = (omega (arith, h.0), λ x. h.1 (a x))

  id_of-Answers :
      (spare n : ℕ) (r : Read) (out : Delta) → Leaves A k r → Answers A (id_of spare n r out again)
  id_of-Answers spare n missing out h = fails missing_delimiter
  id_of-Answers spare n out_of_range out h = (panics, refl, λ a. absurd (h a))
  id_of-Answers spare n (past v) out h = (panics, refl, λ a. absurd (h a))
  id_of-Answers spare n (got typ cs) out h =
      content_of-Answers n typ (read spare cs) out (further spare cs h.0 h.1)

  node-Answers :
      (spare : ℕ) (r : Read) (out : Delta) → Leaves A k r → Answers A (node spare r out again)
  node-Answers spare missing out h = fails missing_delimiter
  node-Answers spare out_of_range out h = (panics, refl, λ a. absurd (h a))
  node-Answers spare (past v) out h = behind (length_of (atoi v))
    where
      behind : (o : Option ℕ) → Answers A (past_type o)
      behind none = fails invalid_length
      behind (some n) = (panics, refl, λ a. absurd (h a))
  node-Answers spare (got lt cs) out h = typed (length_of (atoi lt))
    where
      typed : (o : Option ℕ) → Answers A (type_of spare o cs out again)
      typed none = fails invalid_length
      typed (some n) = id_of-Answers spare n (read spare cs) out (further spare cs h.0 h.1)

nodes-Answers :
    (A : Type 0) (spare fuel : ℕ) (limit : ℤ) (n : ℕ) (cs : Text) (out : Delta)
    → length cs < fuel
    → (A → Ascii cs)
    → Answers A (nodes spare fuel limit n cs out)
unfolding nodes
nodes-Answers A spare zero limit n cs out l a = elim l [ ]
nodes-Answers A spare (suc fuel) limit n cs out l a = elim (Bool-cases (is_blank cs)) [
  | inl blank ↦ rw blank (parsed out, refl, λ _. refl)
  | inr more ↦ elim (Bool-cases (lez limit (pos n))) [
    | inl over ↦ rw (more, over) (failed too_many_nodes, refl, λ _. refl)
    | inr fine ↦
        let again : Text → Delta → Answer = λ rest d. nodes spare fuel limit (n + 1) rest d in
        let next : (rest : Text) (d : Delta)
            → length rest < fuel
            → (A → Ascii rest)
            → Answers A (again rest d) =
          λ rest d shorter b. nodes-Answers A spare fuel limit (n + 1) rest d shorter b in
        rw (more, fine)
          (node-Answers A fuel again next spare (read spare cs) out
            (lowered (read spare cs) (read-Leaves spare cs)))
  ]
]
  where
    lowered : (r : Read) → Leaves (Ascii cs) (length cs) r → Leaves A fuel r
    lowered missing h = tt
    lowered out_of_range h = λ x. h (a x)
    lowered (past v) h = λ x. h (a x)
    lowered (got v rest) h = (omega (arith, h.0, l), λ x. h.1 (a x))

parse_delta-Answers :
    (A : Type 0) (spare : ℕ) (text : Text) (max_nodes max_chars : ℤ)
    → (A → Ascii text)
    → Answers A (parse_delta spare text max_nodes max_chars)
unfolding parse_delta
parse_delta-Answers A spare text max_nodes max_chars a =
    elim (Bool-cases (ltz max_nodes (pos 0) || ltz max_chars (pos 0))) [
      | inl bad ↦ rw bad (failed invalid_limits, refl, λ _. refl)
      | inr good ↦ elim (Bool-cases (ltz max_chars (pos (byte_length text)))) [
        | inl large ↦ rw (good, large) (failed too_large, refl, λ _. refl)
        | inr small ↦
            rw (good, small)
              (nodes-Answers A spare (length text + 1) max_nodes 0 text nothing (omega arith) a)
      ]
    ]

-- Let a text have only ASCII characters. Then ParseDelta answers it without a panic.
pub parse_delta-Ascii :
    (spare : ℕ) (text : Text) (max_nodes max_chars : ℤ)
    → Ascii text
    → (r : Parsed) × (parse_delta spare text max_nodes max_chars ≡ some r) × (is_panic r ≡ false)
parse_delta-Ascii spare text max_nodes max_chars a =
    let (r, e, q) = parse_delta-Answers Unit spare text max_nodes max_chars (λ _. a) in (r, e, q tt)
