-- ===== src/App/Messages/Escapes.antt =====
-- Reading an escaped text back, where an unescaped mark of Markdown or a mention has no reading.
use Prim.Native.Char.{Char, code}
use Prim.Native.String.{◌++◌ as append}
use text.Mathlib.TextEquality.{Char-path}
use text.Mathlib.TextLemmas.{nil-append, cons-append}
use uade_bot.Prelude.{
  ℕ, ◌≡◌, refl, sym, ap, ◌∙◌, String, Bool, true, false, ◌||◌, Option, none, some, if◌then◌else◌,
  eqb, Bool-cases, eqb→eq, inl, inr, arith,
}
use uade_bot.App.Messages.{escape_discord_text, escaped}

-- after a backslash, after an `@`, or after neither
pub data Mode : Type 0 where
  plain quoted after_at : Mode

-- the characters that format a text: * _ ~ ` | > [ ]
abbrev formats : ℕ → Bool
formats c =
    eqb c 42
    || (eqb c 95
        || (eqb c 126 || (eqb c 96 || (eqb c 124 || (eqb c 62 || (eqb c 91 || eqb c 93))))))

abbrev then_char : Char → Option String → Option String
then_char c none = none
then_char c (some s) = some (String.◌∷◌ c s)

-- The literal text: a backslash gives the next character, an `@` has to be followed by a zero-width
-- space, and a character that formats has to follow a backslash.
unfoldable pub literal : Mode → String → Option String
literal plain String.[] = some ""
literal quoted String.[] = none
literal after_at String.[] = none
literal quoted (String.◌∷◌ c s) = then_char c (literal plain s)
literal after_at (String.◌∷◌ c s) =
    let rest = literal plain s in if eqb (code c) 8203 then rest else none
literal plain (String.◌∷◌ c s) =
    let next = literal quoted s in
    let mention = literal after_at s in
    let rest = literal plain s in
    if eqb (code c) b'\\'
    then next
    else if eqb (code c) b'@'
    then then_char c mention
    else if formats (code c)
    then none
    else then_char c rest

at_sign : (c : Char) → eqb (code c) b'@' ≡ true → "@" ≡ c
at_sign c e = Char-path "@" c (sym (eqb→eq (code c) b'@' e))

no_backslash :
    (c : Char)
    → escaped (code c) ≡ false
    → (eqb (code c) b'\\' ≡ false) × (formats (code c) ≡ false)
no_backslash c e = (ground arith, ground arith)

literal-quote :
    (c : Char) (rest : String)
    → literal plain (append "\\" (String.◌∷◌ c rest)) ≡ then_char c (literal plain rest)
unfolding literal
literal-quote c rest =
    rw (cons-append "\\" "" (String.◌∷◌ c rest), nil-append (String.◌∷◌ c rest)) refl

literal-at :
    (rest : String) → literal plain (append "@\u{200b}" rest) ≡ then_char "@" (literal plain rest)
unfolding literal
literal-at rest =
    rw (cons-append "@" "\u{200b}" rest, cons-append "\u{200b}" "" rest, nil-append rest) refl

literal-plain :
    (c : Char) (rest : String)
    → (eqb (code c) b'\\' ≡ false) × (formats (code c) ≡ false)
    → eqb (code c) b'@' ≡ false
    → literal plain (String.◌∷◌ c rest) ≡ then_char c (literal plain rest)
unfolding literal
literal-plain c rest e e' = rw (e.0, e', e.1) refl

nothing_read : literal plain "" ≡ some ""
unfolding literal
nothing_read = refl

-- A text that was escaped for Discord holds no * _ ~ ` | > [ or ] that does not follow a backslash
-- and no @ that is not followed by a zero-width space, and read so it is the text as it was, every
-- character of it.
pub literal-escape : (s : String) → literal plain (escape_discord_text s) ≡ some s
unfolding escape_discord_text
literal-escape String.[] = nothing_read
literal-escape (String.◌∷◌ c s) = elim (Bool-cases (escaped (code c))) [
  | inl e ↦ rw e (literal-quote c (escape_discord_text s) ∙ ap (then_char c) (literal-escape s))
  | inr e ↦ elim (Bool-cases (eqb (code c) b'@')) [
    | inl at ↦
        rw (e, at)
          (literal-at (escape_discord_text s)
            ∙ ap (then_char "@") (literal-escape s)
            ∙ ap (λ d. some (String.◌∷◌ d s)) (at_sign c at))
    | inr other ↦
        rw (e, other)
          (literal-plain c (escape_discord_text s) (no_backslash c e) other
            ∙ ap (then_char c) (literal-escape s))
  ]
]
