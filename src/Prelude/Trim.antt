-- ===== src/Prelude/Trim.antt =====
-- strings.TrimSpace and strings.Split.
use Prim.Native.Nat.{ℕ}
use Prim.Native.Char.{Char, code}
use Prim.Native.String.{String}
use mathlib.Core.Bool.{Bool, ◌&&◌, ◌||◌}
use mathlib.Core.List.{List, [], ◌∷◌}
use uade_bot.Prelude.Tests.{if◌then◌else◌, leb, eqb}

-- unicode.IsSpace
unfoldable pub is_space : ℕ → Bool
is_space c =
    (leb 9 c && leb c 13)
    || (eqb c 32
        || (eqb c 0x85
            || (eqb c 0xa0
                || (eqb c 0x1680
                    || ((leb 0x2000 c && leb c 0x200a)
                        || (eqb c 0x2028
                            || (eqb c 0x2029
                                || (eqb c 0x202f || (eqb c 0x205f || eqb c 0x3000)))))))))

-- strings.TrimSpace
abbrev trim_left : String → String
trim_left String.[] = ""
trim_left (String.◌∷◌ c s) =
    let rest = trim_left s in if is_space (code c) then rest else String.◌∷◌ c s

abbrev keep_end : Char → String → String
keep_end c String.[] = if is_space (code c) then "" else String.◌∷◌ c ""
keep_end c (String.◌∷◌ d s) = String.◌∷◌ c (String.◌∷◌ d s)

abbrev trim_right : String → String
trim_right String.[] = ""
trim_right (String.◌∷◌ c s) = keep_end c (trim_right s)

unfoldable pub trim_space : String → String
unfolding is_space
trim_space s = trim_right (trim_left s)

-- the text before the first comma, with what comes after that
abbrev onto : Char → List String → List String
onto c [] = String.◌∷◌ c "" ∷ []
onto c (s ∷ ss) = String.◌∷◌ c s ∷ ss

-- strings.Split(s, ",")
unfoldable pub split_commas : String → List String
split_commas String.[] = "" ∷ []
split_commas (String.◌∷◌ c s) =
    let rest = split_commas s in if eqb (code c) b',' then "" ∷ rest else onto c rest
