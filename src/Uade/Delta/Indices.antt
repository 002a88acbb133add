-- ===== src/Uade/Delta/Indices.antt =====
-- A field with a character beyond ASCII: the code takes the index in bytes for one in characters.
use uade_bot.Prelude.Trim.{is_space}
use uade_bot.Prelude.{ℕ, ◌+◌, ◌≤◌, ◌≡◌, some, [], ◌∷◌, arith}
use uade_bot.Prelude.Bytes.{utf8}
use uade_bot.Prelude.Int.{pos}
use uade_bot.Uade.Delta.{
  Text, panics, parse_delta, nodes, read, sliced, index_bar, take, drop, zeros, atoi, digits,
  is_blank, byte_length,
}

-- the node of length 1 with a type of one character
abbrev pub short_node : ℕ → Text
short_node c = b'1' ∷ b'|' ∷ c ∷ b'|' ∷ []

-- For every character beyond ASCII, and limits that admit the text: ParseDelta panics on
-- `1|c|`; the memory behind the characters
-- makes no difference.
pub parse_delta-panics :
    (spare c m n : ℕ)
    → 128 ≤ c
    → byte_length (short_node c) ≤ n
    → parse_delta spare (short_node c) (pos (m + 1)) (pos n) ≡ some panics
unfolding parse_delta nodes read sliced index_bar take drop zeros atoi digits is_blank is_space
    byte_length utf8
parse_delta-panics spare c m n beyond room = ground (arith, beyond, room)
