-- ===== src/Uade/Delta.antt =====
-- internal/uade/delta.go: the partial updates of a WebForms page, nodes `length|type|id|content|`.
-- A text is the list of its code points. The slice of runes is followed in memory by `spare` zero
-- runes of its capacity, which Go's slicing may reach; how many is up to Go's runtime.
pub mod Total
pub mod Indices
use uade_bot.Prelude.{
  ℕ, zero, suc, ◌+◌, ◌-◌, ◌*◌, ◌^◌, String, Bool, true, false, ◌&&◌, ◌||◌, not, Option, none, some,
  List, [], ◌∷◌, ◌++◌, if◌then◌else◌, ltb, leb, eqb, length,
}
use uade_bot.Prelude.Bytes.{utf8}
use uade_bot.Prelude.Trim.{is_space}
use uade_bot.Prelude.Int.{ℤ, pos, negsuc, ltz, lez, two63}

abbrev pub Text : Type 0
Text = List ℕ

-- DeltaPanel and HiddenField
pub record Field : Type 0 where
  pub name : Text
  pub value : Text

pub record Delta : Type 0 where
  pub panels : List Field
  pub hidden : List Field

abbrev pub nothing : Delta
nothing = record { panels = []; hidden = [] }

-- The failures by the source's names, without the prefix `delta_`.
pub data Failure : Type 0 where
  invalid_limits too_large too_many_nodes missing_delimiter invalid_length truncated error
        redirect :
      Failure

pub data Parsed : Type 0 where
  parsed : Delta → Parsed
  failed : Failure → Parsed
  panics : Parsed

-- len(text), in bytes
unfoldable pub byte_length : Text → ℕ
unfolding utf8
byte_length [] = 0
byte_length (c ∷ cs) = length (utf8 c) + byte_length cs

-- strings.TrimSpace(text) == ""
unfoldable pub is_blank : Text → Bool
unfolding is_space
is_blank [] = true
is_blank (c ∷ cs) = is_space c && is_blank cs

-- strings.IndexRune(text, '|'), which is an index in bytes
abbrev later : ℕ → Option ℕ → Option ℕ
later n none = none
later n (some i) = some (n + i)

unfoldable pub index_bar : Text → Option ℕ
unfolding utf8
index_bar [] = none
index_bar (c ∷ cs) =
    let rest = index_bar cs in if eqb c b'|' then some 0 else later (length (utf8 c)) rest

unfoldable pub take : ℕ → Text → Text
take zero cs = []
take (suc n) [] = []
take (suc n) (c ∷ cs) = c ∷ take n cs

unfoldable pub drop : ℕ → Text → Text
drop zero cs = cs
drop (suc n) [] = []
drop (suc n) (c ∷ cs) = drop n cs

unfoldable pub zeros : ℕ → Text
zeros zero = []
zeros (suc n) = 0 ∷ zeros n

-- What slicing and the closure `read` answer. `past` is a cursor behind the end of `chars`.
pub data Read : Type 0 where
  missing : Read
  out_of_range : Read
  got : Text → Text → Read
  past : Text → Read

-- chars[cur : cur+i], where `cs` is chars[cur:], and the cursor behind the delimiter
unfoldable pub sliced : ℕ → Text → ℕ → Read
unfolding take drop zeros
sliced spare cs i =
    if ltb i (length cs)
    then got (take i cs) (drop (suc i) cs)
    else if leb i (length cs + spare)
    then past (take i (cs ++ zeros spare))
    else out_of_range

-- the closure `read`
abbrev read_at : ℕ → Text → Option ℕ → Read
read_at spare cs none = missing
read_at spare cs (some i) = sliced spare cs i

unfoldable pub read : ℕ → Text → Read
unfolding sliced index_bar
read spare cs = read_at spare cs (index_bar cs)

-- strconv.Atoi: a sign, digits, and the range of `int`; `none` is its error
unfoldable pub digits : ℕ → Text → Option ℕ
digits n [] = some n
digits n (c ∷ cs) = if leb b'0' c && leb c b'9' then digits (n * 10 + (c - b'0')) cs else none

abbrev in_range : Bool → Option ℕ → Option ℤ
in_range minus none = none
in_range false (some n) = if ltb n two63 then some (pos n) else none
in_range true (some zero) = some (pos 0)
in_range true (some (suc n)) = if ltb n two63 then some (negsuc n) else none

abbrev unsigned : Bool → Text → Option ℤ
unsigned minus [] = none
unsigned minus (c ∷ cs) = in_range minus (digits 0 (c ∷ cs))

unfoldable pub atoi : Text → Option ℤ
unfolding digits
atoi [] = none
atoi (c ∷ cs) =
    if eqb c b'-'
    then unsigned true cs
    else if eqb c b'+'
    then unsigned false cs
    else unsigned false (c ∷ cs)

unfoldable pub same : Text → Text → Bool
same [] [] = true
same (c ∷ cs) (d ∷ ds) = eqb c d && same cs ds
same _ _ = false

-- "error", "pageRedirect", "updatePanel", "hiddenField"
abbrev pub error_type : Text
error_type = b'e' ∷ b'r' ∷ b'r' ∷ b'o' ∷ b'r' ∷ []

abbrev pub redirect_type : Text
redirect_type =
    b'p' ∷ b'a' ∷ b'g' ∷ b'e' ∷ b'R' ∷ b'e' ∷ b'd' ∷ b'i' ∷ b'r' ∷ b'e' ∷ b'c' ∷ b't' ∷ []

abbrev pub panel_type : Text
panel_type = b'u' ∷ b'p' ∷ b'd' ∷ b'a' ∷ b't' ∷ b'e' ∷ b'P' ∷ b'a' ∷ b'n' ∷ b'e' ∷ b'l' ∷ []

abbrev pub hidden_type : Text
hidden_type = b'h' ∷ b'i' ∷ b'd' ∷ b'd' ∷ b'e' ∷ b'n' ∷ b'F' ∷ b'i' ∷ b'e' ∷ b'l' ∷ b'd' ∷ []

-- the last switch for a node that goes into the result, or is passed over
unfoldable pub keep : Text → Text → Text → Delta → Delta
unfolding same
keep typ id content out =
    if same typ panel_type
    then record out { panels = out.panels ++ record { name = id; value = content } ∷ [] }
    else if same typ hidden_type
    then record out { hidden = out.hidden ++ record { name = id; value = content } ∷ [] }
    else out

-- What the loop answers: `none` is no more fuel, `panics` an index out of range.
abbrev pub Answer : Type 0
Answer = Option Parsed

-- the length field, which may not be negative
abbrev pub length_of : Option ℤ → Option ℕ
length_of none = none
length_of (some (pos n)) = some n
length_of (some (negsuc n)) = none

-- the switch on the type, after the content and its delimiter
abbrev closed : Text → Text → Text → Delta → (Text → Delta → Answer) → Text → Answer
closed typ id content out again [] = some (failed missing_delimiter)
closed typ id content out again (c ∷ rest) =
    if not (eqb c b'|')
    then some (failed missing_delimiter)
    else if same typ error_type
    then some (failed error)
    else if same typ redirect_type
    then some (failed redirect)
    else again rest (keep typ id content out)

-- the end of a round; a cursor behind the end leaves less than no content
abbrev content_of : ℕ → Text → Read → Delta → (Text → Delta → Answer) → Answer
content_of n typ missing out again = some (failed missing_delimiter)
content_of n typ out_of_range out again = some panics
content_of n typ (past id) out again = some (failed truncated)
content_of n typ (got id cs) out again =
    if ltb (length cs) n
    then some (failed truncated)
    else closed typ id (take n cs) out again (drop n cs)

-- the fields id and type; chars[cur:] is out of range for a cursor behind the end
abbrev id_of : ℕ → ℕ → Read → Delta → (Text → Delta → Answer) → Answer
id_of spare n missing out again = some (failed missing_delimiter)
id_of spare n out_of_range out again = some panics
id_of spare n (past typ) out again = some panics
id_of spare n (got typ cs) out again = content_of n typ (read spare cs) out again

abbrev type_of : ℕ → Option ℕ → Text → Delta → (Text → Delta → Answer) → Answer
type_of spare none cs out again = some (failed invalid_length)
type_of spare (some n) cs out again = id_of spare n (read spare cs) out again

abbrev past_type : Option ℕ → Answer
past_type none = some (failed invalid_length)
past_type (some n) = some panics

-- a round of the loop, after the tests at its head
abbrev node : ℕ → Read → Delta → (Text → Delta → Answer) → Answer
node spare missing out again = some (failed missing_delimiter)
node spare out_of_range out again = some panics
node spare (past lt) out again = past_type (length_of (atoi lt))
node spare (got lt cs) out again = type_of spare (length_of (atoi lt)) cs out again

-- the loop, on fuel; `n` counts the nodes
unfoldable pub nodes : ℕ → ℕ → ℤ → ℕ → Text → Delta → Answer
unfolding read atoi keep
nodes spare zero limit n cs out = none
nodes spare (suc fuel) limit n cs out =
    let round =
      node spare (read spare cs) out (λ rest next. nodes spare fuel limit (n + 1) rest next) in
    if is_blank cs
    then some (parsed out)
    else if lez limit (pos n)
    then some (failed too_many_nodes)
    else round

-- ParseDelta
unfoldable pub parse_delta : ℕ → Text → ℤ → ℤ → Answer
unfolding nodes byte_length is_blank
parse_delta spare text max_nodes max_chars =
    if ltz max_nodes (pos 0) || ltz max_chars (pos 0)
    then some (failed invalid_limits)
    else if ltz max_chars (pos (byte_length text))
    then some (failed too_large)
    else nodes spare (length text + 1) max_nodes 0 text nothing
