-- ===== src/Parser/Fields.antt =====
-- The splitting of f-strings, parser/fstring.go, on the bytes of a literal.
pub mod Exact
pub mod Parts
pub mod Nested
use minipy.Base.{
  ℕ, zero, suc, ◌+◌, ◌-◌, Bool, true, false, ◌&&◌, ◌||◌, not, List, [], ◌∷◌, ◌++◌, Option, none,
  some, if◌then◌else◌, Bytes, ◌==◌, length, ltb, take,
}

-- The depth of braces behind a byte.
abbrev pub brace_depth : ℕ → ℕ → ℕ
brace_depth c depth = if c == b'{' then suc depth else if c == b'}' then depth - 1 else depth

abbrev push : ℕ → Option (Bytes × Bytes) → Option (Bytes × Bytes)
push c none = none
push c (some (body, rest)) = some (c ∷ body, rest)

-- `fstringField`: the body of a field, and what follows its closing brace.
unfoldable pub field_end : ℕ → Bytes → Option (Bytes × Bytes)
field_end depth [] = none
field_end depth (c ∷ cs) =
    let rest = field_end (brace_depth c depth) cs in
    if c == b'}' && depth == 0 then some ([], cs) else push c rest

-- `comparisonEq`, given the byte in front and the bytes behind.
abbrev starts_eq : Bytes → Bool
starts_eq [] = false
starts_eq (c ∷ cs) = c == b'='

abbrev is_operator_start : ℕ → Bool
is_operator_start c = (c == b'=' || c == b'!') || (c == b'<' || c == b'>') || c == b':'

unfoldable pub comparison_eq : Option ℕ → Bytes → Bool
comparison_eq none cs = starts_eq cs
comparison_eq (some b) cs = starts_eq cs || is_operator_start b

-- The indices that the loop of `splitFStringField` finds; `none` for -1. `opens` brackets are opened,
-- and `closes` closed.
pub record Marks : Type 0 where
  pub colon : Option ℕ
  pub bang : Option ℕ
  pub eq : Option ℕ
  pub opens : ℕ
  pub closes : ℕ

abbrev is_none : Option ℕ → Bool
is_none none = true
is_none (some _) = false

abbrev is_opening : ℕ → Bool
is_opening c = (c == b'(' || c == b'[') || c == b'{'

abbrev is_closing : ℕ → Bool
is_closing c = (c == b')' || c == b']') || c == b'}'

abbrev is_empty : Bytes → Bool
is_empty [] = true
is_empty (_ ∷ _) = false

-- Depth 0, with no colon found.
abbrev is_outside : Marks → Bool
is_outside m = m.opens == m.closes && is_none m.colon

unfoldable pub mark : ℕ → Option ℕ → ℕ → Bytes → Marks → Marks
unfolding comparison_eq
mark i before c cs m =
    if is_opening c
    then record m { opens = suc m.opens }
    else if is_closing c
    then record m { closes = suc m.closes }
    else if c == b':'
    then (if is_outside m && not (starts_eq cs) then record m { colon = some i } else m)
    else if c == b'!'
    then (if is_outside m && not (is_empty cs) && not (starts_eq cs)
        then record m { bang = some i }
        else m)
    else if c == b'='
    then (if is_outside m && is_none m.bang && not (comparison_eq before cs)
        then record m { eq = some i }
        else m)
    else m

unfoldable pub marks : ℕ → Option ℕ → Bytes → Marks → Marks
unfolding mark
marks i before [] m = m
marks i before (c ∷ cs) m = marks (suc i) (some c) cs (mark i before c cs m)

abbrev pub no_marks : Marks
no_marks = record { colon = none; bang = none; eq = none; opens = 0; closes = 0 }

-- What follows the byte at an index.
unfoldable pub behind : ℕ → Bytes → Bytes
behind n [] = []
behind zero (c ∷ cs) = cs
behind (suc n) (c ∷ cs) = behind n cs

unfoldable pub earlier : Option ℕ → ℕ → ℕ
earlier none n = n
earlier (some p) n = if ltb p n then p else n

pub record Field : Type 0 where
  pub expression : Bytes
  pub debug : Bytes
  pub conversion : ℕ
  pub format : Bytes

abbrev or_else : Option ℕ → ℕ → ℕ
or_else none n = n
or_else (some p) n = p

abbrev debug_of : Marks → Bytes → Bytes
debug_of m body =
    if is_none m.eq then [] else take (or_else m.bang (or_else m.colon (length body))) body

abbrev head_or_zero : Bytes → ℕ
head_or_zero [] = 0
head_or_zero (c ∷ cs) = c

abbrev conversion_of : Option ℕ → Bytes → ℕ
conversion_of none body = 0
conversion_of (some p) body = head_or_zero (behind p body)

abbrev pub format_of : Option ℕ → Bytes → Bytes
format_of none body = []
format_of (some p) body = behind p body

-- `splitFStringField`, where `trim` is `strings.TrimSpace`.
unfoldable pub split_field : (Bytes → Bytes) → Bytes → Field
unfolding marks behind earlier
split_field trim body =
    let m = marks 0 none body no_marks in
    record {
      expression = trim (take (earlier m.colon (earlier m.bang (earlier m.eq (length body)))) body);
      debug = debug_of m body;
      conversion = conversion_of m.bang body;
      format = format_of m.colon body;
    }
