-- ===== src/Parser/Patterns.antt =====
-- Patterns, from `parsePatterns` to `parseMappingPattern`. The loops that collect elements keep the
-- index of the first starred one.
pub mod Agree
use minipy.Base.{
  ℕ, Bool, true, false, ◌&&◌, ◌||◌, not, List, [], ◌∷◌, ◌++◌, Option, none, some, if◌then◌else◌,
  Bytes, bytes_eq, length,
}
use minipy.Token.{TokenType, Pos, Token, type_eq}
use minipy.Token.Errors.{Code, Message}
use minipy.Parser.Ast
use minipy.Parser.Ast.{Expr}
use minipy.Parser.Ast.Stmts.{
  Pattern, star_pattern, wildcard, capture, value_pattern, sequence, mapping, class_pattern,
  as_pattern, of_patterns,
}
use minipy.Parser.Ast.Stmts
use minipy.Parser.State.{
  Parser, Action, return, ◌>>=◌, ◌>>◌, accept, accept_if, choose, at, next_at, current, report,
  expect, skip, Turn, again, over, loop,
}
use minipy.Parser.Grammar.{Env, Grammar}
use minipy.Parser.Displays.{at_close}
use minipy.Parser.Operators.{atom}
use minipy.Parser.Suite.{Suite, accept_name, is_word}

pub record Elems : Type 0 where
  pub elems : List Pattern
  pub star : Option ℕ
  pub comma : Bool

-- `star = len(elems)` at the first starred element.
abbrev star_of : Pattern → ℕ → Option ℕ → Option ℕ
star_of (star_pattern _ _) n none = some n
star_of _ n star = star

abbrev add_elem : Elems → Pattern → Elems
add_elem found p = record found {
  elems = found.elems ++ p ∷ [];
  star = star_of p (length found.elems) found.star;
}

abbrev no_elems : Elems
no_elems = record { elems = []; star = none; comma = false }

-- The arguments of a class pattern.
pub record ClassArgs : Type 0 where
  pub args : List Pattern
  pub kw_names : List Bytes
  pub kw : List Pattern

abbrev no_class_args : ClassArgs
no_class_args = record { args = []; kw_names = []; kw = [] }

pub record Pairs : Type 0 where
  pub keys : List Expr
  pub values : List Pattern
  pub rest : Bytes

abbrev no_pairs : Pairs
no_pairs = record { keys = []; values = []; rest = [] }

-- The tokens at which a pattern is a value, and the signs of numbers.
unfoldable pub at_value : Parser → Bool
at_value s =
    (at TokenType.none_word s || at TokenType.true_word s)
    || (at TokenType.false_word s || at TokenType.int s)
    || (at TokenType.float s || at TokenType.string s)
    || at TokenType.fstring s

unfoldable pub sign : TokenType → Option TokenType
sign TokenType.minus = some TokenType.minus
sign TokenType.plus = some TokenType.plus
sign _ = none

-- The end of `parseOrPattern` without `as`, and that of `parseSequencePattern`.
abbrev alternatives : Pos → List Pattern → Pattern
alternatives p (alt ∷ []) = alt
alternatives p alts = Stmts.or_pattern p (of_patterns alts)

abbrev finish_sequence : Pos → TokenType → Elems → Pattern
finish_sequence p opening found = group found.elems
  where
    group : List Pattern → Pattern
    group (e ∷ []) =
        if type_eq opening TokenType.lparen && not found.comma
        then e
        else sequence p (of_patterns (e ∷ [])) found.star
    group es = sequence p (of_patterns es) found.star

unfoldable pub invalid : Action Pattern
invalid = do
  t ← current
  report t.pos Code.syntax_error (Message.invalid_pattern t.type)
  skip
  return (wildcard t.pos)

module _ (env : Env) (g : Grammar) (r : Suite) where
  -- `parseSeqElem`, whose or-pattern may be called where no token is consumed.
  unfoldable pub seq_elem : Action Pattern → Action Pattern
  seq_elem direct =
      accept TokenType.star
        (λ t.
          accept TokenType.name (λ n. return (star_pattern t.pos n.literal))
            (return (star_pattern t.pos [])))
        direct

  -- The loop of `parseSequencePattern`, and the rest of it behind the bracket.
  unfoldable pub sequence_turn : TokenType → Elems → Action (Turn Elems Elems)
  sequence_turn close found = choose (at_close close) (return (over found)) do
    e ← seq_elem r.or_pattern
    accept TokenType.comma (λ _. return (again (record (add_elem found e) { comma = true })))
        (return (over (add_elem found e)))

  unfoldable pub sequence_pattern : Pos → TokenType → TokenType → Action Pattern
  sequence_pattern p opening close = do
    found ← loop (sequence_turn close) no_elems
    expect close
    return (finish_sequence p opening found)

  -- The loop of `parseMappingPattern`, and the rest of it behind the brace.
  unfoldable pub mapping_turn : Pairs → Action (Turn Pairs Pairs)
  mapping_turn found = choose (at_close TokenType.rbrace) (return (over found)) (
      accept TokenType.doublestar
        (λ _. do
          t ← expect TokenType.name
          accept TokenType.comma (λ _. return (over (record found { rest = t.literal })))
              (return (over (record found { rest = t.literal }))))
        (do
          key ← g.expression
          expect TokenType.colon
          value ← r.or_pattern
          let more = record found {
            keys = found.keys ++ key ∷ [];
            values = found.values ++ value ∷ [];
          }
          accept TokenType.comma (λ _. return (again more)) (return (over more))))

  unfoldable pub mapping_pattern : Pos → Action Pattern
  mapping_pattern p = do
    found ← loop mapping_turn no_pairs
    expect TokenType.rbrace
    return (mapping p found.keys (of_patterns found.values) found.rest)

  -- The loop of `parseClassPattern`, and the rest of it behind the parenthesis.
  unfoldable pub class_turn : ClassArgs → Action (Turn ClassArgs ClassArgs)
  class_turn found = choose (at_close TokenType.rparen) (return (over found)) do
    more ←
        accept_name (next_at TokenType.assign)
          (λ key. do
            skip
            value ← r.or_pattern
            return (record found {
              kw_names = found.kw_names ++ key.literal ∷ [];
              kw = found.kw ++ value ∷ [];
            }))
          (do value ← r.or_pattern; return (record found { args = found.args ++ value ∷ [] }))
    accept TokenType.comma (λ _. return (again more)) (return (over more))

  unfoldable pub class_rest : Pos → Expr → Action Pattern
  class_rest p class = do
    found ← loop class_turn no_class_args
    expect TokenType.rparen
    return (class_pattern p class (of_patterns found.args) found.kw_names (of_patterns found.kw))

  -- The loop of `parseNamePattern` over the parts of a dotted name: `true` behind a dot.
  unfoldable pub name_turn : Pos → Expr → Action (Turn Expr Expr)
  name_turn p x =
      accept TokenType.dot
        (λ _. do t ← expect TokenType.name; return (again (Ast.attribute p x t.literal)))
        (return (over x))

  -- The end of `parseNamePattern`; a dotted name is no `Name`.
  abbrev name_end : Pos → Expr → Pattern
  name_end p (Ast.name _ n) = capture p n
  name_end p x = value_pattern p x

  unfoldable pub name_pattern : Token → Action Pattern
  name_pattern t = if bytes_eq t.literal (b'_' ∷ []) then return (wildcard t.pos) else (do
    x ← loop (name_turn t.pos) (Ast.name t.pos t.literal)
    accept TokenType.lparen (λ _. class_rest t.pos x) (return (name_end t.pos x)))

  -- `parseClosedPattern`.
  unfoldable pub closed_pattern : Action Pattern
  closed_pattern =
      accept TokenType.lbracket (λ t. sequence_pattern t.pos TokenType.lbracket TokenType.rbracket)
        (accept TokenType.lparen (λ t. sequence_pattern t.pos TokenType.lparen TokenType.rparen)
          (accept TokenType.lbrace (λ t. mapping_pattern t.pos)
            (choose at_value (do t ← current; x ← atom env g; return (value_pattern t.pos x))
              (accept_if sign
                (λ op t. do
                  x ← atom env g
                  return (value_pattern t.pos (Ast.unary_expr t.pos op x)))
                (accept TokenType.name name_pattern invalid)))))

  -- `parseOrPattern`, and its loop.
  unfoldable pub or_turn : List Pattern → Action (Turn (List Pattern) (List Pattern))
  or_turn alts =
      accept TokenType.pipe (λ _. do alt ← closed_pattern; return (again (alts ++ alt ∷ [])))
        (return (over alts))

  unfoldable pub or_pattern : Action Pattern
  or_pattern = do
    t ← current
    first ← closed_pattern
    alts ← loop or_turn (first ∷ [])
    accept TokenType.as_word
        (λ _. do
          n ← expect TokenType.name
          return (as_pattern t.pos (alternatives t.pos alts) n.literal))
        (return (alternatives t.pos alts))

  -- `parsePatterns`, and its loop.
  unfoldable pub pattern_turn : Elems → Action (Turn Elems Elems)
  pattern_turn found =
      accept TokenType.comma
        (λ _.
          choose (λ s. at TokenType.colon s || at TokenType.if_word s || at TokenType.eof s)
            (return (over found)) do e ← seq_elem or_pattern; return (again (add_elem found e)))
        (return (over found))

  unfoldable pub patterns : Action Pattern
  patterns = do
    t ← current
    first ← seq_elem or_pattern
    choose (at TokenType.comma)
        (do
          found ← loop pattern_turn (add_elem no_elems first)
          return (sequence t.pos (of_patterns found.elems) found.star))
        (return first)
