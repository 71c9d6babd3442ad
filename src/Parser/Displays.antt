-- ===== src/Parser/Displays.antt =====
-- Strings, groups, lists, sets and dictionaries, and the clauses of comprehensions. A function that
-- the source calls at its first token takes the position of that token, which is consumed already.
pub mod Agree
use minipy.Base.{
  ℕ, Bool, true, false, ◌||◌, List, [], ◌∷◌, ◌++◌, Option, none, some, if◌then◌else◌, Bytes,
}
use minipy.Token.{TokenType, Pos, Token, type_eq}
use minipy.Token.Errors.{Code, Message}
use minipy.Parser.Ast
use minipy.Parser.Ast.{Expr, nil, Comprehension, of_exprs, of_clauses}
use minipy.Parser.State
use minipy.Parser.State.{
  Action, return, ◌>>=◌, ◌>>◌, accept, choose, at, current, report, expect, skip, Parser,
}
use minipy.Parser.Grammar.{Env, Grammar}

-- Whether a comprehension clause starts here, or a closing bracket or the end.
unfoldable pub at_clause : Parser → Bool
at_clause s = at TokenType.for s || at TokenType.async s

unfoldable pub at_close : TokenType → Parser → Bool
at_close close s = at close s || at TokenType.eof s

-- The parts of an f-string, and the errors in them.
unfoldable pub fstring_parts : Env → Bytes → Pos → Action Ast.Parts
fstring_parts env text p s = elim (env.fstring_parts text p) [
  | none ↦ none
  | some (parts, found) ↦ some (parts, record s { errs = s.errs ++ found })
]

module _ (env : Env) (g : Grammar) where
  -- The loop of `parseString`, for a literal of type `kind`.
  unfoldable pub string_loop : TokenType → Bytes → Action Bytes
  string_loop kind value =
      let take = λ (found : TokenType) (t : Token).
        if type_eq found kind
        then g.string_loop kind (value ++ t.literal)
        else (do report t.pos Code.syntax_error Message.mixed_literals; g.string_loop kind value) in
      accept TokenType.string (take TokenType.string)
        (accept TokenType.bytes (take TokenType.bytes) (return value))

  abbrev string_node : TokenType → Pos → Bytes → Expr
  string_node kind p value =
      if type_eq kind TokenType.bytes then Ast.bytes_lit p value else Ast.str_lit p value

  -- `parseString`, at the token of the literal.
  unfoldable pub string : Token → Action Expr
  string t =
      if type_eq t.type TokenType.fstring
      then (do parts ← fstring_parts env t.literal t.pos; return (Ast.fstring_lit t.pos parts))
      else (do value ← string_loop t.type t.literal; return (string_node t.type t.pos value))

  -- The loop over the conditions of a clause.
  unfoldable pub if_loop : List Expr → Action (List Expr)
  if_loop ifs =
      accept TokenType.if_word (λ _. do c ← g.disjunction; g.if_loop (ifs ++ c ∷ [])) (return ifs)

  -- A clause, whose `for` or `async` stood at `p`. Behind `async` the next token is consumed unseen.
  unfoldable pub clause : Pos → Bool → List Comprehension → Action (List Comprehension)
  clause p async clauses = do
    t ← expect TokenType.name
    expect TokenType.in_word
    iter ← g.disjunction
    ifs ← g.if_loop []
    g.clause_loop (
        clauses
        ++ (record {
          pos = p;
          target_pos = t.pos;
          target = t.literal;
          iter = iter;
          ifs = ifs;
          async = async;
        })
          ∷ [])

  -- The loop of `parseComprehensionClauses`.
  unfoldable pub clause_loop : List Comprehension → Action (List Comprehension)
  clause_loop clauses =
      accept TokenType.async (λ t. do skip; clause t.pos true clauses)
        (accept TokenType.for (λ t. clause t.pos false clauses) (return clauses))

  -- `parseStarredExpression`; `direct` is `parseExpression` where no token is consumed yet.
  unfoldable pub starred : Action Expr → Action Expr
  starred direct =
      accept TokenType.star (λ t. do x ← g.expression; return (Ast.starred t.pos x)) direct

  -- The loop of `parseGroup`, of the elements of a tuple.
  unfoldable pub group_loop : List Expr → Action (List Expr)
  group_loop elems =
      accept TokenType.comma
        (λ _.
          choose (at_close TokenType.rparen) (return elems)
            do x ← g.expression; g.group_loop (elems ++ x ∷ []))
        (return elems)

  -- `parseGroup`.
  unfoldable pub group : Pos → Action Expr
  group p =
      accept TokenType.rparen (λ _. return (Ast.tuple_lit p Ast.no_expr))
        do
          inner ← g.expression
          choose at_clause
              (do
                clauses ← g.clause_loop []
                expect TokenType.rparen
                return (Ast.generator_exp p inner (of_clauses clauses)))
              (choose (at TokenType.comma)
                (do
                  elems ← g.group_loop (inner ∷ [])
                  expect TokenType.rparen
                  return (Ast.tuple_lit p (of_exprs elems)))
                (do expect TokenType.rparen; return inner))

  abbrev finish_list : Pos → List Expr → Action Expr
  finish_list p elems = do expect TokenType.rbracket; return (Ast.list_lit p (of_exprs elems))

  -- The loop of `parseList`, to the end of the display.
  unfoldable pub list_loop : Pos → List Expr → Action Expr
  list_loop p elems = choose (at_close TokenType.rbracket) (finish_list p elems) do
    elem ← starred g.expression
    choose at_clause
        (do
          clauses ← g.clause_loop []
          expect TokenType.rbracket
          return (Ast.list_comp p elem (of_clauses clauses)))
        (accept TokenType.comma (λ _. g.list_loop p (elems ++ elem ∷ []))
          (finish_list p (elems ++ elem ∷ [])))

  abbrev finish_set : Pos → List Expr → Action Expr
  finish_set p elems = do expect TokenType.rbrace; return (Ast.set_lit p (of_exprs elems))

  -- A set comprehension, behind its element.
  abbrev set_comprehension : Pos → Expr → Action Expr
  set_comprehension p elem = do
    clauses ← g.clause_loop []
    expect TokenType.rbrace
    return (Ast.set_comp p elem (of_clauses clauses))

  -- The loop over the elements of a set, to the end of the display.
  unfoldable pub set_loop : Pos → List Expr → Action Expr
  set_loop p elems =
      accept TokenType.comma
        (λ _. choose (at_close TokenType.rbrace) (finish_set p elems) do
          elem ← starred g.expression
          choose at_clause (set_comprehension p elem) (g.set_loop p (elems ++ elem ∷ [])))
        (finish_set p elems)

  abbrev finish_dict : Pos → List Expr → List Expr → Action Expr
  finish_dict p keys values = do
    expect TokenType.rbrace
    return (Ast.dict_lit p (of_exprs keys) (of_exprs values))

  -- `, ` and another entry, or the end of the dictionary.
  abbrev next_entry : Pos → List Expr → List Expr → Action Expr
  next_entry p keys values =
      accept TokenType.comma (λ _. g.dict_loop p keys values) (finish_dict p keys values)

  -- The loop of `parseDict`, to the end of the display. An element without a colon makes it a set,
  -- also where entries stand in front of it, which are then dropped.
  unfoldable pub dict_loop : Pos → List Expr → List Expr → Action Expr
  dict_loop p keys values = choose (at_close TokenType.rbrace) (finish_dict p keys values) (
      accept TokenType.doublestar
        (λ t. do
          x ← g.expression
          next_entry p (keys ++ Ast.starred t.pos x ∷ []) (values ++ nil ∷ []))
        (do
          key ← starred g.expression
          accept TokenType.colon
              (λ _. do
                value ← g.expression
                choose at_clause
                    (do
                      clauses ← g.clause_loop []
                      expect TokenType.rbrace
                      return (Ast.dict_comp p key value (of_clauses clauses)))
                    (next_entry p (keys ++ key ∷ []) (values ++ value ∷ [])))
              (choose at_clause (set_comprehension p key) (set_loop p (key ∷ [])))))
