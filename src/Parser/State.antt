-- ===== src/Parser/State.antt =====
-- The struct `Parser` and its small methods. The lexer is a list of tokens: what it returns behind
-- the last one is an ENDMARKER at `end`. A method is an action on the struct; `none` stands for a
-- recursion that is cut off.
pub mod Follows
pub mod Agree
pub mod Rounds
pub mod Eats
pub mod Skips
use minipy.Base.{
  ℕ, Bool, true, false, ◌||◌, List, [], ◌∷◌, Option, none, some, if◌then◌else◌, get_elem?, Bytes,
  ◌==◌, zero, suc, ◌-◌, length,
}
use minipy.Token.{TokenType, Pos, Token, type_eq}
use minipy.Token.Errors
use minipy.Token.Errors.{Error, Code, Message}

pub record Parser : Type 0 where
  pub rest : List Token
  pub end : Pos
  pub errs : List Error

abbrev pub Action : Type 0 → Type 0
Action A = Parser → Option (A × Parser)

unfoldable pub return : {A : Type 0} → A → Action A
return a s = some (a, s)

infixl 5 ◌>>=◌ ◌>>◌
unfoldable pub ◌>>=◌ : {A B : Type 0} → Action A → (A → Action B) → Action B
◌>>=◌ m f s = elim (m s) [ none ↦ none | some (a, s') ↦ f a s' ]

abbrev pub ◌>>◌ : {A B : Type 0} → Action A → Action B → Action B
m >> k = m >>= λ _. k

unfoldable pub or_eof : Pos → Option Token → Token
or_eof end none = record { type = TokenType.eof; literal = []; pos = end }
or_eof end (some t) = t

-- `peek` and `cur`.
unfoldable pub peek : ℕ → Parser → Token
unfolding or_eof
peek n s = or_eof s.end (get_elem? s.rest n)

-- `advance`: an ENDMARKER is not consumed.
unfoldable pub drop_token : List Token → List Token
unfolding type_eq
drop_token [] = []
drop_token (t ∷ ts) = if type_eq t.type TokenType.eof then t ∷ ts else ts

unfoldable pub advance : Parser → Parser
unfolding drop_token
advance s = record s { rest = drop_token s.rest }

-- The current token, as an action.
unfoldable pub current : Action Token
unfolding peek
current s = some (peek 0 s, s)

-- `at`.
unfoldable pub at : TokenType → Parser → Bool
unfolding peek type_eq
at t s = type_eq (peek 0 s).type t

-- A test on the token behind the current one.
unfoldable pub next_at : TokenType → Parser → Bool
unfolding peek type_eq
next_at t s = type_eq (peek 1 s).type t

-- `p.errs.Add`.
unfoldable pub report : Pos → Code → Message → Action (Unit {0})
report pos code msg s = some (tt, record s { errs = Errors.add s.errs pos code msg })

-- A test on the struct, which changes nothing.
unfoldable pub choose : {A : Type 0} → (Parser → Bool) → Action A → Action A → Action A
choose test taken other s = if test s then taken s else other s

-- `if p.at(t) { ...; p.advance(); ... } else { ... }`: `taken` goes on with the token consumed.
unfoldable pub accept : {A : Type 0} → TokenType → (Token → Action A) → Action A → Action A
unfolding at advance peek
accept t taken other s = if at t s then taken (peek 0 s) (advance s) else other s

-- The same for a type that a test finds; `some` of what it finds excludes ENDMARKER.
unfoldable pub accept_if :
    {A B : Type 0} → (TokenType → Option B) → (B → Token → Action A) → Action A → Action A
unfolding advance peek
accept_if test taken other s = elim (test (peek 0 s).type) [
  | none ↦ other s
  | some b ↦ taken b (peek 0 s) (advance s)
]

-- `if !p.at(token.EOF) { p.advance() }` is `advance`.
unfoldable pub skip : Action (Unit {0})
unfolding advance
skip s = some (tt, advance s)

-- `expect`.
unfoldable pub expect : TokenType → Action Token
expect t =
    accept t (λ found. return found)
      do
        found ← current
        report found.pos Code.syntax_error (Message.expected t found.type)
        current

-- `skipLine`.
unfoldable pub drop_line : List Token → List Token
unfolding type_eq
drop_line [] = []
drop_line (t ∷ ts) =
    let rest = drop_line ts in
    if type_eq t.type TokenType.newline
    then ts
    else if type_eq t.type TokenType.eof
    then t ∷ ts
    else rest

unfoldable pub skip_line : Action (Unit {0})
unfolding drop_line
skip_line s = some (tt, record s { rest = drop_line s.rest })

-- The loop of `skipBlock`, which ends where the depth is 0, so no DEDENT is met at depth 0.
abbrev pub block_depth : TokenType → ℕ → ℕ
block_depth TokenType.indent depth = suc depth
block_depth TokenType.dedent depth = depth - 1
block_depth _ depth = depth

unfoldable pub drop_block : ℕ → List Token → List Token
unfolding type_eq
drop_block depth [] = []
drop_block depth (t ∷ ts) =
    let deeper = block_depth t.type depth in
    let rest = drop_block deeper ts in
    if type_eq t.type TokenType.eof then t ∷ ts else if deeper == 0 then ts else rest

-- `skipBlock`, whose loop goes on at depth 1 behind the INDENT.
unfoldable pub skip_nested : ℕ → Action (Unit {0})
unfolding drop_block
skip_nested depth s = some (tt, record s { rest = drop_block depth s.rest })

unfoldable pub skip_block : Action (Unit {0})
skip_block = accept TokenType.indent (λ _. skip_nested 1) (return tt)

-- `atStmtEnd`.
unfoldable pub at_stmt_end : Parser → Bool
unfolding at
at_stmt_end s = at TokenType.semicolon s || at TokenType.newline s || at TokenType.eof s

-- `expectLineEnd`.
unfoldable pub expect_line_end : Action (Unit {0})
expect_line_end =
    accept TokenType.newline (λ _. return tt)
      (choose (at TokenType.eof) (return tt) do
        found ← current
        report found.pos Code.syntax_error (Message.expected_line_end found.type)
        skip_line)

-- A loop whose body says whether to go round again, and with what. A round behind which it goes on
-- uses up a token, so one round for each token that is left, and one more, are enough.
pub data Turn (B A : Type 0) : Type 0 where
  again : B → Turn B A
  over : A → Turn B A

unfoldable pub rounds : {A B : Type 0} → ℕ → (B → Action (Turn B A)) → B → Action A
rounds zero body b s = none
rounds (suc n) body b s = elim (body b s) [
  | none ↦ none
  | some (again c, s') ↦ rounds n body c s'
  | some (over a, s') ↦ some (a, s')
]

unfoldable pub loop : {A B : Type 0} → (B → Action (Turn B A)) → B → Action A
unfolding rounds
loop body b s = rounds (suc (length s.rest)) body b s
