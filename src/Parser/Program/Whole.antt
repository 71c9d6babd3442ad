-- ===== src/Parser/Program/Whole.antt =====
-- The loop of `parseModule` and the ENDMARKER.
use minipy.Base.{
  ℕ, zero, suc, ◌+◌, ◌*◌, ◌<◌, ◌≤◌, ◌≡◌, ◌∙◌, sym, refl, ap, List, [], ◌∷◌, ◌++◌, length, get_elem?,
  ◌&&◌, Option, none, some, arith, Bool, true, Bool-cases, inl, inr,
}
use minipy.Token.{TokenType, Token, type_eq}
use minipy.Token.Errors.{Code, Message}
use minipy.Lexer.Utf8.{Library}
use minipy.Lexer.Blocks.{ends, is_eof, is_empty}
use minipy.Lexer.Run.{lex}
use minipy.Lexer.Run.Lexed.{lex-ends, type_eq-eof}
use minipy.Parser.Ast.Stmts.{Stmt}
use minipy.Parser.State.{
  Parser, Action, at, return, ◌>>=◌, choose, accept, advance, peek, or_eof, Turn, again, over,
  rounds, loop, report, skip_nested,
}
use minipy.Parser.State.Agree
use minipy.Parser.State.Agree.{Ends}
use minipy.Parser.State.Rounds.{at_end}
use minipy.Parser.Grammar.{Env, Grammar}
use minipy.Parser.Grammar.Good.{IsComplete}
use minipy.Parser.Suite.{Suite}
use minipy.Parser.Statements
use minipy.Parser.Program.{program, start, suite}
use minipy.Parser.Knot.{grammar}
use minipy.Parser.Program.Agree.{program_agrees}

-- Rounds behind which the loop always goes on.
record Goes {A B : Type 0} (m : Action (Turn B A)) : Type 0 where
  run : (s : Parser) (a : A) (t : Parser) → ¬ (m s ≡ some (over a, t))

Goes-again : {A B : Type 0} (b : B) → Goes {A = A} (return (again b))
unfolding return
Goes-again b = record { run = λ s a t h. cc }

Goes-bind :
    {A B C : Type 0} (m : Action C) {f : C → Action (Turn B A)}
    → ((c : C) → Goes (f c))
    → Goes (m >>= f)
Goes-bind {A} {B} {C} m {f} u = unfold ◌>>=◌ in record { run = λ s a t h. go (m s) a t h }
  where
    go :
        (o : Option (C × Parser)) (a : A) (t : Parser)
        → ¬ (
            (elim o as (λ _. Option (Turn B A × Parser)) [ none ↦ none | some (c, s') ↦ f c s' ])
            ≡ some (over a, t))
    go none a t h = cc
    go (some (c, s')) a t h = (u c).run s' a t h

Goes-accept :
    {A B : Type 0} (t : TokenType) {m : Token → Action (Turn B A)} {k : Action (Turn B A)}
    → ((found : Token) → Goes (m found))
    → Goes k
    → Goes (accept t m k)
Goes-accept t {m} {k} u v =
    unfold accept in
    record {
      run = λ s a s' h. elim (Bool-cases (at t s)) [
        | inl f ↦ (u (peek 0 s)).run (advance s) a s' (rw f at h)
        | inr f ↦ v.run s a s' (rw f at h)
      ];
    }

return_over :
    (b a : List Stmt) (s t : Parser)
    → at TokenType.eof s ≡ true
    → return {A = Turn (List Stmt) (List Stmt)} (over b) s ≡ some (over a, t)
    → at_end t ≡ true
unfolding return at
return_over b a s t e h = cc (e, h)

module _ (env : Env) (g : Grammar) (r : Suite) where
  rest-Goes :
      (body : List Stmt)
      → Goes {A = List Stmt} {B = List Stmt} (
          accept TokenType.newline
            (λ _. return (again body))
            (accept TokenType.indent
              (λ t. report t.pos Code.syntax_error Message.unexpected_indent >>= λ _.
                skip_nested 1 >>= λ _. return (again body))
              (r.statement >>= λ ss. return (again (body ++ ss)))))
  rest-Goes body =
      Goes-accept _ (λ _. Goes-again body)
        (Goes-accept _ (λ _. Goes-bind _ λ _. Goes-bind _ λ _. Goes-again body)
          (Goes-bind _ λ ss. Goes-again (body ++ ss)))

  turn_over :
      (body : List Stmt) (s : Parser) (a : List Stmt) (t : Parser)
      → Statements.module_turn env g r body s ≡ some (over a, t)
      → at_end t ≡ true
  unfolding Statements.module_turn choose
  turn_over body s a t h = elim (Bool-cases (at TokenType.eof s)) [
    | inl e ↦ return_over body a s t e (rw e at h)
    | inr e ↦ absurd ((rest-Goes body).run s a t (rw e at h))
  ]

  rounds_over :
      (k : ℕ) (body : List Stmt) (s : Parser) (a : List Stmt) (t : Parser)
      → rounds k (Statements.module_turn env g r) body s ≡ some (a, t)
      → at_end t ≡ true
  unfolding rounds
  rounds_over zero body s a t h = cc
  rounds_over (suc k) body s a t h =
      go (Statements.module_turn env g r body s) (turn_over body s) (λ c s'. rounds_over k c s' a t)
        h
    where
      go :
          (o : Option (Turn (List Stmt) (List Stmt) × Parser))
          → ((a : List Stmt) (t : Parser) → o ≡ some (over a, t) → at_end t ≡ true)
          → ((c : List Stmt) (s' : Parser)
              → rounds k (Statements.module_turn env g r) c s' ≡ some (a, t)
              → at_end t ≡ true)
          → (elim o as (λ _. Option (List Stmt × Parser)) [
            | none ↦ none
            | some (again c, s') ↦ rounds k (Statements.module_turn env g r) c s'
            | some (over b, s') ↦ some (b, s')
          ])
            ≡ some (a, t)
          → at_end t ≡ true
      go none f next h = cc
      go (some (again c, s')) f next h = next c s' h
      go (some (over b, s')) f next h = f a t (cc h)

  module_over :
      (s : Parser) (a : List Stmt) (t : Parser)
      → Statements.parse_module env g r s ≡ some (a, t)
      → at_end t ≡ true
  unfolding Statements.parse_module loop
  module_over s a t h = rounds_over (suc (length s.rest)) [] s a t h

-- Behind the tokens in front of it, the only ENDMARKER is the last token.
last_one :
    (used : List Token) (s : Parser)
    → ends true (used ++ s.rest) ≡ true
    → at_end s ≡ true
    → length s.rest ≤ 1
unfolding peek or_eof
last_one used s h e = go used s.rest h e
  where
    closed :
        (b : Bool) (t : Token) (ts : List Token)
        → ends true (t ∷ ts) ≡ true
        → is_eof t.type ≡ true
        → length (t ∷ ts) ≤ 1
    closed b t [] h e = omega arith
    closed b t (u ∷ us) h e = absurd (cc (rw e at h))

    go :
        (used ts : List Token)
        → ends true (used ++ ts) ≡ true
        → type_eq (or_eof s.end (get_elem? ts 0)).type TokenType.eof ≡ true
        → length ts ≤ 1
    go [] [] h e = omega arith
    go [] (t ∷ ts) h e = closed true t ts h (sym (type_eq-eof t.type) ∙ e)
    go (u ∷ used) [] h e = omega arith
    go (u ∷ used) (t ∷ ts) h e = elim (Bool-cases (is_eof u.type)) [
      | inl f ↦ absurd (not_empty used (rw f at h))
      | inr f ↦ go used (t ∷ ts) (rw f at h) e
    ]
      where
        not_empty : (used : List Token) → ¬ ((true && is_empty (used ++ t ∷ ts)) ≡ true)
        not_empty [] k = cc
        not_empty (x ∷ xs) k = cc

module _ (u : Library) (env : Env) (complete : IsComplete env) where
  -- For every source, within a fuel of more than twice the number of its tokens and one and where the
  -- parts of every f-string are found, `parseModule` on the tokens of `Lex` returns, and takes all of
  -- them off: at most one token is left, and the current token is an ENDMARKER.
  pub program_whole :
      (input : List ℕ) (n : ℕ)
      → 2 * length (lex u input).0 + 1 < n
      → (body : List Stmt) × (t : Parser) × (program env n (start (lex u input).0) ≡ some (body, t))
        × (at_end t ≡ true)
        × (length t.rest ≤ 1)
  unfolding start
  program_whole input n h =
      go _ _ (program_agrees env complete n n (start (lex u input).0) h (omega arith)) refl
    where
      go :
          (o o' : Option (List Stmt × Parser))
          → Ends (start (lex u input).0) o o'
          → program env n (start (lex u input).0) ≡ o
          → (body : List Stmt) × (t : Parser) × (program env n (start (lex u input).0)
              ≡ some (body, t))
            × (at_end t ≡ true)
            × (length t.rest ≤ 1)
      go _ _ (Agree.ends body t f) k =
          let e = module_over env (grammar env n) (suite env n) (start (lex u input).0) body t k in
          (body, t, k, e, last_one f.used t (sym (ap (ends true) f.rest) ∙ lex-ends u input) e)
