-- ===== src/Lexer/Run/Lexed.antt =====
-- The token stream that `Lex` returns. `Stream` is what holds between two calls of `Next`.
use minipy.Lexer.Moves.{Before}
use minipy.Base.{
  ℕ, zero, suc, ◌≤◌, ◌<◌, ◌≡◌, refl, ap, ◌∙◌, true, false, List, [], ◌∷◌, some, ◌⊎◌, inl, inr,
  arith, length, length-append, Bool-cases, All, All-append, Option-cases, ◌&&◌,
}
use minipy.Token.{TokenType, Pos, Token, type_eq}
use minipy.Lexer.Utf8.{Library}
use minipy.Lexer.State.{Lexer, here, new}
use minipy.Lexer.Blocks.{
  depth, nest, ends, is_eof, is_empty, Ordered, Spelled, Before-refl, depth-append, Ordered-append,
  ends-append,
}
use minipy.Lexer.Effects.{blocks}
use minipy.Lexer.Run.{steps_left, tokens_left, step, pull, pop, next, lex_loop, lex}
use minipy.Lexer.Run.Steps.{step-Advances}

-- The pending tokens, from `d` open blocks and position `p` on.
record Stream (d : ℕ) (p : Pos) (l : Lexer) : Type 0 where
  open_stack : 0 < length l.indents
  nested : depth d l.pending ≡ some (blocks l.indents)
  closing : ends l.done l.pending ≡ true
  closed : l.done ≡ true → blocks l.indents ≡ 0
  ordered : Ordered p l.pending (here l)
  literals : All Spelled l.pending

step-Stream :
    (u : Library) (d : ℕ) (p : Pos) (l : Lexer)
    → l.done ≡ false
    → Stream d p l
    → Stream d p (step u l)
      × (steps_left (step u l) < steps_left l)
      × (tokens_left (step u l) ≤ tokens_left l)
step-Stream u d p l going s =
    let a = step-Advances u l (record { open_stack = s.open_stack; going = going }) in
    let m = step u l in
    (
      record {
        open_stack = a.adds.open_stack;
        nested =
            rw a.adds.appended
              (depth-append l.pending a.new d (blocks l.indents) s.nested ∙ a.adds.nested);
        closing =
            rw a.adds.appended
              (ends-append m.done l.pending a.new (rw (← going) s.closing) a.adds.closing);
        closed = a.adds.closed;
        ordered =
            rw a.adds.appended
              (Ordered-append l.pending a.new p (here l) (here m) s.ordered a.adds.ordered);
        literals =
            rw a.adds.appended (All-append Spelled l.pending a.new s.literals a.adds.literals);
      },
      a.fewer,
      omega (arith, a.fewer, a.adds.room, ap length a.adds.appended, length-append l.pending a.new),
    )

-- A token is pending.
abbrev HasToken : Lexer → Type 0
HasToken l = (t : Token) × (ts : List Token) × (l.pending ≡ t ∷ ts)

done-HasToken : {d : ℕ} {p : Pos} {l : Lexer} → Stream d p l → l.done ≡ true → HasToken l
done-HasToken {l} s e = go l.pending (rw e at s.closing)
  where
    go : (ts : List Token) → ends true ts ≡ true → (t : Token) × (us : List Token) × (ts ≡ t ∷ us)
    go [] h = cc
    go (t ∷ ts) h = (t, ts, refl)

list-cases {ℓ} : {A : Type ℓ} (xs : List A) → (xs ≡ []) ⊎ ((y : A) × (ys : List A) × (xs ≡ y ∷ ys))
list-cases [] = inl refl
list-cases (x ∷ xs) = inr (x, xs, refl)

module _ (u : Library) (f : ℕ) (l : Lexer) where
  pull_pending : (t : Token) (ts : List Token) → l.pending ≡ t ∷ ts → pull u (suc f) l ≡ some l
  unfolding pull
  pull_pending t ts e = ground arith

  pull_done : l.pending ≡ [] → l.done ≡ true → pull u (suc f) l ≡ some l
  unfolding pull
  pull_done e h = ground arith

  pull-step : l.pending ≡ [] → l.done ≡ false → pull u (suc f) l ≡ pull u f (step u l)
  unfolding pull
  pull-step e h = ground arith

-- With fuel for one test more than the steps that are left, the loop of `Next` ends, and with a token.
pull-Stream :
    (u : Library) (fuel d : ℕ) (p : Pos) (l : Lexer)
    → steps_left l < fuel
    → Stream d p l
    → (m : Lexer) × (pull u fuel l ≡ some m)
      × Stream d p m
      × HasToken m
      × (tokens_left m ≤ tokens_left l)
pull-Stream u zero d p l h s = absurd (omega (arith, h))
pull-Stream u (suc fuel) d p l h s = elim (list-cases l.pending) [
  | inr (t, ts, e) ↦ (l, pull_pending u fuel l t ts e, s, (t, ts, e), omega arith)
  | inl e ↦ elim (Bool-cases l.done) [
    | inl over ↦ (l, pull_done u fuel l e over, s, done-HasToken s over, omega arith)
    | inr going ↦
        let (s', fewer, room) = step-Stream u d p l going s in
        let (m, ran, s'', has, room') =
          pull-Stream u fuel d p (step u l) (omega (arith, h, fewer)) s' in
        (m, pull-step u fuel l e going ∙ ran, s'', has, omega (arith, room, room'))
  ]
]

-- What the caller of `Lex` gets, from `d` open blocks and position `p` on.
record Lexed (d : ℕ) (p : Pos) (r : List Token × Lexer) : Type 0 where
  nested : depth d r.0 ≡ some 0
  closing : ends true r.0 ≡ true
  ordered : Ordered p r.0 (here r.1)
  literals : All Spelled r.0

pub type_eq-eof : (t : TokenType) → type_eq t TokenType.eof ≡ is_eof t
unfolding type_eq
type_eq-eof TokenType.eof = refl
type_eq-eof _ = refl

depth-cons :
    (t : Token) (ts : List Token) (d b : ℕ)
    → depth d (t ∷ ts) ≡ some b
    → (k : ℕ) × (nest t.type d ≡ some k) × (depth k ts ≡ some b)
depth-cons t ts d b h = elim (Option-cases (nest t.type d)) [
  | inl e ↦ cc (rw (e, depth) at h)
  | inr (k, e) ↦ (k, e, rw (e, depth) at h)
]

-- Taking the first pending token.
pop-Stream :
    (d : ℕ) (p : Pos) (l : Lexer) (t : Token) (ts : List Token)
    → l.pending ≡ t ∷ ts
    → is_eof t.type ≡ false
    → Stream d p l
    → (k : ℕ) × (nest t.type d ≡ some k) × Stream k t.pos (record l { pending = ts })
pop-Stream d p l t ts e plain s =
    let (k, n, rest) = depth-cons t ts d (blocks l.indents) (rw e at s.nested) in
    (
      k,
      n,
      record {
        open_stack = s.open_stack;
        nested = rest;
        closing = rw (e, plain) at s.closing;
        closed = s.closed;
        ordered = (rw e at s.ordered).1;
        literals = (rw e at s.literals).1;
      },
    )

module _ (u : Library) (f : ℕ) (l m : Lexer) (t : Token) (e : next u l ≡ some (t, m)) where
  lex_loop_last : is_eof t.type ≡ true → lex_loop u (suc f) l ≡ (t ∷ [], m)
  unfolding lex_loop
  lex_loop_last h = rw (e, lex_loop) (rw (type_eq-eof, h) refl)

  lex_loop_more :
      is_eof t.type ≡ false → lex_loop u (suc f) l ≡ (t ∷ (lex_loop u f m).0, (lex_loop u f m).1)
  unfolding lex_loop
  lex_loop_more h = rw (e, lex_loop) (rw (type_eq-eof, h) refl)

next_token :
    (u : Library) (l m : Lexer) (t : Token) (ts : List Token)
    → pull u (suc (steps_left l)) l ≡ some m
    → m.pending ≡ t ∷ ts
    → next u l ≡ some (t, record m { pending = ts })
unfolding next pop
next_token u l m t ts ran e = rw (ran, next) (ap (λ ps. some (pop ps m)) e)

is_empty_nil {ℓ} : {A : Type ℓ} (xs : List A) → is_empty xs ≡ true → xs ≡ []
is_empty_nil [] h = refl
is_empty_nil (x ∷ xs) h = cc

-- The last token closes all blocks.
last-Lexed :
    (d : ℕ) (p : Pos) (l : Lexer) (t : Token) (ts : List Token)
    → l.pending ≡ t ∷ ts
    → is_eof t.type ≡ true
    → Stream d p l
    → Lexed d p (t ∷ [], record l { pending = ts })
last-Lexed d p l t ts e last s =
    let shut : (l.done && is_empty ts) ≡ true = rw (e, last) at s.closing in
    let empty : ts ≡ [] = is_empty_nil ts (ground arith) in
    let (k, n, rest) = depth-cons t ts d (blocks l.indents) (rw e at s.nested) in
    let zero_left : some k ≡ some 0 = rw (empty, s.closed (ground arith)) at rest in
    record {
      nested = rw (n, depth) zero_left;
      closing = rw last refl;
      ordered = rw (e, empty) at s.ordered;
      literals = ((rw e at s.literals).0, tt);
    }

cons-Lexed :
    (d k : ℕ) (p : Pos) (t : Token) (r : List Token × Lexer)
    → nest t.type d ≡ some k
    → is_eof t.type ≡ false
    → Before p t.pos
    → Spelled t
    → Lexed k t.pos r
    → Lexed d p (t ∷ r.0, r.1)
cons-Lexed d k p t r n plain before spelling x = record {
  nested = rw (n, depth) x.nested;
  closing = rw plain x.closing;
  ordered = (before, x.ordered);
  literals = (spelling, x.literals);
}

lex_loop-Lexed :
    (u : Library) (fuel d : ℕ) (p : Pos) (l : Lexer)
    → tokens_left l ≤ fuel
    → Stream d p l
    → Lexed d p (lex_loop u fuel l)
lex_loop-Lexed u zero d p l h s = absurd (omega (arith, s.open_stack))
lex_loop-Lexed u (suc fuel) d p l h s =
    let (m, ran, s', (t, ts, e), room) = pull-Stream u (suc (steps_left l)) d p l (omega arith) s in
    let rest = record m { pending = ts } in
    let came = next_token u l m t ts ran e in
    elim (Bool-cases (is_eof t.type)) [
      | inl last ↦ rw (lex_loop_last u fuel l rest t came last) (last-Lexed d p m t ts e last s')
      | inr more ↦
          let (k, n, s'') = pop-Stream d p m t ts e more s' in
          rw (lex_loop_more u fuel l rest t came more) (
            cons-Lexed d k p t (lex_loop u fuel rest) n more (rw e at s'.ordered).0
              (rw e at s'.literals).0
              (lex_loop-Lexed u fuel k t.pos rest (omega (arith, room, ap length e)) s''))
    ]

new-Stream : (input : List ℕ) → Stream 0 (here (new input)) (new input)
new-Stream input = record {
  open_stack = omega arith;
  nested = refl;
  closing = refl;
  closed = λ _. refl;
  ordered = Before-refl (here (new input));
  literals = tt;
}

lex-Lexed :
    (u : Library) (input : List ℕ)
    → Lexed 0 (record { line = 1; column = 1 }) (lex_loop u (tokens_left (new input)) (new input))
lex-Lexed u input =
    lex_loop-Lexed u (tokens_left (new input)) 0 (here (new input)) (new input) (omega arith)
      (new-Stream input)

module _ (u : Library) (input : List ℕ) where
  lex_tokens : (lex u input).0 ≡ (lex_loop u (tokens_left (new input)) (new input)).0
  unfolding lex
  lex_tokens = refl

  -- Every INDENT of the stream is closed by a DEDENT, and no DEDENT closes a block that is not open.
  pub lex_nested : depth 0 (lex u input).0 ≡ some 0
  lex_nested = rw lex_tokens (lex-Lexed u input).nested

  -- The stream ends with an ENDMARKER, and holds no other: for every input the loops of `Next` and
  -- `Lex` end within the fuel of the model, without which the stream has no ENDMARKER.
  pub lex-ends : ends true (lex u input).0 ≡ true
  lex-ends = rw lex_tokens (lex-Lexed u input).closing

  -- A token of the stream whose type is a keyword, an operator or a delimiter has the spelling of
  -- its type as its literal.
  pub lex-Spelled : All Spelled (lex u input).0
  lex-Spelled = rw lex_tokens (lex-Lexed u input).literals
