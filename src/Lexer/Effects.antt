-- ===== src/Lexer/Effects.antt =====
-- What a step of the scanner does to its state, and how the parts of a step add up to that.
use minipy.Base.{
  ℕ, ◌+◌, ◌≤◌, ◌<◌, ◌≡◌, refl, Bool, true, false, List, [], ◌∷◌, ◌++◌, some, arith, length, All,
  append-nil, append_assoc, length-append, ◌∙◌, All-append,
}
use minipy.Token.{TokenType, Token}
use minipy.Lexer.State.{Lexer, here}
use minipy.Lexer.Moves.{Moves, Scans, Before, is_structure}
use minipy.Lexer.Blocks.{
  depth, ends, Ordered, Spelled, Before-refl, depth-append, ends-append, Ordered-append, nest,
  is_eof,
}
use minipy.Lexer.Run.{steps_left}

-- The number of open blocks.
abbrev pub blocks : List ℕ → ℕ
blocks [] = 0
blocks (i ∷ is) = length is

-- The tokens that are added, and how they fit the two states; `k` bounds the room that they and
-- the open blocks take.
pub record Adds (k : ℕ) (l l' : Lexer) (new : List Token) : Type 0 where
  pub appended : l'.pending ≡ l.pending ++ new
  pub room : length new + length l'.indents ≤ length l.indents + k
  pub nested : depth (blocks l.indents) new ≡ some (blocks l'.indents)
  pub open_stack : 0 < length l'.indents
  pub closing : ends l'.done new ≡ true
  pub closed : l'.done ≡ true → blocks l'.indents ≡ 0
  pub ordered : Ordered (here l) new (here l')
  pub literals : All Spelled new

-- A step: it adds tokens, and leaves fewer steps to go.
pub record Advances (l l' : Lexer) : Type 0 where
  pub new : List Token
  pub adds : Adds 2 l l' new
  pub fewer : steps_left l' < steps_left l

-- The state before a step: not at the end, with a stack that is not empty.
pub record Ready (l : Lexer) : Type 0 where
  pub open_stack : 0 < length l.indents
  pub going : l.done ≡ false

Moves-Before : {l m : Lexer} → Moves l m → Before (here l) (here m)
Moves-Before h = ground arith

pub Moves-Ready : {l m : Lexer} → Ready l → Moves l m → Ready m
Moves-Ready r h = record { open_stack = rw h.indents r.open_stack; going = rw h.done r.going }

pub Moves-Adds : {l m : Lexer} → Ready l → Moves l m → Adds 0 l m []
Moves-Adds {l} {m} r h = record {
  appended = rw append-nil h.pending;
  room = rw (← h.indents) (omega arith);
  nested = rw h.indents refl;
  open_stack = rw h.indents r.open_stack;
  closing = rw (h.done, r.going) refl;
  closed = λ e. cc (h.done, r.going, e);
  ordered = Moves-Before h;
  literals = tt;
}

pub Adds-trans :
    {j k : ℕ} {l m n : Lexer} {xs ys : List Token}
    → Adds j l m xs
    → m.done ≡ false
    → Adds k m n ys
    → Adds (j + k) l n (xs ++ ys)
Adds-trans {j} {k} {l} {m} {n} {xs} {ys} p going q = record {
  appended = rw (q.appended, p.appended) (append_assoc l.pending xs ys);
  room = omega (arith, p.room, q.room, length-append xs ys);
  nested = depth-append xs ys (blocks l.indents) (blocks m.indents) p.nested ∙ q.nested;
  open_stack = q.open_stack;
  closing = ends-append n.done xs ys (rw (← going) p.closing) q.closing;
  closed = q.closed;
  ordered = Ordered-append xs ys (here l) (here m) (here n) p.ordered q.ordered;
  literals = All-append Spelled xs ys p.literals q.literals;
}

pub Adds-weaken : {j k : ℕ} {l m : Lexer} {xs : List Token} → j ≤ k → Adds j l m xs → Adds k l m xs
Adds-weaken le p = record {
  appended = p.appended;
  room = omega (arith, p.room);
  nested = p.nested;
  open_stack = p.open_stack;
  closing = p.closing;
  closed = p.closed;
  ordered = p.ordered;
  literals = p.literals;
}

-- The flags of a line do not matter.
pub Adds-flags :
    {k : ℕ} {l m : Lexer} {new : List Token} (start has_tok : Bool)
    → Adds k l m new
    → Adds k l (record m { at_line_start = start; line_has_tok = has_tok }) new
Adds-flags start has_tok p = record {
  appended = p.appended;
  room = p.room;
  nested = p.nested;
  open_stack = p.open_stack;
  closing = p.closing;
  closed = p.closed;
  ordered = p.ordered;
  literals = p.literals;
}

nest_plain : (t : TokenType) (n : ℕ) → is_structure t ≡ false → nest t n ≡ some n
nest_plain TokenType.indent n h = cc
nest_plain TokenType.dedent n h = cc
nest_plain _ n h = refl

is_eof_plain : (t : TokenType) → is_structure t ≡ false → is_eof t ≡ false
is_eof_plain TokenType.eof h = cc
is_eof_plain _ h = ground arith

depth_plain : (t : Token) (n : ℕ) → is_structure t.type ≡ false → depth n (t ∷ []) ≡ some n
depth_plain t n h = rw (nest_plain t.type n h, depth) refl

ends_plain : (t : Token) → is_structure t.type ≡ false → ends false (t ∷ []) ≡ true
ends_plain t h = rw (is_eof_plain t.type h) refl

-- A token of a line adds itself.
pub Emits-Adds :
    {l m : Lexer} {t : Token}
    → Ready l
    → m.indents ≡ l.indents
    → m.done ≡ l.done
    → m.pending ≡ l.pending ++ (t ∷ [])
    → t.pos ≡ here l
    → Before (here l) (here m)
    → is_structure t.type ≡ false
    → Spelled t
    → Adds 1 l m (t ∷ [])
Emits-Adds {l} {m} {t} r indents done pending pos before plain spelling = record {
  appended = pending;
  room = rw indents (omega arith);
  nested = rw indents (depth_plain t (blocks l.indents) plain);
  open_stack = rw indents r.open_stack;
  closing = rw (done, r.going) (ends_plain t plain);
  closed = λ e. cc (done, r.going, e);
  ordered = rw pos (Before-refl (here l), before);
  literals = (spelling, tt);
}

pub Moves-Advances :
    {l m : Lexer} → Ready l → Moves l m → length m.rest < length l.rest → Advances l m
Moves-Advances {l} {m} r h lt = record {
  new = [];
  adds = Adds-weaken (omega arith) (Moves-Adds r h);
  fewer = rw (h.at_line_start, h.done) (omega arith);
}

pub Scans-Advances : {l m : Lexer} → Ready l → Scans l m → Advances l m
Scans-Advances {l} {m} r (t, e, x) = record {
  new = t ∷ [];
  adds =
      Adds-weaken (omega arith)
        (Emits-Adds r e.indents e.done e.pending e.pos (ground arith) x.plain x.literal);
  fewer = rw (e.at_line_start, e.done) (omega (arith, e.shorter));
}

steps_left-le : {l m : Lexer} → Moves l m → steps_left m ≤ steps_left l
steps_left-le h = rw (h.at_line_start, h.done) (omega (arith, h.shorter))

-- What is read before a step counts as part of it.
pub Moves-then : {l m n : Lexer} → Ready l → Moves l m → Advances m n → Advances l n
Moves-then {l} {m} {n} r h a = record {
  new = a.new;
  adds = Adds-trans (Moves-Adds r h) (rw h.done r.going) a.adds;
  fewer = omega (arith, a.fewer, steps_left-le h);
}
