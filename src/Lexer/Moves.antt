-- ===== src/Lexer/Moves.antt =====
-- How the small methods move the scanner: what they leave alone, and which way the cursor goes.
use minipy.Base.{
  ℕ, ◌+◌, ◌-◌, ◌≤◌, ◌<◌, ◌≡◌, Bool, true, false, Bytes, ltb, List, [], ◌∷◌, ◌++◌, arith, length,
  length-drop, Bool-cases, inl, inr, some, get_elem?, drop,
}
use minipy.Token.{TokenType, Pos, Token, ordinal, spelled}
use minipy.Token.Errors.{Code, Message}
use minipy.Lexer.State.{
  Lexer, here, add, advance, advance_while, report, span, skip_newline, consume_newline, cur,
}

pub cur-cons : (l : Lexer) (c : ℕ) → cur l ≡ some c → l.rest ≡ c ∷ drop 1 l.rest
cur-cons l c e = go l.rest e
  where
    go : (rs : List ℕ) → get_elem? rs 0 ≡ some c → rs ≡ c ∷ drop 1 rs
    go [] h = cc
    go (r ∷ rs) h = cc

pub cur-some : (l : Lexer) (c : ℕ) → cur l ≡ some c → 0 < length l.rest
cur-some l c e = go l.rest e
  where
    go : (rs : List ℕ) → get_elem? rs 0 ≡ some c → 0 < length rs
    go [] h = cc
    go (r ∷ rs) h = omega arith

-- The order in which positions stand in a text.
pub record Before (p q : Pos) : Type 0 where
  pub line : p.line ≤ q.line
  pub column : p.line ≡ q.line → p.column ≤ q.column

-- Reading only: the cursor goes on, and the tokens and the stacks stay.
pub record Moves (l l' : Lexer) : Type 0 where
  pub shorter : length l'.rest ≤ length l.rest
  pub lines : l.line ≤ l'.line
  pub columns : l.line ≡ l'.line → l.column ≤ l'.column
  pub indents : l'.indents ≡ l.indents
  pub pending : l'.pending ≡ l.pending
  pub parens : l'.parens ≡ l.parens
  pub at_line_start : l'.at_line_start ≡ l.at_line_start
  pub line_has_tok : l'.line_has_tok ≡ l.line_has_tok
  pub done : l'.done ≡ l.done

pub Moves-refl : (l : Lexer) → Moves l l
Moves-refl l = ground arith

pub Moves-trans : {l m n : Lexer} → Moves l m → Moves m n → Moves l n
Moves-trans p q = ground arith

pub advance-Moves : (n : ℕ) (l : Lexer) → Moves l (advance n l)
advance-Moves n l = ground (arith, length-drop n l.rest)

pub report-Moves : (p : Pos) (c : Code) (m : Message) (l : Lexer) → Moves l (report p c m l)
report-Moves p c m l = ground arith

pub length-span :
    (p : ℕ → Bool) (rs : List ℕ) → length (span p rs).0 + length (span p rs).1 ≡ length rs
unfolding span
length-span p [] = omega arith
length-span p (r ∷ rs) = elim (Bool-cases (p r)) [
  | inl e ↦ rw e (omega (arith, length-span p rs))
  | inr e ↦ rw e (omega arith)
]

pub advance_while-Moves : (p : ℕ → Bool) (l : Lexer) → Moves l (advance_while p l)
advance_while-Moves p l = ground (arith, length-span p l.rest)

pub advance_while-lt :
    (p : ℕ → Bool) (l : Lexer) (r : ℕ) (rs : List ℕ)
    → l.rest ≡ r ∷ rs
    → p r ≡ true
    → length (advance_while p l).rest < length l.rest
unfolding span
advance_while-lt p l r rs e h = rw (e, h) (omega (arith, length-span p rs))

pub advance_while-stop :
    (p : ℕ → Bool) (l : Lexer) (r : ℕ) (rs : List ℕ)
    → l.rest ≡ r ∷ rs
    → p r ≡ false
    → (advance_while p l).rest ≡ l.rest
unfolding span
advance_while-stop p l r rs e h = rw (e, h)

pub length-skip_newline : (rs : List ℕ) → length (skip_newline rs) ≤ length rs - 1
unfolding skip_newline
length-skip_newline [] = omega arith
length-skip_newline (r ∷ rs) = ground (arith, length-drop 1 rs)

pub consume_newline-Moves : (l : Lexer) → Moves l (consume_newline l)
unfolding consume_newline
consume_newline-Moves l = ground (arith, length-skip_newline l.rest)

pub consume_newline-shorter : (l : Lexer) → length (consume_newline l).rest ≤ length l.rest - 1
unfolding consume_newline
consume_newline-shorter l = length-skip_newline l.rest

-- The token, and the rest of the text, after a routine that scans one token.
pub record Emits (l l' : Lexer) (t : Token) : Type 0 where
  pub shorter : length l'.rest < length l.rest
  pub lines : l.line ≤ l'.line
  pub columns : l.line ≡ l'.line → l.column ≤ l'.column
  pub indents : l'.indents ≡ l.indents
  pub pending : l'.pending ≡ l.pending ++ (t ∷ [])
  pub pos : t.pos ≡ here l
  pub at_line_start : l'.at_line_start ≡ l.at_line_start
  pub done : l'.done ≡ l.done

-- INDENT, DEDENT and ENDMARKER.
abbrev pub is_structure : TokenType → Bool
is_structure TokenType.indent = true
is_structure TokenType.dedent = true
is_structure TokenType.eof = true
is_structure _ = false

-- The keywords, operators and delimiters, which stand behind `BYTES`.
abbrev pub has_spelling : TokenType → Bool
unfolding ordinal
has_spelling t = ltb (ordinal TokenType.bytes) (ordinal t)

-- A token of a line: no structure token, and spelled as its type if that has a spelling.
pub record IsLexeme (t : Token) : Type 0 where
  pub plain : is_structure t.type ≡ false
  pub literal : has_spelling t.type ≡ true → t.literal ≡ spelled t.type

-- One lexeme is scanned, at the cursor.
abbrev pub Scans : Lexer → Lexer → Type 0
Scans l l' = (t : Token) × Emits l l' t × IsLexeme t

pub add-Scans :
    (l m : Lexer) (t : TokenType) (lit : Bytes)
    → Moves l m
    → length m.rest < length l.rest
    → is_structure t ≡ false
    → (has_spelling t ≡ true → lit ≡ spelled t)
    → Scans l (add t lit (here l) m)
add-Scans l m t lit h lt plain spelling = (
  record { type = t; literal = lit; pos = here l },
  ground arith,
  record { plain = plain; literal = spelling },
)
