-- ===== src/Lexer/Indent/Adds.antt =====
-- What `scanIndent` and the closing of blocks add to the tokens.
use minipy.Base.{
  ℕ, suc, ◌+◌, ◌<◌, ◌≡◌, refl, true, false, List, [], ◌∷◌, some, ◌⊎◌, inl, inr, arith,
  if◌then◌else◌, length, length-drop, Bool-cases, ltb, ◌==◌, ap, Option,
}
use minipy.Token.{TokenType, Token, ordinal}
use minipy.Token.Errors.{Code, Message}
use minipy.Lexer.State.{Lexer, cur, is, here, advance, add, report, is_newline, skip_comment}
use minipy.Lexer.Moves.{
  Moves, Moves-refl, Moves-trans, advance-Moves, report-Moves, consume_newline-Moves,
  consume_newline-shorter, advance_while-Moves, advance_while-lt, cur-cons, cur-some,
}
use minipy.Lexer.Blocks.{Before-refl}
use minipy.Lexer.Effects.{
  Adds, Ready, Moves-Adds, Adds-trans, Adds-weaken, Advances, blocks, Moves-Advances, Moves-Ready,
  Adds-flags,
}
use minipy.Lexer.Indent.{
  is_blank, measure, top, pop_to, pop_all, set_indent, blank_line, ends_line, scan_indent, line_end,
}

measure-Moves : (rs : List ℕ) (w : ℕ) (l : Lexer) → Moves l (measure rs w l).1
unfolding measure
measure-Moves [] w l = Moves-refl l
measure-Moves (r ∷ rs) w l =
    let tab = report (here l) Code.lex_error Message.tab_in_indentation l in
    ground (
      arith,
      Moves-refl l,
      Moves-trans (advance-Moves 1 l) (measure-Moves rs (w + 1) (advance 1 l)),
      Moves-trans (advance-Moves 1 tab) (measure-Moves rs w (advance 1 tab)),
    )

measure-lt :
    (r : ℕ) (rs : List ℕ) (w : ℕ) (l : Lexer)
    → 0 < length l.rest
    → (length (measure (r ∷ rs) w l).1.rest < length l.rest) ⊎ (measure (r ∷ rs) w l ≡ (w, l))
unfolding measure
measure-lt r rs w l h = elim (Bool-cases (is_blank r)) [
  | inl e ↦ inl (
      rw (e, measure)
        (omega (arith, (measure-Moves rs (w + 1) (advance 1 l)).shorter, length-drop 1 l.rest)))
  | inr e ↦ elim (Bool-cases (r == b'\t')) [
    | inl t ↦
        let tab = report (here l) Code.lex_error Message.tab_in_indentation l in
        inl (
          rw (e, t, measure)
            (omega (arith, (measure-Moves rs w (advance 1 tab)).shorter, length-drop 1 l.rest)))
    | inr t ↦ inr (rw (e, t, measure) refl)
  ]
]

line_end-Moves : (l : Lexer) → Moves l (line_end l)
unfolding line_end
line_end-Moves l = ground (arith, Moves-refl l, consume_newline-Moves l)

blank_line-Moves : (l : Lexer) → Moves l (blank_line l)
unfolding blank_line
blank_line-Moves l =
    let comment : Moves l (skip_comment l) = advance_while-Moves _ l in
    ground (arith, line_end-Moves l, Moves-trans comment (line_end-Moves (skip_comment l)))

pub skip_comment-lt :
    (l : Lexer) (c : ℕ) → cur l ≡ some c → c ≡ b'#' → length (skip_comment l).rest < length l.rest
skip_comment-lt l c e h = advance_while-lt _ l c _ (cur-cons l c e) (rw h refl)

line_end-lt :
    (l : Lexer) (c : ℕ)
    → cur l ≡ some c
    → is_newline c ≡ true
    → length (line_end l).rest < length l.rest
unfolding line_end
line_end-lt l c e h = rw (e, h, line_end) (omega (arith, consume_newline-shorter l, cur-some l c e))

blank_line-lt :
    (l : Lexer) (c : ℕ)
    → cur l ≡ some c
    → ends_line (some c) ≡ true
    → length (blank_line l).rest < length l.rest
unfolding blank_line ends_line
blank_line-lt l c e h = elim (Bool-cases (c == b'#')) [
  | inl p ↦
      rw (e, p, blank_line)
        (omega
          (arith, skip_comment-lt l c e (ground arith), (line_end-Moves (skip_comment l)).shorter))
  | inr p ↦ rw (e, p, blank_line) (line_end-lt l c e (ground arith))
]

-- A blank line is read over, and is not empty.
blank-shorter :
    (rs : List ℕ) (l : Lexer) (c : ℕ)
    → cur l ≡ some c
    → l.rest ≡ rs
    → ends_line (cur (measure rs 0 l).1) ≡ true
    → length (blank_line (measure rs 0 l).1).rest < length l.rest
blank-shorter [] l c e q h = absurd (omega (arith, cur-some l c e, ap length q))
blank-shorter (r ∷ rs) l c e q h = elim (measure-lt r rs 0 l (cur-some l c e)) [
  | inl lt ↦ omega (arith, lt, (blank_line-Moves (measure (r ∷ rs) 0 l).1).shorter)
  | inr stay ↦ rw stay (blank_line-lt l c e (rw (stay, e) at h))
]

dedent-Ready :
    (l : Lexer) (j : ℕ) (js : List ℕ)
    → Ready l
    → Ready (add TokenType.dedent [] (here l) (record l { indents = j ∷ js }))
dedent-Ready l j js r = record { open_stack = omega arith; going = r.going }

-- Closing the innermost block.
dedent-Adds :
    (l : Lexer) (i j : ℕ) (js : List ℕ)
    → Ready l
    → l.indents ≡ i ∷ j ∷ js
    → Adds 0 l
        (add TokenType.dedent [] (here l) (record l { indents = j ∷ js }))
        (record { type = TokenType.dedent; literal = []; pos = here l } ∷ [])
unfolding ordinal
dedent-Adds l i j js r e = record {
  appended = refl;
  room = rw e (omega arith);
  nested = rw e refl;
  open_stack = omega arith;
  closing = rw r.going refl;
  closed = λ e. cc (r.going, e);
  ordered = (Before-refl (here l), Before-refl (here l));
  literals = (λ h. cc, tt);
}

pop_to-Adds :
    (w : ℕ) (is : List ℕ) (l : Lexer)
    → Ready l
    → l.indents ≡ is
    → (new : List Token) × Adds 0 l (pop_to w is l) new × (Ready (pop_to w is l))
unfolding pop_to
pop_to-Adds w [] l r e = ([], Moves-Adds r (Moves-refl l), r)
pop_to-Adds w (i ∷ []) l r e = ([], Moves-Adds r (Moves-refl l), r)
pop_to-Adds w (i ∷ j ∷ js) l r e = elim (Bool-cases (ltb w i)) [
  | inr h ↦ rw h ([], Moves-Adds r (Moves-refl l), r)
  | inl h ↦ rw h (
      let popped = add TokenType.dedent [] (here l) (record l { indents = j ∷ js }) in
      let (new, adds, ready) = pop_to-Adds w (j ∷ js) popped (dedent-Ready l j js r) refl in
      (_, Adds-trans (dedent-Adds l i j js r e) r.going adds, ready))
]

pub pop_all-Adds :
    (is : List ℕ) (l : Lexer)
    → Ready l
    → l.indents ≡ is
    → (new : List Token) × Adds 0 l (pop_all is l) new
      × Ready (pop_all is l)
      × (blocks (pop_all is l).indents ≡ 0)
unfolding pop_all
pop_all-Adds [] l r e = ([], Moves-Adds r (Moves-refl l), r, rw e refl)
pop_all-Adds (i ∷ []) l r e = ([], Moves-Adds r (Moves-refl l), r, rw e refl)
pop_all-Adds (i ∷ j ∷ js) l r e =
    let popped = add TokenType.dedent [] (here l) (record l { indents = j ∷ js }) in
    let (new, adds, ready, closed) = pop_all-Adds (j ∷ js) popped (dedent-Ready l j js r) refl in
    (_, Adds-trans (dedent-Adds l i j js r e) r.going adds, ready, closed)

indent-nested :
    (is : List ℕ) → 0 < length is → ◌≡◌ {A = Option ℕ} (some (suc (blocks is))) (some (length is))
indent-nested [] h = absurd (omega arith)
indent-nested (i ∷ is) h = refl

-- What the changes of the stack leave alone.
abbrev pub Keeps : Lexer → Lexer → Type 0
Keeps l l' = (l'.rest ≡ l.rest) × (l'.done ≡ l.done) × (l'.at_line_start ≡ l.at_line_start)

pub pop_all-Keeps : (is : List ℕ) (l : Lexer) → Keeps l (pop_all is l)
unfolding pop_all
pop_all-Keeps [] l = (refl, refl, refl)
pop_all-Keeps (i ∷ []) l = (refl, refl, refl)
pop_all-Keeps (i ∷ j ∷ js) l = ground (
  arith,
  pop_all-Keeps (j ∷ js) (add TokenType.dedent [] (here l) (record l { indents = j ∷ js })),
)

-- Opening a block.
indent-Adds :
    (l : Lexer) (w : ℕ)
    → Ready l
    → Adds 2 l
        (add TokenType.indent [] (here l) (record l { indents = w ∷ l.indents }))
        (record { type = TokenType.indent; literal = []; pos = here l } ∷ [])
unfolding ordinal
indent-Adds l w r = record {
  appended = refl;
  room = omega arith;
  nested = indent-nested l.indents r.open_stack;
  open_stack = omega arith;
  closing = rw r.going refl;
  closed = λ e. cc (r.going, e);
  ordered = (Before-refl (here l), Before-refl (here l));
  literals = (λ h. cc, tt);
}

-- A step that leaves the length of the text, and `done`, to what has been read.
set_indent-Adds : (w : ℕ) (l : Lexer) → Ready l → (new : List Token) × Adds 2 l (set_indent w l) new
unfolding set_indent
set_indent-Adds w l r = elim (Bool-cases (ltb (top l.indents) w)) [
  | inl e ↦ rw (e, set_indent) (_, indent-Adds l w r)
  | inr e ↦ elim (Bool-cases (ltb w (top l.indents))) [
    | inr f ↦ rw (e, f, set_indent) ([], Adds-weaken (omega arith) (Moves-Adds r (Moves-refl l)))
    | inl f ↦
        let l' = pop_to w l.indents l in
        let (new, adds, ready) = pop_to-Adds w l.indents l r refl in
        elim (Bool-cases (top l'.indents == w)) [
          | inl g ↦ rw (e, f, g, set_indent) (new, Adds-weaken (omega arith) adds)
          | inr g ↦
              rw (e, f, g, set_indent)
                (
                  _,
                  Adds-weaken (omega arith) (
                      Adds-trans adds ready.going (
                        Moves-Adds ready
                          (report-Moves (here l') Code.lex_error Message.unmatched_unindent l'))),
                )
        ]
  ]
]

pop_to-Keeps : (w : ℕ) (is : List ℕ) (l : Lexer) → Keeps l (pop_to w is l)
unfolding pop_to
pop_to-Keeps w [] l = (refl, refl, refl)
pop_to-Keeps w (i ∷ []) l = (refl, refl, refl)
pop_to-Keeps w (i ∷ j ∷ js) l = ground (
  arith,
  pop_to-Keeps w (j ∷ js) (add TokenType.dedent [] (here l) (record l { indents = j ∷ js })),
)

set_indent-Keeps : (w : ℕ) (l : Lexer) → Keeps l (set_indent w l)
unfolding set_indent
set_indent-Keeps w l = ground (arith, pop_to-Keeps w l.indents l)

-- Reading up to `m`, and then the tokens of a line that is not blank.
text-Advances :
    (l m n : Lexer) (new : List Token)
    → Ready l
    → l.at_line_start ≡ true
    → Moves l m
    → Adds 2 m n new
    → Keeps m n
    → Advances l (record n { at_line_start = false; line_has_tok = false })
text-Advances l m n new r start read adds kept = record {
  new = new;
  adds = Adds-flags false false (Adds-trans (Moves-Adds r read) (Moves-Ready r read).going adds);
  fewer = simp (start, kept.1, read.done, r.going) (omega (arith, read.shorter, ap length kept.0));
}

-- The start of a line is a step: a blank line is read, any other is a line from now on.
pub scan_indent-Advances :
    (l : Lexer) (c : ℕ)
    → Ready l
    → cur l ≡ some c
    → l.at_line_start ≡ true
    → Advances l (
        if (scan_indent l).0
        then (scan_indent l).1
        else record (scan_indent l).1 { at_line_start = false; line_has_tok = false })
unfolding scan_indent
scan_indent-Advances l c r e start =
    let (w, m) = measure l.rest 0 l in
    let read = measure-Moves l.rest 0 l in
    elim (Bool-cases (ends_line (cur m))) [
      | inl h ↦
          rw (h, scan_indent)
            (Moves-Advances r (Moves-trans read (blank_line-Moves m))
              (blank-shorter l.rest l c e refl h))
      | inr h ↦
          let (new, adds) = set_indent-Adds w m (Moves-Ready r read) in
          rw (h, scan_indent)
            (text-Advances l m (set_indent w m) new r start read adds (set_indent-Keeps w m))
    ]
