-- ===== src/Lexer/Run/Steps.antt =====
-- What a step of the scanner adds to the tokens, and the steps that it leaves.
use minipy.Lexer.Blocks.{Before-refl}
use minipy.Base.{
  ◌||◌, ℕ, suc, ◌<◌, ◌≡◌, refl, Bool, true, false, List, [], ◌∷◌, some, none, inl, inr, arith,
  if◌then◌else◌, length, length-drop, Bool-cases, Option-cases, take, drop, get_elem?, not, ◌&&◌,
  ◌==◌, Option, ap, Bytes, sym, ==_iff, ◌∙◌,
}
use minipy.Token.{TokenType, Token, spelled, spelling, lookup, ordinal, is_keyword}
use minipy.Token.Names.{lookup_sound}
use minipy.Token.Errors.{Code, Message}
use minipy.Lexer.Utf8.{Library, encode}
use minipy.Lexer.Prefix.{classify_prefix, plain}
use minipy.Lexer.State.{
  Lexer, at, cur, holds, here, advance, add, report, is_newline, consume_newline, is_name_continue,
  is_name_start, advance_while, between,
}
use minipy.Lexer.Moves.{
  Moves, Moves-refl, Moves-trans, advance-Moves, report-Moves, consume_newline-Moves,
  consume_newline-shorter, advance_while-Moves, advance_while-lt, cur-cons, cur-some, add-Scans,
  Scans, is_structure,
}
use minipy.Lexer.Operators.Spelling.{match_operator-IsMatch, IsMatch?}
use minipy.Lexer.Operators.{match_operator, scan_operator, adjust_parens, Match}
use minipy.Lexer.Strings.Moves.{scan_string-Scans}
use minipy.Lexer.Numbers.Moves.{scan_number-Scans}
use minipy.Lexer.Indent.{pop_all}
use minipy.Lexer.Indent.Adds.{pop_all-Adds, scan_indent-Advances, pop_all-Keeps, skip_comment-lt}
use minipy.Lexer.Effects.{
  Adds, Ready, Advances, Moves-Adds, Adds-trans, Adds-weaken, Emits-Adds, Moves-Advances,
  Scans-Advances, Moves-then, Moves-Ready, Adds-flags, blocks,
}
use minipy.Lexer.Run.{
  scan_name_or_string, finish, start, backslash, end_line, with_token, scan, step_started, step,
  is_quote, is_digit, end_statement,
}

encode-spelled : (t : TokenType) → encode (spelled t) ≡ spelled t
unfolding encode spelling
encode-spelled TokenType.illegal = refl
encode-spelled _ = refl

with_token-Advances : {l m : Lexer} → Advances l m → Advances l (with_token m)
with_token-Advances {l} {m} a = record {
  new = a.new;
  adds = Adds-flags m.at_line_start true a.adds;
  fewer = a.fewer;
}

-- The token of a match, whatever the scan does to `parens`.
match-Advances :
    (l : Lexer) (c k : ℕ) (rs : List ℕ) (o : Option Match)
    → Ready l
    → l.rest ≡ c ∷ rs
    → IsMatch? (c ∷ rs) o
    → Advances l (elim o as (λ o. Lexer) [
      | none ↦ advance 1 (report (here l) Code.lex_error (Message.unexpected_character c) l)
      | some (t, n) ↦ add t (encode (take n l.rest)) (here l) (advance n (record l { parens = k }))
    ])
match-Advances l c k rs none r e h =
    let said = report-Moves (here l) Code.lex_error (Message.unexpected_character c) l in
    let after = report (here l) Code.lex_error (Message.unexpected_character c) l in
    Moves-Advances r (Moves-trans said (advance-Moves 1 after))
      (omega (arith, length-drop 1 l.rest, ap length e))
match-Advances l c k rs (some (t, n)) r e h = record {
  new = _;
  adds =
      Adds-weaken (omega arith)
        (Emits-Adds r refl refl refl refl (omega arith) h.2 (λ _. rw (e, h.0) (encode-spelled t)));
  fewer = omega (arith, length-drop n l.rest, ap length e, h.1);
}

get_elem?-drop {ℓ} :
    {A : Type ℓ} (xs : List A) (i : ℕ) → get_elem? (drop 1 xs) i ≡ get_elem? xs (suc i)
get_elem?-drop [] i = refl
get_elem?-drop (x ∷ xs) i = refl

scan_operator-Advances :
    (l : Lexer) (c : ℕ) → Ready l → cur l ≡ some c → Advances l (scan_operator c l)
unfolding scan_operator
scan_operator-Advances l c r e =
    match-Advances l c (adjust_parens c l.parens) (drop 1 l.rest)
      (match_operator c (at l 1) (at l 2)) r (cur-cons l c e)
      (rw (get_elem?-drop l.rest 0, get_elem?-drop l.rest 1) at
        (match_operator-IsMatch c (drop 1 l.rest)))

keyword-IsLexeme : (t : TokenType) → is_keyword t ≡ true → is_structure t ≡ false
unfolding is_keyword ordinal
keyword-IsLexeme TokenType.illegal h = refl
keyword-IsLexeme _ h = ground arith

-- An identifier or keyword.
word-Scans :
    (l m : Lexer) (w : Bytes)
    → Moves l m
    → length m.rest < length l.rest
    → Scans l (add (lookup w) w (here l) m)
unfolding ordinal
word-Scans l m w h lt = elim (lookup_sound w) [
  | inl e ↦ add-Scans l m (lookup w) w h lt (rw e refl) (λ p. cc (rw e at p))
  | inr (k, e) ↦ add-Scans l m (lookup w) w h lt (keyword-IsLexeme (lookup w) k) (λ _. sym e)
]

name_start-continue : (u : Library) (c : ℕ) → is_name_start u c ≡ true → is_name_continue u c ≡ true
name_start-continue u c h = ground arith

scan_name_or_string-Scans :
    (u : Library) (l : Lexer) (c : ℕ)
    → cur l ≡ some c
    → is_name_start u c ≡ true
    → Scans l (scan_name_or_string u l)
unfolding scan_name_or_string
scan_name_or_string-Scans u l c e h =
    let end = advance_while (is_name_continue u) l in
    let word = between l end in
    let moved = advance_while-Moves (is_name_continue u) l in
    let lt =
      advance_while-lt (is_name_continue u) l c _ (cur-cons l c e) (name_start-continue u c h) in
    let named = word-Scans l end word moved lt in
    elim (Option-cases (cur end)) [
      | inl none_left ↦ rw (none_left, scan_name_or_string) named
      | inr (q, some_left) ↦ elim (Bool-cases (is_quote q && not (length word == 0))) [
        | inr no_quote ↦ rw (some_left, no_quote, scan_name_or_string) named
        | inl quote ↦ elim (Option-cases (classify_prefix word)) [
          | inl no_prefix ↦ rw (some_left, quote, no_prefix, scan_name_or_string) named
          | inr (mode, prefix) ↦
              rw (some_left, quote, prefix, scan_name_or_string)
                (scan_string-Scans l end mode q moved (cur-some end q some_left))
        ]
      ]
    ]

-- Reading that takes at least one rune.
abbrev Reads : Lexer → Lexer → Type 0
Reads l m = Moves l m × (length m.rest < length l.rest)

backslash-Reads : (l : Lexer) (c : ℕ) → cur l ≡ some c → Reads l (backslash c l)
unfolding backslash
backslash-Reads l c e = elim (Bool-cases (holds is_newline (at l 1))) [
  | inl h ↦
      let joined = consume_newline-Moves (advance 1 l) in
      rw (h, backslash)
        (
          Moves-trans (advance-Moves 1 l) joined,
          omega (arith, joined.shorter, length-drop 1 l.rest, cur-some l c e),
        )
  | inr h ↦
      let said = report-Moves (here l) Code.lex_error (Message.unexpected_character c) l in
      let after = report (here l) Code.lex_error (Message.unexpected_character c) l in
      rw (h, backslash)
        (
          Moves-trans said (advance-Moves 1 after),
          omega (arith, length-drop 1 l.rest, cur-some l c e),
        )
]

-- A line that has been read up to `m`, with its NEWLINE if it has one.
line-Advances :
    (l m : Lexer) (new : List Token)
    → Adds 1 l m new
    → m.done ≡ l.done
    → length m.rest < length l.rest
    → Advances l (record m { at_line_start = true; line_has_tok = false })
line-Advances l m new adds done lt = record {
  new = new;
  adds = Adds-flags true false (Adds-weaken (omega arith) adds);
  fewer = rw done (omega arith);
}

newline-Adds :
    (l m : Lexer)
    → Ready l
    → Moves l m
    → Adds 1 l
        (add TokenType.newline [] (here m) m)
        (record { type = TokenType.newline; literal = []; pos = here m } ∷ [])
unfolding ordinal
newline-Adds l m r h =
    let ready = Moves-Ready r h in
    Adds-trans (Moves-Adds r h) ready.going
      (Emits-Adds ready refl refl refl refl (Before-refl (here m)) refl (λ e. cc))

end_line-Advances : (l : Lexer) (c : ℕ) → Ready l → cur l ≡ some c → Advances l (end_line l)
unfolding end_line
end_line-Advances l c r e =
    let m = consume_newline l in
    let read = consume_newline-Moves l in
    let shorter : length m.rest < length l.rest =
      omega (arith, consume_newline-shorter l, cur-some l c e) in
    elim (Bool-cases (m.parens == 0)) [
      | inr inside ↦ rw (inside, end_line) (Moves-Advances r read shorter)
      | inl outside ↦ elim (Bool-cases m.line_has_tok) [
        | inl full ↦
            rw (outside, full, end_line)
              (line-Advances l (add TokenType.newline [] (here m) m) _ (newline-Adds l m r read)
                read.done shorter)
        | inr blank ↦
            rw (outside, blank, end_line)
              (line-Advances l m [] (Adds-weaken (omega arith) (Moves-Adds r read)) read.done
                shorter)
      ]
    ]

-- Under an `if` both branches may be looked at on their own.
Advances-if :
    (l : Lexer) (t : Bool) (m n : Lexer)
    → (t ≡ true → Advances l m)
    → (t ≡ false → Advances l n)
    → Advances l (if t then m else n)
Advances-if l true m n h k = h refl
Advances-if l false m n h k = k refl

scan-Advances :
    (u : Library) (l : Lexer) (c : ℕ) → Ready l → cur l ≡ some c → Advances l (scan u c l)
unfolding scan
scan-Advances u l c r e =
    let go = Advances-if l in
    let some_left = cur-some l c e in
    Advances-if l (c == b' ' || c == 12 || c == b'\t') _ _
      (λ _. Moves-Advances r (advance-Moves 1 l) (omega (arith, length-drop 1 l.rest, some_left)))
      (λ _.
        Advances-if l (c == b'\\') _ _
          (λ _. let (read, lt) = backslash-Reads l c e in Moves-Advances r read lt)
          (λ _.
            Advances-if l (c == b'#') _ _
              (λ h.
                Moves-Advances r (advance_while-Moves (λ x. not (is_newline x)) l)
                  (skip_comment-lt l c e ((==_iff c b'#').0 h)))
              (λ _.
                Advances-if l (is_newline c) _ _ (λ _. end_line-Advances l c r e)
                  (λ _.
                    Advances-if l (is_name_start u c) _ _
                      (λ h.
                        with_token-Advances
                          (Scans-Advances r (scan_name_or_string-Scans u l c e h)))
                      (λ _.
                        Advances-if l (is_digit c || (c == b'.' && holds is_digit (at l 1))) _ _
                          (λ h.
                            with_token-Advances (Scans-Advances r (scan_number-Scans u l c (e, h))))
                          (λ _.
                            Advances-if l (is_quote c) _ _
                              (λ _. with_token-Advances (
                                Scans-Advances r
                                  (scan_string-Scans l l plain c (Moves-refl l) some_left)))
                              (λ _. with_token-Advances (scan_operator-Advances l c r e))))))))

-- ENDMARKER, once all blocks are closed.
eof-Adds :
    (l : Lexer)
    → Ready l
    → blocks l.indents ≡ 0
    → Adds 1 l
        (record (add TokenType.eof [] (here l) l) { done = true })
        (record { type = TokenType.eof; literal = []; pos = here l } ∷ [])
unfolding ordinal
eof-Adds l r closed = record {
  appended = refl;
  room = omega arith;
  nested = refl;
  open_stack = r.open_stack;
  closing = refl;
  closed = λ _. closed;
  ordered = (Before-refl (here l), Before-refl (here l));
  literals = (λ h. cc, tt);
}

eof-Advances :
    (l m : Lexer) (new : List Token)
    → Ready l
    → Adds 1 l m new
    → Ready m
    → m.rest ≡ l.rest
    → m.at_line_start ≡ l.at_line_start
    → Advances l (record (add TokenType.eof [] (here (pop_all m.indents m)) (pop_all m.indents m)) {
      done = true;
    })
eof-Advances l m new r adds ready rest flag =
    let (dedents, popped, ready', closed) = pop_all-Adds m.indents m ready refl in
    let kept = pop_all-Keeps m.indents m in
    record {
      new = _;
      adds =
          Adds-trans adds ready.going
            (Adds-trans popped ready'.going (eof-Adds (pop_all m.indents m) ready' closed));
      fewer = simp (r.going, kept.2 ∙ flag) (omega (arith, ap length kept.0, ap length rest));
    }

end_statement-Adds :
    (l : Lexer)
    → Ready l
    → (has_tok : Bool)
    → let m : Lexer =
        if has_tok
        then record (add TokenType.newline [] (here l) l) { line_has_tok = false }
        else l in
      (new : List Token) × Adds 1 l m new
      × Ready m
      × (m.rest ≡ l.rest)
      × (m.at_line_start ≡ l.at_line_start)
end_statement-Adds l r true = (
  _,
  Adds-flags l.at_line_start false (newline-Adds l l r (Moves-refl l)),
  record { open_stack = r.open_stack; going = r.going },
  refl,
  refl,
)
end_statement-Adds l r false =
    ([], Adds-weaken (omega arith) (Moves-Adds r (Moves-refl l)), r, refl, refl)

-- The end of the input: a last NEWLINE, the DEDENTs of all open blocks, and ENDMARKER.
finish-Advances : (l : Lexer) → Ready l → Advances l (finish l)
unfolding finish
finish-Advances l r =
    let (new, adds, ready, rest, flag) = end_statement-Adds l r l.line_has_tok in
    eof-Advances l (end_statement l) new r adds ready rest flag

step_started-Advances : (u : Library) (l : Lexer) → Ready l → Advances l (step_started u l)
unfolding step_started
step_started-Advances u l r = elim (Option-cases (cur l)) [
  | inl e ↦ rw (e, step_started) (finish-Advances l r)
  | inr (c, e) ↦ elim (Bool-cases (l.at_line_start && l.parens == 0)) [
    | inl h ↦ rw (e, h, step_started) (scan_indent-Advances l c r e (ground arith))
    | inr h ↦ rw (e, h, step_started) (scan-Advances u l c r e)
  ]
]

start-Moves : (l : Lexer) → Moves l (start l)
unfolding start
start-Moves l = ground (arith, length-drop 1 l.rest)

-- A step that is taken before the end appends tokens that keep the nesting of blocks, the order of
-- positions and the spellings, and lowers the bound on the steps that are left.
pub step-Advances : (u : Library) (l : Lexer) → Ready l → Advances l (step u l)
unfolding step
step-Advances u l r =
    let h = start-Moves l in Moves-then r h (step_started-Advances u (start l) (Moves-Ready r h))
