-- ===== src/Lexer/Numbers/Moves.antt =====
-- How `scanNumber` moves the scanner, and the token that it adds.
use minipy.Base.{
  ℕ, ◌<◌, ◌≡◌, refl, Bool, true, false, ◌||◌, ◌&&◌, ◌==◌, some, arith, if◌then◌else◌, length,
  Bool-cases, inl, inr, Bytes, Option-cases, length-drop, ap,
}
use minipy.Token.{TokenType, ordinal}
use minipy.Lexer.Utf8.{Library}
use minipy.Lexer.Moves.{
  Moves, Moves-refl, Moves-trans, Scans, add-Scans, advance-Moves, advance_while-Moves,
  report-Moves, is_structure, has_spelling, advance_while-lt, cur-cons, advance_while-stop,
  cur-some,
}
use minipy.Lexer.State.{Lexer, cur, at, holds, here, advance, is_digit}
use minipy.Lexer.Numbers.{
  digits, fraction, exponent, imaginary, finish_int, finish_float, scan_number, is_radix_mark,
  Parsed-cases, parse_int, without_underscores, Code, Message, report, add, is, between,
  advance_while, is_hex_digit,
}

-- A report before the token changes nothing of this.
report-Scans :
    (l m : Lexer) (t : TokenType) (lit : Bytes) (c : Code) (msg : Message)
    → Moves l m
    → length m.rest < length l.rest
    → is_structure t ≡ false
    → has_spelling t ≡ false
    → Scans l (add t lit (here l) (report (here l) c msg m))
report-Scans l m t lit c msg h lt plain unspelled =
    add-Scans l (report (here l) c msg m) t lit (Moves-trans h (report-Moves (here l) c msg m)) lt
      plain (λ e. cc)

finish_int-Scans :
    (text : Bytes) (l m : Lexer)
    → Moves l m
    → length m.rest < length l.rest
    → Scans l (finish_int text (here l) m)
unfolding finish_int ordinal
finish_int-Scans text l m h lt = elim (Parsed-cases (parse_int (without_underscores text))) [
  | inl (v, e) ↦ rw (e, finish_int) (add-Scans l m TokenType.int _ h lt refl (λ e. cc))
  | inr (inl e) ↦
      rw (e, finish_int) (report-Scans l m TokenType.int _ Code.int_overflow _ h lt refl refl)
  | inr (inr e) ↦
      rw (e, finish_int) (report-Scans l m TokenType.int _ Code.lex_error _ h lt refl refl)
]

finish_float-Scans :
    (u : Library) (text : Bytes) (l m : Lexer)
    → Moves l m
    → length m.rest < length l.rest
    → Scans l (finish_float u text (here l) m)
unfolding finish_float ordinal
finish_float-Scans u text l m h lt =
    elim (Bool-cases (u.parse_float_ok (without_underscores text))) [
      | inl e ↦ rw (e, finish_float) (add-Scans l m TokenType.float _ h lt refl (λ e. cc))
      | inr e ↦
          rw (e, finish_float) (report-Scans l m TokenType.float _ Code.lex_error _ h lt refl refl)
    ]

digits-Moves : (l : Lexer) → Moves l (digits l)
unfolding digits
digits-Moves l = advance_while-Moves _ l

fraction-Moves : (l : Lexer) → Moves l (fraction l).0
unfolding fraction
fraction-Moves l =
    ground (arith, Moves-refl l, Moves-trans (advance-Moves 1 l) (digits-Moves (advance 1 l)))

exponent-Moves : (l : Lexer) → Moves l (exponent l).0
unfolding exponent
exponent-Moves l =
    let marked = advance-Moves 1 l in
    let signed = Moves-trans marked (advance-Moves 1 (advance 1 l)) in
    ground (
      arith,
      Moves-refl l,
      Moves-trans marked (digits-Moves (advance 1 l)),
      Moves-trans signed (digits-Moves (advance 1 (advance 1 l))),
    )

imaginary-Moves : (l m : Lexer) → Moves m (imaginary (here l) m)
unfolding imaginary
imaginary-Moves l m =
    let r = report-Moves (here l) Code.lex_error Message.imaginary_literal m in
    ground (
      arith,
      Moves-refl m,
      Moves-trans r (advance-Moves 1 (report (here l) Code.lex_error Message.imaginary_literal m)),
    )

-- What a number starts with: a digit, or a point and a digit.
abbrev StartsNumber : Lexer → ℕ → Type 0
StartsNumber l c =
    (cur l ≡ some c) × ((is_digit c || (c == b'.' && holds is_digit (at l 1))) ≡ true)

fraction_point-lt :
    (l : Lexer) → is b'.' (cur l) ≡ true → length (fraction l).0.rest < length l.rest
unfolding fraction
fraction_point-lt l h = elim (Option-cases (cur l)) [
  | inl e ↦ cc (rw e at h)
  | inr (c, e) ↦
      rw (h, fraction)
        (omega (arith, (digits-Moves (advance 1 l)).shorter, length-drop 1 l.rest, cur-some l c e))
]

fraction-lt :
    (l : Lexer) (c : ℕ) → StartsNumber l c → length (fraction (digits l)).0.rest < length l.rest
unfolding digits is_digit
fraction-lt l c (e, h) = elim (Bool-cases (is_digit c || c == b'_')) [
  | inl p ↦
      let lt : length (digits l).rest < length l.rest =
        advance_while-lt _ l c _ (cur-cons l c e) p in
      omega (arith, (fraction-Moves (digits l)).shorter)
  | inr p ↦
      let stay : (digits l).rest ≡ l.rest = advance_while-stop _ l c _ (cur-cons l c e) p in
      let point : is b'.' (cur (digits l)) ≡ true = rw (stay, e) (ground arith) in
      rw (← ap length stay) (fraction_point-lt (digits l) point)
]

prefixed-Scans :
    (l : Lexer) (c : ℕ)
    → cur l ≡ some c
    → Scans l (
        finish_int
          (between l (advance_while (λ r. is_hex_digit r || r == b'_') (advance 2 l)))
          (here l)
          (advance_while (λ r. is_hex_digit r || r == b'_') (advance 2 l)))
prefixed-Scans l c e =
    let p = λ (r : ℕ). is_hex_digit r || r == b'_' in
    let loop = advance_while-Moves p (advance 2 l) in
    finish_int-Scans (between l (advance_while p (advance 2 l))) l _
      (Moves-trans (advance-Moves 2 l) loop)
      (omega (arith, loop.shorter, length-drop 2 l.rest, cur-some l c e))

-- A number is one lexeme, wherever `step` calls for one.
pub scan_number-Scans :
    (u : Library) (l : Lexer) (c : ℕ) → StartsNumber l c → Scans l (scan_number u l)
unfolding scan_number
scan_number-Scans u l c h = elim (Bool-cases (is b'0' (cur l) && holds is_radix_mark (at l 1))) [
  | inl e ↦ rw (e, scan_number) (prefixed-Scans l c h.0)
  | inr e ↦
      rw (e, scan_number) (go ((fraction (digits l)).1 || (exponent (fraction (digits l)).0).1))
]
  where
    last : Lexer
    last = imaginary (here l) (exponent (fraction (digits l)).0).0

    moved : Moves l last
    moved =
        Moves-trans (Moves-trans (digits-Moves l) (fraction-Moves (digits l)))
          (Moves-trans (exponent-Moves (fraction (digits l)).0) (imaginary-Moves l _))

    shorter : length last.rest < length l.rest
    shorter = omega (
      arith,
      fraction-lt l c h,
      (exponent-Moves (fraction (digits l)).0).shorter,
      (imaginary-Moves l (exponent (fraction (digits l)).0).0).shorter,
    )

    go :
        (t : Bool)
        → Scans l (
            if t
            then finish_float u (between l (exponent (fraction (digits l)).0).0) (here l) last
            else finish_int (between l (exponent (fraction (digits l)).0).0) (here l) last)
    go true =
        finish_float-Scans u (between l (exponent (fraction (digits l)).0).0) l last moved shorter
    go false =
        finish_int-Scans (between l (exponent (fraction (digits l)).0).0) l last moved shorter
