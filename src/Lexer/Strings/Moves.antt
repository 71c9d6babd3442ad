-- ===== src/Lexer/Strings/Moves.antt =====
-- The routines behind `scanString`: how far they read, and the fuel of its loop.
use minipy.Base.{
  ℕ, zero, suc, ◌<◌, ◌≡◌, Bool, true, false, [], not, ◌&&◌, ltb, ◌==◌, arith, if◌then◌else◌, Bytes,
  length, length-drop, Bool-cases, Option-cases, inl, inr, take, ◌+◌, ◌≤◌, refl, Option, some,
}
use minipy.Token.{Pos, ordinal}
use minipy.Token.Errors.{Code, Message}
use minipy.Lexer.Utf8.{encode}
use minipy.Lexer.Prefix.{StringMode}
use minipy.Lexer.Numbers.{Parsed-cases, parse_uint}
use minipy.Lexer.State.{Lexer, at, cur, is, advance, is_newline, here}
use minipy.Lexer.Moves.{
  cur-some, Moves, Moves-refl, Moves-trans, advance-Moves, report-Moves, consume_newline-Moves,
  consume_newline-shorter, is_structure, Scans, has_spelling, add-Scans,
}
use minipy.Lexer.Strings.{
  at_backslash, round_at, check_bytes_char, decode_hex, decode_escape, Round, break, again,
  raw_escape, at_quote, string_round, string_loop, scan_string, report_unicode, string_type,
}

check_bytes_char-Moves :
    (mode : StringMode) (p : Pos) (c : ℕ) (l : Lexer) → Moves l (check_bytes_char mode p c l)
check_bytes_char-Moves mode p c l = elim (Bool-cases (mode.bytes && ltb 127 c)) [
  | inl e ↦ rw e (report-Moves p Code.lex_error (Message.non_ascii_in_bytes c) l)
  | inr e ↦ rw e (Moves-refl l)
]

decode_hex-Moves :
    (b : Bytes) (p : Pos) (n : ℕ) (as_byte : Bool) (l : Lexer)
    → Moves l (decode_hex b p n as_byte l).1
unfolding decode_hex
decode_hex-Moves b p n as_byte l =
    let digits = encode (take n l.rest) in
    let cut = report-Moves p Code.lex_error Message.truncated_escape l in
    let bad = report-Moves p Code.lex_error (Message.invalid_hex_escape digits) l in
    elim (Bool-cases (ltb (length l.rest) n)) [
      | inl e ↦ rw e cut
      | inr e ↦ elim (Parsed-cases (parse_uint 16 32 digits)) [
        | inl (v, h) ↦ rw (e, h) (advance-Moves n l)
        | inr (inl h) ↦ rw (e, h) bad
        | inr (inr h) ↦ rw (e, h) bad
      ]
    ]

decode_escape-Moves :
    (b : Bytes) (p : Pos) (mode : StringMode) (l : Lexer) → Moves l (decode_escape b p mode l).1
unfolding decode_escape
decode_escape-Moves b p mode l = elim (Option-cases (cur l)) [
  | inl e ↦ rw (e, decode_escape) (report-Moves p Code.lex_error Message.unterminated_escape l)
  | inr (c, e) ↦ ground (arith, advance-Moves 1 l, hex 2 mode.bytes, hex 4 false, hex 8 false)
]
  where
    hex : (n : ℕ) (as_byte : Bool) → Moves l (decode_hex b p n as_byte (advance 1 l)).1
    hex n as_byte = Moves-trans (advance-Moves 1 l) (decode_hex-Moves b p n as_byte (advance 1 l))

-- What a round of the loop does: only `again` must shorten the text.
abbrev IsRound : Lexer → Round → Type 0
IsRound l (break b l') = Moves l l'
IsRound l (again b l') = Moves l l' × (length l'.rest < length l.rest)

IsRound-if :
    (l : Lexer) (t : Bool) (r s : Round)
    → IsRound l r
    → IsRound l s
    → IsRound l (if t then r else s)
IsRound-if l true r s h k = h
IsRound-if l false r s h k = k

module _ (mode : StringMode) (p : Pos) (b : Bytes) (l : Lexer) (h : 0 < length l.rest) where
  -- Reading on after at least one rune.
  advance-IsRound :
      (n : ℕ) (m : Lexer) (b' : Bytes) → Moves (advance (suc n) l) m → IsRound l (again b' m)
  advance-IsRound n m b' k = (
    Moves-trans (advance-Moves (suc n) l) k,
    omega (arith, k.shorter, length-drop (suc n) l.rest, h),
  )

  raw_escape-IsRound : (c : ℕ) → IsRound l (raw_escape mode p c b l)
  unfolding raw_escape
  raw_escape-IsRound c = elim (Option-cases (cur (advance 1 l))) [
    | inl e ↦ rw (e, raw_escape) (advance-IsRound 0 (advance 1 l) [] (Moves-refl (advance 1 l)))
    | inr (d, e) ↦
        rw (e, raw_escape)
          (let checked = check_bytes_char mode p d (advance 1 l) in
            advance-IsRound 0 (advance 1 checked) [] (
              Moves-trans (check_bytes_char-Moves mode p d (advance 1 l))
                (advance-Moves 1 checked)))
  ]

  at_quote-IsRound : (q : ℕ) (triple : Bool) → IsRound l (at_quote q triple b l)
  unfolding at_quote
  at_quote-IsRound q triple = IsRound-if l (not triple) _ _ (advance-Moves 1 l) (
      IsRound-if l (is q (at l 1) && is q (at l 2)) _ _ (advance-Moves 3 l)
        (advance-IsRound 0 (advance 1 l) [] (Moves-refl (advance 1 l))))

  at_backslash-IsRound : (c : ℕ) → IsRound l (at_backslash mode p c b l)
  unfolding at_backslash
  at_backslash-IsRound c =
      IsRound-if l mode.raw _ _ (raw_escape-IsRound c)
        (advance-IsRound 0 _ [] (decode_escape-Moves b p mode (advance 1 l)))

  char-IsRound : (c : ℕ) → IsRound l (again b (advance 1 (check_bytes_char mode p c l)))
  char-IsRound c =
      let m = check_bytes_char-Moves mode p c l in
      let checked = check_bytes_char mode p c l in
      (
        Moves-trans m (advance-Moves 1 checked),
        omega (arith, m.shorter, length-drop 1 checked.rest, h),
      )

  round_at-IsRound : (q : ℕ) (triple : Bool) (c : ℕ) → IsRound l (round_at q triple mode p b l c)
  unfolding round_at
  round_at-IsRound q triple c =
      IsRound-if l (not triple && is_newline c) _ _
        (report-Moves p Code.lex_error Message.unterminated_string l)
        (IsRound-if l (c == q) _ _ (at_quote-IsRound q triple) (
          IsRound-if l (is_newline c) _ _
            (consume_newline-Moves l, omega (arith, consume_newline-shorter l, h))
            (IsRound-if l (c == b'\\') _ _ (at_backslash-IsRound c) (char-IsRound c))))

string_round-IsRound :
    (q : ℕ) (triple : Bool) (mode : StringMode) (p : Pos) (b : Bytes) (l : Lexer)
    → IsRound l (string_round q triple mode p b l)
unfolding string_round
string_round-IsRound q triple mode p b l = elim (Option-cases (cur l)) [
  | inl e ↦ rw (e, string_round) (report-Moves p Code.lex_error Message.unterminated_string l)
  | inr (c, e) ↦ rw (e, string_round) (round_at-IsRound mode p b l (cur-some l c e) q triple c)
]

-- The loop behind a round.
abbrev turn : ℕ → ℕ → Bool → StringMode → Pos → Round → Option (Bytes × Lexer)
turn f q triple mode p r = elim r [
  | break b l ↦ some (b, l)
  | again b l ↦ string_loop f q triple mode p b l
]

pub string_loop_fuel :
    (f q : ℕ) (triple : Bool) (mode : StringMode) (p : Pos) (b : Bytes) (l : Lexer)
    → length l.rest < f
    → (r : Bytes × Lexer) × Moves l r.1
      × ((g : ℕ) → f ≤ g → string_loop g q triple mode p b l ≡ some r)
string_loop_fuel zero q triple mode p b l h = elim h [ ]
string_loop_fuel (suc f) q triple mode p b l h =
    let (r, m, same) =
      go (string_round q triple mode p b l) (string_round-IsRound q triple mode p b l)
        (λ b' l' lt. string_loop_fuel f q triple mode p b' l' (omega (arith, h, lt))) in
    (r, m, λ g le. loop r g le same)
  where
    go :
        (r : Round)
        → IsRound l r
        → ((b' : Bytes) (l' : Lexer)
            → length l'.rest < length l.rest
            → (s : Bytes × Lexer) × Moves l' s.1
              × ((g : ℕ) → f ≤ g → string_loop g q triple mode p b' l' ≡ some s))
        → (s : Bytes × Lexer) × Moves l s.1 × ((g : ℕ) → f ≤ g → turn g q triple mode p r ≡ some s)
    go (break b' l') ok rec = ((b', l'), ok, λ g le. refl)
    go (again b' l') ok rec = let (s, m, same) = rec b' l' ok.1 in (s, Moves-trans ok.0 m, same)

    loop :
        (r : Bytes × Lexer) (g : ℕ)
        → suc f ≤ g
        → ((g : ℕ) → f ≤ g → turn g q triple mode p (string_round q triple mode p b l) ≡ some r)
        → string_loop g q triple mode p b l ≡ some r
    loop r zero le same = absurd (omega (arith, le))
    loop r (suc g) le same = unfold string_loop in same g (omega (arith, le))

string_type-plain : (mode : StringMode) → is_structure (string_type mode) ≡ false
string_type-plain mode = ground arith

string_type-unspelled : (mode : StringMode) → has_spelling (string_type mode) ≡ false
unfolding ordinal
string_type-unspelled mode = ground arith

report_unicode-Moves : (p : Pos) (mode : StringMode) (l : Lexer) → Moves l (report_unicode p mode l)
report_unicode-Moves p mode l = elim (Bool-cases mode.unicode) [
  | inl e ↦ rw e (report-Moves p Code.unsupported_feature Message.unicode_prefix l)
  | inr e ↦ rw e (Moves-refl l)
]

opened-lt :
    (l m : Lexer) (triple : Bool) (end k : ℕ)
    → length l.rest ≤ length m.rest
    → end ≤ length (advance (if triple then 3 else 1) l).rest
    → 0 < length m.rest
    → length m.rest ≤ k
    → end < k
opened-lt l m true end k p q r s = omega (arith, length-drop 3 l.rest)
opened-lt l m false end k p q r s = omega (arith, length-drop 1 l.rest)

-- A string or bytes literal that starts at `l`, with its prefix, and whose quote is at `m`.
pub scan_string-Scans :
    (l m : Lexer) (mode : StringMode) (q : ℕ)
    → Moves l m
    → 0 < length m.rest
    → Scans l (scan_string (here l) mode q m)
unfolding scan_string
scan_string-Scans l m mode q h lt =
    let r = report_unicode-Moves (here l) mode m in
    let m1 = report_unicode (here l) mode m in
    let triple = is q (at m1 1) && is q (at m1 2) in
    let opened = advance (if triple then 3 else 1) m1 in
    let fuel = length opened.rest + 1 in
    let (end, loop, same) = string_loop_fuel fuel q triple mode (here l) [] opened (omega arith) in
    let moved = Moves-trans r (advance-Moves (if triple then 3 else 1) m1) in
    rw (same fuel (omega arith), scan_string)
      (add-Scans l _ (string_type mode) _ (Moves-trans h (Moves-trans moved loop))
        (opened-lt m1 m triple _ _ r.shorter loop.shorter lt h.shorter) (string_type-plain mode)
        (λ e. cc (string_type-unspelled mode)))
