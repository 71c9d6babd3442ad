-- ===== src/Lexer/Run.antt =====
-- `step`, `finish`, `Next`, `Lex` and `Err`.
pub mod Steps
pub mod Lexed
use minipy.Base.{
  ℕ, zero, suc, ◌+◌, ◌*◌, Bool, true, false, not, ◌&&◌, ◌||◌, List, [], ◌∷◌, Option, none, some,
  ◌==◌, if◌then◌else◌, length,
}
use minipy.Token.{TokenType, Token, lookup, type_eq}
use minipy.Token.Errors
use minipy.Token.Errors.{Error, Code, Message}
use minipy.Lexer.Utf8.{Library}
use minipy.Lexer.Prefix.{plain, classify_prefix}
use minipy.Lexer.State.{
  Lexer, new, at, cur, is, holds, here, advance, advance_while, add, report, is_digit,
  is_name_start, is_name_continue, is_newline, skip_comment, consume_newline, between,
}
use minipy.Lexer.Numbers.{scan_number}
use minipy.Lexer.Strings.{scan_string}
use minipy.Lexer.Operators.{scan_operator}
use minipy.Lexer.Indent.{scan_indent, pop_all}

abbrev pub is_quote : ℕ → Bool
is_quote r = r == b'\'' || r == b'"'

unfoldable pub scan_name_or_string : Library → Lexer → Lexer
scan_name_or_string u l =
    let end = advance_while (is_name_continue u) l in
    let word = between l end in
    let named = add (lookup word) word (here l) end in
    elim (cur end) [
      | none ↦ named
      | some q ↦
          if is_quote q && not (length word == 0)
          then elim (classify_prefix word) [
            | none ↦ named
            | some mode ↦ scan_string (here l) mode q end
          ]
          else named
    ]

-- A last NEWLINE, if a logical line is open.
abbrev pub end_statement : Lexer → Lexer
end_statement l =
    if l.line_has_tok
    then record (add TokenType.newline [] (here l) l) { line_has_tok = false }
    else l

unfoldable pub finish : Lexer → Lexer
finish l =
    let l1 = end_statement l in
    let l2 = pop_all l1.indents l1 in record (add TokenType.eof [] (here l2) l2) { done = true }

-- A byte-order mark at the very start is skipped.
unfoldable pub start : Lexer → Lexer
start l =
    if l.started
    then l
    else (let l1 = record l { started = true } in
        if is 0xfeff (cur l1) then record l1 { rest = (advance 1 l1).rest } else l1)

-- `\` at the cursor: an explicit line joining, or an unexpected character.
unfoldable pub backslash : ℕ → Lexer → Lexer
backslash c l =
    if holds is_newline (at l 1)
    then consume_newline (advance 1 l)
    else advance 1 (report (here l) Code.lex_error (Message.unexpected_character c) l)

-- The end of a physical line; inside brackets it is not the end of a logical one.
unfoldable pub end_line : Lexer → Lexer
end_line l0 =
    let l = consume_newline l0 in
    if l.parens == 0
    then (let l1 = if l.line_has_tok then add TokenType.newline [] (here l) l else l in
        record l1 { at_line_start = true; line_has_tok = false })
    else l

abbrev pub with_token : Lexer → Lexer
with_token l = record l { line_has_tok = true }

-- The `switch` of `step`; `c` is the rune at the cursor.
unfoldable pub scan : Library → ℕ → Lexer → Lexer
scan u c l =
    if c == b' ' || c == 12 || c == b'\t'
    then advance 1 l
    else if c == b'\\'
    then backslash c l
    else if c == b'#'
    then skip_comment l
    else if is_newline c
    then end_line l
    else if is_name_start u c
    then with_token (scan_name_or_string u l)
    else if is_digit c || (c == b'.' && holds is_digit (at l 1))
    then with_token (scan_number u l)
    else if is_quote c
    then with_token (scan_string (here l) plain c l)
    else with_token (scan_operator c l)

-- `step` after the byte-order mark.
unfoldable pub step_started : Library → Lexer → Lexer
step_started u l = elim (cur l) [
  | none ↦ finish l
  | some c ↦
      if l.at_line_start && l.parens == 0
      then (let (blank, l') = scan_indent l in
          if blank then l' else record l' { at_line_start = false; line_has_tok = false })
      else scan u c l
]

unfoldable pub step : Library → Lexer → Lexer
step u l = step_started u (start l)

-- The loop of `Next`: steps until a token is pending or the input is at its end; `none` out of fuel.
unfoldable pub pull : Library → ℕ → Lexer → Option Lexer
pull u zero l = none
pull u (suc fuel) l = elim l.pending [
  | [] ↦ if l.done then some l else (let l' = step u l in let rest = pull u fuel l' in rest)
  | _ ∷ _ ↦ some l
]

-- The first pending token, or ENDMARKER once there is none.
unfoldable pub pop : List Token → Lexer → Token × Lexer
pop [] l = (record { type = TokenType.eof; literal = []; pos = here l }, l)
pop (t ∷ ts) l = (t, record l { pending = ts })

-- A bound on the steps that are left: a rune may take two steps, and the start of a line and the end
-- of the input take one each.
abbrev pub steps_left : Lexer → ℕ
steps_left l = 2 * length l.rest + (if l.at_line_start then 1 else 0) + (if l.done then 0 else 1)

-- `Next`, with fuel for one test of its loop more than the steps that are left.
unfoldable pub next : Library → Lexer → Option (Token × Lexer)
next u l = elim (pull u (suc (steps_left l)) l) [ none ↦ none | some l' ↦ some (pop l'.pending l') ]

-- The loop of `Lex`. Where it or `Next` runs out of fuel, the tokens stop without an ENDMARKER.
unfoldable pub lex_loop : Library → ℕ → Lexer → List Token × Lexer
lex_loop u zero l = ([], l)
lex_loop u (suc fuel) l = elim (next u l) [
  | none ↦ ([], l)
  | some (t, l') ↦
      let rest = lex_loop u fuel l' in
      if type_eq t.type TokenType.eof then (t ∷ [], l') else (t ∷ rest.0, rest.1)
]

-- Bounds the tokens that are left.
abbrev pub tokens_left : Lexer → ℕ
tokens_left l = length l.pending + length l.indents + 2 * steps_left l

-- `Lex`: the tokens, and the diagnostics as `Err` returns them.
unfoldable pub lex : Library → List ℕ → List Token × Option (List Error)
unfolding lex_loop
lex u input =
    let (tokens, l) = lex_loop u (tokens_left (new input)) (new input) in
    (tokens, Errors.err l.diagnostics)
