-- ===== src/Lexer/Indent.antt =====
-- `scanIndent`, and the loop of `finish` that closes the open blocks.
pub mod Adds
use minipy.Base.{
  ℕ, ◌+◌, Bool, true, false, ◌||◌, List, [], ◌∷◌, Option, none, some, ltb, ◌==◌, if◌then◌else◌,
}
use minipy.Token.{TokenType}
use minipy.Token.Errors.{Code, Message}
use minipy.Lexer.State.{
  Lexer, cur, is, holds, here, advance, add, report, is_newline, skip_comment, consume_newline,
}

is_blank : ℕ → Bool
is_blank r = r == b' ' || r == 12

-- The loop that measures the indentation; the list is `l.rest`.
unfoldable pub measure : List ℕ → ℕ → Lexer → ℕ × Lexer
unfolding is_blank
measure [] width l = (width, l)
measure (r ∷ rs) width l =
    let tab = report (here l) Code.lex_error Message.tab_in_indentation l in
    let spaced = measure rs (width + 1) (advance 1 l) in
    let tabbed = measure rs width (advance 1 tab) in
    if is_blank r then spaced else if r == b'\t' then tabbed else (width, l)

-- The top of the stack of indentations, which is never empty.
abbrev pub top : List ℕ → ℕ
top [] = 0
top (i ∷ is) = i

-- Pops the entries above `width`, but not the bottom one; the list is `l.indents`.
unfoldable pub pop_to : ℕ → List ℕ → Lexer → Lexer
pop_to width (i ∷ j ∷ js) l =
    let popped = add TokenType.dedent [] (here l) (record l { indents = j ∷ js }) in
    let rest = pop_to width (j ∷ js) popped in if ltb width i then rest else l
pop_to width _ l = l

unfoldable pub pop_all : List ℕ → Lexer → Lexer
pop_all (i ∷ j ∷ js) l =
    pop_all (j ∷ js) (add TokenType.dedent [] (here l) (record l { indents = j ∷ js }))
pop_all _ l = l

-- INDENT or DEDENTs for a line that is indented by `width`.
unfoldable pub set_indent : ℕ → Lexer → Lexer
unfolding pop_to
set_indent width l =
    if ltb (top l.indents) width
    then add TokenType.indent [] (here l) (record l { indents = width ∷ l.indents })
    else if ltb width (top l.indents)
    then (let l' = pop_to width l.indents l in
        if top l'.indents == width
        then l'
        else report (here l') Code.lex_error Message.unmatched_unindent l')
    else l

-- The end of a blank line, if the input does not end with it.
line_end : Lexer → Lexer
unfolding consume_newline
line_end l = if holds is_newline (cur l) then consume_newline l else l

-- A line with nothing but a comment, if that; `none` is `eofRune`.
blank_line : Lexer → Lexer
unfolding line_end
blank_line l = line_end (if is b'#' (cur l) then skip_comment l else l)

ends_line : Option ℕ → Bool
ends_line none = true
ends_line (some r) = is_newline r || r == b'#'

-- The result is that of `scanIndent`: whether the line is blank.
unfoldable pub scan_indent : Lexer → Bool × Lexer
unfolding measure set_indent blank_line ends_line
scan_indent l =
    let (width, l1) = measure l.rest 0 l in
    if ends_line (cur l1) then (true, blank_line l1) else (false, set_indent width l1)
