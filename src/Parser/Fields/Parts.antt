-- ===== src/Parser/Fields/Parts.antt =====
-- `parseFStringParts` and `parseFStringField`, with `parseFStringExpr` as a parameter.
use minipy.Base.{
  ℕ, zero, suc, ◌+◌, ◌<◌, ◌≤◌, ◌≡◌, refl, ap, ◌∙◌, Bool, false, List, [], ◌∷◌, ◌++◌, Option, none,
  some, if◌then◌else◌, Bytes, ◌==◌, length, length-append, Bool-cases, inl, inr, arith,
}
use minipy.Token.{Pos}
use minipy.Token.Errors.{Error, Code, Message}
use minipy.Parser.Ast
use minipy.Parser.Ast.{Expr, Parts, no_part, text_part, expr_part}
use minipy.Parser.Fields.{Field, field_end, split_field, behind, marks, no_marks, format_of}
use minipy.Parser.Fields.Exact.{IsField, field_end-IsField}

-- What the loop meets: a doubled brace, a field, a brace without another, or a byte of the text.
pub data Piece : Type 0 where
  doubled plain single unterminated : Piece
  field : Bytes → Bytes → Piece

abbrev starts : ℕ → Bytes → Bool
starts c [] = false
starts c (d ∷ ds) = c == d

abbrev of_field : Option (Bytes × Bytes) → Piece
of_field none = unterminated
of_field (some (body, rest)) = field body rest

unfoldable pub piece : ℕ → Bytes → Piece
unfolding field_end
piece c cs =
    if c == b'{'
    then (if starts c cs then doubled else of_field (field_end 0 cs))
    else if c == b'}'
    then (if starts c cs then doubled else single)
    else plain

abbrev tail : Bytes → Bytes
tail [] = []
tail (c ∷ cs) = cs

-- `flush`.
abbrev flush : Pos → Bytes → Parts → Parts
flush p [] ps = ps
flush p (c ∷ cs) ps = text_part p (c ∷ cs) ps

abbrev error_at : Pos → Message → Error
error_at p msg = record { pos = p; code = Code.syntax_error; msg = msg }

abbrev Found : Type 0
Found = Option (Parts × List Error)

abbrev add_error : Pos → Found → Found
add_error p none = none
add_error p (some (ps, es)) = some (ps, error_at p Message.single_brace ∷ es)

-- The node of a field whose expression is read, and the errors of an expression that is refused.
abbrev expression_of : Pos → Option Expr → Expr
expression_of p none = Ast.none_lit p
expression_of p (some x) = x

abbrev refusal : Pos → Option Expr → List Error
refusal p none = error_at p Message.invalid_field ∷ []
refusal p (some x) = []

abbrev with_field : Pos → Bytes → Field → Option (Option Expr) → Found → Found → Found
with_field p buf f (some x) (some (format, es)) (some (rest, es')) = some (
  flush p buf (expr_part p (expression_of p x) f.debug f.conversion format rest),
  refusal p x ++ es ++ es',
)
with_field p buf f _ _ _ = none

module _ (trim : Bytes → Bytes) (expression : Bytes → Option (Option Expr)) (p : Pos) where
  -- `parseFStringParts` behind some text, in the buffer. No format gives no part.
  unfoldable pub parts : ℕ → Bytes → Bytes → Found
  unfolding piece split_field
  parts zero text buf = none
  parts (suc n) [] buf = some (flush p buf no_part, [])
  parts (suc n) (c ∷ cs) buf = elim (piece c cs) [
    | doubled ↦ parts n (tail cs) (buf ++ c ∷ [])
    | plain ↦ parts n cs (buf ++ c ∷ [])
    | single ↦ add_error p (parts n cs buf)
    | unterminated ↦ some (flush p buf no_part, error_at p Message.unterminated_field ∷ [])
    | field body rest ↦
        with_field p buf (split_field trim body) (expression (split_field trim body).expression)
          (parts n (split_field trim body).format []) (parts n rest [])
  ]

behind-length : (n : ℕ) (cs : Bytes) → length (behind n cs) ≤ length cs
unfolding behind
behind-length n [] = omega arith
behind-length zero (c ∷ cs) = omega arith
behind-length (suc n) (c ∷ cs) = omega (arith, behind-length n cs)

format-length :
    (trim : Bytes → Bytes) (body : Bytes) → length (split_field trim body).format ≤ length body
unfolding split_field
format-length trim body = go (marks 0 none body no_marks).colon
  where
    go : (colon : Option ℕ) → length (format_of colon body) ≤ length body
    go none = omega arith
    go (some k) = behind-length k body

-- What a piece leaves is shorter than the text.
abbrev Fits : ℕ → Piece → Type 0
Fits n (field body rest) = (length body < n) × (length rest < n)
Fits n _ = Unit {0}

piece-Fits : (c : ℕ) (cs : Bytes) → Fits (suc (length cs)) (piece c cs)
unfolding piece
piece-Fits c cs = elim (Bool-cases (c == b'{')) [
  | inl e ↦ elim (Bool-cases (starts c cs)) [
    | inl f ↦ rw (e, f) tt
    | inr f ↦ rw (e, f) (found (field_end 0 cs) (λ body rest. (field_end-IsField cs body rest).0))
  ]
  | inr e ↦ elim (Bool-cases (c == b'}')) [
    | inl f ↦ elim (Bool-cases (starts c cs)) [ inl g ↦ rw (e, f, g) tt | inr g ↦ rw (e, f, g) tt ]
    | inr f ↦ rw (e, f) tt
  ]
]
  where
    found :
        (o : Option (Bytes × Bytes))
        → ((body rest : Bytes) → o ≡ some (body, rest) → IsField 0 cs body rest)
        → Fits (suc (length cs)) (of_field o)
    found none f = tt
    found (some (body, rest)) f =
        let e = (f body rest refl).0 in
        let l : length cs ≡ length body + suc (length rest) = ap length e ∙ length-append body _ in
        (omega (arith, l), omega (arith, l))

module _ (trim : Bytes → Bytes) (expression : Bytes → Option (Option Expr))
    (complete : (text : Bytes) → (r : Option Expr) × (expression text ≡ some r)) (p : Pos) where
  -- `parseFStringParts` returns for every text, within a fuel of more than its length, where
  -- `parseFStringExpr` returns for every expression.
  pub parts-returns :
      (n : ℕ) (text buf : Bytes)
      → length text < n
      → (r : Parts × List Error) × (parts trim expression p n text buf ≡ some r)
  unfolding parts
  parts-returns zero text buf h = absurd (omega (arith, h))
  parts-returns (suc n) [] buf h = (_, refl)
  parts-returns (suc n) (c ∷ cs) buf h = go (piece c cs) (piece-Fits c cs) (parts-returns n)
    where
      single_ok :
          (o : Found)
          → (r : Parts × List Error) × (o ≡ some r)
          → (r : Parts × List Error) × (add_error p o ≡ some r)
      single_ok o (r, e) = rw e (_, refl)

      field_ok :
          (f : Field) (x : Option (Option Expr)) (o o' : Found)
          → (r : Option Expr) × (x ≡ some r)
          → (r : Parts × List Error) × (o ≡ some r)
          → (r : Parts × List Error) × (o' ≡ some r)
          → (r : Parts × List Error) × (with_field p buf f x o o' ≡ some r)
      field_ok f x o o' (a, e) (b, g) (d, k) = rw (e, g, k) (_, refl)

      tail-length : (cs : Bytes) → length (tail cs) ≤ length cs
      tail-length [] = omega arith
      tail-length (x ∷ xs) = omega arith

      go :
          (q : Piece)
          → Fits (suc (length cs)) q
          → ((text buf : Bytes)
              → length text < n
              → (r : Parts × List Error) × (parts trim expression p n text buf ≡ some r))
          → (r : Parts × List Error) × ((elim q [
            | doubled ↦ parts trim expression p n (tail cs) (buf ++ c ∷ [])
            | plain ↦ parts trim expression p n cs (buf ++ c ∷ [])
            | single ↦ add_error p (parts trim expression p n cs buf)
            | unterminated ↦ some (flush p buf no_part, error_at p Message.unterminated_field ∷ [])
            | field body rest ↦
                with_field p buf
                  (split_field trim body)
                  (expression (split_field trim body).expression)
                  (parts trim expression p n (split_field trim body).format [])
                  (parts trim expression p n rest [])
          ])
              ≡ some r)
      go doubled f next = next (tail cs) _ (omega (arith, h, tail-length cs))
      go plain f next = next cs _ (omega (arith, h))
      go single f next = single_ok _ (next cs buf (omega (arith, h)))
      go unterminated f next = (_, refl)
      go (field body rest) (f, g) next =
          field_ok (split_field trim body) _ _ _ (complete (split_field trim body).expression)
            (next (split_field trim body).format [] (omega (arith, h, f, format-length trim body)))
            (next rest [] (omega (arith, h, g)))
