-- ===== src/Lexer/Blocks.antt =====
-- What the token stream is to be: INDENT and DEDENT nest, ENDMARKER stands at the end and nowhere
-- else, positions never go back, and keywords and operators are spelled as their types.
use minipy.Base.{
  ℕ, zero, suc, ◌≡◌, Bool, true, false, not, ◌&&◌, List, [], ◌∷◌, ◌++◌, Option, none, some, arith,
  if◌then◌else◌,
}
use minipy.Token.{TokenType, Pos, Token, spelled}
use minipy.Lexer.Moves.{Before, has_spelling}

-- The number of open blocks after a token, `none` if it closes one that is not open.
abbrev pub nest : TokenType → ℕ → Option ℕ
nest TokenType.indent n = some (suc n)
nest TokenType.dedent zero = none
nest TokenType.dedent (suc n) = some n
nest _ n = some n

abbrev pub depth : ℕ → List Token → Option ℕ
depth n [] = some n
depth n (t ∷ ts) = elim (nest t.type n) [ none ↦ none | some m ↦ depth m ts ]

abbrev pub is_eof : TokenType → Bool
is_eof TokenType.eof = true
is_eof _ = false

abbrev pub is_empty {ℓ} : {A : Type ℓ} → List A → Bool
is_empty [] = true
is_empty (_ ∷ _) = false

-- Whether the tokens end with their only ENDMARKER, if `closed`, or have none.
abbrev pub ends : Bool → List Token → Bool
ends closed [] = not closed
ends closed (t ∷ ts) = if is_eof t.type then closed && is_empty ts else ends closed ts

-- Positions from `p` on, up to `q`, that never go back.
abbrev pub Ordered : Pos → List Token → Pos → Type 0
Ordered p [] q = Before p q
Ordered p (t ∷ ts) q = Before p t.pos × Ordered t.pos ts q

abbrev pub Spelled : Token → Type 0
Spelled t = has_spelling t.type ≡ true → t.literal ≡ spelled t.type

pub Before-refl : (p : Pos) → Before p p
Before-refl p = omega arith

pub Before-trans : {p q r : Pos} → Before p q → Before q r → Before p r
Before-trans h k = omega arith

pub Before-Ordered :
    {p q : Pos} (ts : List Token) (r : Pos) → Before p q → Ordered q ts r → Ordered p ts r
Before-Ordered [] r h k = Before-trans h k
Before-Ordered (t ∷ ts) r h k = (Before-trans h k.0, k.1)

pub Ordered-append :
    (xs ys : List Token) (p q r : Pos) → Ordered p xs q → Ordered q ys r → Ordered p (xs ++ ys) r
Ordered-append [] ys p q r h k = Before-Ordered ys r h k
Ordered-append (x ∷ xs) ys p q r h k = (h.0, Ordered-append xs ys x.pos q r h.1 k)

pub depth-append :
    (xs ys : List Token) (n m : ℕ) → depth n xs ≡ some m → depth n (xs ++ ys) ≡ depth m ys
depth-append [] ys n m h = ground arith
depth-append (x ∷ xs) ys n m h = go (nest x.type n) h (λ k. depth-append xs ys k m)
  where
    go :
        (o : Option ℕ)
        → elim o as (λ o. Option ℕ) [ none ↦ none | some k ↦ depth k xs ] ≡ some m
        → ((k : ℕ) → depth k xs ≡ some m → depth k (xs ++ ys) ≡ depth m ys)
        → elim o as (λ o. Option ℕ) [ none ↦ none | some k ↦ depth k (xs ++ ys) ] ≡ depth m ys
    go none e rec = cc
    go (some k) e rec = rec k e

pub ends-append :
    (b : Bool) (xs ys : List Token)
    → ends false xs ≡ true
    → ends b ys ≡ true
    → ends b (xs ++ ys) ≡ true
ends-append b [] ys h k = k
ends-append b (x ∷ xs) ys h k = ground (arith, ends-append b xs ys)
