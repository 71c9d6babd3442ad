-- ===== src/Parser/State/Agree.antt =====
-- Two runs of the parser that agree: within their bound both return, the same value and struct, which
-- follows the struct that they start at. One rule for each way to build an action.
use minipy.Lexer.Run.Lexed.{type_eq-eof}
use minipy.Lexer.Blocks.{is_eof}
use minipy.Base.{
  ℕ, suc, ◌-◌, ◌*◌, ◌<◌, ◌≡◌, refl, ◌∙◌, Bool, true, false, [], ◌∷◌, Option, none, some,
  if◌then◌else◌, length, arith, Bool-cases, inl, inr, Option-cases,
}
use minipy.Token.{TokenType, Pos, Token, type_eq}
use minipy.Token.Errors
use minipy.Token.Errors.{Error, Code, Message}
use minipy.Parser.State.{
  Parser, Action, return, ◌>>=◌, choose, accept, accept_if, at, peek, advance, current, report,
  skip, expect,
}
use minipy.Parser.State.Follows.{
  Follows, Follows-refl, Follows-trans, Follows-shorter, advance-Follows, advance_shorter,
  at-not_eof, is_eof-eq,
}

pub data Ends {A : Type 0} (s : Parser) : Option (A × Parser) → Option (A × Parser) → Type 0 where
  ends : (a : A) (s' : Parser) → Follows s s' → Ends s (some (a, s')) (some (a, s'))

-- `top` is for the functions of a grammar, which make direct calls and calls behind a token; `mid` is
-- for what they may call through the grammar directly, `low` behind a token.
pub data Level : Type 0 where
  top mid low : Level

abbrev pub bound : Level → ℕ → ℕ
bound top n = suc n
bound mid n = n
bound low n = n - 1

pub record Agree {A : Type 0} (level : Level) (n : ℕ) (m m' : Action A) : Type 0 where
  pub run : (s : Parser) → 2 * length s.rest < bound level n → Ends s (m s) (m' s)

Ends-later :
    {A : Type 0} {s t : Parser} (o o' : Option (A × Parser))
    → Follows s t
    → Ends t o o'
    → Ends s o o'
Ends-later _ _ h (ends b u k) = ends b u (Follows-trans h k)

bind_from :
    {A B : Type 0} (level : Level) (n : ℕ) (f f' : A → Action B) (s : Parser)
    (o o' : Option (A × Parser))
    → 2 * length s.rest < bound level n
    → Ends s o o'
    → ((a : A) → Agree level n (f a) (f' a))
    → Ends s
        (elim o as (λ _. Option (B × Parser)) [ none ↦ none | some (a, t) ↦ f a t ])
        (elim o' as (λ _. Option (B × Parser)) [ none ↦ none | some (a, t) ↦ f' a t ])
bind_from level n f f' s _ _ h (ends a s' k) t =
    Ends-later (f a s') (f' a s') k ((t a).run s' (omega (arith, h, Follows-shorter k)))

pub Agree-bind :
    {A B : Type 0} {level : Level} {n : ℕ} {m m' : Action A} {f f' : A → Action B}
    → Agree level n m m'
    → ((a : A) → Agree level n (f a) (f' a))
    → Agree level n (m >>= f) (m' >>= f')
Agree-bind {level} {n} {m} {m'} {f} {f'} t u =
    unfold ◌>>=◌ in record { run = λ s h. bind_from level n f f' s (m s) (m' s) h (t.run s h) u }

module _ {A : Type 0} {level : Level} {n : ℕ} where
  pub Agree-return : (a : A) → Agree level n (return a) (return a)
  Agree-return a = unfold return in record { run = λ s h. ends a s (Follows-refl s) }

  pub Agree-choose :
      (test : Parser → Bool) {m m' k k' : Action A}
      → Agree level n m m'
      → Agree level n k k'
      → Agree level n (choose test m k) (choose test m' k')
  Agree-choose test t u =
      unfold choose in
      record {
        run = λ s h. elim (Bool-cases (test s)) [
          | inl e ↦ rw e (t.run s h)
          | inr e ↦ rw e (u.run s h)
        ];
      }

  pub Agree-if :
      (b : Bool) {m m' k k' : Action A}
      → Agree level n m m'
      → Agree level n k k'
      → Agree level n (if b then m else k) (if b then m' else k')
  Agree-if true t u = t
  Agree-if false t u = u

advanced :
    {A : Type 0} (level : Level) (n : ℕ) (s : Parser) (m m' : Action A)
    → type_eq (peek 0 s).type TokenType.eof ≡ false
    → 2 * length s.rest < bound level n
    → Agree low n m m'
    → Ends s (m (advance s)) (m' (advance s))
advanced level n s m m' e h t =
    Ends-later (m (advance s)) (m' (advance s)) (advance-Follows s)
      (t.run (advance s) (low_bound level h))
  where
    low_bound :
        (level : Level) → 2 * length s.rest < bound level n → 2 * length (advance s).rest < n - 1
    low_bound top h = omega (arith, h, advance_shorter s e)
    low_bound mid h = omega (arith, h, advance_shorter s e)
    low_bound low h = omega (arith, h, advance_shorter s e)

module _ {A : Type 0} {level : Level} {n : ℕ} where
  pub Agree-accept :
      (t : TokenType) {m m' : Token → Action A} {k k' : Action A}
      → is_eof t ≡ false
      → ((found : Token) → Agree low n (m found) (m' found))
      → Agree level n k k'
      → Agree level n (accept t m k) (accept t m' k')
  Agree-accept t {m} {m'} e u v =
      unfold accept in
      record {
        run = λ s h. elim (Bool-cases (at t s)) [
          | inl f ↦ rw f (
              advanced level n s (m (peek 0 s)) (m' (peek 0 s)) (at-not_eof t s e f) h
                (u (peek 0 s)))
          | inr f ↦ rw f (v.run s h)
        ];
      }

  pub Agree-accept_if :
      {B : Type 0} (test : TokenType → Option B) {m m' : B → Token → Action A} {k k' : Action A}
      → test TokenType.eof ≡ none
      → ((b : B) (found : Token) → Agree low n (m b found) (m' b found))
      → Agree level n k k'
      → Agree level n (accept_if test m k) (accept_if test m' k')
  Agree-accept_if {B} test {m} {m'} e u v =
      unfold accept_if in
      record {
        run = λ s h. elim (Option-cases (test (peek 0 s).type)) [
          | inl f ↦ rw (f, accept_if) (v.run s h)
          | inr (b, f) ↦
              rw (f, accept_if)
                (advanced level n s (m b (peek 0 s)) (m' b (peek 0 s)) (found s b f) h
                  (u b (peek 0 s)))
        ];
      }
    where
      found :
          (s : Parser) (b : B)
          → test (peek 0 s).type ≡ some b
          → type_eq (peek 0 s).type TokenType.eof ≡ false
      found s b f = elim (Bool-cases (is_eof (peek 0 s).type)) [
        | inl g ↦ cc (e, f, is_eof-eq (peek 0 s).type g)
        | inr g ↦ type_eq-eof (peek 0 s).type ∙ g
      ]

module _ {level : Level} {n : ℕ} where
  pub Agree-current : Agree level n current current
  Agree-current = unfold current in record { run = λ s h. ends (peek 0 s) s (Follows-refl s) }

  pub Agree-report :
      (p : Pos) (code : Code) (msg : Message)
      → Agree level n (report p code msg) (report p code msg)
  Agree-report p code msg =
      unfold report in
      record {
        run = λ s h.
            ends tt (record s { errs = Errors.add s.errs p code msg })
              (record {
                used = [];
                rest = refl;
                more = record { pos = p; code = code; msg = msg } ∷ [];
                errs = refl;
                end = refl;
              });
      }

  pub Agree-skip : Agree level n skip skip
  Agree-skip = unfold skip in record { run = λ s h. ends tt (advance s) (advance-Follows s) }

-- The two together, as the grammar reports.
pub Agree-complain :
    {A : Type 0} {level : Level} {n : ℕ} {k k' : Token → Action A} (p : Token → Pos) (code : Code)
    (msg : Token → Message)
    → ((found : Token) → Agree level n (k found) (k' found))
    → Agree level n
        (current >>= λ found. report (p found) code (msg found) >>= λ _. k found)
        (current >>= λ found. report (p found) code (msg found) >>= λ _. k' found)
Agree-complain p code msg t =
    Agree-bind Agree-current
      λ found. Agree-bind (Agree-report (p found) code (msg found)) λ _. t found

module _ {level : Level} {n : ℕ} (t : TokenType) (e : is_eof t ≡ false) where
  pub Agree-expect : Agree level n (expect t) (expect t)
  Agree-expect =
      unfold expect in
      Agree-accept t e (λ found. Agree-return found) (Agree-complain _ _ _ λ _. Agree-current)

  -- The end of a bracket.
  pub Agree-finish :
      {A : Type 0} (a : A) → Agree level n (expect t >>= λ _. return a) (expect t >>= λ _. return a)
  Agree-finish a = Agree-bind Agree-expect λ _. Agree-return a
