-- ===== src/Parser/State/Rounds.antt =====
-- Loops agree where their bodies do and use up a token before each further round, and actions that
-- use up a token where there is one.
use minipy.Lexer.Blocks.{is_eof}
use minipy.Base.{
  ℕ, zero, suc, ◌-◌, ◌*◌, ◌<◌, ◌≤◌, ◌≡◌, Bool, false, Option, none, some, length, arith, Bool-cases,
  inl, inr,
}
use minipy.Token.{TokenType, Token, type_eq}
use minipy.Parser.State.{
  Parser, Action, return, ◌>>=◌, choose, accept, at, peek, advance, Turn, again, over, rounds, loop,
}
use minipy.Parser.State.Follows.{
  Follows, Follows-refl, Follows-trans, Follows-shorter, advance-Follows, advance_shorter,
  at-not_eof,
}
use minipy.Parser.State.Agree.{Level, top, mid, low, bound, Agree, Ends, ends}

-- Whether the current token is an ENDMARKER.
abbrev pub at_end : Parser → Bool
at_end s = type_eq (peek 0 s).type TokenType.eof

-- The same as `Ends`, with a token less.
pub data Eats {A : Type 0} (s : Parser) : Option (A × Parser) → Option (A × Parser) → Type 0 where
  eats :
      (a : A) (s' : Parser)
      → Follows s s'
      → suc (length s'.rest) ≤ length s.rest
      → Eats s (some (a, s')) (some (a, s'))

pub record Eat {A : Type 0} (level : Level) (n : ℕ) (m m' : Action A) : Type 0 where
  pub agree : Agree level n m m'
  pub run :
      (s : Parser) → at_end s ≡ false → 2 * length s.rest < bound level n → Eats s (m s) (m' s)

-- A round that ends, with a token less where another round follows.
pub data Turns {A B : Type 0} (s : Parser)
    : Option (Turn B A × Parser) → Option (Turn B A × Parser) → Type 0 where
  stops : (a : A) (s' : Parser) → Follows s s' → Turns s (some (over a, s')) (some (over a, s'))
  goes :
      (b : B) (s' : Parser)
      → Follows s s'
      → suc (length s'.rest) ≤ length s.rest
      → Turns s (some (again b, s')) (some (again b, s'))

pub record Round {A B : Type 0} (level : Level) (n : ℕ) (m m' : Action (Turn B A)) : Type 0 where
  pub run : (s : Parser) → 2 * length s.rest < bound level n → Turns s (m s) (m' s)

module _ {A B : Type 0} (level : Level) (n : ℕ) (body body' : B → Action (Turn B A))
    (round : (b : B) → Round level n (body b) (body' b)) where
  rounds_on :
      (k k' : ℕ) (s : Parser) (o o' : Option (Turn B A × Parser))
      → Turns s o o'
      → ((c : B) (t : Parser)
          → Follows s t
          → suc (length t.rest) ≤ length s.rest
          → Ends t (rounds k body c t) (rounds k' body' c t))
      → Ends s
          (elim o as (λ _. Option (A × Parser)) [
            | none ↦ none
            | some (again c, t) ↦ rounds k body c t
            | some (over a, t) ↦ some (a, t)
          ])
          (elim o' as (λ _. Option (A × Parser)) [
            | none ↦ none
            | some (again c, t) ↦ rounds k' body' c t
            | some (over a, t) ↦ some (a, t)
          ])
  rounds_on k k' s _ _ (stops a t h) f = ends a t h
  rounds_on k k' s _ _ (goes c t h e) f = later (f c t h e) h
    where
      later : {o o' : Option (A × Parser)} {t : Parser} → Ends t o o' → Follows s t → Ends s o o'
      later (ends a u g) h = ends a u (Follows-trans h g)

  rounds_agree :
      (k : ℕ) (b : B) (s : Parser)
      → length s.rest < k
      → 2 * length s.rest < bound level n
      → Ends s (rounds k body b s) (rounds k body' b s)
  unfolding rounds
  rounds_agree zero b s h l = absurd (omega (arith, h))
  rounds_agree (suc k) b s h l =
      rounds_on k k s (body b s) (body' b s) ((round b).run s l)
        (λ c t g e. rounds_agree k c t (omega (arith, h, e)) (omega (arith, l, e)))

pub Agree-loop :
    {A B : Type 0} {level : Level} {n : ℕ} {body body' : B → Action (Turn B A)}
    → ((b : B) → Round level n (body b) (body' b))
    → (b : B) → Agree level n (loop body b) (loop body' b)
Agree-loop {level = level} {n = n} {body = body} {body' = body'} round b =
    unfold loop in
    record {
      run = λ s h. rounds_agree level n body body' round (suc (length s.rest)) b s (omega arith) h;
    }

Turns-later :
    {A B : Type 0} {s t : Parser} (o o' : Option (Turn B A × Parser))
    → Follows s t
    → Turns t o o'
    → Turns s o o'
Turns-later _ _ h (stops a u k) = stops a u (Follows-trans h k)
Turns-later _ _ h (goes b u k e) =
    goes b u (Follows-trans h k) (omega (arith, e, Follows-shorter h))

-- Behind a token that is used up any end of the round will do.
Turns-behind :
    {A B : Type 0} {s t : Parser} (o o' : Option (Turn B A × Parser))
    → Follows s t
    → suc (length t.rest) ≤ length s.rest
    → Ends t o o'
    → Turns s o o'
Turns-behind _ _ h e (ends (again b) u k) =
    goes b u (Follows-trans h k) (omega (arith, e, Follows-shorter k))
Turns-behind _ _ h e (ends (over a) u k) = stops a u (Follows-trans h k)

pub low_bound :
    (level : Level) (n : ℕ) {k m : ℕ} → 2 * k < bound level n → suc m ≤ k → 2 * m < n - 1
low_bound top n h e = omega (arith, h, e)
low_bound mid n h e = omega (arith, h, e)
low_bound low n h e = omega (arith, h, e)

module _ {A B : Type 0} {level : Level} {n : ℕ} where
  pub Round-over : (a : A) → Round {B = B} level n (return (over a)) (return (over a))
  Round-over a = unfold return in record { run = λ s h. stops a s (Follows-refl s) }

  pub Round-choose :
      (test : Parser → Bool) {m m' k k' : Action (Turn B A)}
      → Round level n m m'
      → Round level n k k'
      → Round level n (choose test m k) (choose test m' k')
  Round-choose test t u =
      unfold choose in
      record {
        run = λ s h. elim (Bool-cases (test s)) [
          | inl e ↦ rw e (t.run s h)
          | inr e ↦ rw e (u.run s h)
        ];
      }

  pub Round-accept :
      (t : TokenType) {m m' : Token → Action (Turn B A)} {k k' : Action (Turn B A)}
      → is_eof t ≡ false
      → ((found : Token) → Agree low n (m found) (m' found))
      → Round level n k k'
      → Round level n (accept t m k) (accept t m' k')
  Round-accept t {m} {m'} e u v =
      unfold accept in
      record {
        run = λ s h. elim (Bool-cases (at t s)) [
          | inl f ↦ rw f (
              let less = advance_shorter s (at-not_eof t s e f) in
              Turns-behind (m (peek 0 s) (advance s)) (m' (peek 0 s) (advance s))
                (advance-Follows s) less
                ((u (peek 0 s)).run (advance s) (low_bound level n h less)))
          | inr f ↦ rw f (v.run s h)
        ];
      }

round_from :
    {A B C : Type 0} (level : Level) (n : ℕ) (f f' : C → Action (Turn B A)) (s : Parser)
    (o o' : Option (C × Parser))
    → 2 * length s.rest < bound level n
    → Ends s o o'
    → ((c : C) → Round level n (f c) (f' c))
    → Turns s
        (elim o as (λ _. Option (Turn B A × Parser)) [ none ↦ none | some (a, t) ↦ f a t ])
        (elim o' as (λ _. Option (Turn B A × Parser)) [ none ↦ none | some (a, t) ↦ f' a t ])
round_from level n f f' s _ _ h (ends c t k) u =
    Turns-later (f c t) (f' c t) k ((u c).run t (omega (arith, h, Follows-shorter k)))

pub Round-bind :
    {A B C : Type 0} {level : Level} {n : ℕ} {m m' : Action C} {f f' : C → Action (Turn B A)}
    → Agree level n m m'
    → ((c : C) → Round level n (f c) (f' c))
    → Round level n (m >>= f) (m' >>= f')
Round-bind {level} {n} {m} {m'} {f} {f'} t u =
    unfold ◌>>=◌ in record { run = λ s h. round_from level n f f' s (m s) (m' s) h (t.run s h) u }
