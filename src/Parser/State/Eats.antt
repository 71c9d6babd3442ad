-- ===== src/Parser/State/Eats.antt =====
-- Actions that use up a token where there is one, and the methods that skip tokens.
use minipy.Lexer.Blocks.{is_eof}
use minipy.Base.{
  ℕ, suc, ◌*◌, ◌<◌, ◌≤◌, ◌≡◌, ap, Bool, true, false, List, [], ◌∷◌, ◌++◌, Option, none, some,
  length, length-append, arith, Bool-cases, inl, inr,
}
use minipy.Token.{TokenType, Token}
use minipy.Parser.State.{
  Parser, Action, ◌>>=◌, choose, accept, at, peek, advance, Turn, again, over,
}
use minipy.Parser.State.Follows.{
  Follows, Follows-trans, Follows-shorter, advance-Follows, advance_shorter, at-not_eof,
}
use minipy.Parser.State.Agree.{
  Level, low, bound, Agree, Ends, ends, Agree-bind, Agree-choose, Agree-accept,
}
use minipy.Parser.State.Rounds.{at_end, Eats, eats, Eat, Turns, stops, goes, Round, low_bound}

Eats-later :
    {A : Type 0} {s t : Parser} (o o' : Option (A × Parser))
    → Follows s t
    → Eats t o o'
    → Eats s o o'
Eats-later _ _ h (eats a u k e) = eats a u (Follows-trans h k) (omega (arith, e, Follows-shorter h))

Eats-behind :
    {A : Type 0} {s t : Parser} (o o' : Option (A × Parser))
    → Follows s t
    → suc (length t.rest) ≤ length s.rest
    → Ends t o o'
    → Eats s o o'
Eats-behind _ _ h e (ends a u k) =
    eats a u (Follows-trans h k) (omega (arith, e, Follows-shorter k))

module _ {A : Type 0} {level : Level} {n : ℕ} where
  pub Eat-choose :
      (test : Parser → Bool) {m m' k k' : Action A}
      → Eat level n m m'
      → Eat level n k k'
      → Eat level n (choose test m k) (choose test m' k')
  Eat-choose test t u =
      unfold choose in
      record {
        agree = Agree-choose test t.agree u.agree;
        run = λ s f h. elim (Bool-cases (test s)) [
          | inl e ↦ rw e (t.run s f h)
          | inr e ↦ rw e (u.run s f h)
        ];
      }

  pub Eat-accept :
      (t : TokenType) {m m' : Token → Action A} {k k' : Action A}
      → is_eof t ≡ false
      → ((found : Token) → Agree low n (m found) (m' found))
      → Eat level n k k'
      → Eat level n (accept t m k) (accept t m' k')
  Eat-accept t {m} {m'} e u v =
      unfold accept in
      record {
        agree = Agree-accept t e u v.agree;
        run = λ s g h. elim (Bool-cases (at t s)) [
          | inl f ↦ rw f (
              let less = advance_shorter s (at-not_eof t s e f) in
              Eats-behind (m (peek 0 s) (advance s)) (m' (peek 0 s) (advance s)) (advance-Follows s)
                less ((u (peek 0 s)).run (advance s) (low_bound level n h less)))
          | inr f ↦ rw f (v.run s g h)
        ];
      }

  -- A test that the end alone passes.
  pub Eat-unless :
      (test : Parser → Bool) {m m' k k' : Action A}
      → ((s : Parser) → test s ≡ true → at_end s ≡ true)
      → Agree level n m m'
      → Eat level n k k'
      → Eat level n (choose test m k) (choose test m' k')
  Eat-unless test e t u =
      unfold choose in
      record {
        agree = Agree-choose test t u.agree;
        run = λ s f h. elim (Bool-cases (test s)) [
          | inl g ↦ absurd (cc (f, e s g))
          | inr g ↦ rw g (u.run s f h)
        ];
      }

-- A loop's test for its end, where the rest of the body uses up a token.
pub Round-unless :
    {A B : Type 0} {level : Level} {n : ℕ} (test : Parser → Bool) {m m' k k' : Action (Turn B A)}
    → ((s : Parser) → at_end s ≡ true → test s ≡ true)
    → Round level n m m'
    → Eat level n k k'
    → Round level n (choose test m k) (choose test m' k')
Round-unless {A} {B} {level} {n} test {k = k} {k' = k'} e t u =
    unfold choose in
    record {
      run = λ s h. elim (Bool-cases (test s)) [
        | inl g ↦ rw g (t.run s h)
        | inr g ↦ rw g (turns s (k s) (k' s) (u.run s (not_end s g) h))
      ];
    }
  where
    not_end : (s : Parser) → test s ≡ false → at_end s ≡ false
    not_end s g = elim (Bool-cases (at_end s)) [ inl f ↦ absurd (cc (g, e s f)) | inr f ↦ f ]

    turns : (s : Parser) (o o' : Option (Turn B A × Parser)) → Eats s o o' → Turns s o o'
    turns s _ _ (eats (again b) t h f) = goes b t h f
    turns s _ _ (eats (over a) t h f) = stops a t h

same_end : (s t : Parser) → s.rest ≡ t.rest → t.end ≡ s.end → at_end s ≡ false → at_end t ≡ false
unfolding peek
same_end s t h k e = cc (h, k, e)

module _ {A B : Type 0} {level : Level} {n : ℕ} {m m' : Action A} {f f' : A → Action B} where
  pub Eat-bind :
      Eat level n m m' → ((a : A) → Agree level n (f a) (f' a)) → Eat level n (m >>= f) (m' >>= f')
  Eat-bind t u = record {
    agree = Agree-bind t.agree u;
    run = λ s e h. unfold ◌>>=◌ in (go s h (m s) (m' s) (t.run s e h));
  }
    where
      go :
          (s : Parser)
          → 2 * length s.rest < bound level n
          → (o o' : Option (A × Parser)) → Eats s o o'
          → Eats s
              (elim o as (λ _. Option (B × Parser)) [ none ↦ none | some (a, t) ↦ f a t ])
              (elim o' as (λ _. Option (B × Parser)) [ none ↦ none | some (a, t) ↦ f' a t ])
      go s h _ _ (eats a t k e) =
          Eats-behind (f a t) (f' a t) k e ((u a).run t (omega (arith, h, e)))

  -- What comes first may use up none.
  pub Eat-then :
      Agree level n m m' → ((a : A) → Eat level n (f a) (f' a)) → Eat level n (m >>= f) (m' >>= f')
  Eat-then t u = record {
    agree = Agree-bind t (λ a. (u a).agree);
    run = λ s e h. unfold ◌>>=◌ in (go s e h (m s) (m' s) (t.run s h));
  }
    where
      rest_of :
          (s t : Parser) (used : List Token) (a : A)
          → s.rest ≡ used ++ t.rest
          → Follows s t
          → at_end s ≡ false
          → 2 * length s.rest < bound level n
          → Eats s (f a t) (f' a t)
      rest_of s t [] a e k g h =
          Eats-later (f a t) (f' a t) k
            ((u a).run t (same_end s t e k.end g) (omega (arith, h, Follows-shorter k)))
      rest_of s t (x ∷ xs) a e k g h =
          Eats-behind (f a t) (f' a t) k (omega (arith, ap length e, length-append xs t.rest))
            ((u a).agree.run t (omega (arith, h, Follows-shorter k)))

      go :
          (s : Parser)
          → at_end s ≡ false
          → 2 * length s.rest < bound level n
          → (o o' : Option (A × Parser)) → Ends s o o'
          → Eats s
              (elim o as (λ _. Option (B × Parser)) [ none ↦ none | some (a, t) ↦ f a t ])
              (elim o' as (λ _. Option (B × Parser)) [ none ↦ none | some (a, t) ↦ f' a t ])
      go s e h _ _ (ends a t k) = rest_of s t k.used a k.rest k e h
