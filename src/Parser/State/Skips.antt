-- ===== src/Parser/State/Skips.antt =====
-- The methods that skip tokens.
use minipy.Base.{
  ℕ, suc, ◌≤◌, ◌≡◌, refl, sym, ap, true, false, List, [], ◌∷◌, ◌++◌, append-nil, length,
  length-append, arith, Bool-cases, inl, inr, get_elem?, ◌==◌,
}
use minipy.Token.{TokenType, Token, type_eq}
use minipy.Parser.State.{
  Parser, at, peek, or_eof, skip_line, drop_line, skip_nested, skip_block, drop_block, block_depth,
  expect_line_end,
}
use minipy.Parser.State.Follows.{Follows}
use minipy.Parser.State.Agree.{
  Level, Agree, ends, Agree-return, Agree-accept, Agree-current, Agree-report,
}
use minipy.Parser.State.Rounds.{at_end, eats, Eat}
use minipy.Parser.State.Eats.{Eat-accept, Eat-unless, Eat-then}

drop_line_used : (ts : List Token) → (used : List Token) × (ts ≡ used ++ drop_line ts)
unfolding drop_line
drop_line_used [] = ([], refl)
drop_line_used (t ∷ ts) =
    let (used, e) = drop_line_used ts in
    elim (Bool-cases (type_eq t.type TokenType.newline)) [
      | inl f ↦ rw f (t ∷ [], refl)
      | inr f ↦ elim (Bool-cases (type_eq t.type TokenType.eof)) [
        | inl g ↦ rw (f, g) ([], refl)
        | inr g ↦ rw (f, g) (t ∷ used, ap (λ us. t ∷ us) e)
      ]
    ]

drop_block_used :
    (depth : ℕ) (ts : List Token) → (used : List Token) × (ts ≡ used ++ drop_block depth ts)
unfolding drop_block
drop_block_used depth [] = ([], refl)
drop_block_used depth (t ∷ ts) =
    let (used, e) = drop_block_used (block_depth t.type depth) ts in
    elim (Bool-cases (type_eq t.type TokenType.eof)) [
      | inl f ↦ rw f ([], refl)
      | inr f ↦ elim (Bool-cases (block_depth t.type depth == 0)) [
        | inl g ↦ rw (f, g) (t ∷ [], refl)
        | inr g ↦ rw (f, g) (t ∷ used, ap (λ us. t ∷ us) e)
      ]
    ]

dropped :
    (s : Parser) (ts used : List Token) → s.rest ≡ used ++ ts → Follows s (record s { rest = ts })
dropped s ts used e = record {
  used = used;
  rest = e;
  more = [];
  errs = sym (append-nil s.errs);
  end = refl;
}

drop_line_shorter :
    (s : Parser) → at_end s ≡ false → suc (length (drop_line s.rest)) ≤ length s.rest
unfolding drop_line peek or_eof
drop_line_shorter s h = go s.rest h
  where
    keeps : (ts : List Token) → length (drop_line ts) ≤ length ts
    keeps ts =
        let (used, e) = drop_line_used ts in
        omega (arith, ap length e, length-append used (drop_line ts))

    go :
        (ts : List Token)
        → type_eq (or_eof s.end (get_elem? ts 0)).type TokenType.eof ≡ false
        → suc (length (drop_line ts)) ≤ length ts
    go [] h = cc
    go (t ∷ ts) h = elim (Bool-cases (type_eq t.type TokenType.newline)) [
      | inl f ↦ rw f (omega arith)
      | inr f ↦ rw (f, h) (omega (arith, keeps ts))
    ]

module _ {level : Level} {n : ℕ} where
  pub Agree-skip_line : Agree level n skip_line skip_line
  Agree-skip_line =
      unfold skip_line in
      record {
        run = λ s h.
            let (used, e) = drop_line_used s.rest in
            ends tt (record s { rest = drop_line s.rest }) (dropped s (drop_line s.rest) used e);
      }

  pub Eat-skip_line : Eat level n skip_line skip_line
  Eat-skip_line = record {
    agree = Agree-skip_line;
    run = λ s f h.
        unfold skip_line in
        (let (used, e) = drop_line_used s.rest in
          eats tt (record s { rest = drop_line s.rest }) (dropped s (drop_line s.rest) used e)
            (drop_line_shorter s f));
  }

  pub Agree-skip_nested : (depth : ℕ) → Agree level n (skip_nested depth) (skip_nested depth)
  Agree-skip_nested depth =
      unfold skip_nested in
      record {
        run = λ s h.
            let (used, e) = drop_block_used depth s.rest in
            ends tt (record s { rest = drop_block depth s.rest })
              (dropped s (drop_block depth s.rest) used e);
      }

at_eof : (s : Parser) → at TokenType.eof s ≡ true → at_end s ≡ true
unfolding at
at_eof s h = h

module _ {level : Level} {n : ℕ} where
  pub Agree-skip_block : Agree level n skip_block skip_block
  Agree-skip_block =
      unfold skip_block in (Agree-accept _ refl (λ _. Agree-skip_nested 1) (Agree-return tt))

  pub Eat-expect_line_end : Eat level n expect_line_end expect_line_end
  Eat-expect_line_end =
      unfold expect_line_end in
      (Eat-accept _ refl (λ _. Agree-return tt)
        (Eat-unless _ at_eof (Agree-return tt)
          (Eat-then Agree-current λ _. Eat-then (Agree-report _ _ _) λ _. Eat-skip_line)))
