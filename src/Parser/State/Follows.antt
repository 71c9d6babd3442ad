-- ===== src/Parser/State/Follows.antt =====
-- What an action may do to the struct: take tokens off the front, and add errors at the end.
use minipy.Lexer.Run.Lexed.{type_eq-eof}
use minipy.Lexer.Blocks.{is_eof}
use minipy.Base.{
  suc, ◌≤◌, ◌≡◌, refl, sym, ap, ◌∙◌, true, false, List, [], ◌∷◌, ◌++◌, append-nil, append_assoc,
  if◌then◌else◌, length, length-append, arith, Bool-cases, inl, inr, get_elem?,
}
use minipy.Token.{TokenType, Token, type_eq}
use minipy.Token.Errors.{Error}
use minipy.Parser.State.{Parser, at, peek, or_eof, advance, drop_token}

-- What stands between a struct and a later one.
pub record Follows (s s' : Parser) : Type 0 where
  pub used : List Token
  pub rest : s.rest ≡ used ++ s'.rest
  pub more : List Error
  pub errs : s'.errs ≡ s.errs ++ more
  pub end : s'.end ≡ s.end

pub Follows-refl : (s : Parser) → Follows s s
Follows-refl s = record {
  used = [];
  rest = refl;
  more = [];
  errs = sym (append-nil s.errs);
  end = refl;
}

pub Follows-trans : {s t u : Parser} → Follows s t → Follows t u → Follows s u
Follows-trans {s} {t} {u} h k = record {
  used = h.used ++ k.used;
  rest = h.rest ∙ ap (λ ts. h.used ++ ts) k.rest ∙ sym (append_assoc h.used k.used u.rest);
  more = h.more ++ k.more;
  errs = k.errs ∙ ap (λ es. es ++ k.more) h.errs ∙ append_assoc s.errs h.more k.more;
  end = k.end ∙ h.end;
}

pub Follows-shorter : {s t : Parser} → Follows s t → length t.rest ≤ length s.rest
Follows-shorter {s} {t} h = omega (arith, ap length h.rest, length-append h.used t.rest)

-- What `advance` does to the tokens.
advance_used : List Token → List Token
unfolding type_eq
advance_used [] = []
advance_used (t ∷ ts) = if type_eq t.type TokenType.eof then [] else t ∷ []

advance_rest : (ts : List Token) → ts ≡ advance_used ts ++ drop_token ts
unfolding advance_used drop_token
advance_rest [] = refl
advance_rest (t ∷ ts) = elim (Bool-cases (type_eq t.type TokenType.eof)) [
  | inl e ↦ rw e refl
  | inr e ↦ rw e refl
]

pub advance-Follows : (s : Parser) → Follows s (advance s)
unfolding advance
advance-Follows s = record {
  used = advance_used s.rest;
  rest = advance_rest s.rest;
  more = [];
  errs = sym (append-nil s.errs);
  end = refl;
}

-- Where the current token is not an ENDMARKER, a token is used up.
pub advance_shorter :
    (s : Parser)
    → type_eq (peek 0 s).type TokenType.eof ≡ false
    → suc (length (advance s).rest) ≤ length s.rest
unfolding advance peek or_eof
advance_shorter s h = go s.rest h
  where
    go :
        (ts : List Token)
        → type_eq (or_eof s.end (get_elem? ts 0)).type TokenType.eof ≡ false
        → suc (length (drop_token ts)) ≤ length ts
    go [] h = cc
    go (t ∷ ts) h = rw h (omega arith)

pub is_eof-eq : (t : TokenType) → is_eof t ≡ true → t ≡ TokenType.eof
is_eof-eq TokenType.eof h = refl
is_eof-eq _ h = cc

pub at-not_eof :
    (t : TokenType) (s : Parser)
    → is_eof t ≡ false
    → at t s ≡ true
    → type_eq (peek 0 s).type TokenType.eof ≡ false
unfolding at type_eq
at-not_eof t s h e = ground (arith, type_eq-eof t)
