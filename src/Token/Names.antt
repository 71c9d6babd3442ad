-- ===== src/Token/Names.antt =====
-- Keyword lookup against the spelling of token types.
use minipy.Base.{
  ◌≡◌, refl, sym, ap, ◌∙◌, ◌⊎◌, inl, inr, true, List, [], ◌∷◌, Bytes, bytes_eq, bytes_eq_iff, arith,
  Bool-cases, All,
}
use minipy.Token.{TokenType, spelling, spelled, lookup_in, lookup, is_keyword, keywords}

abbrev all_types : List TokenType
all_types =
    TokenType.illegal ∷ TokenType.eof ∷ TokenType.newline ∷ TokenType.indent ∷ TokenType.dedent
    ∷ TokenType.name ∷ TokenType.int ∷ TokenType.float ∷ TokenType.string ∷ TokenType.fstring
    ∷ TokenType.bytes ∷ TokenType.true_word ∷ TokenType.false_word ∷ TokenType.none_word
    ∷ TokenType.and ∷ TokenType.or ∷ TokenType.not_word ∷ TokenType.if_word ∷ TokenType.elif
    ∷ TokenType.else_word ∷ TokenType.while ∷ TokenType.for ∷ TokenType.in_word ∷ TokenType.notin
    ∷ TokenType.isnot ∷ TokenType.break ∷ TokenType.continue ∷ TokenType.pass ∷ TokenType.def
    ∷ TokenType.return ∷ TokenType.class ∷ TokenType.lambda ∷ TokenType.global ∷ TokenType.nonlocal
    ∷ TokenType.yield ∷ TokenType.try ∷ TokenType.except ∷ TokenType.finally ∷ TokenType.raise
    ∷ TokenType.with ∷ TokenType.as_word ∷ TokenType.import ∷ TokenType.from ∷ TokenType.is_word
    ∷ TokenType.del ∷ TokenType.assert ∷ TokenType.async ∷ TokenType.await ∷ TokenType.plus
    ∷ TokenType.minus ∷ TokenType.star ∷ TokenType.doublestar ∷ TokenType.slash
    ∷ TokenType.doubleslash ∷ TokenType.percent ∷ TokenType.lshift ∷ TokenType.rshift
    ∷ TokenType.amp ∷ TokenType.pipe ∷ TokenType.caret ∷ TokenType.tilde ∷ TokenType.at
    ∷ TokenType.lt ∷ TokenType.gt ∷ TokenType.le ∷ TokenType.ge ∷ TokenType.eq ∷ TokenType.ne
    ∷ TokenType.assign ∷ TokenType.pluseq ∷ TokenType.minuseq ∷ TokenType.stareq ∷ TokenType.slasheq
    ∷ TokenType.doubleslasheq ∷ TokenType.percenteq ∷ TokenType.ampeq ∷ TokenType.pipeeq
    ∷ TokenType.careteq ∷ TokenType.lshifteq ∷ TokenType.rshifteq ∷ TokenType.doublestareq
    ∷ TokenType.walrus ∷ TokenType.arrow ∷ TokenType.lparen ∷ TokenType.rparen ∷ TokenType.lbracket
    ∷ TokenType.rbracket ∷ TokenType.lbrace ∷ TokenType.rbrace ∷ TokenType.comma ∷ TokenType.colon
    ∷ TokenType.dot ∷ TokenType.ellipsis ∷ TokenType.semicolon ∷ []

lookup_in-spelled : (t : TokenType) → lookup_in all_types (spelled t) ≡ t
unfolding lookup_in spelling
lookup_in-spelled TokenType.illegal = refl
lookup_in-spelled _ = refl

-- No two token types share a spelling.
pub spelled_injective : (t u : TokenType) → spelled t ≡ spelled u → t ≡ u
spelled_injective t u e =
    sym (lookup_in-spelled t) ∙ ap (lookup_in all_types) e ∙ lookup_in-spelled u

-- A keyword is found under its own spelling.
pub lookup-spelled : (t : TokenType) → is_keyword t ≡ true → lookup (spelled t) ≡ t
unfolding lookup spelling is_keyword
lookup-spelled TokenType.true_word h = refl
lookup-spelled _ h = ground arith

lookup_in_sound :
    (ts : List TokenType) (w : Bytes)
    → All (λ t. is_keyword t ≡ true) ts
    → (lookup_in ts w ≡ TokenType.name)
      ⊎ ((is_keyword (lookup_in ts w) ≡ true) × (spelled (lookup_in ts w) ≡ w))
unfolding lookup_in
lookup_in_sound [] w h = inl refl
lookup_in_sound (t ∷ ts) w h = elim (Bool-cases (bytes_eq (spelled t) w)) [
  | inl e ↦ inr (rw e h.0, rw e ((bytes_eq_iff (spelled t) w).0 e))
  | inr e ↦ rw e (lookup_in_sound ts w h.1)
]

keywords-is_keyword : All (λ t. is_keyword t ≡ true) keywords
unfolding is_keyword
keywords-is_keyword = assumption refl

-- Whatever is found is a keyword spelled as the identifier; otherwise the identifier is a name.
pub lookup_sound :
    (w : Bytes)
    → (lookup w ≡ TokenType.name) ⊎ ((is_keyword (lookup w) ≡ true) × (spelled (lookup w) ≡ w))
unfolding lookup
lookup_sound w = lookup_in_sound keywords w keywords-is_keyword
