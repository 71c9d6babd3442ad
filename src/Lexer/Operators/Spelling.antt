-- ===== src/Lexer/Operators/Spelling.antt =====
-- The match of `scanOperator` and the spelling of its type.
use minipy.Base.{
  ℕ, ◌≡◌, refl, Bool, true, false, List, [], ◌∷◌, some, none, Option, arith, if◌then◌else◌, take,
  get_elem?, ◌<◌, ◌==◌, ==_iff, ◌&&◌,
}
use minipy.Token.{TokenType, spelled, spelling}
use minipy.Lexer.Operators.{Match, match_operator, with_equals, minus_match, doubled, is}
use minipy.Lexer.Moves.{is_structure}

-- What a match at `c ∷ rs` is good for.
abbrev pub IsMatch : List ℕ → Match → Type 0
IsMatch cs (t, n) = (take n cs ≡ spelled t) × (0 < n) × (is_structure t ≡ false)

abbrev pub IsMatch? : List ℕ → Option Match → Type 0
IsMatch? cs none = Unit
IsMatch? cs (some m) = IsMatch cs m

Match-if :
    (cs : List ℕ) (t : Bool) (x y : Option Match)
    → (t ≡ true → IsMatch? cs x)
    → (t ≡ false → IsMatch? cs y)
    → IsMatch? cs (if t then x else y)
Match-if cs true x y h k = h refl
Match-if cs false x y h k = k refl

with_equals-IsMatch :
    (c : ℕ) (rs : List ℕ) (long short : TokenType)
    → spelled short ≡ c ∷ []
    → spelled long ≡ c ∷ b'=' ∷ []
    → is_structure long ≡ false
    → is_structure short ≡ false
    → IsMatch (c ∷ rs) (with_equals long short (get_elem? rs 0))
with_equals-IsMatch c [] long short p q r s = ground arith
with_equals-IsMatch c (d ∷ rs) long short p q r s = ground arith

doubled-IsMatch :
    (c : ℕ) (rs : List ℕ) (longest twice equals once : TokenType)
    → spelled longest ≡ c ∷ c ∷ b'=' ∷ []
    → spelled twice ≡ c ∷ c ∷ []
    → spelled equals ≡ c ∷ b'=' ∷ []
    → spelled once ≡ c ∷ []
    → is_structure longest ≡ false
    → is_structure twice ≡ false
    → is_structure equals ≡ false
    → is_structure once ≡ false
    → IsMatch (c ∷ rs) (doubled c longest twice equals once (get_elem? rs 0) (get_elem? rs 1))
doubled-IsMatch c [] l t e o p q r s = ground arith
doubled-IsMatch c (d ∷ []) l t e o p q r s = ground arith
doubled-IsMatch c (d ∷ f ∷ rs) l t e o p q r s = ground arith

Pair-if :
    (cs : List ℕ) (t : Bool) (x y : Match)
    → (t ≡ true → IsMatch cs x)
    → (t ≡ false → IsMatch cs y)
    → IsMatch cs (if t then x else y)
Pair-if cs true x y h k = h refl
Pair-if cs false x y h k = k refl

minus-IsMatch : (rs : List ℕ) → IsMatch (b'-' ∷ rs) (minus_match (get_elem? rs 0))
unfolding spelling
minus-IsMatch [] = (refl, omega arith, refl)
minus-IsMatch (d ∷ rs) =
    Pair-if (b'-' ∷ d ∷ rs) (d == b'=') _ _
      (λ e. (rw ((==_iff d b'=').0 e) refl, omega arith, refl))
      (λ _.
        Pair-if (b'-' ∷ d ∷ rs) (d == b'>') _ _
          (λ e. (rw ((==_iff d b'>').0 e) refl, omega arith, refl))
          (λ _. (refl, omega arith, refl)))

bang-IsMatch :
    (rs : List ℕ)
    → IsMatch? (b'!' ∷ rs) (if is b'=' (get_elem? rs 0) then some (TokenType.ne, 2) else none)
unfolding spelling
bang-IsMatch [] = ground arith
bang-IsMatch (d ∷ rs) = ground arith

dot-IsMatch :
    (rs : List ℕ)
    → IsMatch (b'.' ∷ rs) (
        if is b'.' (get_elem? rs 0) && is b'.' (get_elem? rs 1)
        then (TokenType.ellipsis, 3)
        else (TokenType.dot, 1))
unfolding spelling
dot-IsMatch [] = (refl, omega arith, refl)
dot-IsMatch (d ∷ []) =
    Pair-if (b'.' ∷ d ∷ []) ((d == b'.') && false) _ _ (λ e. absurd (ground arith))
      (λ _. (refl, omega arith, refl))
dot-IsMatch (d ∷ f ∷ rs) =
    Pair-if (b'.' ∷ d ∷ f ∷ rs) ((d == b'.') && (f == b'.')) _ _
      (λ e.
        let p : d ≡ b'.' = ground arith in
        let q : f ≡ b'.' = ground arith in (rw (p, q) refl, omega arith, refl))
      (λ _. (refl, omega arith, refl))

at_char :
    (c x : ℕ) (rs : List ℕ) (m : Option Match)
    → IsMatch? (x ∷ rs) m
    → (c == x) ≡ true
    → IsMatch? (c ∷ rs) m
at_char c x rs m h e = rw ((==_iff c x).0 e) h

-- Whatever the `switch` matches is spelled as the type of the token, so the scan takes exactly the
-- text of the operator.
pub match_operator-IsMatch :
    (c : ℕ) (rs : List ℕ) → IsMatch? (c ∷ rs) (match_operator c (get_elem? rs 0) (get_elem? rs 1))
unfolding match_operator spelling
match_operator-IsMatch c rs =
    Match-if (c ∷ rs) (c == b'+') _ _
      (at_char c b'+' rs (some (with_equals TokenType.pluseq TokenType.plus (get_elem? rs 0)))
        (with_equals-IsMatch b'+' rs TokenType.pluseq TokenType.plus refl refl refl refl))
      (λ _.
        Match-if (c ∷ rs) (c == b'-') _ _
          (at_char c b'-' rs (some (minus_match (get_elem? rs 0))) (minus-IsMatch rs))
          (λ _.
            Match-if (c ∷ rs) (c == b'*') _ _
              (at_char c b'*' rs
                (some (
                  doubled b'*' TokenType.doublestareq TokenType.doublestar TokenType.stareq
                    TokenType.star (get_elem? rs 0) (get_elem? rs 1)))
                (doubled-IsMatch b'*' rs TokenType.doublestareq TokenType.doublestar
                  TokenType.stareq TokenType.star refl refl refl refl refl refl refl refl))
              (λ _.
                Match-if (c ∷ rs) (c == b'/') _ _
                  (at_char c b'/' rs
                    (some (
                      doubled b'/' TokenType.doubleslasheq TokenType.doubleslash TokenType.slasheq
                        TokenType.slash (get_elem? rs 0) (get_elem? rs 1)))
                    (doubled-IsMatch b'/' rs TokenType.doubleslasheq TokenType.doubleslash
                      TokenType.slasheq TokenType.slash refl refl refl refl refl refl refl refl))
                  (λ _.
                    Match-if (c ∷ rs) (c == b'%') _ _
                      (at_char c b'%' rs
                        (some (with_equals TokenType.percenteq TokenType.percent (get_elem? rs 0)))
                        (with_equals-IsMatch b'%' rs TokenType.percenteq TokenType.percent refl refl
                          refl refl))
                      (λ _.
                        Match-if (c ∷ rs) (c == b'<') _ _
                          (at_char c b'<' rs
                            (some (
                              doubled b'<' TokenType.lshifteq TokenType.lshift TokenType.le
                                TokenType.lt (get_elem? rs 0) (get_elem? rs 1)))
                            (doubled-IsMatch b'<' rs TokenType.lshifteq TokenType.lshift
                              TokenType.le TokenType.lt refl refl refl refl refl refl refl refl))
                          (λ _.
                            Match-if (c ∷ rs) (c == b'>') _ _
                              (at_char c b'>' rs
                                (some (
                                  doubled b'>' TokenType.rshifteq TokenType.rshift TokenType.ge
                                    TokenType.gt (get_elem? rs 0) (get_elem? rs 1)))
                                (doubled-IsMatch b'>' rs TokenType.rshifteq TokenType.rshift
                                  TokenType.ge TokenType.gt refl refl refl refl refl refl refl
                                  refl))
                              (λ _.
                                Match-if (c ∷ rs) (c == b'&') _ _
                                  (at_char c b'&' rs
                                    (some
                                      (with_equals TokenType.ampeq TokenType.amp (get_elem? rs 0)))
                                    (with_equals-IsMatch b'&' rs TokenType.ampeq TokenType.amp refl
                                      refl refl refl))
                                  (λ _.
                                    Match-if (c ∷ rs) (c == b'|') _ _
                                      (at_char c b'|' rs
                                        (some (
                                          with_equals TokenType.pipeeq TokenType.pipe
                                            (get_elem? rs 0)))
                                        (with_equals-IsMatch b'|' rs TokenType.pipeeq TokenType.pipe
                                          refl refl refl refl))
                                      (λ _.
                                        Match-if (c ∷ rs) (c == b'^') _ _
                                          (at_char c b'^' rs
                                            (some (
                                              with_equals TokenType.careteq TokenType.caret
                                                (get_elem? rs 0)))
                                            (with_equals-IsMatch b'^' rs TokenType.careteq
                                              TokenType.caret refl refl refl refl))
                                          (λ _.
                                            Match-if (c ∷ rs) (c == b'~') _ _
                                              (at_char c b'~' rs (some (TokenType.tilde, 1))
                                                (refl, omega arith, refl))
                                              (λ _.
                                                Match-if (c ∷ rs) (c == b'@') _ _
                                                  (at_char c b'@' rs (some (TokenType.at, 1))
                                                    (refl, omega arith, refl))
                                                  (λ _.
                                                    Match-if (c ∷ rs) (c == b'=') _ _
                                                      (at_char c b'=' rs
                                                        (some (
                                                          with_equals TokenType.eq TokenType.assign
                                                            (get_elem? rs 0)))
                                                        (with_equals-IsMatch b'=' rs TokenType.eq
                                                          TokenType.assign refl refl refl refl))
                                                      (λ _.
                                                        Match-if (c ∷ rs) (c == b'!') _ _
                                                          (at_char c b'!' rs
                                                            (if is b'=' (get_elem? rs 0)
                                                            then some (TokenType.ne, 2)
                                                            else none)
                                                            (bang-IsMatch rs))
                                                          (λ _.
                                                            Match-if (c ∷ rs) (c == b':') _ _
                                                            (at_char c b':' rs
                                                            (some (
                                                            with_equals TokenType.walrus
                                                            TokenType.colon (get_elem? rs 0)))
                                                            (with_equals-IsMatch b':' rs
                                                            TokenType.walrus TokenType.colon refl
                                                            refl refl refl))
                                                            (λ _.
                                                            Match-if (c ∷ rs) (c == b'(') _ _
                                                            (at_char c b'(' rs
                                                            (some (TokenType.lparen, 1))
                                                            (refl, omega arith, refl))
                                                            (λ _.
                                                            Match-if (c ∷ rs) (c == b')') _ _
                                                            (at_char c b')' rs
                                                            (some (TokenType.rparen, 1))
                                                            (refl, omega arith, refl))
                                                            (λ _.
                                                            Match-if (c ∷ rs) (c == b'[') _ _
                                                            (at_char c b'[' rs
                                                            (some (TokenType.lbracket, 1))
                                                            (refl, omega arith, refl))
                                                            (λ _.
                                                            Match-if (c ∷ rs) (c == b']') _ _
                                                            (at_char c b']' rs
                                                            (some (TokenType.rbracket, 1))
                                                            (refl, omega arith, refl))
                                                            (λ _.
                                                            Match-if (c ∷ rs) (c == b'{') _ _
                                                            (at_char c b'{' rs
                                                            (some (TokenType.lbrace, 1))
                                                            (refl, omega arith, refl))
                                                            (λ _.
                                                            Match-if (c ∷ rs) (c == b'}') _ _
                                                            (at_char c b'}' rs
                                                            (some (TokenType.rbrace, 1))
                                                            (refl, omega arith, refl))
                                                            (λ _.
                                                            Match-if (c ∷ rs) (c == b',') _ _
                                                            (at_char c b',' rs
                                                            (some (TokenType.comma, 1))
                                                            (refl, omega arith, refl))
                                                            (λ _.
                                                            Match-if (c ∷ rs) (c == b'.') _ _
                                                            (at_char c b'.' rs
                                                            (some (
                                                            if is b'.' (get_elem? rs 0)
                                                            && is b'.' (get_elem? rs 1)
                                                            then (TokenType.ellipsis, 3)
                                                            else (TokenType.dot, 1)))
                                                            (dot-IsMatch rs))
                                                            (λ _.
                                                            Match-if (c ∷ rs) (c == b';') _ _
                                                            (at_char c b';' rs
                                                            (some (TokenType.semicolon, 1))
                                                            (refl, omega arith, refl))
                                                            (λ _. tt))))))))))))))))))))))))
