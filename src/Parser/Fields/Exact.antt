-- ===== src/Parser/Fields/Exact.antt =====
-- The field that `fstringField` finds.
use minipy.Base.{
  ◌↔◌, ℕ, ◌≡◌, refl, ap, ◌∙◌, true, ◌&&◌, [], ◌∷◌, ◌++◌, Option, none, some, if◌then◌else◌, Bytes,
  ◌==◌, Bool-cases, inl, inr, ==_iff,
}
use minipy.Parser.Fields.{brace_depth, push, field_end}

-- The depth of braces behind some bytes; `none` if a brace closes below depth 0 in them.
unfoldable pub level : ℕ → Bytes → Option ℕ
level depth [] = some depth
level depth (c ∷ cs) =
    let rest = level (brace_depth c depth) cs in if c == b'}' && depth == 0 then none else rest

-- The body is in balance, and is followed by a closing brace and the rest.
abbrev pub IsField : ℕ → Bytes → Bytes → Bytes → Type 0
IsField depth text body rest = (text ≡ body ++ b'}' ∷ rest) × (level depth body ≡ some 0)

closing : (c depth : ℕ) → (c == b'}' && depth == 0) ≡ true → (c ≡ b'}') × (depth ≡ 0)
closing c depth h = elim (Bool-cases (c == b'}')) [
  | inl e ↦ ((==_iff c b'}').0 e, (==_iff depth 0).0 (rw e at h))
  | inr e ↦ absurd (cc (rw e at h))
]

pushed :
    (c : ℕ) (o : Option (Bytes × Bytes)) (body rest : Bytes)
    → push c o ≡ some (body, rest)
    → (b : Bytes) × (o ≡ some (b, rest)) × (body ≡ c ∷ b)
pushed c none body rest h = cc
pushed c (some (b, r)) body rest h = (b, cc h, cc h)

ended :
    (c depth : ℕ) (cs body rest : Bytes)
    → c ≡ b'}'
    → depth ≡ 0
    → body ≡ []
    → rest ≡ cs
    → IsField depth (c ∷ cs) body rest
unfolding level
ended c depth cs body rest f g b r = rw (f, g, b, r) (refl, refl)

sound :
    (depth : ℕ) (text body rest : Bytes)
    → field_end depth text ≡ some (body, rest)
    → IsField depth text body rest
unfolding field_end level
sound depth [] body rest h = cc
sound depth (c ∷ cs) body rest h = elim (Bool-cases (c == b'}' && depth == 0)) [
  | inl e ↦
      let (f, g) = closing c depth e in
      ended c depth cs body rest f g (cc (rw e at h)) (cc (rw e at h))
  | inr e ↦
      let (b, f, g) = pushed c (field_end (brace_depth c depth) cs) body rest (rw e at h) in
      let (k, l) = sound (brace_depth c depth) cs b rest f in rw (g, e) (ap (λ xs. c ∷ xs) k, l)
]

complete :
    (depth : ℕ) (body rest : Bytes)
    → level depth body ≡ some 0
    → field_end depth (body ++ b'}' ∷ rest) ≡ some (body, rest)
unfolding field_end level
complete depth [] rest h = let e : depth ≡ 0 = cc h in rw e refl
complete depth (c ∷ cs) rest h = elim (Bool-cases (c == b'}' && depth == 0)) [
  | inl e ↦ absurd (cc (rw e at h))
  | inr e ↦ rw (e, complete (brace_depth c depth) cs rest (rw e at h)) refl
]

-- `fstringField` finds a body and a rest exactly if the text is that body, a closing brace and that rest,
-- where the braces of the body are in balance and none closes below depth 0.
pub field_end-IsField :
    (text body rest : Bytes) → (field_end 0 text ≡ some (body, rest)) ↔ IsField 0 text body rest
field_end-IsField text body rest =
    (sound 0 text body rest, λ (e, b). ap (field_end 0) e ∙ complete 0 body rest b)
