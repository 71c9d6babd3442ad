-- ===== src/Parser/Knot/Agree.antt =====
-- The functions of the grammar and their fuel, which is 2 for each token that is left, for a function
-- may go on once through the record where no token is consumed.
use minipy.Base.{ℕ, zero, suc, ◌*◌, ◌<◌, ◌≤◌, length, arith}
use minipy.Parser.State.{Parser, Action}
use minipy.Parser.State.Agree.{top, mid, low, Agree, Ends}
use minipy.Parser.Grammar.{Env}
use minipy.Parser.Grammar.Good.{IsComplete, IsGood}
use minipy.Parser.Displays.Agree.{
  group_loop-Agree, list_loop-Agree, dict_loop-Agree, set_loop-Agree, clause_loop-Agree,
  if_loop-Agree, string_loop-Agree,
}
use minipy.Parser.Operators.Agree.{
  lambda_params-Agree, primary-Agree, expression-Agree, disjunction-Agree, conjunction-Agree,
  inversion-Agree, factor-Agree, or_loop-Agree, and_loop-Agree, compare_loop-Agree, binary-Agree,
  binary_loop-Agree, primary_loop-Agree, call_loop-Agree,
}
use minipy.Parser.Annotations.Agree.{
  annotation-Agree, annotation_atom-Agree, union_loop-Agree, dotted_loop-Agree, type_args-Agree,
  annotated_loop-Agree, literal_loop-Agree,
}
use minipy.Parser.Knot.{grammar}

pub no_fuel : {A : Type 0} {m m' : Action A} → Agree low 0 m m'
no_fuel = record { run = λ s h. absurd (omega (arith, h)) }

no_fuel_mid : {A : Type 0} {m m' : Action A} → Agree mid 0 m m'
no_fuel_mid = record { run = λ s h. absurd (omega (arith, h)) }

module _ {A : Type 0} {n : ℕ} {m m' : Action A} where
  pub next_low : Agree mid n m m' → Agree low (suc n) m m'
  next_low t = record { run = λ s h. t.run s (omega (arith, h)) }

  next_mid : Agree top n m m' → Agree mid (suc n) m m'
  next_mid t = record { run = λ s h. t.run s h }

module _ (env : Env) (complete : IsComplete env) where
  pub good : (n m : ℕ) → n ≤ m → IsGood n (grammar env n) (grammar env m)
  unfolding grammar
  good zero m h = record {
    expression = no_fuel;
    disjunction = no_fuel;
    conjunction = no_fuel;
    inversion = no_fuel;
    factor = no_fuel;
    primary = no_fuel;
    or_loop = λ x. no_fuel;
    and_loop = λ x. no_fuel;
    compare_loop = λ x ops rest. no_fuel;
    binary = λ k. no_fuel;
    binary_loop = λ k x. no_fuel;
    primary_loop = λ x. no_fuel;
    lambda_params = λ ps. no_fuel;
    call_loop = λ found. no_fuel;
    group_loop = λ es. no_fuel;
    list_loop = λ p es. no_fuel;
    dict_loop = λ p ks vs. no_fuel;
    set_loop = λ p es. no_fuel;
    clause_loop = λ cs. no_fuel;
    if_loop = λ es. no_fuel;
    string_loop = λ k v. no_fuel;
    annotation = no_fuel;
    annotation_atom = no_fuel;
    union_loop = λ es. no_fuel;
    dotted_loop = λ p x. no_fuel;
    type_args = λ es. no_fuel;
    annotated_loop = λ es. no_fuel;
    literal_loop = λ es. no_fuel;
    direct_expression = no_fuel_mid;
    direct_clause_loop = λ cs. no_fuel_mid;
    direct_annotation = no_fuel_mid;
  }
  good (suc n) zero h = absurd (omega (arith, h))
  good (suc n) (suc m) h =
      let from = good n m (omega (arith, h)) in
      record {
        expression =
            next_low (expression-Agree env complete (grammar env n) (grammar env m) n from);
        disjunction =
            next_low (disjunction-Agree env complete (grammar env n) (grammar env m) n from);
        conjunction =
            next_low (conjunction-Agree env complete (grammar env n) (grammar env m) n from);
        inversion = next_low (inversion-Agree env complete (grammar env n) (grammar env m) n from);
        factor = next_low (factor-Agree env complete (grammar env n) (grammar env m) n from);
        primary = next_low (primary-Agree env complete (grammar env n) (grammar env m) n from);
        or_loop =
            λ x. next_low (or_loop-Agree env complete (grammar env n) (grammar env m) n from x);
        and_loop =
            λ x. next_low (and_loop-Agree env complete (grammar env n) (grammar env m) n from x);
        compare_loop = λ x ops rest.
            next_low
              (compare_loop-Agree env complete (grammar env n) (grammar env m) n from x ops rest);
        binary = λ k. next_low (binary-Agree env complete (grammar env n) (grammar env m) n from k);
        binary_loop = λ k x.
            next_low (binary_loop-Agree env complete (grammar env n) (grammar env m) n from k x);
        primary_loop = λ x.
            next_low (primary_loop-Agree env complete (grammar env n) (grammar env m) n from x);
        lambda_params = λ ps.
            next_low (lambda_params-Agree env complete (grammar env n) (grammar env m) n from ps);
        call_loop = λ found.
            next_low (call_loop-Agree env complete (grammar env n) (grammar env m) n from found);
        group_loop = λ es.
            next_low (group_loop-Agree env complete (grammar env n) (grammar env m) n from es);
        list_loop = λ p es.
            next_low (list_loop-Agree env complete (grammar env n) (grammar env m) n from p es);
        dict_loop = λ p ks vs.
            next_low (dict_loop-Agree env complete (grammar env n) (grammar env m) n from p ks vs);
        set_loop = λ p es.
            next_low (set_loop-Agree env complete (grammar env n) (grammar env m) n from p es);
        clause_loop = λ cs.
            next_low (clause_loop-Agree env complete (grammar env n) (grammar env m) n from cs);
        if_loop =
            λ es. next_low (if_loop-Agree env complete (grammar env n) (grammar env m) n from es);
        string_loop = λ k v.
            next_low (string_loop-Agree env complete (grammar env n) (grammar env m) n from k v);
        annotation =
            next_low (annotation-Agree env complete (grammar env n) (grammar env m) n from);
        annotation_atom =
            next_low (annotation_atom-Agree env complete (grammar env n) (grammar env m) n from);
        union_loop = λ es.
            next_low (union_loop-Agree env complete (grammar env n) (grammar env m) n from es);
        dotted_loop = λ p x.
            next_low (dotted_loop-Agree env complete (grammar env n) (grammar env m) n from p x);
        type_args =
            λ es. next_low (type_args-Agree env complete (grammar env n) (grammar env m) n from es);
        annotated_loop = λ es.
            next_low (annotated_loop-Agree env complete (grammar env n) (grammar env m) n from es);
        literal_loop = λ es.
            next_low (literal_loop-Agree env complete (grammar env n) (grammar env m) n from es);
        direct_expression =
            next_mid (expression-Agree env complete (grammar env n) (grammar env m) n from);
        direct_clause_loop = λ cs.
            next_mid (clause_loop-Agree env complete (grammar env n) (grammar env m) n from cs);
        direct_annotation =
            next_mid (annotation-Agree env complete (grammar env n) (grammar env m) n from);
      }

  -- Within a fuel of more than twice the number of tokens left, and where the parts of every f-string
  -- are found, `parseExpression` returns; it returns the same value and struct at any larger fuel, takes
  -- tokens off the front alone, and keeps the errors that there are in front of those it adds.
  pub expression_agrees :
      (n m : ℕ) (s : Parser)
      → 2 * length s.rest < n
      → n ≤ m
      → Ends s ((grammar env n).expression s) ((grammar env m).expression s)
  expression_agrees n m s h k = (good n m k).direct_expression.run s h

  -- Within a fuel of more than twice the number of tokens left, and where the parts of every f-string
  -- are found, `parseType` returns; it returns the same value and struct at any larger fuel, takes
  -- tokens off the front alone, and keeps the errors that there are in front of those it adds.
  pub annotation_agrees :
      (n m : ℕ) (s : Parser)
      → 2 * length s.rest < n
      → n ≤ m
      → Ends s ((grammar env n).annotation s) ((grammar env m).annotation s)
  annotation_agrees n m s h k = (good n m k).direct_annotation.run s h
