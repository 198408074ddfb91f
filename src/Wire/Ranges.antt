-- ===== src/Wire/Ranges.antt =====
-- The readings of a decoded device are in range, whatever was sent (cluster.py, `gpu_from_telemetry`).
use constella.Prelude.{
  or_true, ℕ, ◌≡◌, ◌==◌, ◌-◌, ◌%◌, ◌≤◌, true, not, some, Text, text_eq, any, get_elem?, ap, subst,
  ◌∙◌, sym, Bool-cases, inl, inr, ◌⊎◌, if◌then◌else◌, arith, Option-cases,
}
use constella.Prelude.Dicts.{Dict}
use constella.Telemetry.Rules.{
  Number, number, NumericRule, accepts, at_most, whole, million, numeric_issues,
}
use constella.Wire.Json.{
  Json, null, bool, num, inf, nan, str, list, object, Fields, field, get, or_null, value_of,
  values_of, truncated, float_or_zero, int_or_zero,
}
use constella.Wire.Decode.{nulled}
use constella.Wire.Issues.{get-nulled, lookup-values_of, issue_free}

-- The rule accepts zero.
abbrev IsWide : NumericRule → Type 0
IsWide rule = (at_most rule.minimum (whole 0) ≡ true) × (at_most (whole 0) rule.maximum ≡ true)

accepts-zero : (rule : NumericRule) → IsWide rule → accepts rule (number (whole 0)) ≡ true
unfolding accepts
accepts-zero rule (low, high) = rw (low, high) (or_true (not rule.integer))

accepts-truncated :
    (rule : NumericRule) (n : Number)
    → IsWide rule
    → accepts rule (number n) ≡ true
    → accepts rule (number (truncated n)) ≡ true
unfolding accepts
accepts-truncated rule n (low, high) h =
    let m = n.millionths in
    let whole_left : (m - m % million) % million ≡ 0 = omega arith in
    let less : m - m % million ≤ m = omega arith in ground arith

accepts-float_or_zero :
    (rule : NumericRule) (j : Json)
    → IsWide rule
    → (accepts rule (value_of j) ≡ true) ⊎ (j ≡ null)
    → accepts rule (number (float_or_zero j)) ≡ true
accepts-float_or_zero rule null wide h = accepts-zero rule wide
accepts-float_or_zero rule (bool b) wide h = accepts-zero rule wide
accepts-float_or_zero rule (inf b) wide h = accepts-zero rule wide
accepts-float_or_zero rule nan wide h = accepts-zero rule wide
accepts-float_or_zero rule (str t) wide h = accepts-zero rule wide
accepts-float_or_zero rule (list js) wide h = accepts-zero rule wide
accepts-float_or_zero rule (object d) wide h = accepts-zero rule wide
accepts-float_or_zero rule (num n) wide (inl ok) = elim (Bool-cases (n.millionths == 0)) [
  | inl nil ↦ rw nil (accepts-zero rule wide)
  | inr some_left ↦ rw some_left ok
]
accepts-float_or_zero rule (num n) wide (inr no_number) =
    subst (λ (j : Json). accepts rule (number (float_or_zero j)) ≡ true) (sym no_number)
      (accepts-zero rule wide)

-- What the decoder reads under a name that has a rule.
nulled-ok :
    (d : Fields) (rules : Dict NumericRule) (i : ℕ) (k : Text) (rule : NumericRule)
    → get_elem? rules i ≡ some (k, rule)
    → (accepts rule (value_of (get k (nulled (numeric_issues (values_of d) rules) d))) ≡ true)
      ⊎ (get k (nulled (numeric_issues (values_of d) rules) d) ≡ null)
nulled-ok d rules i k rule at_i =
    let issues = numeric_issues (values_of d) rules in
    let now = get-nulled k issues d in
    elim (Bool-cases (any (λ n. text_eq n k) issues)) [
      | inl issue ↦ inr (now ∙ ap (λ b. if b then null else get k d) issue)
      | inr free ↦
          let same : get k (nulled issues d) ≡ get k d =
            now ∙ ap (λ b. if b then null else get k d) free in
          elim (Option-cases (field k d)) [
            | inl absent ↦ inr (same ∙ ap or_null absent)
            | inr (v, sent) ↦
                let ok =
                  issue_free (values_of d) rules i k rule (value_of v) at_i free
                    (lookup-values_of k d v sent) in
                let is_v : get k (nulled issues d) ≡ v = same ∙ ap or_null sent in
                inl (ap (λ j. accepts rule (value_of j)) is_v ∙ ok)
          ]
    ]

module _ (d : Fields) (rules : Dict NumericRule) (i : ℕ) (k : Text) (rule : NumericRule)
    (at_i : get_elem? rules i ≡ some (k, rule)) (wide : IsWide rule) where
  pub float_or_zero-ok :
      accepts rule (number (float_or_zero (get k (nulled (numeric_issues (values_of d) rules) d))))
      ≡ true
  float_or_zero-ok = accepts-float_or_zero rule _ wide (nulled-ok d rules i k rule at_i)

  pub int_or_zero-ok :
      accepts rule (number (int_or_zero (get k (nulled (numeric_issues (values_of d) rules) d))))
      ≡ true
  int_or_zero-ok = accepts-truncated rule _ wide float_or_zero-ok
