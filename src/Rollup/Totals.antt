-- ===== src/Rollup/Totals.antt =====
-- What a bucket's row says of the samples (performance_rollup.py, `add`, `to_row`).
use constella.Prelude.{
  ℕ, ◌+◌, ◌==◌, ◌≡◌, refl, Bool, true, false, Option, none, some, List, [], ◌∷◌, ◌++◌, Text, text,
  text_eq, length, append-nil, append_assoc, ap, sym, subst, ◌∙◌, if◌then◌else◌,
}
use constella.Prelude.Dicts.{Dict, lookup}
use constella.Telemetry.Rules.{Value}
use constella.Gpm.Ring.{gpm_metrics}
use constella.Gpm.Cache.{gpm_profile}
use constella.Rollup.Bucket.{
  Performance, Bucket, new, under, or_zero, count_in, add_metrics, add, Columns, to_row,
}
use constella.Rollup.Held.{
  add_all, one_of, values_in, available, values_of, total, greatest, Holds, Holds-count_in,
}

Holds-add_metrics :
    (k : Text) (metrics : Dict Value) (vs : List ℕ) (b : Bucket)
    → Holds k vs b
    → Holds k (vs ++ values_in k metrics) (add_metrics metrics b)
unfolding add_metrics values_in
Holds-add_metrics k [] vs b h = subst (λ ws. Holds k ws b) (sym (append-nil vs)) h
Holds-add_metrics k ((metric, v) ∷ metrics) vs b h =
    let o = under (lookup metric gpm_metrics) v in
    subst (λ ws. Holds k ws (add_metrics metrics (count_in metric o b)))
      (append_assoc vs (one_of (text_eq metric k) o) (values_in k metrics))
      (Holds-add_metrics k metrics (vs ++ one_of (text_eq metric k) o) (count_in metric o b)
        (Holds-count_in k metric o vs b h))

Holds-add :
    (k : Text) (p : Performance) (vs : List ℕ) (b : Bucket)
    → Holds k vs b
    → Holds k (vs ++ (if available p then values_in k p.metrics else [])) (add p b)
unfolding add
Holds-add k p vs b h =
    by_tests (text_eq p.profile gpm_profile) (text_eq p.status (text "unsupported"))
      (text_eq p.status (text "available"))
  where
    counted : Bucket
    counted = record b { expected_count = b.expected_count + 1 }

    same : Holds k vs counted
    same = record { count = h.count; sum = h.sum; maximum = h.maximum }

    none_more : (c : Bucket) → Holds k vs c → Holds k (vs ++ []) c
    none_more c g = subst (λ ws. Holds k ws c) (sym (append-nil vs)) g

    by_tests :
        (profiled unsupported given : Bool)
        → Holds k
            (vs
              ++ (if (if profiled then (if unsupported then false else given) else false)
                  then values_in k p.metrics
                  else []))
            (if profiled
              then (if unsupported
                  then b
                  else (if given then add_metrics p.metrics counted else counted))
              else b)
    by_tests false unsupported given = none_more b h
    by_tests true true given = none_more b h
    by_tests true false false = none_more counted same
    by_tests true false true = Holds-add_metrics k p.metrics vs counted same

Holds-add_all :
    (k : Text) (ps : List Performance) (vs : List ℕ) (b : Bucket)
    → Holds k vs b
    → Holds k (vs ++ values_of k ps) (add_all ps b)
unfolding add_all values_of
Holds-add_all k [] vs b h = subst (λ ws. Holds k ws b) (sym (append-nil vs)) h
Holds-add_all k (p ∷ ps) vs b h =
    let now = if available p then values_in k p.metrics else [] in
    subst (λ ws. Holds k ws (add_all ps (add p b))) (append_assoc vs now (values_of k ps))
      (Holds-add_all k ps (vs ++ now) (add p b) (Holds-add k p vs b h))

-- The columns that the values of a metric should have.
abbrev pub columns_of : List ℕ → Columns
columns_of vs = record {
  average = (if length vs == 0 then none else some (total vs, length vs));
  maximum = (if length vs == 0 then none else some (greatest vs));
  count = length vs;
}

-- Whatever samples a bucket has taken, the row has for every metric the sum, the greatest and the
-- number of the values that its rule accepted in available samples, and no average or maximum where
-- there is no such value.
pub to_row-columns_of :
    (k : Text) (ps : List Performance) → to_row k (add_all ps new) ≡ columns_of (values_of k ps)
unfolding to_row
to_row-columns_of k ps =
    let vs = values_of k ps in
    let b = add_all ps new in
    let h =
      Holds-add_all k ps [] new
        (record { count = nothing; sum = nothing; maximum = nothing_more }) in
    row vs (or_zero (lookup k b.counts)) (or_zero (lookup k b.sums)) (lookup k b.maxima) h.count
      h.sum h.maximum
  where
    nothing : or_zero (lookup {V = ℕ} k []) ≡ 0
    nothing = unfold lookup in refl

    nothing_more : lookup {V = ℕ} k [] ≡ none
    nothing_more = unfold lookup in refl

    twice :
        (b : Bool) (o : Option ℕ)
        → (if b then none else (if b then none else o)) ≡ (if b then none else o)
    twice true o = refl
    twice false o = refl

    row :
        (vs : List ℕ) (count sum : ℕ) (maximum : Option ℕ)
        → count ≡ length vs
        → sum ≡ total vs
        → maximum ≡ (if length vs == 0 then none else some (greatest vs))
        → (record {
          average = (if count == 0 then none else some (sum, count));
          maximum = (if count == 0 then none else maximum);
          count = count;
        })
          ≡ columns_of vs
    row vs count sum maximum e f g =
        (λ i. record {
          average = (if e i == 0 then none else some (f i, e i));
          maximum = (if e i == 0 then none else g i);
          count = e i;
        })
        ∙ ap
            (λ m. record {
              average = (if length vs == 0 then none else some (total vs, length vs));
              maximum = m;
              count = length vs;
            })
            (twice (length vs == 0) (some (greatest vs)))
