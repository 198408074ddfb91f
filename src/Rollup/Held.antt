-- ===== src/Rollup/Held.antt =====
-- What a bucket holds of one metric (performance_rollup.py, `add`).
use constella.Prelude.{
  ℕ, suc, ◌+◌, ◌==◌, max, ◌≡◌, Bool, true, false, Option, none, some, List, [], ◌∷◌, ◌++◌, Text,
  text, text_eq, text_eq→eq, length, length-append, append-nil, Bool-cases, inl, inr, ap, sym,
  subst, ◌∙◌, arith, if◌then◌else◌,
}
use constella.Prelude.Dicts.{Dict, lookup, insert, lookup-insert, lookup-insert_self}
use constella.Telemetry.Rules.{Value}
use constella.Gpm.Ring.{gpm_metrics}
use constella.Gpm.Cache.{gpm_profile}
use constella.Rollup.Bucket.{Performance, Bucket, under, or_zero, or_value, count_in, add}

-- The calls of `add`, in order.
unfoldable pub add_all : List Performance → Bucket → Bucket
add_all [] b = b
add_all (p ∷ ps) b = add_all ps (add p b)

abbrev pub one_of : Bool → Option ℕ → List ℕ
one_of true (some v) = v ∷ []
one_of true none = []
one_of false o = []

-- The accepted values of a metric in a sample, and in all samples that are available.
unfoldable pub values_in : Text → Dict Value → List ℕ
values_in k [] = []
values_in k ((metric, v) ∷ metrics) =
    one_of (text_eq metric k) (under (lookup metric gpm_metrics) v) ++ values_in k metrics

abbrev pub available : Performance → Bool
available p =
    if text_eq p.profile gpm_profile
    then if text_eq p.status (text "unsupported")
      then false
      else text_eq p.status (text "available")
    else false

unfoldable pub values_of : Text → List Performance → List ℕ
values_of k [] = []
values_of k (p ∷ ps) = (if available p then values_in k p.metrics else []) ++ values_of k ps

abbrev pub total : List ℕ → ℕ
total [] = 0
total (v ∷ vs) = v + total vs

abbrev pub greatest : List ℕ → ℕ
greatest [] = 0
greatest (v ∷ vs) = max v (greatest vs)

-- The bucket holds the values, oldest first, of the metric k.
pub record Holds (k : Text) (vs : List ℕ) (b : Bucket) : Type 0 where
  pub count : or_zero (lookup k b.counts) ≡ length vs
  pub sum : or_zero (lookup k b.sums) ≡ total vs
  pub maximum : lookup k b.maxima ≡ (if length vs == 0 then none else some (greatest vs))

total-snoc : (vs : List ℕ) (v : ℕ) → total (vs ++ v ∷ []) ≡ total vs + v
total-snoc [] v = omega arith
total-snoc (w ∷ vs) v = omega (arith, total-snoc vs v)

greatest-snoc : (vs : List ℕ) (v : ℕ) → greatest (vs ++ v ∷ []) ≡ max (greatest vs) v
greatest-snoc [] v = omega arith
greatest-snoc (w ∷ vs) v = omega (arith, greatest-snoc vs v)

maximum-snoc :
    (vs : List ℕ) (v : ℕ)
    → some (max (or_value v (if length vs == 0 then none else some (greatest vs))) v)
      ≡ (if length (vs ++ v ∷ []) == 0 then none else some (greatest (vs ++ v ∷ [])))
maximum-snoc [] v = ap some (omega arith)
maximum-snoc (w ∷ vs) v =
    let some_before : (suc (length vs) == 0) ≡ false = ground arith in
    let some_after : (suc (length (vs ++ v ∷ [])) == 0) ≡ false = ground arith in
    rw (some_before, some_after) (ap some (sym (greatest-snoc (w ∷ vs) v)))

Holds-count_self :
    (k : Text) (v : ℕ) (vs : List ℕ) (b : Bucket)
    → Holds k vs b
    → Holds k (vs ++ v ∷ []) (count_in k (some v) b)
Holds-count_self k v vs b h = record {
  count =
      ap or_zero (lookup-insert_self k _ b.counts)
      ∙ omega (arith, h.count, length-append vs (v ∷ []));
  sum = ap or_zero (lookup-insert_self k _ b.sums) ∙ ap (λ n. n + v) h.sum ∙ sym (total-snoc vs v);
  maximum =
      lookup-insert_self k _ b.maxima
      ∙ ap (λ o. some (max (or_value v o) v)) h.maximum
      ∙ maximum-snoc vs v;
}

lookup-insert_other :
    (metric k : Text) (v : ℕ) (d : Dict ℕ)
    → text_eq metric k ≡ false
    → lookup k (insert metric v d) ≡ lookup k d
lookup-insert_other metric k v d other =
    lookup-insert metric k v d ∙ ap (λ b. if b then some v else lookup k d) other

pub Holds-count_in :
    (k metric : Text) (o : Option ℕ) (vs : List ℕ) (b : Bucket)
    → Holds k vs b
    → Holds k (vs ++ one_of (text_eq metric k) o) (count_in metric o b)
Holds-count_in k metric none vs b h = subst (λ ws. Holds k ws b) (nothing (text_eq metric k)) h
  where
    nothing : (c : Bool) → vs ≡ vs ++ one_of c none
    nothing true = sym (append-nil vs)
    nothing false = sym (append-nil vs)
Holds-count_in k metric (some v) vs b h = elim (Bool-cases (text_eq metric k)) [
  | inl same ↦
      subst (λ c. Holds k (vs ++ one_of c (some v)) (count_in metric (some v) b)) (sym same)
        (subst (λ m. Holds k (vs ++ v ∷ []) (count_in m (some v) b))
          (sym (text_eq→eq metric k same)) (Holds-count_self k v vs b h))
  | inr other ↦
      subst (λ c. Holds k (vs ++ one_of c (some v)) (count_in metric (some v) b)) (sym other)
        (subst (λ ws. Holds k ws (count_in metric (some v) b)) (sym (append-nil vs))
          (record {
            count = ap or_zero (lookup-insert_other metric k _ b.counts other) ∙ h.count;
            sum = ap or_zero (lookup-insert_other metric k _ b.sums other) ∙ h.sum;
            maximum = lookup-insert_other metric k _ b.maxima other ∙ h.maximum;
          }))
]
