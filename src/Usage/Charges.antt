-- ===== src/Usage/Charges.antt =====
-- Who is charged for a row with a uid, from the bindings alone
-- (packages/lab/src/constella_lab/activity_usage.py, `resolve_usage`).
use constella.Prelude.{
  ℕ, ◌≤◌, max, min, ◌≡◌, refl, sym, ap, subst, ◌∙◌, Bool, true, false, ◌&&◌, ◌⊎◌, inl, inr, Option,
  none, some, List, [], ◌∷◌, ◌++◌, Text, text, text_eq, ltb, leb, ◌==◌, keep, All, All-map, arith,
  Bool-cases, Option-cases, if◌then◌else◌, true_not_false,
}
use constella.Usage.Owners.{
  Binding, Row, is_applicable, greater_of, latest, matches_of, owner_of, resolve_usage,
}
use constella.Usage.Shares.{charged_at, all_due, resolve_usage-all_due}

abbrev pub IsIn : Binding → List Binding → Type 0
IsIn b [] = ⊥
IsIn b (d ∷ bs) = (d ≡ b) ⊎ IsIn b bs

-- Whether the binding is of the row's node and uid.
abbrev pub has_account : Row → Binding → Bool
has_account row b = elim row.user_uid [
  | none ↦ false
  | some uid ↦ text_eq b.node_id row.node_id && (b.unix_uid == uid)
]

abbrev pub not_over : ℕ → Option ℕ → Bool
not_over t none = true
not_over t (some to) = ltb t to

abbrev pub in_force : ℕ → Binding → Bool
in_force t b = leb b.valid_from t && not_over t b.valid_to

-- One of the bindings that pass both tests, none of which starts later; or none, where none passes.
abbrev pub IsLatest : (Binding → Bool) → (Binding → Bool) → List Binding → Option Binding → Type 0
IsLatest f g bs none = All (λ (d : Binding). (g d && f d) ≡ false) bs
IsLatest f g bs (some b) =
    IsIn b bs
    × ((g b && f b) ≡ true)
    × All (λ (d : Binding). (g d && f d) ≡ true → d.valid_from ≤ b.valid_from) bs

IsLatest-skip :
    (f g : Binding → Bool) (x : Binding) (bs : List Binding) (o : Option Binding)
    → (g x && f x) ≡ false
    → IsLatest f g bs o
    → IsLatest f g (x ∷ bs) o
IsLatest-skip f g x bs none off h = (off, h)
IsLatest-skip f g x bs (some b) off (there, passes, others) =
    (inr there, passes, ((λ on. absurd (true_not_false (sym on ∙ off))), others))

IsLatest-greater :
    (f g : Binding → Bool) (x : Binding) (bs : List Binding) (o : Option Binding)
    → (g x && f x) ≡ true
    → IsLatest f g bs o
    → IsLatest f g (x ∷ bs) (some (greater_of x o))
IsLatest-greater f g x bs none on h = (
  inl refl,
  on,
  (
    (λ e. omega arith),
    All-map (λ (d : Binding). (g d && f d) ≡ false)
        (λ (d : Binding). (g d && f d) ≡ true → d.valid_from ≤ x.valid_from) bs
        (λ d off yes_. absurd (true_not_false (sym yes_ ∙ off))) h,
  ),
)
IsLatest-greater f g x bs (some c) on (there, passes, others) =
    elim (Bool-cases (ltb x.valid_from c.valid_from)) [
      | inl later ↦
          subst (λ y. IsLatest f g (x ∷ bs) (some y)) (sym (ap (λ b. if b then c else x) later))
            (inr there, passes, ((λ e. ground arith), others))
      | inr first ↦
          let before : c.valid_from ≤ x.valid_from = ground arith in
          subst (λ y. IsLatest f g (x ∷ bs) (some y)) (sym (ap (λ b. if b then c else x) first))
            (
              inl refl,
              on,
              (
                (λ e. omega arith),
                All-map (λ (d : Binding). (g d && f d) ≡ true → d.valid_from ≤ c.valid_from)
                    (λ (d : Binding). (g d && f d) ≡ true → d.valid_from ≤ x.valid_from) bs
                    (λ d h e. let under : d.valid_from ≤ c.valid_from = h e in omega arith) others,
              ),
            )
    ]

latest-IsLatest :
    (f g : Binding → Bool) (bs : List Binding) → IsLatest f g bs (latest (keep f (keep g bs)))
unfolding latest
latest-IsLatest f g [] = tt
latest-IsLatest f g (x ∷ bs) = elim (Bool-cases (g x)) [
  | inr off ↦ rw off (
      IsLatest-skip f g x bs (latest (keep f (keep g bs))) (ap (λ b. b && f x) off)
        (latest-IsLatest f g bs))
  | inl account ↦ elim (Bool-cases (f x)) [
    | inr off ↦
        let out : (g x && f x) ≡ false = rw (account, off) refl in
        rw (account, off)
          (IsLatest-skip f g x bs (latest (keep f (keep g bs))) out (latest-IsLatest f g bs))
    | inl now ↦
        let on : (g x && f x) ≡ true = rw (account, now) refl in
        rw (account, now)
          (IsLatest-greater f g x bs (latest (keep f (keep g bs))) on (latest-IsLatest f g bs))
  ]
]

keep-same :
    (p q : Binding → Bool) (bs : List Binding) → ((b : Binding) → p b ≡ q b) → keep p bs ≡ keep q bs
keep-same p q [] same = refl
keep-same p q (b ∷ bs) same = rw (same b, keep-same p q bs same) refl

in_force-is_applicable : (t : ℕ) (b : Binding) → is_applicable t b ≡ in_force t b
in_force-is_applicable t b = elim (Option-cases b.valid_to) [
  | inl open_ ↦ rw open_ refl
  | inr (to, ended) ↦ rw ended refl
]

-- The row was seen at the time, which is in the period.
abbrev pub is_seen : ℕ → ℕ → ℕ → Row → Bool
is_seen t start end row =
    (leb start t && ltb t end) && (leb row.first_seen_at t && ltb t row.last_seen_at)

module _ (account model_of job_of : Row → Text) where
  abbrev pub owner_text : Row → Option Binding → Text
  owner_text row none = text "account:" ++ account row
  owner_text row (some b) = text "user:" ++ b.user_id

  -- For each row that was seen, in their order, the user of a binding of the row's node and uid that
  -- was in force, none of which starts later, or the account where none was in force.
  abbrev pub AreCharged : ℕ → ℕ → ℕ → List Binding → List Row → List Text → Type 0
  AreCharged t start end bindings [] owners = owners ≡ []
  AreCharged t start end bindings (row ∷ rows) owners =
      (o : Option Binding) × (rest : List Text) × IsLatest (in_force t) (has_account row) bindings o
      × (owners ≡ (if is_seen t start end row then owner_text row o ∷ rest else rest))
      × AreCharged t start end bindings rows rest

  all_due-AreCharged :
      (rows : List Row) (bindings : List Binding) (start end t : ℕ)
      → All (λ (row : Row). (uid : ℕ) × (row.user_uid ≡ some uid)) rows
      → AreCharged t start end bindings rows
          (all_due account model_of job_of t rows bindings start end)
  unfolding all_due
  all_due-AreCharged [] bindings start end t known = refl
  all_due-AreCharged (row ∷ rows) bindings start end t ((uid, given), known) =
      let q = λ (b : Binding). text_eq b.node_id row.node_id && (b.unix_uid == uid) in
      let own : (b : Binding) → q b ≡ has_account row b = λ b. rw given refl in
      let o = latest (keep (in_force t) (keep (has_account row) bindings)) in
      let rest = all_due account model_of job_of t rows bindings start end in
      let same : latest
            (keep (is_applicable t) (matches_of bindings start row.node_id row.user_uid row.user))
          ≡ o =
        ap (λ u. latest (keep (is_applicable t) (matches_of bindings start row.node_id u row.user)))
          given
        ∙ ap latest
            (keep-same (is_applicable t) (in_force t) (keep q bindings) (in_force-is_applicable t))
        ∙ ap (λ bs. latest (keep (in_force t) bs)) (keep-same q (has_account row) bindings own) in
      let seen : (leb (max start row.first_seen_at) t && ltb t (min end row.last_seen_at))
          ≡ is_seen t start end row =
        ground arith in
      (
        o,
        rest,
        latest-IsLatest (in_force t) (has_account row) bindings,
        (λ i. (if seen i then owner_of account model_of job_of row (same i) ∷ [] else []) ++ rest)
            ∙ shape (is_seen t start end row) row o rest,
        all_due-AreCharged rows bindings start end t known,
      )
    where
      shape :
          (b : Bool) (row : Row) (o : Option Binding) (rest : List Text)
          → (if b then owner_of account model_of job_of row o ∷ [] else []) ++ rest
            ≡ (if b then owner_text row o ∷ rest else rest)
      shape false row o rest = refl
      shape true row none rest = refl
      shape true row (some b) rest = refl

  -- Of rows that have a uid: at each time, each row that was seen then, in the period, is charged once,
  -- to the user of a binding of the row's node and uid that was in force at this time, none of which
  -- started later, or to the account itself where none was in force; and nothing else is charged.
  pub resolve_usage-AreCharged :
      (rows : List Row) (bindings : List Binding) (start end t : ℕ)
      → All (λ (row : Row). (uid : ℕ) × (row.user_uid ≡ some uid)) rows
      → AreCharged t start end bindings rows
          (charged_at t (resolve_usage account model_of job_of rows bindings start end))
  resolve_usage-AreCharged rows bindings start end t known =
      subst (AreCharged t start end bindings rows)
        (sym (resolve_usage-all_due account model_of job_of rows bindings start end t))
        (all_due-AreCharged rows bindings start end t known)
