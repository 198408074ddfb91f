-- ===== src/Lab/Pages.antt =====
-- What the listings show of the store (store.py, `list_audit_events`, `list_bindings`).
use constella.Prelude.{
  subst, map, none, true, false, text_eq, Option-cases, ◌≤◌, ℕ, zero, suc, ◌+◌, ◌*◌, ◌≤◌, min, max,
  ◌≡◌, refl, sym, ap, ◌∙◌, Bool, ◌&&◌, Option, some, List, [], ◌∷◌, ◌++◌, Text, keep, tally, drop,
  take, length, All, arith, inl, inr, Bool-cases,
}
use native.Mathlib.Nat.{suc-mul}
use constella.Lab.Data.{User, Binding, AuditEvent, Store}
use constella.Lab.Logins.{select_user, is_unset}
use constella.Prelude.Sorting.{tally-sort_by, All-sort_by, AreRelated, AreRelated-sort_by}
use constella.Lab.Listings.{
  is_later, ListedBinding, joined, is_wanted, list_bindings, ListedEvent, listed_events,
  list_audit_events,
}

abbrev pub event_of : ListedEvent → AuditEvent
event_of row = row.event

-- The pages of one size, from an offset.
unfoldable pub pages : ℕ → ℕ → ℕ → Store → List ListedEvent
pages zero size offset s = []
pages (suc n) size offset s = list_audit_events size offset s ++ pages n size (offset + size) s

take-drop : (n : ℕ) (xs : List ListedEvent) → take n xs ++ drop n xs ≡ xs
take-drop zero xs = refl
take-drop (suc n) [] = refl
take-drop (suc n) (x ∷ xs) = ap (λ ys. x ∷ ys) (take-drop n xs)

drop_nil : (n : ℕ) → drop {A = ListedEvent} n [] ≡ []
drop_nil zero = refl
drop_nil (suc n) = refl

drop_add : (m n : ℕ) (xs : List ListedEvent) → drop (m + n) xs ≡ drop n (drop m xs)
drop_add zero n xs = ap (λ k. drop k xs) (omega arith)
drop_add (suc m) n [] = drop_nil (suc m + n) ∙ sym (drop_nil n)
drop_add (suc m) n (x ∷ xs) =
    let one_less : suc m + n ≡ suc (m + n) = omega arith in
    ap (λ k. drop k (x ∷ xs)) one_less ∙ drop_add m n xs

drop_all : (n : ℕ) (xs : List ListedEvent) → length xs ≤ n → drop n xs ≡ []
drop_all zero [] h = refl
drop_all zero (x ∷ xs) h = absurd (omega arith)
drop_all (suc n) [] h = refl
drop_all (suc n) (x ∷ xs) h = drop_all n xs (omega arith)

pages-drop :
    (n size offset : ℕ) (s : Store)
    → 1 ≤ size
    → size ≤ 500
    → length (listed_events s s.audit) ≤ offset + n * size
    → pages n size offset s ≡ drop offset (listed_events s s.audit)
unfolding pages list_audit_events
pages-drop zero size offset s one most enough =
    sym (drop_all offset (listed_events s s.audit) (omega arith))
pages-drop (suc n) size offset s one most enough =
    let events = listed_events s s.audit in
    let limit : max 1 (min size 500) ≡ size = omega arith in
    let rest : pages n size (offset + size) s ≡ drop (offset + size) events =
      pages-drop n size (offset + size) s one most (omega (arith, suc-mul n size)) in
    rw (limit, rest, drop_add offset size events) (take-drop size (drop offset events))

listed-events :
    (s : Store) (events : List AuditEvent) → map event_of (listed_events s events) ≡ events
unfolding listed_events
listed-events s [] = refl
listed-events s (e ∷ events) = ap (λ es. e ∷ es) (listed-events s events)

length-listed :
    (s : Store) (events : List AuditEvent) → length (listed_events s events) ≡ length events
unfolding listed_events
length-listed s [] = refl
length-listed s (e ∷ events) = ap suc (length-listed s events)

-- An event whose actor is a user is shown with the address of this user.
abbrev pub IsSigned : Store → ListedEvent → Type 0
IsSigned s row =
    (k : Text) (u : User)
    → row.event.actor_user_id ≡ some k
    → select_user k s ≡ some u
    → row.actor_email ≡ some u.email

listed-IsSigned : (s : Store) (events : List AuditEvent) → All (IsSigned s) (listed_events s events)
unfolding listed_events
listed-IsSigned s [] = tt
listed-IsSigned s (e ∷ events) = ((λ k u by known. rw (by, known) refl), listed-IsSigned s events)

-- Reading the audit log page by page, with pages of one to 500 events, shows exactly the events of
-- the log, each once and in the order of the log, when there are enough pages for it; an event whose
-- actor is a user is shown with the address of this user.
pub pages-listed :
    (n size : ℕ) (s : Store)
    → 1 ≤ size
    → size ≤ 500
    → length s.audit ≤ n * size
    → (map event_of (pages n size 0 s) ≡ s.audit) × All (IsSigned s) (pages n size 0 s)
pages-listed n size s one most enough =
    let all : pages n size 0 s ≡ listed_events s s.audit =
      pages-drop n size 0 s one most (omega (arith, length-listed s s.audit)) in
    (
      ap (map event_of) all ∙ listed-events s s.audit,
      subst (All (IsSigned s)) (sym all) (listed-IsSigned s s.audit),
    )

abbrev pub shows : (Binding → Bool) → ListedBinding → Bool
shows p row = p row.binding

-- Every binding is of a user that is there.
abbrev pub HasUser : Store → Binding → Type 0
HasUser s b = (u : User) × (select_user b.user_id s ≡ some u)

tally-joined :
    (p : Binding → Bool) (q : Binding → Bool) (s : Store) (bindings : List Binding)
    → All (HasUser s) bindings
    → tally (shows p) (joined s (keep q bindings)) ≡ tally (λ b. q b && p b) bindings
unfolding joined
tally-joined p q s [] known = refl
tally-joined p q s (b ∷ bindings) known = elim (Bool-cases (q b)) [
  | inl wanted ↦ simp (wanted, known.0.1, tally-joined p q s bindings known.1) refl
  | inr other ↦ simp (other, tally-joined p q s bindings known.1) (omega arith)
]

-- The row stands beside the address and the name of the binding's own user.
abbrev pub IsJoined : Store → ListedBinding → Type 0
IsJoined s row =
    (u : User) × (select_user row.binding.user_id s ≡ some u)
    × (row.user_email ≡ u.email)
    × (row.user_display_name ≡ u.display_name)

joined-IsJoined : (s : Store) (bindings : List Binding) → All (IsJoined s) (joined s bindings)
unfolding joined
joined-IsJoined s [] = tt
joined-IsJoined s (b ∷ bindings) = elim (Option-cases (select_user b.user_id s)) [
  | inl unknown ↦ rw unknown (joined-IsJoined s bindings)
  | inr (u, known) ↦ rw known ((u, known, refl, refl), joined-IsJoined s bindings)
]

tally-same :
    {A : Type 0} (p q : A → Bool) (xs : List A) → ((x : A) → p x ≡ q x) → tally p xs ≡ tally q xs
tally-same p q [] same = refl
tally-same p q (x ∷ xs) same = rw (same x, tally-same p q xs same) refl

tally-listed :
    (p q : Binding → Bool) (user_id : Option Text) (active_only : Bool) (s : Store)
    → All (HasUser s) s.bindings
    → ((b : Binding) → (is_wanted user_id active_only b && p b) ≡ q b)
    → tally (shows p) (list_bindings user_id active_only s) ≡ tally q s.bindings
unfolding list_bindings
tally-listed p q user_id active_only s known same =
    tally-sort_by is_later (shows p) _
    ∙ tally-joined p (is_wanted user_id active_only) s s.bindings known
    ∙ tally-same _ q s.bindings same

-- The rows come with the latest start first.
abbrev pub AreLatestFirst : List ListedBinding → Type 0
AreLatestFirst rows = AreRelated (λ a b. b.binding.valid_from ≤ a.binding.valid_from) rows

-- Where every binding's user is there, a listing of bindings shows each stored binding that is asked
-- for exactly once, and no other, counted by any test on bindings: all of them, or those of a user, or
-- those that have no end, or those of a user that have none. The rows come with the latest start
-- first, each with the address and the name of its own user.
pub tally-list_bindings :
    (p : Binding → Bool) (k : Text) (s : Store)
    → All (HasUser s) s.bindings
    → (tally (shows p) (list_bindings none false s) ≡ tally p s.bindings)
      × (tally (shows p) (list_bindings (some k) false s)
          ≡ tally (λ b. text_eq b.user_id k && p b) s.bindings)
      × (tally (shows p) (list_bindings none true s)
          ≡ tally (λ b. is_unset b.valid_to && p b) s.bindings)
      × (tally (shows p) (list_bindings (some k) true s)
          ≡ tally (λ b. text_eq b.user_id k && (is_unset b.valid_to && p b)) s.bindings)
      × ((user_id : Option Text) (active_only : Bool)
          → AreLatestFirst (list_bindings user_id active_only s)
            × All (IsJoined s) (list_bindings user_id active_only s))
unfolding list_bindings
tally-list_bindings p k s known = (
  tally-listed p _ none false s known (λ b. refl),
  tally-listed p _ (some k) false s known (λ b. ground arith),
  tally-listed p _ none true s known (λ b. ground arith),
  tally-listed p _ (some k) true s known (λ b. ground arith),
  (λ user_id active_only. (
    AreRelated-sort_by is_later (λ a b. b.binding.valid_from ≤ a.binding.valid_from)
        (λ a b c h k. omega (arith, h, k)) (λ a b h. ground arith) (λ a b h. ground arith) _,
    All-sort_by is_later (IsJoined s) _ (joined-IsJoined s _),
  )),
)
