-- ===== src/Lab/Listings.antt =====
-- The methods of `LabStore` that list rows (store.py: `user_with_bindings`, `list_bindings`,
-- `list_audit_events`). SQL leaves the order of bindings with one `valid_from` open: here it is that of
-- the table.
use constella.Prelude.{
  ℕ, min, max, Bool, true, false, not, ◌&&◌, ◌||◌, Option, none, some, List, [], ◌∷◌, Text, text_eq,
  leb, keep, drop, take,
}
use constella.Prelude.Sorting.{sort_by}
use constella.Lab.Data.{User, Binding, AuditEvent, Store}
use constella.Lab.Sql.{is_open}
use constella.Lab.Logins.{select_user}

-- `b.*` with the columns that the join adds.
pub record ListedBinding : Type 0 where
  pub binding : Binding
  pub user_email : Text
  pub user_display_name : Option Text

abbrev pub joined_row : Option User → Binding → List ListedBinding → List ListedBinding
joined_row none b rows = rows
joined_row (some u) b rows =
    record { binding = b; user_email = u.email; user_display_name = u.display_name } ∷ rows

-- `JOIN lab_users u ON u.id = b.user_id`
unfoldable pub joined : Store → List Binding → List ListedBinding
joined s [] = []
joined s (b ∷ bindings) = joined_row (select_user b.user_id s) b (joined s bindings)

abbrev pub is_later : ListedBinding → ListedBinding → Bool
is_later a b = leb b.binding.valid_from a.binding.valid_from

-- `ORDER BY b.valid_from DESC`
abbrev pub latest_first : List ListedBinding → List ListedBinding
latest_first rows = sort_by is_later rows

abbrev pub is_of : Option Text → Binding → Bool
is_of none b = true
is_of (some user_id) b = text_eq b.user_id user_id

-- The clauses of `WHERE`.
abbrev pub is_wanted : Option Text → Bool → Binding → Bool
is_wanted user_id active_only b = is_of user_id b && (not active_only || is_open b)

unfoldable pub list_bindings : Option Text → Bool → Store → List ListedBinding
list_bindings user_id active_only s =
    latest_first (joined s (keep (is_wanted user_id active_only) s.bindings))

abbrev pub with_bindings : Option User → Store → Option (User × List ListedBinding)
with_bindings none s = none
with_bindings (some u) s = some (u, list_bindings (some u.id) false s)

unfoldable pub user_with_bindings : Text → Store → Option (User × List ListedBinding)
user_with_bindings user_id s = with_bindings (select_user user_id s) s

-- An event with the address of its actor.
pub record ListedEvent : Type 0 where
  pub event : AuditEvent
  pub actor_email : Option Text

abbrev pub email_of : Option User → Option Text
email_of none = none
email_of (some u) = some u.email

abbrev pub actor_of : Option Text → Store → Option User
actor_of none s = none
actor_of (some k) s = select_user k s

unfoldable pub listed_events : Store → List AuditEvent → List ListedEvent
listed_events s [] = []
listed_events s (e ∷ events) =
    record { event = e; actor_email = email_of (actor_of e.actor_user_id s) }
    ∷ listed_events s events

-- `list_audit_events`, of an offset that is not negative; the newest event comes first.
unfoldable pub list_audit_events : ℕ → ℕ → Store → List ListedEvent
list_audit_events limit offset s =
    take (max 1 (min limit 500)) (drop offset (listed_events s s.audit))
