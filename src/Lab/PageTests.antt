-- ===== src/Lab/PageTests.antt =====
-- The listings at concrete inputs.
use constella.Prelude.{
  map, Option, Text, false, ℕ, ◌≡◌, refl, Bool, true, ◌&&◌, none, some, [], ◌∷◌, text, text_eq, All,
  tally, arith,
}
use constella.Lab.Data.{
  member, active, User, in_force, self_claimed, Binding, AuditEvent, readonly_selected, Store,
}
use constella.Lab.Listings.{list_bindings}
use constella.Lab.Pages.{
  event_of, IsSigned, IsJoined, AreLatestFirst, pages, pages-listed, HasUser, shows,
  tally-list_bindings,
}
use constella.Lab.Logins.{is_unset}

abbrev ann : User
ann = record {
  id = text "a";
  access_issuer = text "idp";
  access_subject = text "a";
  email = text "a@x";
  email_normalized = text "a@x";
  display_name = none;
  role = member;
  status = active;
  created_at = 1;
  updated_at = 1;
  last_login_at = 1;
  onboarding_completed_at = none;
}

abbrev event : ℕ → AuditEvent
event at = record {
  occurred_at = at;
  actor_user_id = some (text "a");
  target_id = some (text "a");
  request_id = text "r";
  details = readonly_selected;
}

abbrev binding : ℕ → Binding
binding uid = record {
  id = text "1";
  user_id = text "a";
  node_id = text "n";
  unix_uid = uid;
  unix_gid = none;
  unix_username = text "u";
  assurance = self_claimed;
  status = in_force;
  valid_from = uid;
  valid_to = none;
  created_by = text "a";
  ended_by = none;
  reason = none;
}

abbrev lab : Store
lab = record {
  users = ann ∷ [];
  bindings = binding 7 ∷ binding 9 ∷ [];
  audit = event 3 ∷ event 2 ∷ event 1 ∷ [];
}

pages-listed_example :
    (map event_of (pages 2 2 0 lab) ≡ lab.audit) × All (IsSigned lab) (pages 2 2 0 lab)
pages-listed_example = pages-listed 2 2 lab (omega arith) (omega arith) (omega arith)

abbrev on_node : Binding → Bool
on_node b = text_eq b.node_id (text "n")

lab-HasUser : All (HasUser lab) lab.bindings
unfolding text_eq
lab-HasUser = ((ann, refl), ((ann, refl), tt))

tally-list_bindings_example :
    (tally (shows on_node) (list_bindings none false lab) ≡ tally on_node lab.bindings)
    × (tally (shows on_node) (list_bindings (some (text "a")) false lab)
        ≡ tally (λ b. text_eq b.user_id (text "a") && on_node b) lab.bindings)
    × (tally (shows on_node) (list_bindings none true lab)
        ≡ tally (λ b. is_unset b.valid_to && on_node b) lab.bindings)
    × (tally (shows on_node) (list_bindings (some (text "a")) true lab)
        ≡ tally
            (λ b. text_eq b.user_id (text "a") && (is_unset b.valid_to && on_node b))
            lab.bindings)
    × ((user_id : Option Text) (active_only : Bool)
        → AreLatestFirst (list_bindings user_id active_only lab)
          × All (IsJoined lab) (list_bindings user_id active_only lab))
tally-list_bindings_example = tally-list_bindings on_node (text "a") lab lab-HasUser
