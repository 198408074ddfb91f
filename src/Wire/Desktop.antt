-- ===== src/Wire/Desktop.antt =====
-- Which processes are of the desktop, and at which ones the filter raises (process_filter.py).
use constella.Prelude.{
  ◌≡◌, refl, Bool, true, false, not, ◌&&◌, ◌||◌, Option, none, some, List, [], ◌∷◌, map, Text,
  text_eq, any, keep, ap, ◌∙◌, sym, if◌then◌else◌,
}
use constella.Wire.Json.{Json, null, bool, num, inf, nan, str, list, object, is_truthy}
use constella.Wire.Data.{GpuProcess, GpuInfo}
use constella.Wire.Filter.{
  excluded_users, has_excluded_name, name_from, user_in, path_in, or_test, is_excluded_process,
  kept_processes, add_kept, filter_gpu_processes, with_processes, filter_all, add_device,
}

-- The text that a value is, and none where it is no text.
abbrev pub text_of : Json → Text
text_of null = []
text_of (bool b) = []
text_of (num n) = []
text_of (inf negative) = []
text_of nan = []
text_of (str t) = t
text_of (list js) = []
text_of (object d) = []

abbrev pub is_desktop_user : Text → Bool
is_desktop_user t = any (text_eq t) excluded_users

-- A process of the desktop: its user, or the last part of its name or of its executable says so.
abbrev pub is_desktop : GpuProcess → Bool
is_desktop p =
    is_desktop_user (text_of p.user)
    || (has_excluded_name p.name || has_excluded_name (text_of p.exe))

-- The device without the processes of the desktop, and without their owners.
abbrev pub tracked : GpuInfo → GpuInfo
tracked g = record g {
  processes = keep (λ p. not (is_desktop p)) g.processes;
  other_users = keep (λ o. not (is_desktop_user o.user)) g.other_users;
}

abbrev pub is_unhashable : Json → Bool
is_unhashable null = false
is_unhashable (bool b) = false
is_unhashable (num n) = false
is_unhashable (inf negative) = false
is_unhashable nan = false
is_unhashable (str t) = false
is_unhashable (list js) = true
is_unhashable (object d) = true

abbrev pub is_text : Json → Bool
is_text null = false
is_text (bool b) = false
is_text (num n) = false
is_text (inf negative) = false
is_text nan = false
is_text (str t) = true
is_text (list js) = false
is_text (object d) = false

abbrev pub is_no_path : Json → Bool
is_no_path j = is_truthy j && not (is_text j)

-- The filter raises at this process: its user is a list or a dict, or neither its user nor its name is
-- of the desktop and its executable is a value other than a text that Python takes for true.
abbrev pub stumbles : GpuProcess → Bool
stumbles p =
    is_unhashable p.user
    || (not (is_desktop_user (text_of p.user))
        && (not (has_excluded_name p.name) && is_no_path p.exe))

abbrev pub unless {ℓ} : {A : Type ℓ} → Bool → A → Option A
unless b a = if b then none else some a

user_in-text_of : (j : Json) → user_in j ≡ unless (is_unhashable j) (is_desktop_user (text_of j))
unfolding text_eq
user_in-text_of null = refl
user_in-text_of (bool b) = refl
user_in-text_of (num n) = refl
user_in-text_of (inf negative) = refl
user_in-text_of nan = refl
user_in-text_of (str t) = refl
user_in-text_of (list js) = refl
user_in-text_of (object d) = refl

no_name : has_excluded_name [] ≡ false
unfolding text_eq name_from
no_name = refl

no_path : (b : Bool) → (if b then none else some false) ≡ unless (b && true) (has_excluded_name [])
no_path true = refl
no_path false = ap some (sym no_name)

path_in-text_of : (j : Json) → path_in j ≡ unless (is_no_path j) (has_excluded_name (text_of j))
path_in-text_of null = ap some (sym no_name)
path_in-text_of (bool b) = no_path b
path_in-text_of (num n) = no_path (is_truthy (num n))
path_in-text_of (inf negative) = refl
path_in-text_of nan = refl
path_in-text_of (str []) = ap some (sym no_name)
path_in-text_of (str (c ∷ t)) = refl
path_in-text_of (list js) = no_path (is_truthy (list js))
path_in-text_of (object d) = no_path (is_truthy (object d))

or_tests :
    (u a n x e : Bool)
    → or_test (unless u a) (or_test (some n) (unless x e))
      ≡ unless (u || (not a && (not n && x))) (a || (n || e))
or_tests true a n x e = refl
or_tests false true n x e = refl
or_tests false false true x e = refl
or_tests false false false true e = refl
or_tests false false false false e = refl

name_in-text : (t : Text) → path_in (str t) ≡ some (has_excluded_name t)
name_in-text [] = ap some (sym no_name)
name_in-text (c ∷ t) = refl

is_excluded_process-is_desktop :
    (p : GpuProcess) → is_excluded_process p ≡ unless (stumbles p) (is_desktop p)
unfolding is_excluded_process
is_excluded_process-is_desktop p =
    (λ i.
      or_test (user_in-text_of p.user i)
        (or_test (name_in-text p.name i) (path_in-text_of p.exe i)))
    ∙ or_tests (is_unhashable p.user) (is_desktop_user (text_of p.user)) (has_excluded_name p.name)
        (is_no_path p.exe) (has_excluded_name (text_of p.exe))

add_kept-unless :
    (p : GpuProcess) (a b desktop : Bool) (ps : List GpuProcess)
    → add_kept p (unless a desktop) (unless b ps)
      ≡ unless (a || b) (if not desktop then p ∷ ps else ps)
add_kept-unless p true b desktop ps = refl
add_kept-unless p false true desktop ps = refl
add_kept-unless p false false true ps = refl
add_kept-unless p false false false ps = refl

kept_processes-keep :
    (ps : List GpuProcess)
    → kept_processes ps ≡ unless (any stumbles ps) (keep (λ p. not (is_desktop p)) ps)
unfolding kept_processes
kept_processes-keep [] = refl
kept_processes-keep (p ∷ ps) =
    (λ i. add_kept p (is_excluded_process-is_desktop p i) (kept_processes-keep ps i))
    ∙ add_kept-unless p (stumbles p) (any stumbles ps) (is_desktop p)
        (keep (λ q. not (is_desktop q)) ps)

abbrev pub has_stumbling : GpuInfo → Bool
has_stumbling g = any stumbles g.processes

with_processes-unless :
    (g : GpuInfo) (b : Bool)
    → with_processes g (unless b (keep (λ p. not (is_desktop p)) g.processes))
      ≡ unless b (tracked g)
with_processes-unless g true = refl
with_processes-unless g false = refl

pub filter_gpu_processes-tracked :
    (g : GpuInfo) → filter_gpu_processes g ≡ unless (has_stumbling g) (tracked g)
unfolding filter_gpu_processes
filter_gpu_processes-tracked g =
    ap (with_processes g) (kept_processes-keep g.processes)
    ∙ with_processes-unless g (has_stumbling g)

add_device-unless :
    (a b : Bool) (g : GpuInfo) (gs : List GpuInfo)
    → add_device (unless a g) (unless b gs) ≡ unless (a || b) (g ∷ gs)
add_device-unless true b g gs = refl
add_device-unless false true g gs = refl
add_device-unless false false g gs = refl

pub filter_all-tracked :
    (gs : List GpuInfo) → filter_all gs ≡ unless (any has_stumbling gs) (map tracked gs)
unfolding filter_all
filter_all-tracked [] = refl
filter_all-tracked (g ∷ gs) =
    (λ i. add_device (filter_gpu_processes-tracked g i) (filter_all-tracked gs i))
    ∙ add_device-unless (has_stumbling g) (any has_stumbling gs) (tracked g) (map tracked gs)
