-- ===== src/Wire/Filter.antt =====
-- Which processes of a device are kept (process_filter.py), and the devices of a sample as
-- `node_snapshot_from_agent_sample` (cluster.py) has them. `none` is a TypeError: a list and a dict are
-- not hashable, and of all values `PurePosixPath` takes a text alone.
use constella.Prelude.{
  Bool, true, false, not, ◌&&◌, Option, none, some, List, [], ◌∷◌, ◌++◌, Text, text, text_eq,
  truthy, any, keep, ◌==◌, if◌then◌else◌,
}
use constella.Telemetry.Rules.{Value}
use constella.Wire.Json.{Json, null, bool, num, inf, nan, str, list, object, is_truthy}
use constella.Wire.Data.{GpuProcess, GpuInfo}
use constella.Wire.Devices.{decoded_gpus}

-- EXCLUDED_USERS
abbrev pub excluded_users : List Text
excluded_users = text "gdm" ∷ text "Debian-gdm" ∷ []

-- EXCLUDED_PROCESS_NAMES
abbrev pub excluded_process_names : List Text
excluded_process_names =
    text "X"
    ∷ text "Xorg"
    ∷ text "Xwayland"
    ∷ text "gnome-shell"
    ∷ text "kwin_x11"
    ∷ text "kwin_wayland"
    ∷ text "plasmashell"
    ∷ text "mutter"
    ∷ text "cinnamon"
    ∷ text "muffin"
    ∷ text "xfwm4"
    ∷ text "picom"
    ∷ text "compton"
    ∷ []

-- `PurePosixPath(t).name`: the last part between slashes that is neither empty nor a dot; `last` and
-- `current` are the last such part so far and the part that is being read.
abbrev pub last_part : Text → Text → Text
last_part last current =
    if truthy current && not (text_eq current (text ".")) then current else last

unfoldable pub name_from : Text → Text → Text → Text
name_from last current [] = last_part last current
name_from last current (c ∷ t) =
    name_from (if c == 47 then last_part last current else last)
      (if c == 47 then [] else current ++ c ∷ []) t

abbrev pub path_name : Text → Text
path_name t = name_from [] [] t

abbrev pub has_excluded_name : Text → Bool
has_excluded_name t = any (text_eq (path_name t)) excluded_process_names

-- `j in EXCLUDED_USERS`
abbrev pub user_in : Json → Option Bool
user_in null = some false
user_in (bool b) = some false
user_in (num n) = some false
user_in (inf negative) = some false
user_in nan = some false
user_in (str t) = some (any (text_eq t) excluded_users)
user_in (list js) = none
user_in (object d) = none

abbrev pub name_in : Json → Option Bool
name_in null = none
name_in (bool b) = none
name_in (num n) = none
name_in (inf negative) = none
name_in nan = none
name_in (str t) = some (has_excluded_name t)
name_in (list js) = none
name_in (object d) = none

-- `PurePosixPath(j).name in EXCLUDED_PROCESS_NAMES`, of a value that is not left out by `if value`.
abbrev pub path_in : Json → Option Bool
path_in j = if is_truthy j then name_in j else some false

-- `or`, which does not read its second operand when the first holds.
abbrev pub or_test : Option Bool → Option Bool → Option Bool
or_test none b = none
or_test (some true) b = some true
or_test (some false) b = b

unfoldable pub is_excluded_process : GpuProcess → Option Bool
is_excluded_process p = or_test (user_in p.user) (or_test (path_in (str p.name)) (path_in p.exe))

abbrev pub add_kept : GpuProcess → Option Bool → Option (List GpuProcess) → Option (List GpuProcess)
add_kept p none rest = none
add_kept p (some b) none = none
add_kept p (some true) (some ps) = some ps
add_kept p (some false) (some ps) = some (p ∷ ps)

unfoldable pub kept_processes : List GpuProcess → Option (List GpuProcess)
kept_processes [] = some []
kept_processes (p ∷ ps) = add_kept p (is_excluded_process p) (kept_processes ps)

abbrev pub with_processes : GpuInfo → Option (List GpuProcess) → Option GpuInfo
with_processes g none = none
with_processes g (some ps) = some (record g {
  processes = ps;
  other_users = keep (λ o. not (any (text_eq o.user) excluded_users)) g.other_users;
})

unfoldable pub filter_gpu_processes : GpuInfo → Option GpuInfo
filter_gpu_processes g = with_processes g (kept_processes g.processes)

abbrev pub add_device : Option GpuInfo → Option (List GpuInfo) → Option (List GpuInfo)
add_device none rest = none
add_device (some g) none = none
add_device (some g) (some gs) = some (g ∷ gs)

unfoldable pub filter_all : List GpuInfo → Option (List GpuInfo)
filter_all [] = some []
filter_all (g ∷ gs) = add_device (filter_gpu_processes g) (filter_all gs)

module _ (print : Json → Text) (parse : Text → Option Value) where
  -- The devices of a sample; `none` rejects the sample.
  unfoldable pub gpus_from : Text → List Json → List GpuInfo → Option (List GpuInfo)
  gpus_from node_id js previous = filter_all (decoded_gpus print parse node_id js 0 previous)
