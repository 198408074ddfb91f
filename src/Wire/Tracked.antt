-- ===== src/Wire/Tracked.antt =====
-- What the manager keeps of the devices of a sample (process_filter.py; cluster.py,
-- `node_snapshot_from_agent_sample`).
use constella.Prelude.{
  ◌≡◌, refl, Bool, true, false, not, ◌&&◌, ◌||◌, Option, some, List, [], ◌∷◌, map, Text, any, All,
  ap, ◌∙◌,
}
use constella.Telemetry.Rules.{Value}
use constella.Wire.Json.{Json, null, bool, num, inf, nan, str, list, object}
use constella.Wire.Data.{GpuProcess, GpuInfo}
use constella.Wire.Filter.{has_excluded_name, filter_gpu_processes, filter_all, add_device}
use constella.Wire.Sound.{is_text_or_null, IsSoundProcess, IsSound}
use constella.Wire.Received.{received}
use constella.Wire.Desktop.{
  unless, text_of, is_desktop_user, tracked, is_unhashable, is_no_path, stumbles,
  filter_gpu_processes-tracked,
}

text-no_list : (j : Json) → is_text_or_null j ≡ true → is_unhashable j ≡ false
text-no_list null h = refl
text-no_list (bool b) h = refl
text-no_list (num n) h = refl
text-no_list (inf negative) h = refl
text-no_list nan h = refl
text-no_list (str t) h = refl
text-no_list (list js) h = cc
text-no_list (object d) h = cc

text-path : (j : Json) → is_text_or_null j ≡ true → is_no_path j ≡ false
text-path null h = refl
text-path (bool b) h = cc
text-path (num n) h = cc
text-path (inf negative) h = cc
text-path nan h = cc
text-path (str []) h = refl
text-path (str (c ∷ t)) h = refl
text-path (list js) h = cc
text-path (object d) h = cc

no_stumbles : (u a n x : Bool) → u ≡ false → x ≡ false → (u || (not a && (not n && x))) ≡ false
no_stumbles true a n x h k = cc
no_stumbles false true n x h k = refl
no_stumbles false false true x h k = refl
no_stumbles false false false x h k = k

sound-stumbles : (ps : List GpuProcess) → All IsSoundProcess ps → any stumbles ps ≡ false
sound-stumbles [] h = refl
sound-stumbles (p ∷ ps) h =
    let here : stumbles p ≡ false =
      no_stumbles (is_unhashable p.user) (is_desktop_user (text_of p.user))
        (has_excluded_name p.name) (is_no_path p.exe) (text-no_list p.user h.0.user)
        (text-path p.exe h.0.exe) in
    ap (λ b. b || any stumbles ps) here ∙ sound-stumbles ps h.1

module _ (print : Json → Text) (parse : Text → Option Value) (node_id : Text) where
  abbrev pub shown : GpuInfo → GpuInfo
  shown g = tracked (received print parse node_id g)

  filter_gpu_processes-shown :
      (g : GpuInfo)
      → IsSound g
      → filter_gpu_processes (received print parse node_id g) ≡ some (shown g)
  filter_gpu_processes-shown g h =
      filter_gpu_processes-tracked (received print parse node_id g)
      ∙ ap (λ b. unless b (shown g)) (sound-stumbles g.processes h.processes)

  pub filter_all-shown :
      (gs : List GpuInfo)
      → All IsSound gs
      → filter_all (map (received print parse node_id) gs) ≡ some (map shown gs)
  unfolding filter_all
  filter_all-shown [] h = refl
  filter_all-shown (g ∷ gs) h =
      λ i. add_device (filter_gpu_processes-shown g h.0 i) (filter_all-shown gs h.1 i)
