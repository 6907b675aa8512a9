-- ===== src/Examples/Unneeded.antt =====
-- Runtime images that a group of slots asks for, and one that nothing asks for.
use simpool.Common.{◌≡◌, refl, true, false, Bool, List, [], ◌∷◌, any, map}
use simpool.Text.{Text, codes, text_eq, has_prefix}
use simpool.Meta.{lease_alive}
use simpool.Group.{Slots}
use simpool.Ghosts.{version_matches, behind_at, group_os_version}
use simpool.Images.{
  RuntimeImage, SimulatorSdk, group_wants, decide_runtime, decide_runtimes, add_slots, facts_of,
  running_ids, gather_runtime_facts,
}
use simpool.Images.Unused.{Unneeded, decide_runtime-Unneeded}
use simpool.Examples.Scene.{noon, minute, device_0, slots}

abbrev image : Text → RuntimeImage
image version = record {
  runtime_identifier = codes "R";
  version = version;
  platform_identifier = codes "ios";
}

abbrev sdks : List SimulatorSdk
sdks = record { platform = codes "ios"; version = codes "27.0" } ∷ []

abbrev groups : List (Text × Slots)
groups = (codes "iPhone@26.3", slots) ∷ []

unfoldable run_images : List RuntimeImage → List (RuntimeImage × Bool)
unfolding text_eq has_prefix any lease_alive version_matches behind_at group_os_version group_wants
    decide_runtime add_slots running_ids gather_runtime_facts
run_images images = decide_runtimes (facts_of noon minute images sdks (device_0 ∷ []) groups)

-- A slot of the group is leased, an SDK ships with Xcode, and the third image has neither.
images_needed :
    map
      (λ r. r.1)
      (run_images (image (codes "26.3.1") ∷ image (codes "27.0") ∷ image (codes "18.2") ∷ []))
    ≡ true ∷ true ∷ false ∷ []
unfolding run_images
images_needed = refl

decide_runtime-Unneeded_example :
    Unneeded noon minute (image (codes "18.2")) (running_ids (device_0 ∷ [])) sdks groups
unfolding run_images
decide_runtime-Unneeded_example =
    decide_runtime-Unneeded noon minute (image (codes "18.2")) [] sdks (device_0 ∷ []) groups refl
