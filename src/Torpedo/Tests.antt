-- ===== src/Torpedo/Tests.antt =====
-- The theorems on the torpedo task at concrete inputs.
use guillemot_core.Prelude.{◌≡◌, [], ◌∷◌, true, false, ◌==◌, if◌then◌else◌}
use guillemot_core.Prelude.Int.{pos, negsuc}
use guillemot_core.Prelude.Run.{done, hang}
use guillemot_core.Torpedo.{ImgRecObject, drive, is_centered, perform_task}
use guillemot_core.Torpedo.Outcome.{fires, perform_task_lem}

abbrev near : ImgRecObject
near = record {
  stamp = 3;
  center_x = pos 20;
  center_y = negsuc 4;
  height = 80;
  width = 78;
  confidence = 0x3f80_0000;
}

perform_task_lem_example : perform_task 2 near ≡ (
    if near.height == 0
    then done (false, drive 75 ∷ [])
    else if is_centered near
    then done (true, fires near)
    else hang)
perform_task_lem_example = perform_task_lem 1 near
