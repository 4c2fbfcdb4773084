-- ===== src/Navigation/Tests.antt =====
-- The theorems on NavigationControl at concrete inputs. A voltage is rounded to a whole number.
use guillemot_core.Prelude.{ℕ, ◌+◌, ◌*◌, ◌/◌, ◌-◌, ◌≡◌, [], ◌∷◌, ◌&&◌, if◌then◌else◌}
use guillemot_core.Prelude.Int.{ℤ, pos, negsuc, ltb_ℤ}
use guillemot_core.Motor.HighLevel.{manual, make_speed}
use guillemot_core.Motor.NodeTests.{hundredths, control}
use guillemot_core.Navigation.{
  init, is_centre, set_strafe, set_dive, set_drive, point_callback, move_to_line,
}
use guillemot_core.Navigation.Point.{strafe_of, follow, point_callback_lem}
use guillemot_core.Navigation.Line.{drive_of, move_to_line_lem}

abbrev voltage : ℤ → ℕ
voltage (pos n) = n * 195 / 95 + 50
voltage (negsuc n) = 48 - n * 195 / 95

point_callback_lem_example :
    (let ms = (point_callback voltage (pos 500) (negsuc 99) init).1 in
      (ms ≡ set_strafe voltage (strafe_of (pos 500)) ∷ set_dive voltage (pos 0) ∷ [])
      × (follow hundredths voltage ms control ≡ record control {
        depth_mode = manual;
        depth_speed = make_speed hundredths (voltage (pos 0));
      }))
point_callback_lem_example =
    point_callback_lem hundredths voltage (pos 500) (negsuc 99) init control

move_to_line_lem_example :
    ((move_to_line voltage (negsuc 899) (pos 12) init).0
      ≡ (ltb_ℤ (negsuc 899) (pos 240) && ltb_ℤ (pos 12) (pos 320)))
    × ((move_to_line voltage (negsuc 899) (pos 12) init).2 ≡ (
        if is_centre (negsuc 899) (pos 12)
        then set_strafe voltage (pos 0) ∷ set_drive voltage (pos 0) ∷ []
        else if ltb_ℤ (negsuc 899) (pos 240) && ltb_ℤ (pos 12) (pos 320)
        then []
        else set_strafe voltage (strafe_of (negsuc 899))
          ∷ set_drive voltage (drive_of (pos 12))
          ∷ []))
move_to_line_lem_example = move_to_line_lem voltage (negsuc 899) (pos 12) init
