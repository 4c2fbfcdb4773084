-- ===== src/Obstacle/Tests.antt =====
-- The obstacle course task on numbers in millionths, and the witness of its theorem.
use guillemot_core.Prelude.{ℕ, ◌≡◌, arith, true, false, List, [], ◌∷◌}
use guillemot_core.Prelude.Int.{ℤ, pos, ◌*ℤ◌, ltb_ℤ, leb_ℤ}
use guillemot_core.Prelude.Millionths.{quot, millionths}
use guillemot_core.Prelude.Node.{run}
use guillemot_core.Obstacle.{
  ImgRecObject, ObstacleCourseTask, Event, module_enabled, obstacle_seen, seen_below, loop_round,
  handle,
}
use guillemot_core.Obstacle.Moves.{WholeLaws, commands, run-commands}

-- Tangents of small angles.
abbrev tangent : ℤ → ℤ
tangent a = a

abbrev pi : ℤ
pi = pos 3_141_593

abbrev no_bar : ImgRecObject ℤ
no_bar = record { center_x = pos 0; center_y = pos 0; rotation = pos 0; height = pos 0 }

abbrev bar : ImgRecObject ℤ
bar = record { center_x = pos 320; center_y = pos 235; rotation = pos 90_000_000; height = pos 20 }

abbrev task : ObstacleCourseTask ℤ
task = record { is_enabled = false; distance_to_object = pos 0; hbar = no_bar }

-- A round before the task is enabled, a bar that is not looked at, and one with the bar in sight.
abbrev events : List (Event ℤ)
events =
    loop_round
    ∷ obstacle_seen bar
    ∷ module_enabled true true
    ∷ obstacle_seen bar
    ∷ loop_round
    ∷ seen_below
    ∷ []

lt_whole :
    (z : ℤ) (n : ℕ) → ltb_ℤ (z *ℤ pos 1_000_000) (quot (pos n *ℤ pos 1_000_000) 1) ≡ ltb_ℤ z (pos n)
unfolding quot ◌*ℤ◌
lt_whole z n = ground arith

whole_lt :
    (z : ℤ) (n : ℕ) → ltb_ℤ (quot (pos n *ℤ pos 1_000_000) 1) (z *ℤ pos 1_000_000) ≡ ltb_ℤ (pos n) z
unfolding quot ◌*ℤ◌
whole_lt z n = ground arith

le_whole :
    (z : ℤ) (n : ℕ) → leb_ℤ (z *ℤ pos 1_000_000) (quot (pos n *ℤ pos 1_000_000) 1) ≡ leb_ℤ z (pos n)
unfolding quot ◌*ℤ◌
le_whole z n = ground arith

whole_le :
    (z : ℤ) (n : ℕ) → leb_ℤ (quot (pos n *ℤ pos 1_000_000) 1) (z *ℤ pos 1_000_000) ≡ leb_ℤ (pos n) z
unfolding quot ◌*ℤ◌
whole_le z n = ground arith

whole_laws : WholeLaws millionths
whole_laws = record {
  lt_whole = λ z n short small. lt_whole z n;
  whole_lt = λ z n short small. whole_lt z n;
  le_whole = λ z n short small. le_whole z n;
  whole_le = λ z n short small. whole_le z n;
}

run-commands_example :
    (run (handle millionths tangent pi) events task).1
    ≡ commands millionths tangent pi false no_bar events
run-commands_example =
    run-commands millionths tangent pi whole_laws events task
      (tt, ((omega arith, omega arith), (tt, ((omega arith, omega arith), (tt, (tt, tt))))))
      (omega arith, omega arith)
