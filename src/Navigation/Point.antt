-- ===== src/Navigation/Point.antt =====
-- PointCallback of NavigationControl.cpp, and what commandCallback of HighLevelControl.cpp makes of
-- what it publishes.
use guillemot_core.Prelude.{
  ◌+◌, ◌*◌, ◌/◌, ◌≡◌, inl, inr, refl, ap, Bool-cases, ◌∙◌, List, [], ◌∷◌, true, if◌then◌else◌, leb,
  arith,
}
use guillemot_core.Prelude.Int.{ℤ, pos, negsuc, ◌+ℤ◌, ◌*ℤ◌}
use guillemot_core.Motor.HighLevel.{manual, Doubles, Control, make_speed}
use guillemot_core.Motor.HighLevel.Command.{command_callback}
use guillemot_core.Navigation.{
  Command, NavigationControl, div_int, sign, slow_down, thrust, thrust_x, thrust_y, is_centre,
  set_strafe, set_dive, point_callback,
}

-- The sideways thrust: none for a target less than 240 to the right, and so none at all to the left.
abbrev pub strafe_of : ℤ → ℤ
strafe_of (pos x) = if leb 240 x then pos (40 * (x / 240) + 50) else pos 0
strafe_of (negsuc x) = pos 0

pub thrust_x_lem : (x : ℤ) → thrust_x x ≡ strafe_of x
unfolding thrust_x div_int slow_down thrust sign ◌+ℤ◌ ◌*ℤ◌
thrust_x_lem (pos x) = ground arith
thrust_x_lem (negsuc x) = ground arith

strafe_of-centre : (x y : ℤ) → is_centre x y ≡ true → strafe_of x ≡ pos 0
strafe_of-centre (pos x) y h = ground arith
strafe_of-centre (negsuc x) y h = refl

-- No target makes the vehicle dive.
no_dive : (y : ℤ) → thrust_y y (negsuc 0 *ℤ sign y) ≡ pos 0
unfolding thrust_y div_int slow_down thrust sign ◌+ℤ◌ ◌*ℤ◌
no_dive (pos y) = ground arith
no_dive (negsuc y) = ground arith

module _ {Value : Type 0} (d : Doubles Value) (voltage : ℤ → Value) where
  -- The control after some commands.
  unfoldable pub follow : List (Command Value) → Control Value → Control Value
  follow [] c = c
  follow (m ∷ ms) c = follow ms (command_callback d m.direction m.motion m.value c)

  published :
      (x y : ℤ) (t : NavigationControl)
      → (point_callback voltage x y t).1
        ≡ set_strafe voltage (strafe_of x) ∷ set_dive voltage (pos 0) ∷ []
  unfolding point_callback
  published x y t = elim (Bool-cases (is_centre x y)) [
    | inl centre ↦ rw (centre, strafe_of-centre x y centre)
    | inr away ↦ rw (away, thrust_x_lem x, no_dive y)
  ]

  followed :
      (n : ℤ) (c : Control Value)
      → follow (set_strafe voltage n ∷ set_dive voltage (pos 0) ∷ []) c
        ≡ record c { depth_mode = manual; depth_speed = make_speed d (voltage (pos 0)) }
  unfolding follow command_callback
  followed n c = refl

  -- Whatever the point, PointCallback publishes a thrust to the side, which is not 0 only for a point
  -- at least 240 to the right, and one of 0 downwards. What commandCallback makes of the two is
  -- that the depth motors run by hand at the voltage of 0: it does not know the direction to the side.
  pub point_callback_lem :
      (x y : ℤ) (t : NavigationControl) (c : Control Value)
      → (let ms = (point_callback voltage x y t).1 in
          (ms ≡ set_strafe voltage (strafe_of x) ∷ set_dive voltage (pos 0) ∷ [])
          × (follow ms c
              ≡ record c { depth_mode = manual; depth_speed = make_speed d (voltage (pos 0)) }))
  point_callback_lem x y t c =
      let same = published x y t in (same, ap (λ ms. follow ms c) same ∙ followed (strafe_of x) c)
