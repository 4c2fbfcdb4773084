-- ===== src/Navigation/Line.antt =====
-- moveToLine and LineCallback of NavigationControl.cpp.
use guillemot_core.Prelude.{
  ◌+◌, ◌*◌, ◌/◌, ◌≡◌, inl, inr, refl, sym, ap, ◌∙◌, List, [], ◌∷◌, ◌++◌, Bool, true, false,
  Bool-cases, not, ◌&&◌, if◌then◌else◌, leb, arith,
}
use guillemot_core.Prelude.Int.{ℤ, pos, negsuc, ◌+ℤ◌, ◌*ℤ◌, ltb_ℤ}
use guillemot_core.Navigation.{
  Command, NavigationControl, div_int, sign, slow_down, thrust, thrust_y, is_centre, ended, begin,
  set_strafe, set_drive, point_callback, move_to_line, line_callback,
}
use guillemot_core.Navigation.Point.{strafe_of, thrust_x_lem}

-- The thrust forward: none for a target less than 320 ahead.
abbrev pub drive_of : ℤ → ℤ
drive_of (pos y) = if leb 320 y then pos (30 * (y / 320) + 50) else pos 0
drive_of (negsuc y) = pos 0

thrust_y_lem : (y : ℤ) → thrust_y y (sign y) ≡ drive_of y
unfolding thrust_y div_int slow_down thrust sign ◌+ℤ◌ ◌*ℤ◌
thrust_y_lem (pos y) = ground arith
thrust_y_lem (negsuc y) = ground arith

no_thrust :
    (x y : ℤ) → is_centre (strafe_of x) (drive_of y) ≡ (ltb_ℤ x (pos 240) && ltb_ℤ y (pos 320))
no_thrust (pos x) (pos y) = ground arith
no_thrust (pos x) (negsuc y) = ground arith
no_thrust (negsuc x) (pos y) = ground arith
no_thrust (negsuc x) (negsuc y) = ground arith

centre-near : (x y : ℤ) → is_centre x y ≡ true → (ltb_ℤ x (pos 240) && ltb_ℤ y (pos 320)) ≡ true
centre-near x y h = ground arith

-- A message on Center_On_Point or on Center_On_Line, the latter with its angle.
pub data Event : Type 0 where
  point : (x y : ℤ) → Event
  line : (x y target_rot : ℤ) → Event

unfoldable pub points_only : List Event → List Event
points_only [] = []
points_only (point x y ∷ es) = point x y ∷ points_only es
points_only (line x y target_rot ∷ es) = points_only es

if-same :
    {A B : Type 0} (f : A → B) (b : Bool) (x y : A) (z : B)
    → f x ≡ z
    → f y ≡ z
    → f (if b then x else y) ≡ z
if-same f true x y z hx hy = hx
if-same f false x y z hx hy = hy

if-true : {A : Type 0} (b : Bool) (x y : A) → b ≡ true → (if b then x else y) ≡ x
if-true true x y e = refl
if-true false x y e = cc

module _ {Value : Type 0} (voltage : ℤ → Value) where
  -- The vehicle counts as being on the line exactly when the target is less than 240 to the right and
  -- less than 320 ahead, however far to the left or behind. Where it does not, it is told to go right
  -- and ahead; nothing is published where it does, but for a target at the centre.
  pub move_to_line_lem :
      (x y : ℤ) (t : NavigationControl)
      → ((move_to_line voltage x y t).0 ≡ (ltb_ℤ x (pos 240) && ltb_ℤ y (pos 320)))
        × ((move_to_line voltage x y t).2 ≡ (
            if is_centre x y
            then set_strafe voltage (pos 0) ∷ set_drive voltage (pos 0) ∷ []
            else if ltb_ℤ x (pos 240) && ltb_ℤ y (pos 320)
            then []
            else set_strafe voltage (strafe_of x) ∷ set_drive voltage (drive_of y) ∷ []))
  unfolding move_to_line
  move_to_line_lem x y t = elim (Bool-cases (is_centre x y)) [
    | inl centre ↦ (rw centre (sym (centre-near x y centre)), rw centre)
    | inr away ↦ elim (Bool-cases (ltb_ℤ x (pos 240) && ltb_ℤ y (pos 320))) [
      | inl near ↦ (
        rw (away, thrust_x_lem x, thrust_y_lem y, no_thrust x y, near),
        rw (away, thrust_x_lem x, thrust_y_lem y, no_thrust x y, near),
      )
      | inr far ↦ (
        rw (away, thrust_x_lem x, thrust_y_lem y, no_thrust x y, far),
        rw (away, thrust_x_lem x, thrust_y_lem y, no_thrust x y, far),
      )
    ]
  ]

  unfoldable pub handle : Event → NavigationControl → NavigationControl × List (Command Value)
  handle (point x y) t = point_callback voltage x y t
  handle (line x y target_rot) t = line_callback voltage x y target_rot t

  -- The callbacks in the order of the messages.
  unfoldable pub run : List Event → NavigationControl → NavigationControl × List (Command Value)
  run [] t = (t, [])
  run (e ∷ es) t = let (t1, ms) = handle e t in let (t2, ms') = run es t1 in (t2, ms ++ ms')

  begin-line_mode :
      (x y : ℤ) (t : NavigationControl) → t.line_mode ≡ false → (begin x y t).line_mode ≡ false
  unfolding begin
  begin-line_mode x y t e = if-same (λ u. u.line_mode) (not t.begun) _ t false e e

  point-line_mode :
      (x y : ℤ) (t : NavigationControl)
      → t.line_mode ≡ false
      → (point_callback voltage x y t).0.line_mode ≡ false
  unfolding point_callback ended
  point-line_mode x y t e =
      if-same (λ (u : NavigationControl × List (Command Value)). u.0.line_mode) (is_centre x y) _ _
        false e (begin-line_mode x y t e)

  line-off :
      (x y target_rot : ℤ) (t : NavigationControl)
      → t.line_mode ≡ false
      → line_callback voltage x y target_rot t ≡ (t, [])
  unfolding line_callback
  line-off x y target_rot t e = if-true _ _ _ (ap not e)

  -- Line following is switched off when the program starts, and by no message switched on: the
  -- messages on Center_On_Line change nothing and publish nothing, among any others.
  pub lines_ignored :
      (es : List Event) (t : NavigationControl)
      → t.line_mode ≡ false
      → run es t ≡ run (points_only es) t
  unfolding run points_only handle
  lines_ignored [] t e = refl
  lines_ignored (point x y ∷ es) t e =
      let (t1, ms) = point_callback voltage x y t in
      λ i. let rest = lines_ignored es t1 (point-line_mode x y t e) i in (rest.0, ms ++ rest.1)
  lines_ignored (line x y target_rot ∷ es) t e =
      (λ i.
        let (t1, ms) = line-off x y target_rot t e i in
        let (t2, ms') = run es t1 in (t2, ms ++ ms'))
      ∙ lines_ignored es t e
