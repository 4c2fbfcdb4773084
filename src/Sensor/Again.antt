-- ===== src/Sensor/Again.antt =====
-- What main of SubSensorController.cpp publishes of a line that it has just published.
use guillemot_core.Prelude.{
  ℕ, ◌≡◌, refl, List, [], Bool, true, false, not, ◌||◌, if◌then◌else◌, arith,
}
use guillemot_core.Prelude.Int.{ℤ, ◌==ℤ◌}
use guillemot_core.Sensor.Publish.{
  Values, Timers, State, Msg, publish_temp, publish_motor, publish_current, publish_pressure,
  publish_water, publish_dropper, publish_values,
}
use guillemot_core.Sensor.Quiet.{
  Fresh, Agrees, AgreesTemp, AgreesMotor, AgreesCurrent, AgreesPressure, AgreesWater, AgreesDropper,
  quiet,
}

or_false : (a b : Bool) → (a || b) ≡ false → (a ≡ false) × (b ≡ false)
or_false true b e = absurd (cc)
or_false false b e = (refl, e)

not-false : (a : Bool) → not a ≡ false → a ≡ true
not-false true e = refl
not-false false e = absurd (cc)

same_int : (x : ℤ) → (x ==ℤ x) ≡ true
same_int x = ground arith

-- What holds in both branches of a test holds after it.
after-test :
    (P : Values → Type 0) (b : Bool) (x : State × List Msg) (s : State)
    → P x.0.values
    → (b ≡ false → P s.values)
    → P (if b then x else (s, [])).0.values
after-test P true x s yes' no' = yes'
after-test P false x s yes' no' = no' refl

module _ (differ : ℕ → ℕ → Bool) where
  abbrev UptoMotor : (t v : Values) → Type 0
  UptoMotor t v = AgreesTemp differ t v × AgreesMotor differ t v

  abbrev UptoCurrent : (t v : Values) → Type 0
  UptoCurrent t v = AgreesTemp differ t v × AgreesMotor differ t v × AgreesCurrent differ t v

  abbrev UptoPressure : (t v : Values) → Type 0
  UptoPressure t v =
      AgreesTemp differ t v
      × AgreesMotor differ t v
      × AgreesCurrent differ t v
      × AgreesPressure differ t v

  abbrev UptoWater : (t v : Values) → Type 0
  UptoWater t v =
      AgreesTemp differ t v
      × AgreesMotor differ t v
      × AgreesCurrent differ t v
      × AgreesPressure differ t v
      × AgreesWater differ t v

  abbrev UptoDropper : (t v : Values) → Type 0
  UptoDropper t v =
      AgreesTemp differ t v
      × AgreesMotor differ t v
      × AgreesCurrent differ t v
      × AgreesPressure differ t v
      × AgreesWater differ t v
      × AgreesDropper differ t v

  module _ (same : (x : ℕ) → differ x x ≡ false) where
    agrees_temp :
        (t : Values) (check sent : Timers) (s : State)
        → (AgreesTemp differ t (publish_temp differ t check sent s).0.values)
    unfolding publish_temp
    agrees_temp t check sent s =
        after-test (AgreesTemp differ t) _ _ s ((same t.temp0, same t.temp1, same t.temp2)) (λ e.
          ((let (abc, _) = or_false _ _ e in
            let (ab, c) = or_false _ _ abc in let (a, b) = or_false _ _ ab in (a, b, c))))

    agrees_motor :
        (t : Values) (check sent : Timers) (s : State)
        → AgreesTemp differ t s.values
        → UptoMotor t (publish_motor differ t check sent s).0.values
    unfolding publish_motor
    agrees_motor t check sent s p0 =
        after-test (UptoMotor t) _ _ s (p0, same_int t.motor_killed)
          (λ e. (p0, not-false _ (or_false _ _ e).0))

    agrees_current :
        (t : Values) (check sent : Timers) (s : State)
        → UptoMotor t s.values
        → UptoCurrent t (publish_current differ t check sent s).0.values
    unfolding publish_current
    agrees_current t check sent s (p0, p1) =
        after-test (UptoCurrent t) _ _ s (p0, p1, (same t.current, same t.voltage))
          (λ e. (p0, p1, (let (a, bc) = or_false _ _ e in (a, (or_false _ _ bc).0))))

    agrees_pressure :
        (t : Values) (check sent : Timers) (s : State)
        → UptoCurrent t s.values
        → UptoPressure t (publish_pressure differ t check sent s).0.values
    unfolding publish_pressure
    agrees_pressure t check sent s (p0, p1, p2) =
        after-test (UptoPressure t) _ _ s (p0, p1, p2, same t.pressure)
          (λ e. (p0, p1, p2, (or_false _ _ e).0))

    agrees_water :
        (t : Values) (check sent : Timers) (s : State)
        → UptoPressure t s.values
        → UptoWater t (publish_water differ t check sent s).0.values
    unfolding publish_water
    agrees_water t check sent s (p0, p1, p2, p3) =
        after-test (UptoWater t) _ _ s (p0, p1, p2, p3, same_int t.water_detected)
          (λ e. (p0, p1, p2, p3, not-false _ (or_false _ _ e).0))

    agrees_dropper :
        (t : Values) (check sent : Timers) (s : State)
        → UptoWater t s.values
        → UptoDropper t (publish_dropper differ t check sent s).0.values
    unfolding publish_dropper
    agrees_dropper t check sent s (p0, p1, p2, p3, p4) =
        after-test (UptoDropper t) _ _ s
          (p0, p1, p2, p3, p4, (same_int t.dropper_left, same_int t.dropper_right))
          (λ e. (
            p0,
            p1,
            p2,
            p3,
            p4,
            (let (ab, _) = or_false _ _ e in
                let (a, b) = or_false _ _ ab in (not-false _ a, not-false _ b)),
          ))

    all_agree :
        (t : Values) (check sent : Timers) (s : State)
        → Agrees differ t (publish_values differ t check sent s).0.values
    unfolding publish_values
    all_agree t check sent s =
        let s1 = (publish_temp differ t check sent s).0 in
        let s2 = (publish_motor differ t check sent s1).0 in
        let s3 = (publish_current differ t check sent s2).0 in
        let s4 = (publish_pressure differ t check sent s3).0 in
        let s5 = (publish_water differ t check sent s4).0 in
        let a1 = agrees_temp t check sent s in
        let a2 = agrees_motor t check sent s1 a1 in
        let a3 = agrees_current t check sent s2 a2 in
        let a4 = agrees_pressure t check sent s3 a3 in
        let a5 = agrees_water t check sent s4 a4 in
        let (temp, motor, current, pressure, water, dropper) = agrees_dropper t check sent s5 a5 in
        record {
          temp = temp;
          motor = motor;
          current = current;
          pressure = pressure;
          water = water;
          dropper = dropper;
        }

    -- After the values of a line have been published, the same line publishes nothing and changes
    -- nothing while no timer is over, if no number differs from itself.
    pub publish_again :
        (t : Values) (check sent later later_sent : Timers) (s : State)
        → Fresh (publish_values differ t check sent s).0.timers later
        → let next = (publish_values differ t check sent s).0 in
          publish_values differ t later later_sent next ≡ (next, [])
    publish_again t check sent later later_sent s fresh =
        quiet differ t later later_sent (publish_values differ t check sent s).0
          (all_agree t check sent s) fresh
