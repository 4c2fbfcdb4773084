-- ===== src/Buoys/Centering.antt =====
-- centerOnBuoy of BuoysTask.cpp and the loops that repeat it, and a run inside a run.
use guillemot_core.Prelude.{
  ℕ, zero, suc, ◌≡◌, refl, sym, subst, ◌∙◌, inl, inr, Option, none, some, List, [], ◌∷◌, Bool, true,
  false, Bool-cases, if◌then◌else◌, length, leb, arith,
}
use guillemot_core.Prelude.Int.{ℤ, pos, negsuc, ◌≤ℤ◌}
use guillemot_core.Prelude.Action.{
  pure, gets, modify, ◌>>=◌, Ensures, Ensures-pure, Ensures-gets, Ensures-modify, Ensures-if,
  Ensures-mono, Ensures-Keeps, ◌▸◌,
}
use guillemot_core.Buoys.{
  BuoyColor, green, yellow, red, Output, center_on_point, World, M, samples, clear_past_samples,
  is_buoy_visible,
}
use guillemot_core.Buoys.Task.{
  is_centered, send_point, center_loop, center_on_buoy, center_attempts,
}
use guillemot_core.Buoys.Returns.{IsBounded}
use guillemot_core.Buoys.Quiet.{IsQuiet, publish-IsQuiet, spin_once-IsQuiet}

-- The last two messages: a point within 75 pixels of the centre, and the centre itself.
pub record IsCentered (log : List Output) : Type 0 where
  pub x : ℤ
  pub y : ℤ
  pub earlier : List Output
  pub published : log ≡ center_on_point (pos 0) (pos 0) ∷ center_on_point x y ∷ earlier
  pub left : negsuc 74 ≤ℤ x
  pub right : x ≤ℤ pos 75
  pub above : negsuc 74 ≤ℤ y
  pub below : y ≤ℤ pos 75

abbrev Centered : Bool → List Output → Type 0
Centered true log = IsCentered log
Centered false log = Unit {0}

Centered-point :
    (x y : ℤ) (log : List Output)
    → is_centered x y ≡ true
    → IsCentered (center_on_point (pos 0) (pos 0) ∷ center_on_point x y ∷ log)
unfolding is_centered
Centered-point x y log h = record {
  x = x;
  y = y;
  earlier = log;
  published = refl;
  left = ground arith;
  right = ground arith;
  above = ground arith;
  below = ground arith;
}

abbrev Anything : List Output → Type 0
Anything log = Unit {0}

abbrev Sent : (x y : ℤ) → List Output → Type 0
Sent x y log = (earlier : List Output) × (log ≡ center_on_point x y ∷ earlier)

send_point-Centered :
    (p : Option (ℤ × ℤ)) → Ensures (IsQuiet Anything) (send_point p) (λ r w. IsQuiet (Centered r) w)
unfolding send_point
send_point-Centered none = Ensures-pure false (λ w v. v)
send_point-Centered (some (x, y)) = publish-IsQuiet {L' = Sent x y} _ (λ log _. (log, refl)) ▸ λ _.
    Ensures-if (is_centered x y) _ _
      (λ e.
        publish-IsQuiet {L' = IsCentered} _
          (λ log s. let (earlier, same) = s in rw same (Centered-point x y earlier e))
        ▸ λ _. Ensures-pure true (λ w v. v))
      (λ _. Ensures-pure false (λ w v. record { bounded = v.bounded; sent = tt }))

module _ (perform : M Bool) where
  center_loop-Centered :
      (retries : ℕ) (color : BuoyColor)
      → Ensures
          (IsQuiet Anything)
          (center_loop perform retries color)
          (λ r w. IsQuiet (Centered r) w)
  unfolding center_loop
  center_loop-Centered zero color = Ensures-pure false (λ w v. v)
  center_loop-Centered (suc retries) color =
      Ensures-gets {Q = λ _ w. IsQuiet Anything w} _ (λ w v. v) ▸ λ p.
      send_point-Centered p ▸ λ centered. Ensures-Keeps _ (spin_once-IsQuiet perform) ▸ λ _.
      Ensures-if centered _ _
        (λ e. Ensures-pure true (λ w v. subst (λ b. IsQuiet (Centered b) w) e v))
        (λ e.
          Ensures-mono _ (center_loop-Centered retries color)
            (λ w v. record { bounded = v.bounded; sent = tt }) (λ _ w v. v))

  abbrev NoSamples : World → Type 0
  NoSamples w =
      (w.task.green_samples ≡ []) × (w.task.yellow_samples ≡ []) × (w.task.red_samples ≡ [])

  center_on_buoy-Centered :
      (color : BuoyColor)
      → Ensures
          (IsQuiet Anything)
          (center_on_buoy perform color)
          (λ r w. NoSamples w × (r ≡ true → IsCentered w.log))
  unfolding center_on_buoy clear_past_samples
  center_on_buoy-Centered color = center_loop-Centered 25 color ▸ λ centered.
      Ensures-modify {Q = λ _ w. NoSamples w × Centered centered w.log} _
        (λ w v. ((refl, refl, refl), v.sent))
      ▸ λ _. Ensures-pure centered (λ w v. (v.0, λ e. subst (λ b. Centered b w.log) e v.1))

  -- Where nothing enables the task again, centerOnBuoy returns, with no samples left of any colour.
  -- If it says that the buoy is centred, the last two messages that were published are a point
  -- within 75 pixels of the centre, both ways, and the centre.
  pub center_on_buoy_lem :
      (color : BuoyColor) (w : World)
      → IsBounded 0 w
      → (r : Bool) × (w' : World) × (center_on_buoy perform color w ≡ some (r, w'))
        × ((w'.task.green_samples ≡ [])
            × (w'.task.yellow_samples ≡ [])
            × (w'.task.red_samples ≡ []))
        × (r ≡ true → IsCentered w'.log)
  center_on_buoy_lem color w v =
      let (r, w', e, h) =
        (center_on_buoy-Centered color).at w (record { bounded = v; sent = tt }) in
      (r, w', e, h.0, h.1)

  -- With no samples a further attempt only says that the buoy is not centred.
  attempts_blind :
      (retries : ℕ) (color : BuoyColor) (w : World)
      → samples color w.task ≡ []
      → center_attempts perform retries color w ≡ some (false, w)
  unfolding center_attempts is_buoy_visible ◌>>=◌ gets pure
  attempts_blind zero color w e = refl
  attempts_blind (suc retries) color w e = rw e

  abbrev cleared : World → World
  cleared w = record w {
    task = record (w.task) { green_samples = []; yellow_samples = []; red_samples = [] };
  }

  cleared-empty : (color : BuoyColor) (w : World) → samples color (cleared w).task ≡ []
  cleared-empty green w = refl
  cleared-empty yellow w = refl
  cleared-empty red w = refl

  -- What follows the loop of centerOnBuoy, whatever attempts are left.
  after_loop :
      (retries : ℕ) (color : BuoyColor) (w : World) (o : Option (Bool × World))
      → center_loop perform 25 color w ≡ o
      → (center_on_buoy perform color >>= λ centered.
            if centered then pure true else center_attempts perform retries color)
          w
        ≡ (elim o [ none ↦ none | some (r, w') ↦ some (r, cleared w') ])
  unfolding center_on_buoy clear_past_samples ◌>>=◌ pure modify
  after_loop retries color w none e = rw e
  after_loop retries color w (some (true, w')) e = rw e
  after_loop retries color w (some (false, w')) e =
      rw e (attempts_blind retries color (cleared w') (cleared-empty color w'))

  -- The loops that try to centre on a buoy up to 20 times try once, whatever number is left: the
  -- first attempt throws the samples away, and no message is read before the next test.
  pub centering_once :
      (retries : ℕ) (color : BuoyColor) (w : World)
      → center_attempts perform (suc retries) color w ≡ center_attempts perform 1 color w
  unfolding center_attempts is_buoy_visible gets ◌>>=◌
  centering_once retries color w = elim (Bool-cases (leb 3 (length (samples color w.task)))) [
    | inl seen ↦ rw seen (after_loop retries color w _ refl ∙ sym (after_loop 0 color w _ refl))
    | inr unseen ↦ rw unseen
  ]
