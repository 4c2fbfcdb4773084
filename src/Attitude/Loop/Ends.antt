-- ===== src/Attitude/Loop/Ends.antt =====
-- The loop of the attitude resolver ends when ros::ok() does, and publishes in every fifth round.
use guillemot_core.Prelude.{
  ℕ, zero, suc, ◌+◌, ◌%◌, ◌/◌, ◌==◌, ◌≤◌, ◌≡◌, refl, subst, ap, arith, Bool, Option, none, some,
  List, ◌++◌, length, length-append,
}
use guillemot_core.Prelude.Float.{Floats}
use guillemot_core.Prelude.Node.{if-P, if-P_both, elim-P_both, option-P}
use guillemot_core.Attitude.{Port, read, attempt, sync_serial, read_bytes, Axes, sample}
use guillemot_core.Attitude.Kalman.Filter.{Maths}
use guillemot_core.Attitude.Loop.{
  Resolver, AttitudeMsg, correct_by_accel, read_gyro, publish_attitude, finish_round, use_accel,
  resolver_round, resolver_loop,
}

sync_serial_oks : (command oks : ℕ) (p : Port) → (sync_serial command oks p).1 ≤ oks
unfolding sync_serial
sync_serial_oks command zero p = omega arith
sync_serial_oks command (suc oks) p =
    elim-P_both (λ (r : Bool × ℕ × Port). r.1 ≤ suc oks) (attempt command p).0 _ _
      (λ _. omega arith) (λ _. omega (arith, sync_serial_oks command oks (attempt command p).1))

read_bytes_oks : (oks left : ℕ) (p : Port) → (read_bytes oks left p).1 ≤ oks
unfolding read_bytes
read_bytes_oks oks zero p = omega arith
read_bytes_oks zero (suc left) p = omega arith
read_bytes_oks (suc oks) (suc left) p =
    option-P (λ (r : List ℕ × ℕ × Port). r.1 ≤ suc oks) (read p).0 _ _
      (omega (arith, read_bytes_oks oks (suc left) (read p).1))
      (λ b. omega (arith, read_bytes_oks oks left (read p).1))

sample_oks : (command oks : ℕ) (old : Axes) (p : Port) → (sample command oks old p).1 ≤ oks
unfolding sample
sample_oks command oks old p =
    let s = sync_serial command oks p in
    let h = sync_serial_oks command oks p in
    if-P (λ (r : Axes × ℕ × Port). r.1 ≤ oks) s.0 _ _ (omega (arith, h, read_bytes_oks s.1 6 s.2))
      (λ _. h)

-- How many numbers below `n` are multiples of 5.
abbrev pub fifths : ℕ → ℕ
fifths n = (n + 4) / 5

module _ {F : Type 0} (f : Floats F) (m : Maths F) (conversion pi : F) where
  round_oks :
      (oks : ℕ) (s : Resolver F) (p : Port) → (resolver_round f m conversion pi oks s p).1 ≤ oks
  unfolding resolver_round read_gyro correct_by_accel
  round_oks oks s p =
      let g = sample b'G' oks s.raw_gyro p in
      let h = sample_oks b'G' oks s.raw_gyro p in
      if-P (λ (r : Resolver F × ℕ × Port). r.1 ≤ oks) (s.count % 20 == 0) _ _
        (omega (arith, h, sample_oks b'A' g.1 s.accel_readings g.2)) (λ _. h)

  -- A state counts `n` rounds more, and `k` messages were published in them.
  abbrev Counts : ℕ → ℕ → Resolver F → ℕ → Type 0
  Counts count n s k = (s.count ≡ count + n) × (k + fifths count ≡ fifths (count + n))

  finish_count :
      (s : Resolver F)
      → Counts s.count 1
          (finish_round f m conversion pi s).0
          (length (finish_round f m conversion pi s).1)
  unfolding finish_round publish_attitude
  finish_count s = (
    refl,
    if-P_both (λ (msgs : List (AttitudeMsg F)). length msgs + fifths s.count ≡ fifths (s.count + 1))
        (s.count % 5 == 0) _ _ (λ e. ground arith) (λ e. ground arith),
  )

  accel_count :
      (oks : ℕ) (s : Resolver F) (p : Port)
      → (correct_by_accel f m conversion pi oks s p).0.count ≡ s.count
  unfolding correct_by_accel use_accel
  accel_count oks s p =
      if-P (λ (r : Resolver F × ℕ × Port). r.0.count ≡ s.count) (s.count % 20 == 0) _ _ refl
        (λ _. refl)

  round_count :
      (oks : ℕ) (s : Resolver F) (p : Port)
      → Counts s.count 1
          (resolver_round f m conversion pi oks s p).0
          (length (resolver_round f m conversion pi oks s p).3)
  unfolding resolver_round read_gyro
  round_count oks s p =
      let g = read_gyro f m conversion pi oks s p in
      let s2 = (correct_by_accel f m conversion pi g.1 g.0 g.2).0 in
      let (s3, msgs) = finish_round f m conversion pi s2 in
      subst (λ c. Counts c 1 s3 (length msgs)) (accel_count g.1 g.0 g.2) (finish_count s2)

  -- The loop has ended, after some number of rounds.
  abbrev pub Ended : Resolver F → Option (Resolver F × Port × List (AttitudeMsg F)) → Type 0
  Ended s none = ⊥
  Ended s (some r) = (s.count ≤ r.0.count) × (length r.2 + fifths s.count ≡ fifths r.0.count)

  next-Ended :
      (s s1 : Resolver F) (msgs : List (AttitudeMsg F))
      (o : Option (Resolver F × Port × List (AttitudeMsg F)))
      → Counts s.count 1 s1 (length msgs)
      → Ended s1 o
      → Ended s (elim o [ none ↦ none | some r ↦ some (r.0, r.1, msgs ++ r.2) ])
  next-Ended s s1 msgs none h e = e
  next-Ended s s1 msgs (some r) (h, k) (le, e) =
      (omega arith, omega (arith, length-append msgs r.2, ap fifths h))

  -- With as many rounds as ros::ok() still holds, the loop ends, and it has published one message for
  -- each fifth round that it went.
  pub resolver_loop_ends :
      (rounds oks : ℕ) (s : Resolver F) (p : Port)
      → oks ≤ rounds
      → Ended s (resolver_loop f m conversion pi rounds oks s p)
  unfolding resolver_loop
  resolver_loop_ends rounds zero s p h = (omega arith, omega arith)
  resolver_loop_ends zero (suc oks) s p h = absurd (omega arith)
  resolver_loop_ends (suc rounds) (suc oks) s p h =
      let r = resolver_round f m conversion pi oks s p in
      next-Ended s r.0 r.3 _ (round_count oks s p)
        (resolver_loop_ends rounds r.1 r.0 r.2 (omega (arith, round_oks oks s p)))
