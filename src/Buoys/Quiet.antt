-- ===== src/Buoys/Quiet.antt =====
-- Where nothing enables the buoys task again, spinning publishes nothing.
use guillemot_core.Prelude.{
  ℕ, zero, suc, ◌-◌, ◌≤◌, ◌≡◌, refl, sym, subst, Option, none, some, List, [], ◌∷◌, Bool, true,
  false, arith,
}
use guillemot_core.Prelude.Int.{ℤ}
use guillemot_core.Motor.HighLevel.Command.{Direction, other_motion}
use guillemot_core.Prelude.Action.{
  Ensures, Ensures-pure, Ensures-modify, Ensures-bind, Ensures-Keeps, Keeps-Ensures, Keeps,
  Keeps-pure, Keeps-gets, Keeps-modify, ◌▹◌,
}
use guillemot_core.Buoys.{
  BuoyColor, buoys_task, other_module, Event, buoy, module_enable, ImgRecObject, Output, high_level,
  center_on_point, World, M, publish, set_enabled, buoy_callback, clear_past_samples,
  module_enable_callback, dispatch, deliver_next, deliver, pop, pop_from, arrive_from, spin_once,
}
use guillemot_core.Buoys.Task.{forget_others}
use guillemot_core.Buoys.Keeps.{IsKept}
use guillemot_core.Buoys.Returns.{
  IsBounded, IsBounded-le, starts, cost, buoy_callback-IsBounded, arrive_from-IsBounded,
  pop_from-IsBounded,
}

-- No message that enables the task is queued or arrives later, and `L` holds for what has been
-- published.
pub record IsQuiet (L : List Output → Type 0) (w : World) : Type 0 where
  pub bounded : IsBounded 0 w
  pub sent : L w.log

pop_from-log : (l : List Event) (w : World) → (pop_from l w).1.log ≡ w.log
unfolding pop_from
pop_from-log [] w = refl
pop_from-log (e ∷ es) w = refl

arrive_from-log : (l : List (List Event)) (w : World) → (arrive_from l w).log ≡ w.log
unfolding arrive_from
arrive_from-log [] w = refl
arrive_from-log (es ∷ later) w = refl

module _ {L : List Output → Type 0} where
  buoy-IsQuiet :
      (color : BuoyColor) (msg : ImgRecObject) (w : World)
      → IsQuiet L w
      → IsQuiet L (record w { task = buoy_callback color msg w.task })
  buoy-IsQuiet color msg w v = record {
    bounded = buoy_callback-IsBounded 0 color msg w v.bounded;
    sent = v.sent;
  }

  disable-IsQuiet : (w : World) → IsQuiet L w → IsQuiet L (set_enabled false w)
  disable-IsQuiet w v = record {
    bounded = record {
      few = v.bounded.few;
      green_short = v.bounded.green_short;
      yellow_short = v.bounded.yellow_short;
      red_short = v.bounded.red_short;
    };
    sent = v.sent;
  }

  pub clear-IsQuiet : Keeps (IsQuiet L) clear_past_samples
  unfolding clear_past_samples
  clear-IsQuiet = Keeps-modify _ (λ w v. record {
    bounded = record {
      few = v.bounded.few;
      green_short = omega arith;
      yellow_short = omega arith;
      red_short = omega arith;
    };
    sent = v.sent;
  })

  pub forget-IsQuiet : Keeps (IsQuiet L) forget_others
  unfolding forget_others
  forget-IsQuiet = Keeps-modify _ (λ w v. record {
    bounded = record {
      few = v.bounded.few;
      green_short = omega arith;
      yellow_short = omega arith;
      red_short = v.bounded.red_short;
    };
    sent = v.sent;
  })

  pop-IsQuiet : Ensures (IsQuiet L) pop (λ e w. (cost e ≤ 0) × IsQuiet L w)
  pop-IsQuiet = record {
    at = λ w v.
        let (e, w') = pop_from w.queue w in
        let (le, v') = pop_from-IsBounded 0 w.queue w refl v.bounded in
        (
          e,
          w',
          refl,
          (
            le,
            record {
              bounded = IsBounded-le (0 - cost e) 0 w' (omega arith) v';
              sent = subst L (sym (pop_from-log w.queue w)) v.sent;
            },
          ),
        );
  }

  dispatch-IsQuiet :
      (perform : M Bool) (e : Event)
      → Ensures (λ w. (starts e ≤ 0) × IsQuiet L w) (dispatch perform e) (λ _ w. IsQuiet L w)
  unfolding dispatch module_enable_callback
  dispatch-IsQuiet perform (buoy color msg) = Ensures-modify _ (λ w v. buoy-IsQuiet color msg w v.1)
  dispatch-IsQuiet perform (module_enable buoys_task false) =
      Ensures-modify _ (λ w v. disable-IsQuiet w v.1)
  dispatch-IsQuiet perform (module_enable other_module b) = Ensures-pure tt (λ w v. v.1)
  dispatch-IsQuiet perform (module_enable buoys_task true) = record {
    at = λ w v. absurd (omega (arith, v.0));
  }

  deliver_next-IsQuiet :
      (perform : M Bool) (e : Option Event)
      → Ensures (λ w. (cost e ≤ 0) × IsQuiet L w) (deliver_next perform e) (λ _ w. IsQuiet L w)
  deliver_next-IsQuiet perform none = Ensures-pure tt (λ w v. v.1)
  deliver_next-IsQuiet perform (some e) = dispatch-IsQuiet perform e

  deliver-IsQuiet : (perform : M Bool) (n : ℕ) → Keeps (IsQuiet L) (deliver perform n)
  unfolding deliver
  deliver-IsQuiet perform zero = Keeps-pure tt
  deliver-IsQuiet perform (suc n) = Keeps-Ensures _ (
      Ensures-bind _ _ pop-IsQuiet (λ e.
        Ensures-bind _ _ (deliver_next-IsQuiet perform e)
          (λ _. Ensures-Keeps _ (deliver-IsQuiet perform n))))

  pub spin_once-IsQuiet : (perform : M Bool) → Keeps (IsQuiet L) (spin_once perform)
  unfolding spin_once
  spin_once-IsQuiet perform =
      Keeps-modify _ (λ w v. record {
        bounded = arrive_from-IsBounded 0 w.arrivals w refl v.bounded;
        sent = subst L (sym (arrive_from-log w.arrivals w)) v.sent;
      })
      ▹ λ _. Keeps-gets _ ▹ λ n. deliver-IsQuiet perform n

  -- A message for which `L` holds on is published.
  pub publish-IsQuiet :
      {L' : List Output → Type 0} (o : Output)
      → ((log : List Output) → L log → L' (o ∷ log))
      → Ensures (IsQuiet L) (publish o) (λ _ w. IsQuiet L' w)
  unfolding publish
  publish-IsQuiet o h = Ensures-modify _ (λ w v. record {
    bounded = record {
      few = v.bounded.few;
      green_short = v.bounded.green_short;
      yellow_short = v.bounded.yellow_short;
      red_short = v.bounded.red_short;
    };
    sent = h w.log v.sent;
  })

  pub IsQuiet-IsKept :
      (perform : M Bool)
      → ((direction : Direction) (n : ℤ) (log : List Output)
          → L log
          → L (high_level direction other_motion n ∷ log))
      → ((x y : ℤ) (log : List Output) → L log → L (center_on_point x y ∷ log))
      → IsKept perform (IsQuiet L)
  IsQuiet-IsKept perform offsets centers = record {
    offsetting = λ direction n. Keeps-Ensures _ (publish-IsQuiet _ (offsets direction n));
    centering = λ x y. Keeps-Ensures _ (publish-IsQuiet _ (centers x y));
    spinning = spin_once-IsQuiet perform;
    clearing = clear-IsQuiet;
    forgetting = forget-IsQuiet;
  }
