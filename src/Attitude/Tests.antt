-- ===== src/Attitude/Tests.antt =====
-- Samples of two answers, and the witnesses of the theorems on the attitude resolver.
use guillemot_core.Prelude.{◌≡◌, refl, arith, none, some, List, [], ◌∷◌, length}
use guillemot_core.Prelude.Int.{pos, negsuc, ◌+ℤ◌, ◌*ℤ◌}
use guillemot_core.Prelude.Millionths.{millionths, quot}
use guillemot_core.Attitude.{Port, zero_axes, mean_of, mean_samples}
use guillemot_core.Attitude.Answer.{Answer, IsAnswer, nothing_more, comes, late}
use guillemot_core.Attitude.Rest.{all_reads, all_rounds, all_sent, total, mean_samples-IsAnswer}
use guillemot_core.Attitude.Sums.{IsBytePort}

-- One answer at once, and one after a silence and a stray byte, with a pause inside.
abbrev at_once : Answer
at_once = record {
  noise = [];
  bytes = some 1 ∷ some 1 ∷ some 255 ∷ some 255 ∷ some 0 ∷ some 128 ∷ [];
  value = record { x = pos 257; y = negsuc 0; z = negsuc 32_767 };
}

abbrev with_pauses : Answer
with_pauses = record {
  noise = none ∷ some 245 ∷ [];
  bytes = none ∷ some 3 ∷ some 0 ∷ some 1 ∷ none ∷ some 0 ∷ some 255 ∷ some 127 ∷ [];
  value = record { x = pos 3; y = pos 1; z = pos 32_767 };
}

at_once-IsAnswer : IsAnswer at_once
at_once-IsAnswer = record {
  noise_kept_out = tt;
  delivered = comes 1 (comes 1 (comes 255 (comes 255 (comes 0 (comes 128 nothing_more)))));
  x_short = omega arith;
  y_short = omega arith;
  z_short = omega arith;
}

with_pauses-IsAnswer : IsAnswer with_pauses
with_pauses-IsAnswer = record {
  noise_kept_out = (tt, (refl, tt));
  delivered =
      late (comes 3 (comes 0 (comes 1 (late (comes 0 (comes 255 (comes 127 nothing_more)))))));
  x_short = omega arith;
  y_short = omega arith;
  z_short = omega arith;
}

abbrev answers : List Answer
answers = at_once ∷ with_pauses ∷ []

-- The bias of two samples: (130, 0, -0.5).
answers_mean :
    mean_of millionths 2 (total answers zero_axes)
    ≡ record { x = pos 130_000_000; y = pos 0; z = negsuc 499_999 }
unfolding mean_of ◌+ℤ◌ ◌*ℤ◌ quot
answers_mean = refl

mean_samples-IsAnswer_example :
    mean_samples millionths b'G'
      (length answers)
      (all_rounds answers 7)
      (record { incoming = all_reads answers (some 9 ∷ []); written = [] })
    ≡ (
      mean_of millionths (length answers) (total answers zero_axes),
      7,
      record { incoming = some 9 ∷ []; written = all_sent b'G' answers [] },
    )
mean_samples-IsAnswer_example =
    mean_samples-IsAnswer b'G' 7 (some 9 ∷ []) millionths answers []
      (at_once-IsAnswer, (with_pauses-IsAnswer, tt))

abbrev port : Port
port = record { incoming = all_reads answers []; written = [] }

port-IsBytePort : IsBytePort port
port-IsBytePort = (
  omega arith,
  (
    omega arith,
    (
      omega arith,
      (
        omega arith,
        (
          omega arith,
          (
            omega arith,
            (
              omega arith,
              (
                omega arith,
                (
                  omega arith,
                  (
                    tt,
                    (
                      omega arith,
                      (
                        omega arith,
                        (
                          omega arith,
                          (
                            omega arith,
                            (
                              tt,
                              (
                                omega arith,
                                (
                                  omega arith,
                                  (
                                    omega arith,
                                    (tt, (omega arith, (omega arith, (omega arith, tt)))),
                                  ),
                                ),
                              ),
                            ),
                          ),
                        ),
                      ),
                    ),
                  ),
                ),
              ),
            ),
          ),
        ),
      ),
    ),
  ),
)
