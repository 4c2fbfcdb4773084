-- ===== src/Attitude/Rest.antt =====
-- The readings at rest, of which the biases are the means; and an answer that is lost.
use guillemot_core.Prelude.{ℕ, suc, ◌≡◌, refl, ap, ◌∙◌, Option, some, List, [], ◌∷◌, ◌++◌, length}
use guillemot_core.Prelude.Float.{Floats}
use guillemot_core.Prelude.Node.{All}
use guillemot_core.Attitude.{
  Port, read, first_sync, second_sync, third_sync, expect, attempt, sync_serial, Axes, sample,
  zero_axes, add_axes, sum_samples, mean_of, mean_samples,
}
use guillemot_core.Attitude.Answer.{Answer, IsAnswer, reads_of, rounds_of, sent, sample-Answer}

abbrev pub all_reads : List Answer → List (Option ℕ) → List (Option ℕ)
all_reads [] rest = rest
all_reads (a ∷ answers) rest = reads_of a (all_reads answers rest)

abbrev pub all_rounds : List Answer → ℕ → ℕ
all_rounds [] oks = oks
all_rounds (a ∷ answers) oks = rounds_of a (all_rounds answers oks)

abbrev pub all_sent : ℕ → List Answer → List ℕ → List ℕ
all_sent command [] w = w
all_sent command (a ∷ answers) w = all_sent command answers (sent command a.noise w)

-- The sum of the readings and `sums`.
abbrev pub total : List Answer → Axes → Axes
total [] sums = sums
total (a ∷ answers) sums = total answers (add_axes sums a.value)

sum_samples_next :
    (command left oks : ℕ) (raw sums : Axes) (p : Port) (raw' : Axes) (oks' : ℕ) (p' : Port)
    → sample command oks raw p ≡ (raw', oks', p')
    → sum_samples command (suc left) oks raw sums p
      ≡ sum_samples command left oks' raw' (add_axes sums raw') p'
unfolding sum_samples
sum_samples_next command left oks raw sums p raw' oks' p' h =
    ap (λ (r : Axes × ℕ × Port). sum_samples command left r.1 r.0 (add_axes sums r.0) r.2) h

sum_samples_none :
    (command oks : ℕ) (raw sums : Axes) (p : Port)
    → sum_samples command 0 oks raw sums p ≡ (sums, oks, p)
unfolding sum_samples
sum_samples_none command oks raw sums p = refl

module _ (command oks : ℕ) (rest : List (Option ℕ)) where
  sum_samples-IsAnswer :
      (answers : List Answer) (raw sums : Axes) (w : List ℕ)
      → All IsAnswer answers
      → sum_samples command
          (length answers)
          (all_rounds answers oks)
          raw
          sums
          (record { incoming = all_reads answers rest; written = w })
        ≡ (
          total answers sums,
          oks,
          record { incoming = rest; written = all_sent command answers w },
        )
  sum_samples-IsAnswer [] raw sums w h = sum_samples_none command oks raw sums _
  sum_samples-IsAnswer (a ∷ answers) raw sums w (h, hs) =
      sum_samples_next command (length answers) _ raw sums _ _ _ _
        (sample-Answer command a raw (all_rounds answers oks) (all_reads answers rest) w h)
      ∙ sum_samples-IsAnswer answers a.value (add_axes sums a.value) (sent command a.noise w) hs

  -- Where the device answers each sample, with anything but a first header byte before its header
  -- and its bytes as late as it likes, and ros::ok() holds for as many rounds as there are reads to
  -- make: the means are those of the sums of the readings sent, all that was answered is read, and
  -- a command is written for each read before a header and for each header.
  pub mean_samples-IsAnswer :
      {F : Type 0} (f : Floats F) (answers : List Answer) (w : List ℕ)
      → All IsAnswer answers
      → mean_samples f command
          (length answers)
          (all_rounds answers oks)
          (record { incoming = all_reads answers rest; written = w })
        ≡ (
          mean_of f (length answers) (total answers zero_axes),
          oks,
          record { incoming = rest; written = all_sent command answers w },
        )
  unfolding mean_samples
  mean_samples-IsAnswer f answers w h =
      ap (λ (r : Axes × ℕ × Port). (mean_of f (length answers) r.0, r.1, r.2))
        (sum_samples-IsAnswer answers zero_axes zero_axes w h)

  -- An answer that comes straight after a stray first header byte is lost: the sample goes on, after
  -- three commands, as if only the bytes behind its header had come.
  pub sample_misses :
      (old : Axes) (w : List ℕ)
      → sample command (suc (suc (suc oks))) old (record {
        incoming = some first_sync ∷ some first_sync ∷ some second_sync ∷ some third_sync ∷ rest;
        written = w;
      })
        ≡ sample command oks old (record {
          incoming = rest;
          written = ((w ++ command ∷ []) ++ command ∷ []) ++ command ∷ [];
        })
  unfolding sample sync_serial attempt expect read
  sample_misses old w = refl
