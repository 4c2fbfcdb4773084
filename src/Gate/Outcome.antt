-- ===== src/Gate/Outcome.antt =====
-- What the commands of the gate task do to the vehicle, and how it answers what it sees.
use guillemot_core.Prelude.{
  ◌≡◌, refl, sym, ap, ◌∙◌, Bool, true, false, ◌&&◌, if◌then◌else◌, List, [], ◌∷◌, ◌++◌, Bool-cases,
  inl, inr,
}
use mathlib.Core.List.{append_assoc}
use guillemot_core.Prelude.Int.{pos, ◌==ℤ◌}
use guillemot_core.Prelude.Float.{Floats}
use guillemot_core.Prelude.Node.{All, All-append, anything, if-P, if-P_both, run, run-All}
use guillemot_core.Motor.HighLevel.{Doubles, Control}
use guillemot_core.Motor.HighLevel.Command.{forward, command_callback}
use guillemot_core.Gate.{
  ImgRecObject, GateTask, Report, path_task_success, Output, high_level, task_completion, Event,
  module_enabled, gate_seen, module_enable_callback, report_success, move_aside, move_ahead,
  approach_gate, is_inside, gate_callback, handle,
}

module _ {F : Type 0} (d : Doubles F) where
  -- The control after the commands, in their order. The topic delivers each of them.
  unfoldable pub deliver : List (Output F) → Control F → Control F
  deliver [] c = c
  deliver (high_level direction motion v ∷ os) c =
      deliver os (command_callback d direction motion v c)
  deliver (task_completion r ∷ os) c = deliver os c

  abbrev pub IsIdle : Output F → Type 0
  IsIdle (high_level direction motion v) =
      (c : Control F) → command_callback d direction motion v c ≡ c
  IsIdle (task_completion r) = r ≡ path_task_success

  deliver-IsIdle : (os : List (Output F)) → All IsIdle os → (c : Control F) → deliver os c ≡ c
  unfolding deliver
  deliver-IsIdle [] h c = refl
  deliver-IsIdle (high_level direction motion v ∷ os) (h, hs) c =
      ap (deliver os) (h c) ∙ deliver-IsIdle os hs c
  deliver-IsIdle (task_completion r ∷ os) (h, hs) c = deliver-IsIdle os hs c

  abbrev pub IsSuccess : Output F → Type 0
  IsSuccess (high_level direction motion v) = Unit {0}
  IsSuccess (task_completion r) = r ≡ path_task_success

  IsIdle-IsSuccess : (os : List (Output F)) → All IsIdle os → All IsSuccess os
  IsIdle-IsSuccess [] h = tt
  IsIdle-IsSuccess (high_level direction motion v ∷ os) (h, hs) = (tt, IsIdle-IsSuccess os hs)
  IsIdle-IsSuccess (task_completion r ∷ os) (h, hs) = (h, IsIdle-IsSuccess os hs)

-- How the task answers a gate: it goes ahead, by some distance, or it reports.
pub data Answer : Type 0 where
  goes_ahead : Answer
  reports : Report → Answer

-- A command to another side is no answer.
abbrev answer_of : {F : Type 0} → Output F → List Answer
answer_of (high_level forward motion v) = goes_ahead ∷ []
answer_of (high_level _ motion v) = []
answer_of (task_completion r) = reports r ∷ []

-- The answers among what is published.
abbrev pub answers : {F : Type 0} → List (Output F) → List Answer
answers [] = []
answers (o ∷ os) = answer_of o ++ answers os

answers-append :
    {F : Type 0} (os ps : List (Output F)) → answers (os ++ ps) ≡ answers os ++ answers ps
answers-append [] ps = refl
answers-append (o ∷ os) ps =
    ap (λ later. answer_of o ++ later) (answers-append os ps)
    ∙ sym (append_assoc (answer_of o) (answers os) (answers ps))

answers_behind :
    {F : Type 0} (os ps : List (Output F)) (bs : List Answer)
    → answers os ≡ []
    → answers ps ≡ bs
    → answers (os ++ ps) ≡ bs
answers_behind os ps bs h k = answers-append os ps ∙ ap (λ before. before ++ answers ps) h ∙ k

-- Whether the task is on after a message.
abbrev on_after : Bool → Event → Bool
on_after on (module_enabled ours state) = if ours then state else on
on_after on (gate_seen msg) = on

module _ {F : Type 0} (f : Floats F) (tan : F → F) (pi : F) where
  module _ (d : Doubles F) where
    move_aside-IsIdle :
        (is_far inside : Bool) (x : F) → All (IsIdle d) (move_aside f tan pi is_far inside x)
    unfolding move_aside command_callback
    move_aside-IsIdle true true x = ((λ c. refl), tt)
    move_aside-IsIdle true false x = tt
    move_aside-IsIdle false inside x = tt

    move_ahead-IsIdle :
        (inside : Bool) (dist : F) → All (IsIdle d) (move_ahead f tan pi inside dist)
    unfolding move_ahead report_success command_callback
    move_ahead-IsIdle true dist = ((λ c. refl), tt)
    move_ahead-IsIdle false dist = (refl, tt)

    approach_gate-IsIdle : (width center : F) → All (IsIdle d) (approach_gate f tan pi width center)
    unfolding approach_gate
    approach_gate-IsIdle width center =
        All-append (IsIdle d) _ _ (move_aside-IsIdle _ _ _) (move_ahead-IsIdle _ _)

    handle-IsIdle : (e : Event) (t : GateTask) → All (IsIdle d) (handle f tan pi e t).1
    unfolding handle gate_callback
    handle-IsIdle (module_enabled ours state) t = tt
    handle-IsIdle (gate_seen msg) t =
        if-P (λ (p : GateTask × List (Output F)). All (IsIdle d) p.1)
          (t.is_enabled && msg.id ==ℤ pos 0) _ _ (approach_gate-IsIdle _ _) (λ _. tt)

    -- Whatever the gate task hears, from any state: all the commands that it publishes leave
    -- HighLevelControl as it was, and each report is that of the success of the path task.
    pub steers_nothing :
        (es : List Event) (t : GateTask) (c : Control F)
        → (deliver d (run (handle f tan pi) es t).1 c ≡ c)
          × All (IsSuccess d) (run (handle f tan pi) es t).1
    steers_nothing es t c =
        let (_, idle) =
          run-All (handle f tan pi) (λ _. Unit {0}) (λ _. Unit {0}) (IsIdle d)
            (λ e t _ _. (tt, handle-IsIdle e t)) es t (anything es) tt in
        (deliver-IsIdle d _ idle c, IsIdle-IsSuccess d _ idle)

  -- A gate that is in the picture from its left to its right, 230 to each side, as the floats have it.
  abbrev pub in_picture : ImgRecObject → Bool
  in_picture msg =
      let center = f.to_float (f.of_int msg.center_x) in
      let half_width = f.to_float (f.div (f.to_float (f.of_int msg.width)) (f.lit (pos 2) 0)) in
      f.lt (f.neg (f.lit (pos 230) 0)) (f.to_float (f.sub center half_width))
      && f.lt (f.to_float (f.add center half_width)) (f.lit (pos 230) 0)

  -- What is to be answered by a task that is on or not.
  abbrev answer_to : Bool → Event → List Answer
  answer_to on (module_enabled ours state) = []
  answer_to on (gate_seen msg) =
      if on && msg.id ==ℤ pos 0
      then (if in_picture msg then goes_ahead else reports path_task_success) ∷ []
      else []

  abbrev pub expected : Bool → List Event → List Answer
  expected on [] = []
  expected on (e ∷ es) = answer_to on e ++ expected (on_after on e) es

  answers-move_aside :
      (is_far inside : Bool) (x : F) → answers (move_aside f tan pi is_far inside x) ≡ []
  unfolding move_aside
  answers-move_aside true true x = refl
  answers-move_aside true false x = refl
  answers-move_aside false inside x = refl

  answers-move_ahead :
      (inside : Bool) (dist : F)
      → answers (move_ahead f tan pi inside dist)
        ≡ (if inside then goes_ahead else reports path_task_success) ∷ []
  unfolding move_ahead report_success
  answers-move_ahead true dist = refl
  answers-move_ahead false dist = refl

  approach_parts :
      (is_far inside : Bool) (x dist : F)
      → answers (move_aside f tan pi is_far inside x ++ move_ahead f tan pi inside dist)
        ≡ (if inside then goes_ahead else reports path_task_success) ∷ []
  approach_parts is_far inside x dist =
      answers_behind (move_aside f tan pi is_far inside x) (move_ahead f tan pi inside dist) _
        (answers-move_aside is_far inside x) (answers-move_ahead inside dist)

  answers-approach_gate :
      (msg : ImgRecObject)
      → answers (
          approach_gate f tan pi
            (f.to_float (f.of_int msg.width))
            (f.to_float (f.of_int msg.center_x)))
        ≡ (if in_picture msg then goes_ahead else reports path_task_success) ∷ []
  unfolding approach_gate is_inside
  answers-approach_gate msg = approach_parts _ (in_picture msg) _ _

  handle_on :
      (e : Event) (t : GateTask) → (handle f tan pi e t).0.is_enabled ≡ on_after t.is_enabled e
  unfolding handle gate_callback module_enable_callback
  handle_on (module_enabled true true) t = refl
  handle_on (module_enabled true false) t = refl
  handle_on (module_enabled false state) t = refl
  handle_on (gate_seen msg) t =
      if-P_both (λ (p : GateTask × List (Output F)). p.0.is_enabled ≡ t.is_enabled)
        (t.is_enabled && msg.id ==ℤ pos 0) _ _ (λ _. refl) (λ _. refl)

  answers-handle :
      (e : Event) (t : GateTask) → answers (handle f tan pi e t).1 ≡ answer_to t.is_enabled e
  unfolding handle gate_callback
  answers-handle (module_enabled ours state) t = refl
  answers-handle (gate_seen msg) t = elim (Bool-cases (t.is_enabled && msg.id ==ℤ pos 0)) [
    | inl h ↦ rw h (answers-approach_gate msg)
    | inr h ↦ rw h refl
  ]

  -- Whatever the gate task hears, from any state: its answers are, in order, one for each gate with id
  -- 0 that is seen while the task is on, which is by its last message that turns it on or off. It goes
  -- ahead for a gate that is in the picture from its left to its right, and reports the success of the
  -- path task for any other, after which it is on as before.
  pub answers_each :
      (es : List Event) (t : GateTask)
      → answers (run (handle f tan pi) es t).1 ≡ expected t.is_enabled es
  unfolding run
  answers_each [] t = refl
  answers_each (e ∷ es) t =
      let u = (handle f tan pi e t).0 in
      answers-append (handle f tan pi e t).1 (run (handle f tan pi) es u).1
      ∙ ap (λ first. first ++ answers (run (handle f tan pi) es u).1) (answers-handle e t)
      ∙ ap (λ later. answer_to t.is_enabled e ++ later)
          (answers_each es u ∙ ap (λ on. expected on es) (handle_on e t))
