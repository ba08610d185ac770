-- ===== src/Windows/PidRumble/Handlers.antt =====
-- Every report keeps the invariant.
use libvirtualhid.Base.{
  ℕ, ◌-◌, refl, Bool, true, false, List, [], ◌∷◌, Option, none, some, ◌==◌, if◌then◌else◌, get_or,
  All-replicate, if-cases,
}
use libvirtualhid.Windows.PidRumble.Effects.{idle_effect, start_effect, shift_effect}
use libvirtualhid.Windows.PidRumble.{
  Scaling, State, Update, ignored, generic_pid_max_effects, effect_at, with_effect, expire_effects,
  current_update,
}
use libvirtualhid.Windows.PidRumble.Reports.{
  on_effect, with_parameters, set_effect, set_magnitude, operate, free_block, handle_set_effect,
  handle_magnitude, handle_effect_operation, handle_block_free, reset, pause, shift_all,
  continue_effects, control, handle_device_control, handle_device_gain, dispatch,
  handle_output_report,
}
use libvirtualhid.Windows.PidRumble.Invariant.{
  IsConsistent, IsWell, idle_effect-IsConsistent, stop_effect-IsConsistent,
  start_effect-IsConsistent, reschedule-IsConsistent, shift_effect-IsConsistent, map_effects-IsWell,
  with_effect-IsWell, effect_at-IsConsistent, expire_effects-IsWell, stop_all_effects-IsWell,
  current_update-IsWell,
}

on_effect-IsWell :
    (s : State) (block : Option ℕ) (action : ℕ → State × Update)
    → IsWell s
    → ((i : ℕ) → IsWell (action i).0)
    → IsWell (on_effect s block action).0
unfolding on_effect
on_effect-IsWell s none action w keep = w
on_effect-IsWell s (some i) action w keep = keep i

abbrev Keeps : State × Update → Type 0
Keeps r = IsWell r.0

-- A report too short is ignored; another acts on the block that it names.
on_long-IsWell :
    (s : State) (short : Bool) (block : Option ℕ) (r : State × Update) (action : ℕ → State × Update)
    → IsWell s
    → IsWell r.0
    → ((i : ℕ) → IsWell (action i).0)
    → IsWell (if short then r else on_effect s block action).0
on_long-IsWell s true block r action w v keep = v
on_long-IsWell s false block r action w v keep = on_effect-IsWell s block action w keep

set_magnitude-IsWell :
    (s : State) (bytes : List ℕ) (t i : ℕ) → IsWell s → IsWell (set_magnitude s bytes t i)
unfolding set_magnitude
set_magnitude-IsWell s bytes t i w =
    let c = effect_at-IsConsistent s i w in
    with_effect-IsWell s i _ w
      (record { idle_started = c.idle_started; idle_end = c.idle_end; running_end = c.running_end })

set_effect-IsWell :
    (s : State) (bytes : List ℕ) (now i : ℕ) → IsWell s → IsWell (set_effect s bytes now i)
unfolding set_effect
set_effect-IsWell s bytes now i w =
    let c = effect_at-IsConsistent s i w in
    with_effect-IsWell s i _ w (
      reschedule-IsConsistent (with_parameters (effect_at s i) bytes) now (λ idle. record {
        idle_started = c.idle_started;
        idle_end = c.idle_end;
        running_end = λ runs. cc;
      }))

start_effect_at-IsWell :
    (s : State) (i n now : ℕ)
    → IsWell s
    → IsWell (with_effect s i (start_effect (effect_at s i) n now))
start_effect_at-IsWell s i n now w =
    with_effect-IsWell s i _ w (start_effect-IsConsistent (effect_at s i) n now)

operate-IsWell :
    (s : State) (i operation n now : ℕ) → IsWell s → IsWell (operate s i operation n now)
unfolding operate
operate-IsWell s i operation n now w =
    let t = if-cases IsWell (operation == 2) (λ _. stop_all_effects-IsWell s w) (λ _. w) in
    if-cases IsWell (operation == 1) (λ _. start_effect_at-IsWell _ i n now t)
      (λ _.
        if-cases IsWell (operation == 2) (λ _. start_effect_at-IsWell _ i n now t)
          (λ _.
            if-cases IsWell (operation == 3)
              (λ _. with_effect-IsWell _ i _ t (stop_effect-IsConsistent _)) (λ _. t)))

free_block-IsWell : (s : State) (block : Option ℕ) → IsWell s → IsWell (free_block s block)
unfolding free_block
free_block-IsWell s none w = w
free_block-IsWell s (some i) w = with_effect-IsWell s i _ w idle_effect-IsConsistent

reset-IsWell : (s : State) → IsWell s → IsWell (reset s)
unfolding reset
reset-IsWell s w = record {
  count = refl;
  each = All-replicate IsConsistent generic_pid_max_effects idle_effect idle_effect-IsConsistent;
  resumed = λ h. refl;
  since = λ h. cc;
  strength_le = w.strength_le;
}

pause-IsWell : (s : State) (now : ℕ) → IsWell s → IsWell (pause s now)
unfolding pause
pause-IsWell s now w =
    if-cases IsWell s.paused (λ _. w)
      (λ _. record {
        count = w.count;
        each = w.each;
        resumed = λ h. cc;
        since = λ h. λ e. cc;
        strength_le = w.strength_le;
      })

resumed-IsWell : (s : State) → IsWell s → IsWell (record s { paused = false; pause_started = none })
resumed-IsWell s w = record {
  count = w.count;
  each = w.each;
  resumed = λ h. refl;
  since = λ h. cc;
  strength_le = w.strength_le;
}

shifted-IsWell :
    (s : State) (since : Option ℕ) (now : ℕ) → IsWell s → IsWell (shift_all s since now)
unfolding shift_all
shifted-IsWell s none now w = w
shifted-IsWell s (some t) now w =
    map_effects-IsWell s (shift_effect (now - t)) (λ e c. shift_effect-IsConsistent (now - t) e c) w

continue_effects-IsWell : (s : State) (now : ℕ) → IsWell s → IsWell (continue_effects s now)
unfolding continue_effects
continue_effects-IsWell s now w =
    if-cases IsWell s.paused (λ _. resumed-IsWell _ (shifted-IsWell s s.pause_started now w))
      (λ _. resumed-IsWell s w)

control-IsWell : (s : State) (command now : ℕ) → IsWell s → IsWell (control s command now)
unfolding control
control-IsWell s command now w =
    if-cases IsWell (command == 1)
      (λ _. record {
        count = w.count;
        each = w.each;
        resumed = w.resumed;
        since = w.since;
        strength_le = w.strength_le;
      })
      (λ _.
        if-cases IsWell (command == 2)
          (λ _. record {
            count = w.count;
            each = w.each;
            resumed = w.resumed;
            since = w.since;
            strength_le = w.strength_le;
          })
          (λ _.
            if-cases IsWell (command == 3) (λ _. stop_all_effects-IsWell s w)
              (λ _.
                if-cases IsWell (command == 4) (λ _. reset-IsWell s w)
                  (λ _.
                    if-cases IsWell (command == 5) (λ _. pause-IsWell s now w)
                      (λ _.
                        if-cases IsWell (command == 6) (λ _. continue_effects-IsWell s now w)
                          (λ _. w))))))

module _ (sc : Scaling) (s : State) (now : ℕ) (w : IsWell s) where
  updated-IsWell : (t : State) (b : Bool) → IsWell t → IsWell (current_update sc t b now).0
  updated-IsWell t b v = current_update-IsWell sc t b now v

  handle_set_effect-IsWell : (bytes : List ℕ) → IsWell (handle_set_effect sc s bytes now).0
  unfolding handle_set_effect
  handle_set_effect-IsWell bytes =
      on_long-IsWell s _ _ (s, ignored)
        (λ i. current_update sc (set_effect s bytes now i) (effect_at s i).running now) w w
        (λ i. updated-IsWell _ _ (set_effect-IsWell s bytes now i w))

  handle_magnitude-IsWell : (bytes : List ℕ) (t : ℕ) → IsWell (handle_magnitude sc s bytes t now).0
  unfolding handle_magnitude
  handle_magnitude-IsWell bytes t =
      on_long-IsWell s _ _ (s, ignored)
        (λ i. current_update sc (set_magnitude s bytes t i) (effect_at s i).running now) w w
        (λ i. updated-IsWell _ _ (set_magnitude-IsWell s bytes t i w))

  handle_effect_operation-IsWell :
      (bytes : List ℕ) → IsWell (handle_effect_operation sc s bytes now).0
  unfolding handle_effect_operation
  handle_effect_operation-IsWell bytes =
      on_long-IsWell s _ _ (s, ignored)
        (λ i. current_update sc (operate s i (get_or bytes 1 0) (get_or bytes 2 1) now) true now) w
        w
        (λ i.
          updated-IsWell _ true (operate-IsWell s i (get_or bytes 1 0) (get_or bytes 2 1) now w))

  handle_block_free-IsWell : (bytes : List ℕ) → IsWell (handle_block_free sc s bytes now).0
  unfolding handle_block_free
  handle_block_free-IsWell [] = updated-IsWell s true w
  handle_block_free-IsWell (b ∷ bs) = updated-IsWell _ true (free_block-IsWell s _ w)

  handle_device_control-IsWell : (bytes : List ℕ) → IsWell (handle_device_control sc s bytes now).0
  unfolding handle_device_control
  handle_device_control-IsWell [] = w
  handle_device_control-IsWell (b ∷ bs) = updated-IsWell _ true (control-IsWell s b now w)

  handle_device_gain-IsWell : (bytes : List ℕ) → IsWell (handle_device_gain sc s bytes now).0
  unfolding handle_device_gain
  handle_device_gain-IsWell [] = updated-IsWell s true w
  handle_device_gain-IsWell (b ∷ bs) =
      updated-IsWell (record s { device_gain = b }) true
        (record {
          count = w.count;
          each = w.each;
          resumed = w.resumed;
          since = w.since;
          strength_le = w.strength_le;
        })

  dispatch-IsWell : (id : ℕ) (bytes : List ℕ) → IsWell (dispatch sc s id bytes now).0
  unfolding dispatch
  dispatch-IsWell id bytes =
      if-cases Keeps (id == 0x11) (λ _. handle_set_effect-IsWell bytes)
        (λ _.
          if-cases Keeps (id == 0x12) {x = (s, ignored)} (λ _. w)
            (λ _.
              if-cases Keeps (id == 0x14) (λ _. handle_magnitude-IsWell bytes 2)
                (λ _.
                  if-cases Keeps (id == 0x15) (λ _. handle_magnitude-IsWell bytes 1)
                    (λ _.
                      if-cases Keeps (id == 0x1A) (λ _. handle_effect_operation-IsWell bytes)
                        (λ _.
                          if-cases Keeps (id == 0x1B) (λ _. handle_block_free-IsWell bytes)
                            (λ _.
                              if-cases Keeps (id == 0x1C) (λ _. handle_device_control-IsWell bytes)
                                (λ _.
                                  if-cases Keeps (id == 0x1D) (λ _. handle_device_gain-IsWell bytes)
                                    (λ _. w))))))))

pub handle_output_report-IsWell :
    (sc : Scaling) (s : State) (report : List ℕ) (now : ℕ)
    → IsWell s
    → IsWell (handle_output_report sc s report now).0
unfolding handle_output_report
handle_output_report-IsWell sc s [] now w = w
handle_output_report-IsWell sc s (id ∷ bytes) now w =
    dispatch-IsWell sc (expire_effects s now) now (expire_effects-IsWell s now w) id bytes
