-- ===== src/Windows/PidRumble/Runs.antt =====
-- The decoder over any sequence of output reports and timers.
use libvirtualhid.Base.{ℕ, List, [], ◌∷◌}
use libvirtualhid.Windows.PidRumble.{Scaling, State, new, advance}
use libvirtualhid.Windows.PidRumble.Reports.{handle_output_report}
use libvirtualhid.Windows.PidRumble.Invariant.{IsWell, new-IsWell, advance-IsWell}
use libvirtualhid.Windows.PidRumble.Handlers.{handle_output_report-IsWell}

-- What the driver does with the state: an output report, or a timer that fires.
pub data Call : Type 0 where
  reports : List ℕ → ℕ → Call
  advances : ℕ → Call

unfoldable pub step : Scaling → State → Call → State
step sc s (reports report now) = (handle_output_report sc s report now).0
step sc s (advances now) = (advance sc s now).0

unfoldable pub run : Scaling → State → List Call → State
run sc s [] = s
run sc s (c ∷ cs) = run sc (step sc s c) cs

step-IsWell : (sc : Scaling) (s : State) (c : Call) → IsWell s → IsWell (step sc s c)
unfolding step
step-IsWell sc s (reports report now) w = handle_output_report-IsWell sc s report now w
step-IsWell sc s (advances now) w = advance-IsWell sc s now w

run-IsWell : (sc : Scaling) (s : State) (cs : List Call) → IsWell s → IsWell (run sc s cs)
unfolding run
run-IsWell sc s [] w = w
run-IsWell sc s (c ∷ cs) w = run-IsWell sc (step sc s c) cs (step-IsWell sc s c w)

-- After any output reports, long enough or not, and any timers, on a new state: there are 40 blocks;
-- each block that does not run is neither started nor due, and each that runs is due exactly when its
-- loops are over, never if it is infinite; the time of the pause is known exactly while paused; and
-- the last strength is a 16-bit value.
pub run-new-IsWell : (sc : Scaling) (cs : List Call) → IsWell (run sc new cs)
run-new-IsWell sc cs = run-IsWell sc new cs new-IsWell
