-- ===== src/Windows/VhfQueue/Size.antt =====
-- How many reports can wait.
use libvirtualhid.Base.{
  ◌+◌, ◌≤◌, ◌≡◌, refl, List, [], ◌∷◌, arith, length, length-append, length-set_last,
  length-drop_first,
}
use libvirtualhid.Windows.VhfQueue.Mouse.{
  PendingMouseReport, accumulate_last, pop_mouse_report, left_over,
}
use libvirtualhid.Windows.VhfQueue.Discrete.{Report, Config}
use libvirtualhid.Windows.VhfQueue.{
  VhfInputReportQueue, Call, pushes, pops, clears, vhf_max_pending_input_reports, new, size, clear,
  make_room, push_mouse_report, push, pop_from, pop, step, run,
}

abbrev pub IsBounded : VhfInputReportQueue → Type 0
IsBounded q = size q ≤ vhf_max_pending_input_reports

pub size-make_room :
    (q : VhfInputReportQueue) → IsBounded q → size (make_room q) + 1 ≤ vhf_max_pending_input_reports
unfolding size make_room
size-make_room q h = ground (
  arith,
  length-drop_first q.reports,
  length-drop_first q.mouse_reports,
  length-drop_first q.protocol_reports,
)

pub length-accumulate_last :
    (ps : List PendingMouseReport) (m : PendingMouseReport)
    → length (accumulate_last ps m) ≡ length ps
unfolding accumulate_last
length-accumulate_last [] m = refl
length-accumulate_last (p ∷ []) m = refl
length-accumulate_last (p ∷ p' ∷ ps) m = omega (arith, length-accumulate_last (p' ∷ ps) m)

push_mouse_report-IsBounded :
    (q : VhfInputReportQueue) (r : Report) → IsBounded q → IsBounded (push_mouse_report q r)
unfolding push_mouse_report size
push_mouse_report-IsBounded q r h =
    grind (arith, size-make_room, length-append, length-accumulate_last)

push-IsBounded : (q : VhfInputReportQueue) (r : Report) → IsBounded q → IsBounded (push q r)
unfolding push size
push-IsBounded q r h =
    grind (arith, push_mouse_report-IsBounded, size-make_room, length-append, length-set_last)

pop_from-IsBounded :
    (q : VhfInputReportQueue) (rs : List Report) (ms : List PendingMouseReport) (xs : List Report)
    → length rs + length ms + length xs ≤ vhf_max_pending_input_reports
    → q.protocol_reports ≡ rs
    → q.mouse_reports ≡ ms
    → q.reports ≡ xs
    → IsBounded (pop_from q rs ms xs).1
unfolding pop_from size pop_mouse_report left_over
pop_from-IsBounded q (r ∷ rs) ms xs h p m x = ground arith
pop_from-IsBounded q [] (w ∷ ms) xs h p m x = ground arith
pop_from-IsBounded q [] [] [] h p m x = ground arith
pop_from-IsBounded q [] [] (y ∷ xs) h p m x = ground arith

pop-IsBounded : (q : VhfInputReportQueue) → IsBounded q → IsBounded (pop q).1
unfolding pop size
pop-IsBounded q h = pop_from-IsBounded q _ _ _ h refl refl refl

step-IsBounded : (q : VhfInputReportQueue) (c : Call) → IsBounded q → IsBounded (step q c)
unfolding step clear size
step-IsBounded q (pushes r) h = push-IsBounded q r h
step-IsBounded q pops h = pop-IsBounded q h
step-IsBounded q clears h = omega arith

run-IsBounded : (q : VhfInputReportQueue) (cs : List Call) → IsBounded q → IsBounded (run q cs)
unfolding run
run-IsBounded q [] h = h
run-IsBounded q (c ∷ cs) h = run-IsBounded (step q c) cs (step-IsBounded q c h)

-- After any calls on a new queue, at most 32 reports wait.
pub run-new-IsBounded : (c : Config) (cs : List Call) → IsBounded (run (new c) cs)
unfolding new size
run-new-IsBounded c cs = run-IsBounded (new c) cs (omega arith)
