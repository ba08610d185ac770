-- ===== src/Windows/VhfQueue/Conservation.antt =====
-- The motion of a mouse over any run of calls on its queue.
use libvirtualhid.Base.{
  ℕ, suc, ◌+◌, ◌≤◌, ◌≡◌, refl, ◌∙◌, List, [], ◌∷◌, ◌++◌, Option, none, some, arith, length,
  length-append, All,
}
use libvirtualhid.Base.Int.{ℤ, ◌+ℤ◌, +ℤ_assoc, +ℤ_comm, zero-+ℤ, +ℤ-zero}
use libvirtualhid.Windows.Protocol.{device_mouse, mouse_input_report_size}
use libvirtualhid.Windows.VhfQueue.Mouse.{
  PendingMouseReport, decode_mouse, left_over, pop_mouse_report, encode_mouse, delivered,
}
use libvirtualhid.Windows.VhfQueue.Discrete.{Report, Config}
use libvirtualhid.Windows.VhfQueue.Size.{length-accumulate_last}
use libvirtualhid.Windows.VhfQueue.Motion.{
  total, total-append, HasRoom, total-push_mouse_report, IsAxis, x_IsAxis, y_IsAxis, wheel_IsAxis,
  pan_IsAxis, total-left_over,
}
use libvirtualhid.Windows.VhfQueue.{
  VhfInputReportQueue, Call, pushes, pops, clears, vhf_max_pending_input_reports, size, make_room,
  push_mouse_report, push, pop, step, run, new,
}

-- The calls on a mouse: reports of seven bytes, and pops.
abbrev pub IsMouseCall : Call → Type 0
IsMouseCall (pushes r) = length r ≡ mouse_input_report_size
IsMouseCall pops = Unit
IsMouseCall clears = ⊥

abbrev pub push_count : List Call → ℕ
push_count [] = 0
push_count (pushes r ∷ cs) = suc (push_count cs)
push_count (pops ∷ cs) = push_count cs
push_count (clears ∷ cs) = push_count cs

-- The reports that go in, decoded.
abbrev pub pushed : List Call → List PendingMouseReport
pushed [] = []
pushed (pushes r ∷ cs) = decode_mouse r ∷ pushed cs
pushed (pops ∷ cs) = pushed cs
pushed (clears ∷ cs) = pushed cs

abbrev to_items : Option Report → List PendingMouseReport
to_items none = []
to_items (some r) = decode_mouse r ∷ []

-- The reports that VHF receives, decoded.
abbrev pub received : VhfInputReportQueue → List Call → List PendingMouseReport
received q [] = []
received q (pops ∷ cs) = to_items (pop q).0 ++ received (step q pops) cs
received q (c ∷ cs) = received (step q c) cs

pub record IsMouseQueue (q : VhfInputReportQueue) : Type 0 where
  pub device : q.config.device_type ≡ device_mouse
  pub no_protocol : q.protocol_reports ≡ []
  pub no_reports : q.reports ≡ []

push-push_mouse_report :
    (q : VhfInputReportQueue) (r : Report)
    → IsMouseQueue q
    → length r ≡ mouse_input_report_size
    → push q r ≡ push_mouse_report q r
unfolding push
push-push_mouse_report q r m h = ground arith

push_mouse_report-IsMouseQueue :
    (q : VhfInputReportQueue) (r : Report)
    → HasRoom q
    → IsMouseQueue q
    → IsMouseQueue (push_mouse_report q r)
unfolding push_mouse_report make_room
push_mouse_report-IsMouseQueue q r room m = ground arith

size-push_mouse_report :
    (q : VhfInputReportQueue) (r : Report) → HasRoom q → size (push_mouse_report q r) ≤ size q + 1
unfolding push_mouse_report make_room size
size-push_mouse_report q r room = ground (
  arith,
  length-accumulate_last q.mouse_reports (decode_mouse r),
  length-append q.mouse_reports (decode_mouse r ∷ []),
)

-- A pop of a mouse keeps its kind, does not grow it, and moves motion to what VHF receives.
record Pops (axis : PendingMouseReport → ℤ) (q : VhfInputReportQueue) : Type 0 where
  kept : IsMouseQueue (pop q).1
  smaller : size (pop q).1 ≤ size q
  moved :
      total axis (to_items (pop q).0) +ℤ total axis (pop q).1.mouse_reports
      ≡ total axis q.mouse_reports

length-left_over :
    (p : PendingMouseReport) (ps : List PendingMouseReport)
    → length (left_over p ps) ≤ suc (length ps)
unfolding left_over
length-left_over p ps = ground arith

pop-Pops :
    (axis : PendingMouseReport → ℤ)
    → IsAxis axis
    → (q : VhfInputReportQueue) (ms : List PendingMouseReport) → q.mouse_reports ≡ ms
    → IsMouseQueue q
    → Pops axis q
unfolding pop pop_mouse_report size
pop-Pops axis a q [] e m =
    rw (e, m.no_protocol, m.no_reports)
      (record {
        kept = record { device = m.device; no_protocol = refl; no_reports = refl };
        smaller = omega arith;
        moved = zero-+ℤ _;
      })
pop-Pops axis a q (p ∷ ps) e m =
    rw (e, m.no_protocol)
      (record {
        kept = record { device = m.device; no_protocol = refl; no_reports = m.no_reports };
        smaller = omega (arith, length-left_over p ps);
        moved =
            rw (+ℤ-zero (axis (decode_mouse (encode_mouse (delivered p)))))
              (total-left_over axis a p ps);
      })

-- Along one axis, over any run of reports and pops that never fills the queue.
run-conserves :
    (axis : PendingMouseReport → ℤ)
    → IsAxis axis
    → (q : VhfInputReportQueue) (cs : List Call) → IsMouseQueue q
    → All IsMouseCall cs
    → size q + push_count cs ≤ vhf_max_pending_input_reports
    → total axis (received q cs) +ℤ total axis (run q cs).mouse_reports
      ≡ total axis q.mouse_reports +ℤ total axis (pushed cs)
unfolding run step
run-conserves axis a q [] m calls room = +ℤ_comm _ _
run-conserves axis a q (pushes r ∷ cs) m calls room =
    let e = push-push_mouse_report q r m calls.0 in
    let into = total-push_mouse_report axis a.adds q r (omega arith) in
    rw (e, run, step)
      (run-conserves axis a (push_mouse_report q r) cs
          (push_mouse_report-IsMouseQueue q r (omega arith) m) calls.1
          (omega (arith, size-push_mouse_report q r (omega arith)))
        ∙ rw into (+ℤ_assoc _ _ _))
run-conserves axis a q (pops ∷ cs) m calls room =
    let p = pop-Pops axis a q q.mouse_reports refl m in
    let later = run-conserves axis a (pop q).1 cs p.kept calls.1 (omega (arith, p.smaller)) in
    rw
      (
        total-append axis (to_items (pop q).0) (received (pop q).1 cs),
        +ℤ_assoc,
        later,
        ← +ℤ_assoc,
        p.moved,
      )
      refl
run-conserves axis a q (clears ∷ cs) m calls room = absurd calls.0

abbrev pub AxisConserved : (PendingMouseReport → ℤ) → Config → List Call → Type 0
AxisConserved axis c cs =
    total axis (received (new c) cs) +ℤ total axis (run (new c) cs).mouse_reports
    ≡ total axis (pushed cs)

-- On a new queue of a mouse, for any run of at most 32 seven-byte reports and any number of pops:
-- along each of the four axes, the motion that VHF has received and the motion still pending add up
-- to the motion of the reports.
pub run-new-conserves :
    (c : Config) (cs : List Call)
    → c.device_type ≡ device_mouse
    → All IsMouseCall cs
    → push_count cs ≤ vhf_max_pending_input_reports
    → AxisConserved (λ p. p.x) c cs
      × AxisConserved (λ p. p.y) c cs
      × AxisConserved (λ p. p.wheel) c cs
      × AxisConserved (λ p. p.pan) c cs
unfolding new size
run-new-conserves c cs device calls few =
    (along x_IsAxis, along y_IsAxis, along wheel_IsAxis, along pan_IsAxis)
  where
    along : {axis : PendingMouseReport → ℤ} → IsAxis axis → AxisConserved axis c cs
    along {axis} a =
        run-conserves axis a (new c) cs
          (record { device = device; no_protocol = refl; no_reports = refl }) calls (omega arith)
        ∙ zero-+ℤ _
