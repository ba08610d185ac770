-- ===== src/Windows/VhfQueue/Tests.antt =====
-- Runs of the queue, and its theorems at concrete queues.
use libvirtualhid.Base.{◌≡◌, refl, ◌⊎◌, inl, true, List, [], ◌∷◌, none, some, arith}
use libvirtualhid.Base.Int.{◌+ℤ◌, ◌-ℤ◌, clamp}
use libvirtualhid.Core.Tests.{pad_state}
use libvirtualhid.Core.Tests.Packing.{naturals}
use libvirtualhid.Windows.Protocol.{device_gamepad, device_mouse, gamepad_generic, bus_usb}
use libvirtualhid.Windows.VhfQueue.Bytes.{mouse_i16, mouse_i8, byte_8, i16_low, i16_high}
use libvirtualhid.Windows.VhfQueue.Mouse.{
  decode_mouse, accumulate_last, pop_mouse_report, same_buttons,
}
use libvirtualhid.Windows.VhfQueue.Discrete.{
  Report, Config, is_protocol_report, coalesces, same_discrete_state, equal_at, discrete_offsets,
}
use libvirtualhid.Windows.VhfQueue.Size.{IsBounded, run-new-IsBounded}
use libvirtualhid.Windows.VhfQueue.Conservation.{AxisConserved, run-new-conserves}
use libvirtualhid.Windows.VhfQueue.Order.{push-keeps-order, push-keeps-protocol, Appends, Replaces}
use libvirtualhid.Windows.VhfQueue.Drain.{pops_times, pops_times-empty}
use libvirtualhid.Windows.VhfQueue.{
  VhfInputReportQueue, Call, pushes, pops, new, size, make_room, push_mouse_report, push, pop,
  empty, run, step,
}

abbrev mouse : Config
mouse = record {
  device_type = device_mouse;
  gamepad_kind = 0;
  bus_type = bus_usb;
  input_report_id = 0;
}

abbrev generic_pad : Config
generic_pad = record {
  device_type = device_gamepad;
  gamepad_kind = gamepad_generic;
  bus_type = bus_usb;
  input_report_id = 1;
}

-- Buttons 1, motion (300, -2), wheel -1, pan 0.
abbrev moved_right : Report
moved_right = 1 ∷ 44 ∷ 1 ∷ 254 ∷ 255 ∷ 255 ∷ 0 ∷ []

-- Buttons 1, motion (32700, 0).
abbrev far_right : Report
far_right = 1 ∷ 188 ∷ 127 ∷ 0 ∷ 0 ∷ 0 ∷ 0 ∷ []

abbrev mouse_calls : List Call
mouse_calls = pushes moved_right ∷ pushes far_right ∷ pops ∷ []

-- 33000 steps to the right take two reports.
far_splits : (pop (run (new mouse) mouse_calls)).0 ≡ some (1 ∷ 233 ∷ 0 ∷ 0 ∷ 0 ∷ 0 ∷ 0 ∷ [])
unfolding run new pop push push_mouse_report make_room accumulate_last same_buttons decode_mouse
    pop_mouse_report mouse_i16 mouse_i8 byte_8 i16_low i16_high ◌+ℤ◌ ◌-ℤ◌ clamp step size
far_splits = refl

run-new-IsBounded_example : IsBounded (run (new mouse) mouse_calls)
run-new-IsBounded_example = run-new-IsBounded mouse mouse_calls

run-new-conserves_example :
    AxisConserved (λ p. p.x) mouse mouse_calls
    × AxisConserved (λ p. p.y) mouse mouse_calls
    × AxisConserved (λ p. p.wheel) mouse mouse_calls
    × AxisConserved (λ p. p.pan) mouse mouse_calls
run-new-conserves_example = run-new-conserves mouse mouse_calls refl (omega arith) (omega arith)

-- The same buttons and an axis that moved.
abbrev stick_left : Report
stick_left = 1 ∷ 5 ∷ 0 ∷ 10 ∷ []

abbrev stick_right : Report
stick_right = 1 ∷ 5 ∷ 0 ∷ 200 ∷ []

abbrev pad_queue : VhfInputReportQueue
pad_queue = record {
  config = generic_pad;
  protocol_reports = (2 ∷ []) ∷ [];
  mouse_reports = [];
  reports = stick_left ∷ [];
}

stick_replaced : (push pad_queue stick_right).reports ≡ stick_right ∷ []
unfolding push is_protocol_report coalesces same_discrete_state equal_at discrete_offsets
stick_replaced = refl

push-keeps-order_example :
    ((push pad_queue stick_right).protocol_reports ≡ pad_queue.protocol_reports)
    × ((push pad_queue stick_right).mouse_reports ≡ pad_queue.mouse_reports)
    × (Appends pad_queue stick_right (push pad_queue stick_right)
        ⊎ Replaces naturals pad_state pad_queue stick_right (push pad_queue stick_right))
unfolding size is_protocol_report
push-keeps-order_example =
    push-keeps-order naturals pad_state pad_queue stick_right (omega arith) (omega arith) refl

push-keeps-protocol_example : (push pad_queue (9 ∷ [])).protocol_reports ≡ (2 ∷ []) ∷ (9 ∷ []) ∷ []
unfolding size is_protocol_report
push-keeps-protocol_example = push-keeps-protocol pad_queue (9 ∷ []) (inl (omega arith))

pops_times-empty_example :
    (empty (pops_times 2 pad_queue) ≡ true) × ((pop (pops_times 2 pad_queue)).0 ≡ none)
pops_times-empty_example = pops_times-empty 2 pad_queue (omega arith)
