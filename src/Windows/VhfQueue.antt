-- ===== src/Windows/VhfQueue.antt =====
-- src/platform/windows/shared/vhf_input_report_queue.hpp: the bounded queue of input reports that
-- wait for VHF. A report is its list of bytes; the 64-bit accumulators of mouse motion are
-- integers. The head of a list is the front of the deque.
pub mod Bytes
pub mod Mouse
pub mod Discrete
pub mod Size
pub mod Motion
mod Tests
pub mod Drain
pub mod Layout
pub mod Order
pub mod Conservation
use libvirtualhid.Base.{
  ℕ, ◌+◌, Bool, ◌&&◌, not, List, [], ◌∷◌, ◌++◌, Option, none, some, ltb, ◌==◌, if◌then◌else◌,
  length, get_or, last?, set_last, is_empty, drop_first,
}
use libvirtualhid.Windows.Protocol.{device_mouse, mouse_input_report_size}
use Mouse.{PendingMouseReport, decode_mouse, same_buttons, accumulate_last, pop_mouse_report}
use Discrete.{Report, Config, is_protocol_report, coalesces}

abbrev pub vhf_max_pending_input_reports : ℕ
vhf_max_pending_input_reports = 32

pub record VhfInputReportQueue : Type 0 where
  pub config : Config
  pub protocol_reports : List Report
  pub mouse_reports : List PendingMouseReport
  pub reports : List Report

pub new : Config → VhfInputReportQueue
new c = record { config = c; protocol_reports = []; mouse_reports = []; reports = [] }

pub size : VhfInputReportQueue → ℕ
size q = length q.protocol_reports + length q.mouse_reports + length q.reports

pub empty : VhfInputReportQueue → Bool
empty q = is_empty q.protocol_reports && is_empty q.mouse_reports && is_empty q.reports

pub clear : VhfInputReportQueue → VhfInputReportQueue
clear q = record q { protocol_reports = []; mouse_reports = []; reports = [] }

-- The eviction once the queue is full.
evict : VhfInputReportQueue → VhfInputReportQueue
evict q =
    if not (is_empty q.reports)
    then record q { reports = drop_first q.reports }
    else if not (is_empty q.mouse_reports)
    then record q { mouse_reports = drop_first q.mouse_reports }
    else record q { protocol_reports = drop_first q.protocol_reports }

pub make_room : VhfInputReportQueue → VhfInputReportQueue
unfolding evict
make_room q = if ltb (size q) vhf_max_pending_input_reports then q else evict q

pub push_mouse_report : VhfInputReportQueue → Report → VhfInputReportQueue
push_mouse_report q report =
    if same_buttons (last? q.mouse_reports) (get_or report 0 0)
    then record q { mouse_reports = accumulate_last q.mouse_reports (decode_mouse report) }
    else (let r = make_room q in
        record r { mouse_reports = r.mouse_reports ++ decode_mouse report ∷ [] })

pub push : VhfInputReportQueue → Report → VhfInputReportQueue
unfolding coalesces
push q report =
    if q.config.device_type == device_mouse && length report == mouse_input_report_size
    then push_mouse_report q report
    else if is_protocol_report q.config report
    then (let r = make_room q in record r { protocol_reports = r.protocol_reports ++ report ∷ [] })
    else if coalesces q.config (last? q.reports) report
    then record q { reports = set_last q.reports report }
    else (let r = make_room q in record r { reports = r.reports ++ report ∷ [] })

pop_from :
    VhfInputReportQueue
    → List Report
    → List PendingMouseReport
    → List Report
    → Option Report × VhfInputReportQueue
pop_from q (r ∷ rs) ms xs = (some r, record q { protocol_reports = rs })
pop_from q [] (m ∷ ms) xs =
    let (report, rest) = pop_mouse_report m ms in (some report, record q { mouse_reports = rest })
pop_from q [] [] [] = (none, q)
pop_from q [] [] (x ∷ xs) = (some x, record q { reports = xs })

pub pop : VhfInputReportQueue → Option Report × VhfInputReportQueue
unfolding pop_from
pop q = pop_from q q.protocol_reports q.mouse_reports q.reports

-- A producer's and VHF's calls, in any order.
pub data Call : Type 0 where
  pushes : Report → Call
  pops clears : Call

pub step : VhfInputReportQueue → Call → VhfInputReportQueue
step q (pushes report) = push q report
step q pops = (pop q).1
step q clears = clear q

pub run : VhfInputReportQueue → List Call → VhfInputReportQueue
run q [] = q
run q (c ∷ cs) = run (step q c) cs
