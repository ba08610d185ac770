-- ===== src/Windows/VhfQueue/Mouse.antt =====
-- The mouse half of vhf_input_report_queue.hpp: `PendingMouseReport`, the accumulation of
-- `push_mouse_report` and the split of `pop_mouse_report`. A report of a mouse has seven bytes: the
-- buttons, two words of motion, the wheel and the pan.
use libvirtualhid.Base.{
  ℕ, Bool, false, ◌&&◌, List, [], ◌∷◌, Option, none, some, ◌==◌, if◌then◌else◌, get_or, set,
  replicate,
}
use libvirtualhid.Base.Int.{ℤ, pos, negsuc, ◌+ℤ◌, ◌-ℤ◌, clamp}
use libvirtualhid.Windows.Protocol.{mouse_input_report_size}
use libvirtualhid.Windows.VhfQueue.Bytes.{mouse_i16, mouse_i8, set_mouse_i16, byte_8}

pub record PendingMouseReport : Type 0 where
  pub buttons : ℕ
  pub x : ℤ
  pub y : ℤ
  pub wheel : ℤ
  pub pan : ℤ

unfoldable pub decode_mouse : List ℕ → PendingMouseReport
decode_mouse report = record {
  buttons = get_or report 0 0;
  x = mouse_i16 (get_or report 1 0) (get_or report 2 0);
  y = mouse_i16 (get_or report 3 0) (get_or report 4 0);
  wheel = mouse_i8 (get_or report 5 0);
  pan = mouse_i8 (get_or report 6 0);
}

unfoldable pub accumulate : PendingMouseReport → PendingMouseReport → PendingMouseReport
accumulate pending m = record pending {
  x = pending.x +ℤ m.x;
  y = pending.y +ℤ m.y;
  wheel = pending.wheel +ℤ m.wheel;
  pan = pending.pan +ℤ m.pan;
}

unfoldable pub same_buttons : Option PendingMouseReport → ℕ → Bool
same_buttons none b = false
same_buttons (some p) b = p.buttons == b

unfoldable pub accumulate_last :
    List PendingMouseReport → PendingMouseReport → List PendingMouseReport
unfolding accumulate
accumulate_last [] m = []
accumulate_last (p ∷ []) m = accumulate p m ∷ []
accumulate_last (p ∷ p' ∷ ps) m = p ∷ accumulate_last (p' ∷ ps) m

-- The part of the pending motion that one report can carry.
unfoldable pub delivered : PendingMouseReport → PendingMouseReport
delivered p = record p {
  x = clamp p.x (negsuc 32767) (pos 32767);
  y = clamp p.y (negsuc 32767) (pos 32767);
  wheel = clamp p.wheel (negsuc 126) (pos 127);
  pan = clamp p.pan (negsuc 126) (pos 127);
}

unfoldable pub encode_mouse : PendingMouseReport → List ℕ
unfolding set_mouse_i16
encode_mouse d =
    let blank = replicate mouse_input_report_size 0 in
    let buttons = set blank 0 d.buttons in
    let motion = set_mouse_i16 (set_mouse_i16 buttons 1 d.x) 3 d.y in
    set (set motion 5 (byte_8 d.wheel)) 6 (byte_8 d.pan)

unfoldable pub subtract : PendingMouseReport → PendingMouseReport → PendingMouseReport
subtract p d = record p {
  x = p.x -ℤ d.x;
  y = p.y -ℤ d.y;
  wheel = p.wheel -ℤ d.wheel;
  pan = p.pan -ℤ d.pan;
}

unfoldable pub is_zero : ℤ → Bool
is_zero (pos n) = n == 0
is_zero (negsuc n) = false

unfoldable pub is_still : PendingMouseReport → Bool
unfolding is_zero
is_still p = is_zero p.x && is_zero p.y && is_zero p.wheel && is_zero p.pan

-- The front of the mouse reports after one report of it is delivered.
unfoldable pub left_over : PendingMouseReport → List PendingMouseReport → List PendingMouseReport
unfolding delivered subtract is_still
left_over p ps = let rest = subtract p (delivered p) in if is_still rest then ps else rest ∷ ps

unfoldable pub pop_mouse_report :
    PendingMouseReport → List PendingMouseReport → List ℕ × List PendingMouseReport
unfolding left_over encode_mouse
pop_mouse_report p ps = (encode_mouse (delivered p), left_over p ps)
