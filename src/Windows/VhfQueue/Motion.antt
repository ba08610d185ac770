-- ===== src/Windows/VhfQueue/Motion.antt =====
-- Relative motion is neither lost nor made up.
use libvirtualhid.Base.{
  ℕ, ◌<◌, ◌≡◌, refl, sym, ◌∙◌, true, List, [], ◌∷◌, ◌++◌, arith, last?, get_or, Bool-cases, inl,
  inr,
}
use libvirtualhid.Base.Int.{
  ℤ, pos, negsuc, ◌+ℤ◌, ◌-ℤ◌, clamp_bounds, +ℤ_assoc, +ℤ_sub_nothing, +ℤ_sub_rest, zero-+ℤ, +ℤ-zero,
  int_laws,
}
use libvirtualhid.Windows.VhfQueue.Bytes.{mouse_i16_round_trip, mouse_i8_round_trip}
use libvirtualhid.Windows.VhfQueue.Mouse.{
  PendingMouseReport, decode_mouse, accumulate, same_buttons, accumulate_last, delivered,
  encode_mouse, subtract, is_still, is_zero, left_over,
}
use libvirtualhid.Windows.VhfQueue.Discrete.{Report}
use libvirtualhid.Windows.VhfQueue.{
  VhfInputReportQueue, vhf_max_pending_input_reports, size, make_room, push_mouse_report,
}

-- The motion of a list of pending reports along one axis.
abbrev pub total : (PendingMouseReport → ℤ) → List PendingMouseReport → ℤ
total axis [] = pos 0
total axis (p ∷ ps) = axis p +ℤ total axis ps

module _ (axis : PendingMouseReport → ℤ) where
  pub total-append :
      (ps qs : List PendingMouseReport) → total axis (ps ++ qs) ≡ total axis ps +ℤ total axis qs
  total-append [] qs = sym (zero-+ℤ _)
  total-append (p ∷ ps) qs = rw (total-append ps qs, +ℤ_assoc) refl

module _ (axis : PendingMouseReport → ℤ)
    (adds : (p m : PendingMouseReport) → axis (accumulate p m) ≡ axis p +ℤ axis m) where
  total-accumulate_last :
      (ps : List PendingMouseReport) (m : PendingMouseReport) (b : ℕ)
      → same_buttons (last? ps) b ≡ true
      → total axis (accumulate_last ps m) ≡ total axis ps +ℤ axis m
  unfolding accumulate_last same_buttons
  total-accumulate_last [] m b h = cc
  total-accumulate_last (p ∷ []) m b h = rw (adds p m) (omega int_laws)
  total-accumulate_last (p ∷ p' ∷ ps) m b h =
      rw (total-accumulate_last (p' ∷ ps) m b h) (omega int_laws)

abbrev pub HasRoom : VhfInputReportQueue → Type 0
HasRoom q = size q < vhf_max_pending_input_reports

-- A queue with room takes in exactly the motion of the report.
pub total-push_mouse_report :
    (axis : PendingMouseReport → ℤ)
    → ((p m : PendingMouseReport) → axis (accumulate p m) ≡ axis p +ℤ axis m)
    → (q : VhfInputReportQueue) (r : Report) → HasRoom q
    → total axis (push_mouse_report q r).mouse_reports
      ≡ total axis q.mouse_reports +ℤ axis (decode_mouse r)
unfolding push_mouse_report make_room
total-push_mouse_report axis adds q r room = ground (
  arith,
  total-accumulate_last axis adds q.mouse_reports (decode_mouse r) (get_or r 0 0),
  total-append axis q.mouse_reports (decode_mouse r ∷ []),
  +ℤ-zero (axis (decode_mouse r)),
)

-- An axis of the motion, by what the operations do to it.
pub record IsAxis (axis : PendingMouseReport → ℤ) : Type 0 where
  pub adds : (p m : PendingMouseReport) → axis (accumulate p m) ≡ axis p +ℤ axis m
  pub subtracts : (p d : PendingMouseReport) → axis (subtract p d) ≡ axis p -ℤ axis d
  pub carries :
      (p : PendingMouseReport)
      → axis (decode_mouse (encode_mouse (delivered p))) ≡ axis (delivered p)
  pub still : (p : PendingMouseReport) → is_still p ≡ true → axis p ≡ pos 0

still_parts :
    (p : PendingMouseReport)
    → is_still p ≡ true
    → (p.x ≡ pos 0) × (p.y ≡ pos 0) × (p.wheel ≡ pos 0) × (p.pan ≡ pos 0)
unfolding is_still is_zero
still_parts p h = ground arith

x_carries :
    (p : PendingMouseReport) → (decode_mouse (encode_mouse (delivered p))).x ≡ (delivered p).x
unfolding decode_mouse encode_mouse delivered
x_carries p =
    let b = clamp_bounds p.x (negsuc 32767) (pos 32767) (omega arith) in
    mouse_i16_round_trip _ b.0 b.1

y_carries :
    (p : PendingMouseReport) → (decode_mouse (encode_mouse (delivered p))).y ≡ (delivered p).y
unfolding decode_mouse encode_mouse delivered
y_carries p =
    let b = clamp_bounds p.y (negsuc 32767) (pos 32767) (omega arith) in
    mouse_i16_round_trip _ b.0 b.1

wheel_carries :
    (p : PendingMouseReport)
    → (decode_mouse (encode_mouse (delivered p))).wheel ≡ (delivered p).wheel
unfolding decode_mouse encode_mouse delivered
wheel_carries p =
    let b = clamp_bounds p.wheel (negsuc 126) (pos 127) (omega arith) in
    mouse_i8_round_trip _ (omega (arith, b.0)) b.1

pan_carries :
    (p : PendingMouseReport) → (decode_mouse (encode_mouse (delivered p))).pan ≡ (delivered p).pan
unfolding decode_mouse encode_mouse delivered
pan_carries p =
    let b = clamp_bounds p.pan (negsuc 126) (pos 127) (omega arith) in
    mouse_i8_round_trip _ (omega (arith, b.0)) b.1

pub x_IsAxis : IsAxis (λ p. p.x)
unfolding accumulate subtract
x_IsAxis = record {
  adds = λ p m. refl;
  subtracts = λ p d. refl;
  carries = x_carries;
  still = λ p h. (still_parts p h).0;
}

pub y_IsAxis : IsAxis (λ p. p.y)
unfolding accumulate subtract
y_IsAxis = record {
  adds = λ p m. refl;
  subtracts = λ p d. refl;
  carries = y_carries;
  still = λ p h. (still_parts p h).1;
}

pub wheel_IsAxis : IsAxis (λ p. p.wheel)
unfolding accumulate subtract
wheel_IsAxis = record {
  adds = λ p m. refl;
  subtracts = λ p d. refl;
  carries = wheel_carries;
  still = λ p h. (still_parts p h).2;
}

pub pan_IsAxis : IsAxis (λ p. p.pan)
unfolding accumulate subtract
pan_IsAxis = record {
  adds = λ p m. refl;
  subtracts = λ p d. refl;
  carries = pan_carries;
  still = λ p h. (still_parts p h).3;
}

-- What is delivered and what is left over make up what was pending.
pub total-left_over :
    (axis : PendingMouseReport → ℤ)
    → IsAxis axis
    → (p : PendingMouseReport) (ps : List PendingMouseReport)
    → axis (decode_mouse (encode_mouse (delivered p))) +ℤ total axis (left_over p ps)
      ≡ total axis (p ∷ ps)
unfolding left_over
total-left_over axis a p ps =
    rw (a.carries p) (elim (Bool-cases (is_still (subtract p (delivered p)))) [
      | inl gone ↦
          let nothing = sym (a.subtracts p (delivered p)) ∙ a.still _ gone in
          rw gone (+ℤ_sub_nothing _ _ _ nothing)
      | inr moved ↦ rw moved (rw (a.subtracts p (delivered p)) (+ℤ_sub_rest _ _ _))
    ])
