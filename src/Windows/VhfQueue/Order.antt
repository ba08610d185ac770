-- ===== src/Windows/VhfQueue/Order.antt =====
-- Which reports a push keeps, replaces and discards.
use libvirtualhid.Base.{
  ℕ, ◌≡◌, refl, sym, ap, ◌⊎◌, inl, inr, ◌≢◌, true, false, List, [], ◌∷◌, ◌++◌, Option, none, some,
  arith, length, last?, set_last, get_elem?, All, Bool-cases, if◌then◌else◌, ==_iff,
}
use libvirtualhid.Core.Types.{GamepadState}
use libvirtualhid.Core.Report.Numbers.{Floats}
use libvirtualhid.Windows.VhfQueue.Layout.{discrete_places, at_discrete_places}
use libvirtualhid.Windows.Protocol.{device_mouse, device_gamepad}
use libvirtualhid.Windows.VhfQueue.Discrete.{
  Report, Config, is_protocol_report, same_byte, equal_at, discrete_offsets, compare_offsets,
  same_discrete_state, coalesces,
}
use libvirtualhid.Windows.VhfQueue.Motion.{HasRoom}
use libvirtualhid.Windows.VhfQueue.{VhfInputReportQueue, make_room, push_mouse_report, push}

-- Both reports have one and the same byte at an offset.
abbrev pub SameByteAt : Report → Report → ℕ → Type 0
SameByteAt l r offset = (b : ℕ) × (get_elem? l offset ≡ some b) × (get_elem? r offset ≡ some b)

-- The reports agree in length and in every byte in which the packing functions store the identifier,
-- buttons, the hat or whether a finger touches.
abbrev pub SameDiscrete :
    {F : Type 0} → Floats F → GamepadState F → Config → Report → Report → Type 0
SameDiscrete floats n c l r =
    (length l ≡ length r)
    × (places : List ℕ) × (discrete_places floats n c ≡ some places)
    × All (SameByteAt l r) places

same_byte_sound : (a b : Option ℕ) → same_byte a b ≡ true → (v : ℕ) × (a ≡ some v) × (b ≡ some v)
unfolding same_byte
same_byte_sound none b h = cc
same_byte_sound (some x) none h = cc
same_byte_sound (some x) (some y) h = (x, refl, ap some (sym ((==_iff x y).0 h)))

equal_at_sound :
    (l r : Report) (offsets : List ℕ) → equal_at l r offsets ≡ true → All (SameByteAt l r) offsets
unfolding equal_at
equal_at_sound l r [] h = tt
equal_at_sound l r (o ∷ os) h = (
  same_byte_sound (get_elem? l o) (get_elem? r o) (ground arith),
  equal_at_sound l r os (ground arith),
)

compare_offsets_sound :
    (o : Option (List ℕ)) (l r : Report)
    → compare_offsets o l r ≡ true
    → (offsets : List ℕ) × (o ≡ some offsets) × All (SameByteAt l r) offsets
unfolding compare_offsets
compare_offsets_sound none l r h = cc
compare_offsets_sound (some os) l r h = (os, refl, equal_at_sound l r os h)

same_discrete_state-SameDiscrete :
    {F : Type 0} (floats : Floats F) (n : GamepadState F) (c : Config) (l r : Report)
    → same_discrete_state c l r ≡ true
    → SameDiscrete floats n c l r
unfolding same_discrete_state
same_discrete_state-SameDiscrete floats n c l r h =
    let found = compare_offsets_sound (discrete_offsets c) l r (ground arith) in
    let at = at_discrete_places (SameByteAt l r) floats n c found.0 found.1 found.2 in
    (ground arith, at.0, at.1, at.2)

split_last {ℓ} :
    {A : Type ℓ} (xs : List A) (l r : A)
    → last? xs ≡ some l
    → (ys : List A) × (xs ≡ ys ++ l ∷ []) × (set_last xs r ≡ ys ++ r ∷ [])
split_last [] l r h = cc
split_last (x ∷ []) l r h = ([], cc, refl)
split_last (x ∷ y ∷ ys) l r h =
    let rest = split_last (y ∷ ys) l r h in (x ∷ rest.0, ap (◌∷◌ x) rest.1, ap (◌∷◌ x) rest.2)

-- Nothing pending is touched but the newest report, and that only by one of the same discrete state.
abbrev pub Appends : VhfInputReportQueue → Report → VhfInputReportQueue → Type 0
Appends q r q' = q'.reports ≡ q.reports ++ r ∷ []

abbrev pub Replaces :
    {F : Type 0}
    → Floats F
    → GamepadState F
    → VhfInputReportQueue
    → Report
    → VhfInputReportQueue
    → Type 0
Replaces floats n q r q' =
    (older : List Report) × (newest : Report) × (q.reports ≡ older ++ newest ∷ [])
    × (q'.reports ≡ older ++ r ∷ [])
    × (q.config.device_type ≡ device_gamepad)
    × SameDiscrete floats n q.config newest r

coalesces_sound :
    {F : Type 0} (floats : Floats F) (n : GamepadState F) (c : Config) (o : Option Report)
    (r : Report)
    → coalesces c o r ≡ true
    → (l : Report) × (o ≡ some l) × (c.device_type ≡ device_gamepad) × SameDiscrete floats n c l r
unfolding coalesces
coalesces_sound floats n c none r h = cc
coalesces_sound floats n c (some l) r h =
    (l, refl, ground arith, same_discrete_state-SameDiscrete floats n c l r (ground arith))

-- A push of an ordinary report when there is room leaves the protocol and mouse reports alone. It
-- appends the report, or puts it in the place of the newest pending report, and then the device is a
-- gamepad and the two reports agree in length and in every byte that holds discrete state: the identifier
-- and the buttons, the hat and whether a finger touches, at the offsets at which the packing functions of
-- the gamepad store them. These are the offsets for any state `n` that is packed.
pub push-keeps-order :
    {F : Type 0} (floats : Floats F) (n : GamepadState F) (q : VhfInputReportQueue) (r : Report)
    → HasRoom q
    → q.config.device_type ≢ device_mouse
    → is_protocol_report q.config r ≡ false
    → ((push q r).protocol_reports ≡ q.protocol_reports)
      × ((push q r).mouse_reports ≡ q.mouse_reports)
      × (Appends q r (push q r) ⊎ Replaces floats n q r (push q r))
unfolding push make_room
push-keeps-order floats n q r room device ordinary =
    elim (Bool-cases (coalesces q.config (last? q.reports) r)) [
      | inl old ↦
          let found = coalesces_sound floats n q.config (last? q.reports) r old in
          let parts = split_last q.reports found.0 r found.1 in
          (
            ground arith,
            ground arith,
            inr (parts.0, found.0, parts.1, ground (arith, parts.2), found.2, found.3),
          )
      | inr new ↦ (ground arith, ground arith, inl (ground arith))
    ]

abbrev pub HasSpare : VhfInputReportQueue → Type 0
HasSpare q = HasRoom q ⊎ ((q.reports ≢ []) ⊎ (q.mouse_reports ≢ []))

make_room-protocol :
    (q : VhfInputReportQueue) → HasSpare q → (make_room q).protocol_reports ≡ q.protocol_reports
unfolding make_room
make_room-protocol q spare = ground arith

is_protocol_report-mouse :
    (c : Config) (r : Report) → c.device_type ≡ device_mouse → is_protocol_report c r ≡ false
unfolding is_protocol_report
is_protocol_report-mouse c [] h = refl
is_protocol_report-mouse c (b ∷ bs) h = ground arith

-- As long as an ordinary report or a mouse report waits, or there is room, no push discards a
-- protocol report: the pending ones stay in order, with the pushed one last if it is one.
pub push-keeps-protocol :
    (q : VhfInputReportQueue) (r : Report)
    → HasSpare q
    → (push q r).protocol_reports
      ≡ (if is_protocol_report q.config r then q.protocol_reports ++ r ∷ [] else q.protocol_reports)
unfolding push push_mouse_report
push-keeps-protocol q r spare =
    ground (arith, make_room-protocol q spare, is_protocol_report-mouse q.config r)
