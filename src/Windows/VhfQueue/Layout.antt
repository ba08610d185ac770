-- ===== src/Windows/VhfQueue/Layout.antt =====
-- Where the packing functions of report.cpp store what is not an axis: the identifier of a report, its
-- buttons and hat, and whether a finger touches; and that the offsets that are compared are all of them.
use libvirtualhid.Base.{
  ℕ, zero, suc, replicate, ◌+◌, ◌≡◌, ◌||◌, ◌==◌, Bool, true, false, List, [], ◌∷◌, ◌++◌, map, All,
  subst, refl, Option, none, some, if◌then◌else◌,
}
use libvirtualhid.Core.Types.{GamepadState}
use libvirtualhid.Core.Report.Numbers.{Floats}
use libvirtualhid.Core.Report.Bytes.{Write}
use libvirtualhid.Core.Report.Dualshock4.{dualshock4_buttons}
use libvirtualhid.Core.Report.Dualsense.{dualsense_buttons}
use libvirtualhid.Core.Report.SwitchPro.{switch_pro_buttons}
use libvirtualhid.Core.Report.Normalize.{
  write_dualsense_touch_contact, write_dualshock4_touch_contact, contact_at,
}
use libvirtualhid.Windows.Protocol.{
  bus_bluetooth, gamepad_generic, gamepad_xbox_one, gamepad_xbox_series, gamepad_switch_pro,
  gamepad_dualshock4, gamepad_dualsense,
}
use libvirtualhid.Windows.VhfQueue.Discrete.{Config, discrete_offsets}

abbrev pub place : Write → ℕ
place (Write.byte offset value) = offset
place (Write.word offset value) = offset
place (Write.dword offset value) = offset
place (Write.flag condition offset value) = offset

abbrev pub first_place : List Write → List ℕ
first_place [] = []
first_place (w ∷ ws) = place w ∷ []

module _ {F : Type 0} (floats : Floats F) (n : GamepadState F) where
  -- The identifier, the hat and the buttons, and the first byte of each finger, which says whether it touches.
  abbrev pub dualshock4_places : ℕ → List ℕ
  dualshock4_places o =
      0 ∷ (o + 4) ∷ map place (dualshock4_buttons floats o n)
      ++ first_place
          (write_dualshock4_touch_contact floats (o + 34) (contact_at floats n.touchpad_contacts 0))
      ++ first_place
          (write_dualshock4_touch_contact floats (o + 38) (contact_at floats n.touchpad_contacts 1))

  abbrev pub dualsense_places : ℕ → List ℕ
  dualsense_places o =
      0 ∷ (o + 7) ∷ map place (dualsense_buttons floats o n)
      ++ first_place
          (write_dualsense_touch_contact floats (o + 32) (contact_at floats n.touchpad_contacts 0))
      ++ first_place
          (write_dualsense_touch_contact floats (o + 36) (contact_at floats n.touchpad_contacts 1))

  -- Of a generic report the identifier and the word of buttons, of an Xbox One or Series report the word of
  -- buttons, the hat and the byte of the guide button. Other reports are never replaced.
  abbrev pub discrete_places : Config → Option (List ℕ)
  discrete_places c =
      if c.gamepad_kind == gamepad_generic
      then some (0 ∷ 1 ∷ 2 ∷ [])
      else if c.gamepad_kind == gamepad_xbox_one || c.gamepad_kind == gamepad_xbox_series
      then some (12 ∷ 13 ∷ 14 ∷ 15 ∷ [])
      else if c.gamepad_kind == gamepad_switch_pro
      then some (0 ∷ map place (switch_pro_buttons floats n))
      else if c.gamepad_kind == gamepad_dualshock4
      then some (dualshock4_places (if c.bus_type == bus_bluetooth then 3 else 1))
      else if c.gamepad_kind == gamepad_dualsense
      then some (dualsense_places (if c.bus_type == bus_bluetooth then 2 else 1))
      else none

module _ (P : ℕ → Type 0) where
  -- What holds at the first offsets holds at the second, which are there where the first are.
  abbrev Covers : Option (List ℕ) → Option (List ℕ) → Type 0
  Covers none places = Unit
  Covers (some offsets) none = ⊥
  Covers (some offsets) (some places) = All P offsets → All P places

  Covers-if :
      (b : Bool) (x x' y y' : Option (List ℕ))
      → Covers x y
      → Covers x' y'
      → Covers (if b then x else x') (if b then y else y')
  Covers-if true x x' y y' h k = h
  Covers-if false x x' y y' h k = k

  -- Numbers, each so many times in a row.
  abbrev runs : List (ℕ × ℕ) → List ℕ
  runs [] = []
  runs (r ∷ rs) = replicate r.0 r.1 ++ runs rs

  repeated-All : (m v : ℕ) (rest : List ℕ) → P v → All P rest → All P (replicate m v ++ rest)
  repeated-All zero v rest h k = k
  repeated-All (suc m) v rest h k = (h, repeated-All m v rest h k)

  runs-All : (rs : List (ℕ × ℕ)) → All (λ r. P r.1) rs → All P (runs rs)
  runs-All [] h = tt
  runs-All (r ∷ rs) h = repeated-All r.0 r.1 (runs rs) h.0 (runs-All rs h.1)

  module _ {F : Type 0} (floats : Floats F) (n : GamepadState F) where
    dualshock4-Covers :
        (o : ℕ)
        → All P (0 ∷ (o + 4) ∷ (o + 5) ∷ (o + 6) ∷ (o + 34) ∷ (o + 38) ∷ [])
        → All P (dualshock4_places floats n o)
    dualshock4-Covers o h =
        runs-All ((1, 0) ∷ (5, o + 4) ∷ (8, o + 5) ∷ (2, o + 6) ∷ (1, o + 34) ∷ (1, o + 38) ∷ []) h

    dualsense-Covers :
        (o : ℕ)
        → All P (0 ∷ (o + 7) ∷ (o + 8) ∷ (o + 9) ∷ (o + 32) ∷ (o + 36) ∷ [])
        → All P (dualsense_places floats n o)
    dualsense-Covers o h =
        runs-All ((1, 0) ∷ (5, o + 7) ∷ (8, o + 8) ∷ (3, o + 9) ∷ (1, o + 32) ∷ (1, o + 36) ∷ []) h

    switch_pro-Covers :
        All P (0 ∷ 3 ∷ 4 ∷ 5 ∷ []) → All P (0 ∷ map place (switch_pro_buttons floats n))
    switch_pro-Covers h = runs-All ((1, 0) ∷ (6, 3) ∷ (6, 4) ∷ (6, 5) ∷ []) h

    discrete_offsets-Covers :
        (c : Config) → Covers (discrete_offsets c) (discrete_places floats n c)
    unfolding discrete_offsets
    discrete_offsets-Covers c =
        Covers-if (c.gamepad_kind == gamepad_generic) _ _ _ _ (λ h. h)
          (Covers-if (c.gamepad_kind == gamepad_xbox_one || c.gamepad_kind == gamepad_xbox_series) _
            _ _ _ (λ h. h)
            (Covers-if (c.gamepad_kind == gamepad_switch_pro) _ _ _ _ switch_pro-Covers (
              Covers-if (c.gamepad_kind == gamepad_dualshock4) _ _ _ _
                (dualshock4-Covers (if c.bus_type == bus_bluetooth then 3 else 1))
                (Covers-if (c.gamepad_kind == gamepad_dualsense) _ _ _ _
                  (dualsense-Covers (if c.bus_type == bus_bluetooth then 2 else 1)) tt))))

    -- The places, with what holds at them.
    pub at_discrete_places :
        (c : Config) (offsets : List ℕ)
        → discrete_offsets c ≡ some offsets
        → All P offsets
        → (places : List ℕ) × (discrete_places floats n c ≡ some places) × All P places
    at_discrete_places c offsets e h =
        go (discrete_places floats n c)
          (subst (λ o. Covers o (discrete_places floats n c)) e (discrete_offsets-Covers c)) refl
      where
        go :
            (o : Option (List ℕ))
            → Covers (some offsets) o
            → discrete_places floats n c ≡ o
            → (places : List ℕ) × (discrete_places floats n c ≡ some places) × All P places
        go none f k = absurd f
        go (some places) f k = (places, k, f h)
