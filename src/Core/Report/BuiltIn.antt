-- ===== src/Core/Report/BuiltIn.antt =====
-- The reports of the built-in profiles, against their HID descriptors, and what a gamepad with such a
-- profile submits.
use libvirtualhid.Base.{
  ℕ, ◌+◌, ◌*◌, ◌<◌, ◌≡◌, refl, subst, true, false, Option, none, some, List, [], ◌∷◌, is_empty,
  length, arith,
}
use libvirtualhid.Core.Types.{DeviceProfile, GamepadProfileKind, GamepadState}
use libvirtualhid.Core.Profiles.{gamepad_profile}
use libvirtualhid.Core.Profiles.Hid.{input_item, report_bits, header_bytes}
use libvirtualhid.Core.Profiles.Sizes.{DeclaresInput, kind-Declares}
use libvirtualhid.Core.Gamepad.{BackendGamepad, GamepadDevice, submit, submit_report}
use libvirtualhid.Core.Report.Numbers.{Floats, Clocks}
use libvirtualhid.Core.Report.Normalize.{normalize_state}
use libvirtualhid.Core.Report.Laws.{Fits, is_small, pack_input_report-Fits}
use libvirtualhid.Core.Report.{pack_input_report, reports_at}

-- What the packing functions need of a profile.
abbrev pub IsPackable : Option DeviceProfile → Type 0
IsPackable none = ⊥
IsPackable (some p) =
    (is_small p ≡ false) × (p.report_id < 256) × (0 < p.input_report_size) × DeclaresInput p

kind-IsPackable : (kind : GamepadProfileKind) → IsPackable (gamepad_profile kind)
unfolding gamepad_profile
kind-IsPackable GamepadProfileKind.generic =
    (refl, omega arith, omega arith, (kind-Declares GamepadProfileKind.generic).0)
kind-IsPackable GamepadProfileKind.xbox_360 =
    (refl, omega arith, omega arith, (kind-Declares GamepadProfileKind.xbox_360).0)
kind-IsPackable GamepadProfileKind.xbox_one =
    (refl, omega arith, omega arith, (kind-Declares GamepadProfileKind.xbox_one).0)
kind-IsPackable GamepadProfileKind.xbox_series =
    (refl, omega arith, omega arith, (kind-Declares GamepadProfileKind.xbox_series).0)
kind-IsPackable GamepadProfileKind.dualsense =
    (refl, omega arith, omega arith, (kind-Declares GamepadProfileKind.dualsense).0)
kind-IsPackable GamepadProfileKind.switch_pro =
    (refl, omega arith, omega arith, (kind-Declares GamepadProfileKind.switch_pro).0)
kind-IsPackable GamepadProfileKind.dualshock4 =
    (refl, omega arith, omega arith, (kind-Declares GamepadProfileKind.dualshock4).0)

is_empty_of_length : (xs : List ℕ) (n : ℕ) → length xs ≡ n → 0 < n → is_empty xs ≡ false
is_empty_of_length [] n e h = absurd (omega arith)
is_empty_of_length (x ∷ xs) n e h = refl

module _ {B M F K : Type 0} (floats : Floats F) (clocks : Clocks)
    (backend : BackendGamepad B F K) where
  -- An open gamepad with the built-in profile of a kind never fails to pack a report: `submit` hands the
  -- backend the normalized state with the packed report, and that report has exactly the bytes that the
  -- profile's HID descriptor declares for its input report.
  pub submit_built_in :
      (kind : GamepadProfileKind) (d : GamepadDevice B M F K) (state : GamepadState F)
      → gamepad_profile kind ≡ some d.options.profile
      → d.is_open ≡ true
      → (submit (reports_at floats clocks) backend d state
          ≡ submit_report
              (reports_at floats clocks)
              backend
              d
              (normalize_state floats state)
              (pack_input_report floats clocks d.options.profile state))
        × (8 * length (pack_input_report floats clocks d.options.profile state)
            ≡ report_bits input_item d.options.profile.report_id d.options.profile.report_descriptor
              + 8 * header_bytes d.options.profile.report_id)
  unfolding submit
  submit_built_in kind d state e opened =
      let p = d.options.profile in
      let packable : IsPackable (some p) = subst IsPackable e (kind-IsPackable kind) in
      let fits : Fits false p.input_report_size (pack_input_report floats clocks p state) =
        subst (λ b. Fits b p.input_report_size (pack_input_report floats clocks p state)) packable.0
          (pack_input_report-Fits floats clocks p state packable.1) in
      let filled =
        is_empty_of_length (pack_input_report floats clocks p state) p.input_report_size fits.0
          packable.2 in
      (simp (opened, filled), omega (arith, packable.3, fits.0))
