-- ===== src/Core/Output/Switch.antt =====
-- The output reports of a Switch Pro controller, of report.cpp.
use libvirtualhid.Base.{
  ℕ, ◌+◌, ◌-◌, ◌*◌, ◌/◌, ◌^◌, ◌==◌, ◌&&◌, ◌||◌, Bool, not, List, [], ◌∷◌, ◌++◌, map, Option, none,
  some, get_or, if◌then◌else◌, leb, ltb, length, max,
}
use libvirtualhid.Core.Types.{GamepadOutputKind}
use libvirtualhid.Core.Report.Numbers.{Floats, number, unsigned_of}
use libvirtualhid.Core.Report.Bytes.{has_flag}
use libvirtualhid.Core.Output.Types.{GamepadOutput, raw_output}

abbrev pub switch_rumble_amplitudes : List ℕ
switch_rumble_amplitudes =
    0 ∷ 514 ∷ 775 ∷ 921 ∷ 1096 ∷ 1303 ∷ 1550 ∷ 1843 ∷ 2192 ∷ 2606 ∷ 3100 ∷ 3686 ∷ 4383 ∷ 5213 ∷ 6199
    ∷ 7372 ∷ 7698 ∷ 8039 ∷ 8395 ∷ 8767 ∷ 9155 ∷ 9560 ∷ 9984 ∷ 10426 ∷ 10887 ∷ 11369 ∷ 11873 ∷ 12398
    ∷ 12947 ∷ 13520 ∷ 14119 ∷ 14744 ∷ 15067 ∷ 15397 ∷ 15734 ∷ 16079 ∷ 16431 ∷ 16790 ∷ 17158 ∷ 17534
    ∷ 17918 ∷ 18310 ∷ 18711 ∷ 19121 ∷ 19540 ∷ 19967 ∷ 20405 ∷ 20851 ∷ 21308 ∷ 21775 ∷ 22251 ∷ 22739
    ∷ 23236 ∷ 23745 ∷ 24265 ∷ 24797 ∷ 25340 ∷ 25894 ∷ 26462 ∷ 27041 ∷ 27633 ∷ 28238 ∷ 28856 ∷ 29488
    ∷ 30134 ∷ 30794 ∷ 31468 ∷ 32157 ∷ 32861 ∷ 33581 ∷ 34316 ∷ 35068 ∷ 35836 ∷ 36620 ∷ 37422 ∷ 38242
    ∷ 39079 ∷ 39935 ∷ 40809 ∷ 41703 ∷ 42616 ∷ 43549 ∷ 44503 ∷ 45477 ∷ 46473 ∷ 47491 ∷ 48531 ∷ 49593
    ∷ 50679 ∷ 51789 ∷ 52923 ∷ 54082 ∷ 55266 ∷ 56476 ∷ 57713 ∷ 58977 ∷ 60268 ∷ 61588 ∷ 62936 ∷ 64315
    ∷ 65535 ∷ []

pub record SwitchRumbleAmplitude : Type 0 where
  pub low_frequency : ℕ
  pub high_frequency : ℕ

-- Clearing the lowest bit and halving is halving.
abbrev pub decode_switch_rumble_frame : List ℕ → ℕ → Option SwitchRumbleAmplitude
decode_switch_rumble_frame report offset =
    let high_frequency_index = get_or report (offset + 1) 0 / 2 in
    let low_frequency_value = get_or report (offset + 3) 0 in
    let low_frequency_index =
      (low_frequency_value - 0x40) * 2
      + (if has_flag (get_or report (offset + 2) 0) 0x80 then 1 else 0) in
    if leb (length switch_rumble_amplitudes) high_frequency_index
      || ltb low_frequency_value 0x40
      || ltb 0x72 low_frequency_value
    then none
    else if leb (length switch_rumble_amplitudes) low_frequency_index
    then none
    else some (record {
      low_frequency = get_or switch_rumble_amplitudes low_frequency_index 0;
      high_frequency = get_or switch_rumble_amplitudes high_frequency_index 0;
    })

abbrev pub strongest :
    Option SwitchRumbleAmplitude → Option SwitchRumbleAmplitude → Option SwitchRumbleAmplitude
strongest (some left) (some right) = some (record {
  low_frequency = max left.low_frequency right.low_frequency;
  high_frequency = max left.high_frequency right.high_frequency;
})
strongest _ _ = none

unfoldable pub decode_switch_rumble_report : List ℕ → Option SwitchRumbleAmplitude
decode_switch_rumble_report report =
    if ltb (length report) 10
      || (not (get_or report 0 0 == 0x01) && not (get_or report 0 0 == 0x10))
    then none
    else strongest (decode_switch_rumble_frame report 2) (decode_switch_rumble_frame report 6)

-- The four lights at bits `first` to `first + 3`.
abbrev pub lights : ℕ → ℕ → List Bool
lights value first = map (λ i. has_flag value (2 ^ (i + first))) (0 ∷ 1 ∷ 2 ∷ 3 ∷ [])

-- Whether a report is a subcommand of at least `size` bytes.
abbrev pub is_subcommand : List ℕ → ℕ → ℕ → Bool
is_subcommand report size subcommand =
    leb size (length report) && get_or report 0 0 == 0x01 && get_or report 10 0 == subcommand

abbrev pub rumble_outputs : List ℕ → Option SwitchRumbleAmplitude → List GamepadOutput
rumble_outputs report none = []
rumble_outputs report (some rumble) =
    (record (raw_output report) {
      kind = GamepadOutputKind.rumble;
      low_frequency_rumble = rumble.low_frequency;
      high_frequency_rumble = rumble.high_frequency;
    })
    ∷ []

module _ {F : Type 0} (floats : Floats F) where
  unfoldable pub decode_switch_home_light_intensity : ℕ → ℕ
  decode_switch_home_light_intensity encoded_intensity =
      let intensity = encoded_intensity / 16 in
      let normalized =
        floats.divide (floats.minus (floats.of_byte intensity) (floats.literal 5 1))
          (number floats 15) in
      if intensity == 0
      then 0
      else if leb intensity 6
      then unsigned_of 8
          (floats.lround (floats.times (floats.of_byte intensity) (floats.literal 255 1)))
      else if intensity == 15
      then 255
      else unsigned_of 8 (
          floats.lround (
            floats.times
              (floats.pow normalized (floats.divide (number floats 1) (floats.literal 213 2)))
              (number floats 255)))

  abbrev pub rumble_output : List ℕ → List GamepadOutput
  rumble_output report = rumble_outputs report (decode_switch_rumble_report report)

  abbrev pub player_lights_output : List ℕ → List GamepadOutput
  player_lights_output report =
      if is_subcommand report 12 0x30
      then (record (raw_output report) {
        kind = GamepadOutputKind.player_leds;
        player_leds = lights (get_or report 11 0) 0;
        flashing_player_leds = lights (get_or report 11 0) 4;
      })
        ∷ []
      else []

  abbrev pub home_light_output : List ℕ → List GamepadOutput
  home_light_output report =
      let intensity = decode_switch_home_light_intensity (get_or report 12 0) in
      if is_subcommand report 15 0x38
      then (record (raw_output report) {
        kind = GamepadOutputKind.rgb_led;
        red = intensity;
        green = intensity;
        blue = intensity;
      })
        ∷ []
      else []

  -- The outputs that the function appends to.
  abbrev pub append_switch_pro_outputs : List ℕ → List GamepadOutput
  append_switch_pro_outputs report =
      rumble_output report ++ player_lights_output report ++ home_light_output report
