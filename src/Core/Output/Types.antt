-- ===== src/Core/Output/Types.antt =====
-- `GamepadOutput` of types.hpp.
use libvirtualhid.Base.{ℕ, Bool, false, List, replicate}
use libvirtualhid.Core.Types.{GamepadOutputKind}

-- The effects are arrays of 10, the lights arrays of 4.
pub record GamepadOutput : Type 0 where
  pub kind : GamepadOutputKind
  pub low_frequency_rumble : ℕ
  pub high_frequency_rumble : ℕ
  pub left_trigger_rumble : ℕ
  pub right_trigger_rumble : ℕ
  pub red : ℕ
  pub green : ℕ
  pub blue : ℕ
  pub adaptive_trigger_flags : ℕ
  pub left_trigger_effect_type : ℕ
  pub right_trigger_effect_type : ℕ
  pub left_trigger_effect : List ℕ
  pub right_trigger_effect : List ℕ
  pub raw_report : List ℕ
  pub player_leds : List Bool
  pub flashing_player_leds : List Bool

-- A fresh output that carries the report.
abbrev pub raw_output : List ℕ → GamepadOutput
raw_output report = record {
  kind = GamepadOutputKind.raw_report;
  low_frequency_rumble = 0;
  high_frequency_rumble = 0;
  left_trigger_rumble = 0;
  right_trigger_rumble = 0;
  red = 0;
  green = 0;
  blue = 0;
  adaptive_trigger_flags = 0;
  left_trigger_effect_type = 0;
  right_trigger_effect_type = 0;
  left_trigger_effect = replicate 10 0;
  right_trigger_effect = replicate 10 0;
  raw_report = report;
  player_leds = replicate 4 false;
  flashing_player_leds = replicate 4 false;
}
