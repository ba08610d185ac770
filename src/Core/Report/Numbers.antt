-- ===== src/Core/Report/Numbers.antt =====
-- What report.cpp uses of the arithmetic of floats, of the clocks, and of its static counters. The
-- arithmetic is a parameter: its operations are the hardware's and the C library's.
use libvirtualhid.Base.{ℕ, ◌-◌, ◌%◌, ◌^◌, Bool, ltb, if◌then◌else◌}
use libvirtualhid.Base.Int.{ℤ, pos, negsuc}

-- `literal n k` is the float n · 10^-k, `of_byte` the conversion of an integer, and `lround` the rounding
-- to an integer.
pub record Floats (F : Type 0) : Type 0 where
  pub is_nan : F → Bool
  pub less : F → F → Bool
  pub less_equal : F → F → Bool
  pub negate : F → F
  pub plus : F → F → F
  pub minus : F → F → F
  pub times : F → F → F
  pub divide : F → F → F
  pub pow : F → F → F
  pub pi : F
  pub literal : ℕ → ℕ → F
  pub of_byte : ℕ → F
  pub lround : F → ℤ

-- What a call of a packing function reads: the microseconds since its first call, the nanoseconds of the
-- steady clock, and the two counters before the call.
pub record Clocks : Type 0 where
  pub dualshock4_elapsed : ℕ
  pub dualsense_elapsed : ℕ
  pub sequence_number : ℕ
  pub packet_timer : ℕ

-- static_cast to an unsigned integer of w bits.
abbrev pub unsigned_of : ℕ → ℤ → ℕ
unsigned_of w (pos n) = n % 2 ^ w
unsigned_of w (negsuc n) = 2 ^ w - 1 - n % 2 ^ w

-- static_cast<std::int16_t>.
abbrev pub to_i16 : ℤ → ℤ
to_i16 z = let n = unsigned_of 16 z in if ltb n 32768 then pos n else negsuc (65535 - n)

module _ {F : Type 0} (floats : Floats F) where
  -- std::clamp.
  abbrev pub clamp : F → F → F → F
  clamp value low high =
      if floats.less value low then low else if floats.less high value then high else value

  abbrev pub number : ℕ → F
  number n = floats.literal n 0

  abbrev pub clamp_axis : F → F
  clamp_axis value =
      if floats.is_nan value then number 0 else clamp value (floats.negate (number 1)) (number 1)

  abbrev pub clamp_trigger : F → F
  clamp_trigger value = if floats.is_nan value then number 0 else clamp value (number 0) (number 1)

  -- The smallest and the largest value stand for themselves, so that the range of 16 bits is used whole.
  abbrev pub normalize_axis : F → ℤ
  normalize_axis value =
      let clamped = clamp_axis value in
      if floats.less_equal clamped (floats.negate (number 1))
      then negsuc 32767
      else if floats.less_equal (number 1) clamped
      then pos 32767
      else if floats.less clamped (number 0)
      then to_i16 (floats.lround (floats.times clamped (number 32768)))
      else to_i16 (floats.lround (floats.times clamped (number 32767)))

  abbrev pub normalize_trigger : F → ℕ
  normalize_trigger value =
      unsigned_of 8 (floats.lround (floats.times (clamp_trigger value) (number 255)))

  abbrev pub normalize_u10_trigger : F → ℕ
  normalize_u10_trigger value =
      unsigned_of 16 (floats.lround (floats.times (clamp_trigger value) (number 1023)))

  -- (clamp_axis(value) + 1) * scale, rounded.
  abbrev pub scaled_axis : F → F → ℤ
  scaled_axis value scale =
      floats.lround (floats.times (floats.plus (clamp_axis value) (number 1)) scale)

  abbrev pub normalize_unsigned_axis : F → ℕ
  normalize_unsigned_axis value = unsigned_of 16 (scaled_axis value (floats.literal 327675 1))

  abbrev pub normalize_u8_axis : F → ℕ
  normalize_u8_axis value = unsigned_of 8 (scaled_axis value (floats.literal 1275 1))

  abbrev pub normalize_switch_stick_axis : F → ℕ
  normalize_switch_stick_axis value = unsigned_of 16 (scaled_axis value (floats.literal 20475 1))

  -- The 16 bits of the int16 that the code computes.
  abbrev pub scale_i16 : F → F → ℕ
  scale_i16 value multiplier = unsigned_of 16 (
      floats.lround
        (clamp (floats.times value multiplier) (floats.negate (number 32768)) (number 32767)))

  abbrev pub scale_output_byte : ℕ → ℕ
  scale_output_byte value = unsigned_of 16 (
      floats.lround
        (floats.times (floats.divide (floats.of_byte value) (number 255)) (number 65535)))

  -- A byte that is a share of 100, as a share of `scale`.
  abbrev pub percent_of : ℕ → ℕ → ℤ
  percent_of percentage scale =
      floats.lround
        (floats.times (floats.divide (floats.of_byte percentage) (number 100)) (number scale))

  abbrev pub battery_charge : ℕ → ℕ
  battery_charge percentage =
      unsigned_of 8 (floats.lround (floats.divide (floats.of_byte percentage) (number 10)))
