-- ===== src/Core/Adapter/Methods.antt =====
-- The methods of `GamepadStateAdapter` in gamepad_adapter.cpp.
use Prim.Native.String.{String}
use libvirtualhid.Base.{ℕ, Bool, false, not, Option, none, some, length, set, leb, if◌then◌else◌}
use mathlib.Core.Option
use libvirtualhid.Core.Status.{OperationStatus, ErrorCode, success, failure, is_ok}
use libvirtualhid.Core.Types.{GamepadState, GamepadTouchContact, GamepadBattery, Stick, Vector3}
use libvirtualhid.Core.Gamepad.{
  GamepadDevice, BackendGamepad, Reports, submit, close_gamepad, set_output_callback,
  dispatch_output,
}
use libvirtualhid.Core.Buttons.{GamepadButton, set_button}
use libvirtualhid.Core.Adapter.{GamepadStateAdapter, missing_gamepad, unsupported_feature}
use libvirtualhid.Core.Adapter.Support.{
  no_support, gamepad_profile_support, supports_gamepad_button,
}

pub data AdapterCall (F : Type 0) : Type 0 where
  submits : AdapterCall F
  sets_state : GamepadState F → AdapterCall F
  sets_button : GamepadButton → Bool → AdapterCall F
  sets_left_stick sets_right_stick : Stick F → AdapterCall F
  sets_left_trigger sets_right_trigger : F → AdapterCall F
  sets_acceleration sets_gyroscope : Option (Vector3 F) → AdapterCall F
  sets_motion : Vector3 F → Vector3 F → AdapterCall F
  clears_motion : AdapterCall F
  sets_battery : GamepadBattery → AdapterCall F
  clears_battery : AdapterCall F
  sets_touchpad_contact : ℕ → GamepadTouchContact F → AdapterCall F
  clears_touchpad_contact : ℕ → AdapterCall F

abbrev motion_message : String
motion_message = "selected gamepad profile cannot expose motion sensor input"

abbrev battery_message : String
battery_message = "selected gamepad profile cannot expose battery input"

abbrev touchpad_message : String
touchpad_message = "selected gamepad profile cannot expose touchpad input"

abbrev pub Result : Type 0 → Type 0 → Type 0 → Type 0 → Type 0
Result B M F K = GamepadStateAdapter B M F K × OperationStatus

module _ {B M F K : Type 0} where
  -- The check of the gamepad, then that of the feature, then the rest of the method.
  unfoldable pub guarded :
      Option (GamepadDevice B M F K)
      → Bool
      → String
      → GamepadStateAdapter B M F K
      → Result B M F K
      → Result B M F K
  guarded none supported message a rest = (a, missing_gamepad)
  guarded (some g) supported message a rest =
      if supported then rest else (a, unsupported_feature message)

  pub button_supported : Option (GamepadDevice B M F K) → GamepadButton → Bool
  button_supported none button = false
  button_supported (some g) button = supports_gamepad_button g.options.profile button

module _ {B M F K : Type 0} (reports : Reports F) (backend : BackendGamepad B F K) where
  unfoldable pub submit_to :
      Option (GamepadDevice B M F K) → GamepadStateAdapter B M F K → Result B M F K
  submit_to none a = (a, missing_gamepad)
  submit_to (some g) a =
      let (g', status) = submit reports backend g a.state in
      (record a { gamepad = some g' }, status)

  unfoldable pub submit_state : GamepadStateAdapter B M F K → Result B M F K
  unfolding submit_to
  submit_state a = submit_to a.gamepad a

  unfoldable pub set_state : GamepadStateAdapter B M F K → GamepadState F → Result B M F K
  set_state a state = submit_state (record a { state = state })

  unfoldable pub press_button : GamepadStateAdapter B M F K → GamepadButton → Bool → Result B M F K
  unfolding guarded button_supported
  press_button a button pressed =
      guarded a.gamepad (button_supported a.gamepad button)
        "selected gamepad profile cannot expose the requested button" a
        (submit_state (record a {
          state = record a.state { buttons = set_button a.state.buttons button pressed };
        }))

  unfoldable pub set_left_stick : GamepadStateAdapter B M F K → Stick F → Result B M F K
  set_left_stick a stick = submit_state (record a { state = record a.state { left_stick = stick } })

  unfoldable pub set_right_stick : GamepadStateAdapter B M F K → Stick F → Result B M F K
  set_right_stick a stick =
      submit_state (record a { state = record a.state { right_stick = stick } })

  unfoldable pub set_left_trigger : GamepadStateAdapter B M F K → F → Result B M F K
  set_left_trigger a value =
      submit_state (record a { state = record a.state { left_trigger = value } })

  unfoldable pub set_right_trigger : GamepadStateAdapter B M F K → F → Result B M F K
  set_right_trigger a value =
      submit_state (record a { state = record a.state { right_trigger = value } })

  unfoldable pub set_acceleration :
      GamepadStateAdapter B M F K → Option (Vector3 F) → Result B M F K
  unfolding guarded
  set_acceleration a acceleration =
      guarded a.gamepad a.support.supports_motion motion_message a
        (submit_state (record a { state = record a.state { acceleration = acceleration } }))

  unfoldable pub set_gyroscope : GamepadStateAdapter B M F K → Option (Vector3 F) → Result B M F K
  unfolding guarded
  set_gyroscope a gyroscope =
      guarded a.gamepad a.support.supports_motion motion_message a
        (submit_state (record a { state = record a.state { gyroscope = gyroscope } }))

  unfoldable pub set_motion : GamepadStateAdapter B M F K → Vector3 F → Vector3 F → Result B M F K
  unfolding guarded
  set_motion a acceleration gyroscope =
      guarded a.gamepad a.support.supports_motion motion_message a (
        submit_state (record a {
          state = record a.state { acceleration = some acceleration; gyroscope = some gyroscope };
        }))

  unfoldable pub clear_motion : GamepadStateAdapter B M F K → Result B M F K
  unfolding guarded
  clear_motion a =
      guarded a.gamepad a.support.supports_motion motion_message a (
        submit_state
          (record a { state = record a.state { acceleration = none; gyroscope = none } }))

  unfoldable pub set_battery : GamepadStateAdapter B M F K → GamepadBattery → Result B M F K
  unfolding guarded
  set_battery a battery =
      guarded a.gamepad a.support.supports_battery battery_message a
        (submit_state (record a { state = record a.state { battery = some battery } }))

  unfoldable pub clear_battery : GamepadStateAdapter B M F K → Result B M F K
  unfolding guarded
  clear_battery a =
      guarded a.gamepad a.support.supports_battery battery_message a
        (submit_state (record a { state = record a.state { battery = none } }))

  -- The index is checked after the feature.
  unfoldable pub write_contact :
      GamepadStateAdapter B M F K → ℕ → GamepadTouchContact F → Result B M F K
  unfolding guarded
  write_contact a index contact = guarded a.gamepad a.support.supports_touchpad touchpad_message a (
      if leb (length a.state.touchpad_contacts) index
      then (a, failure ErrorCode.invalid_argument "touchpad contact index is out of range")
      else submit_state (record a {
        state = record a.state { touchpad_contacts = set a.state.touchpad_contacts index contact };
      }))

  unfoldable pub set_touchpad_contact :
      GamepadStateAdapter B M F K → ℕ → GamepadTouchContact F → Result B M F K
  unfolding write_contact
  set_touchpad_contact a index contact = write_contact a index contact

  -- `zero` is the float 0.
  unfoldable pub clear_touchpad_contact : F → GamepadStateAdapter B M F K → ℕ → Result B M F K
  unfolding write_contact
  clear_touchpad_contact zero a index =
      write_contact a index (record { id = 0; active = false; x = zero; y = zero })

  pub set_adapter_callback : GamepadStateAdapter B M F K → Option K → GamepadStateAdapter B M F K
  set_adapter_callback a callback = record a {
    gamepad = Option.map (λ g. set_output_callback reports backend g callback) a.gamepad;
  }

  dispatch_to : Option (GamepadDevice B M F K) → OperationStatus × Option K
  dispatch_to none = (missing_gamepad, none)
  dispatch_to (some g) = dispatch_output reports backend g

  pub dispatch_adapter_output : GamepadStateAdapter B M F K → OperationStatus × Option K
  unfolding dispatch_to
  dispatch_adapter_output a = dispatch_to a.gamepad

  unfoldable pub close_owned :
      Option (GamepadDevice B M F K) → GamepadStateAdapter B M F K → Result B M F K
  close_owned none a = (a, missing_gamepad)
  close_owned (some g) a =
      let (g', status) = close_gamepad reports backend g in (record a { gamepad = some g' }, status)

  unfoldable pub close_adapter : GamepadStateAdapter B M F K → Result B M F K
  unfolding close_owned
  close_adapter a = close_owned a.gamepad a

  -- The constructor, with the default state.
  unfoldable pub new_adapter :
      GamepadState F → Option (GamepadDevice B M F K) → GamepadStateAdapter B M F K
  new_adapter blank none = record { gamepad = none; state = blank; support = no_support }
  new_adapter blank (some g) = record {
    gamepad = some g;
    state = blank;
    support = gamepad_profile_support g.options.profile;
  }

  -- `GamepadStateAdapter::create`, from what `Runtime::create_gamepad` returned: the status, whether
  -- there is an adapter, and the adapter that was made.
  unfoldable pub create_adapter :
      GamepadState F
      → OperationStatus × Option (GamepadDevice B M F K)
      → OperationStatus × Option (GamepadStateAdapter B M F K) × Option (GamepadDevice B M F K)
  create_adapter blank (status, none) = (status, none, none)
  create_adapter blank (status, some g) =
      if not (is_ok status)
      then (status, none, some g)
      else (let (a, submitted) = submit_state (new_adapter blank (some g)) in
          if is_ok submitted
          then (success, some a, a.gamepad)
          else (submitted, none, (close_adapter a).0.gamepad))

  -- Each method that sets a part of the state.
  unfoldable pub adapter_step : F → GamepadStateAdapter B M F K → AdapterCall F → Result B M F K
  adapter_step zero a submits = submit_state a
  adapter_step zero a (sets_state state) = set_state a state
  adapter_step zero a (sets_button button pressed) = press_button a button pressed
  adapter_step zero a (sets_left_stick stick) = set_left_stick a stick
  adapter_step zero a (sets_right_stick stick) = set_right_stick a stick
  adapter_step zero a (sets_left_trigger value) = set_left_trigger a value
  adapter_step zero a (sets_right_trigger value) = set_right_trigger a value
  adapter_step zero a (sets_acceleration acceleration) = set_acceleration a acceleration
  adapter_step zero a (sets_gyroscope gyroscope) = set_gyroscope a gyroscope
  adapter_step zero a (sets_motion acceleration gyroscope) = set_motion a acceleration gyroscope
  adapter_step zero a clears_motion = clear_motion a
  adapter_step zero a (sets_battery battery) = set_battery a battery
  adapter_step zero a clears_battery = clear_battery a
  adapter_step zero a (sets_touchpad_contact index contact) = set_touchpad_contact a index contact
  adapter_step zero a (clears_touchpad_contact index) = clear_touchpad_contact zero a index
