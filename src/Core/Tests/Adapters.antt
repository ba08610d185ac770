-- ===== src/Core/Tests/Adapters.antt =====
-- An adapter of a gamepad without motion sensors and rear paddles, at concrete calls.
use libvirtualhid.Base.{ℕ, ◌≡◌, ◌↔◌, refl, true, some}
use libvirtualhid.Core.Status.{success, ErrorCode}
use libvirtualhid.Core.Types.{DeviceType}
use libvirtualhid.Core.Options.{same_type}
use libvirtualhid.Core.Gamepad.{submit, submit_report}
use libvirtualhid.Core.Device.{record_event, call_backend}
use libvirtualhid.Core.Buttons.{GamepadButton}
use libvirtualhid.Core.Adapter.{GamepadStateAdapter}
use libvirtualhid.Core.Adapter.Support.{
  gamepad_profile_support, Needs, supports_gamepad_button, supports_gamepad_button_iff,
}
use libvirtualhid.Core.Adapter.Methods.{
  create_adapter, AdapterCall, adapter_step, submit_state, submit_to, set_left_trigger,
  clear_motion, guarded,
}
use libvirtualhid.Core.Adapter.Laws.{IsSubmitted, adapter_step-IsSubmitted}
use libvirtualhid.Core.Adapter.Guards.{IsGuarded, adapter_step-IsGuarded}
use libvirtualhid.Core.Adapter.Creation.{Created, create_adapter-Created}
use libvirtualhid.Core.Tests.{pad, pad_backend, pad_state, profile, reports}

abbrev adapter : GamepadStateAdapter ℕ ℕ ℕ ℕ
adapter = record {
  gamepad = some (pad true 1);
  state = pad_state;
  support = gamepad_profile_support (profile DeviceType.gamepad);
}

adapter_step-IsGuarded_example :
    IsGuarded adapter AdapterCall.clears_motion
      (adapter_step reports pad_backend 0 adapter AdapterCall.clears_motion)
adapter_step-IsGuarded_example =
    adapter_step-IsGuarded reports pad_backend 0 adapter AdapterCall.clears_motion

-- The pad has no motion sensors.
refused_motion :
    (adapter_step reports pad_backend 0 adapter AdapterCall.clears_motion).1.code
    ≡ ErrorCode.unsupported_profile
unfolding adapter_step clear_motion guarded gamepad_profile_support
refused_motion = refl

adapter_step-IsSubmitted_example :
    IsSubmitted reports
      (adapter_step reports pad_backend 0 adapter (AdapterCall.sets_left_trigger 8))
unfolding adapter_step set_left_trigger submit_state submit_to submit submit_report record_event
    call_backend
adapter_step-IsSubmitted_example =
    adapter_step-IsSubmitted reports pad_backend 0 adapter (AdapterCall.sets_left_trigger 8) refl

supports_gamepad_button_iff_example :
    (supports_gamepad_button (profile DeviceType.gamepad) GamepadButton.touchpad ≡ true) ↔ (
      (same_type (profile DeviceType.gamepad).device_type DeviceType.gamepad ≡ true)
      × Needs (profile DeviceType.gamepad) GamepadButton.touchpad)
supports_gamepad_button_iff_example =
    supports_gamepad_button_iff (profile DeviceType.gamepad) GamepadButton.touchpad

-- The backend fails at the gamepad's third call.
create_adapter-Created_example :
    Created reports pad_backend
      (create_adapter reports pad_backend pad_state (success, some (pad true 3)))
create_adapter-Created_example = create_adapter-Created reports pad_backend pad_state (pad true 3)
