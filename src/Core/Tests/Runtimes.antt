-- ===== src/Core/Tests/Runtimes.antt =====
-- A runtime whose backend counts the devices it was asked for, at concrete creations.
use libvirtualhid.Base.{ℕ, ◌+◌, ◌≡◌, ◌⊎◌, ◌↔◌, refl, true, false, none, some, List, [], ◌∷◌, arith}
use libvirtualhid.Core.Status.{ErrorCode, success, failure, is_ok}
use libvirtualhid.Core.Types.{DeviceType}
use libvirtualhid.Core.Logger.{Logger}
use libvirtualhid.Core.Options.{CreateGamepadOptions, CreateMouseOptions, validate_profile}
use libvirtualhid.Core.Options.Viewport.{
  validate_mouse_options, validate_mouse_options_iff, BoundsAreValid,
}
use libvirtualhid.Core.Runtime.Create.{
  Backend, BackendCreationResult, Registered, Runtime, create, create_runtime, validate,
}
use libvirtualhid.Core.Runtime.Create.Outcome.{Outcome, IsRejected, create-IsDecided}
use libvirtualhid.Core.Runtime.Active.{
  active_device_count, close_all, active_device_count-close_all, active_device_count-create,
}
use libvirtualhid.Core.Runtime.Unique.{IsUnique}
use libvirtualhid.Core.Runtime.Runs.{RuntimeCall, run, run-create_runtime-IsUnique}
use libvirtualhid.Core.Tests.{count_call, profile, view}

abbrev ask : {O : Type 0} → ℕ → ℕ → O → ℕ × BackendCreationResult ℕ
ask n id options = (n + 1, record { status = success; device = some id })

-- The backend refuses gamepads.
abbrev backend : Backend ℕ ℕ (λ k. ℕ) (λ k. ℕ)
backend = record {
  create_gamepad = λ n id options. (
    n + 1,
    record {
      status = failure ErrorCode.backend_failure "no";
      gamepad = none;
      effective_profile = none;
    },
  );
  create_keyboard = ask;
  create_mouse = ask;
  create_touchscreen = ask;
  create_trackpad = ask;
  create_pen_tablet = ask;
  close = λ k b. count_call b;
  blank = λ k. 0;
  throws = λ level message. false;
  created_mouse = λ id. "created mouse";
}

abbrev log : Logger
log = record { installed = true; callback_failed = false; delivered = [] }

abbrev mouse_options : CreateMouseOptions
mouse_options = record {
  profile = profile DeviceType.mouse;
  stable_id = "";
  desktop = view 0 100;
  viewport = view 10 50;
}

abbrev pad_options : CreateGamepadOptions ℕ
pad_options = record { profile = profile DeviceType.gamepad; metadata = 0 }

abbrev fresh : Runtime ℕ ℕ (λ k. ℕ) (λ k. ℕ)
fresh = create_runtime backend.throws log "test" 0

abbrev with_mouse : Runtime ℕ ℕ (λ k. ℕ) (λ k. ℕ)
with_mouse = (create backend DeviceType.mouse mouse_options fresh).0

active_device_count-close_all_example : active_device_count (close_all backend.close with_mouse) ≡ 0
active_device_count-close_all_example = active_device_count-close_all backend.close with_mouse

active_device_count-create_example :
    (((create backend DeviceType.gamepad pad_options with_mouse).2 ≡ none)
      × (active_device_count (create backend DeviceType.gamepad pad_options with_mouse).0
          ≡ active_device_count with_mouse))
    ⊎ (((create backend DeviceType.gamepad pad_options with_mouse).2
          ≡ some with_mouse.next_device_id)
        × ((create backend DeviceType.gamepad pad_options with_mouse).1 ≡ success)
        × (active_device_count (create backend DeviceType.gamepad pad_options with_mouse).0
            ≡ active_device_count with_mouse + 1))
active_device_count-create_example =
    active_device_count-create backend DeviceType.gamepad pad_options with_mouse

abbrev keyboard_options : CreateGamepadOptions ℕ
keyboard_options = record { profile = profile DeviceType.keyboard; metadata = 0 }

create-IsDecided_example :
    Outcome DeviceType.gamepad with_mouse
      (create backend DeviceType.gamepad keyboard_options with_mouse)
    × ((is_ok (validate backend DeviceType.gamepad keyboard_options) ≡ true)
        ⊎ IsRejected backend DeviceType.gamepad keyboard_options with_mouse
            (create backend DeviceType.gamepad keyboard_options with_mouse))
create-IsDecided_example = create-IsDecided backend DeviceType.gamepad keyboard_options with_mouse

validate_mouse_options_iff_example : (is_ok (validate_mouse_options mouse_options) ≡ true) ↔ (
    (is_ok (validate_profile DeviceType.mouse "device profile is not a mouse" mouse_options.profile)
      ≡ true)
    × BoundsAreValid mouse_options.desktop mouse_options.viewport)
validate_mouse_options_iff_example = validate_mouse_options_iff mouse_options

-- A method that moves the backend's object.
abbrev poke :
    (k : DeviceType) → ℕ → Registered ℕ (λ k. ℕ) (λ k. ℕ) k → Registered ℕ (λ k. ℕ) (λ k. ℕ) k
poke k c d = record d { backend = some c; submitted = d.submitted + 1 }

abbrev calls : List (RuntimeCall ℕ (λ k. ℕ))
calls =
    RuntimeCall.creates DeviceType.mouse mouse_options
    ∷ RuntimeCall.calls DeviceType.mouse 0 4
    ∷ RuntimeCall.creates DeviceType.mouse mouse_options
    ∷ RuntimeCall.drops DeviceType.mouse 0
    ∷ RuntimeCall.closes_all
    ∷ []

run-create_runtime-IsUnique_example :
    IsUnique (run backend poke (create_runtime backend.throws log "test" 0) calls)
run-create_runtime-IsUnique_example =
    run-create_runtime-IsUnique backend poke (λ k c d. refl) log "test" 0 calls (omega arith)
