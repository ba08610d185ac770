-- ===== src/Core/Adapter.antt =====
-- `GamepadProfileSupport` and `GamepadStateAdapter` of gamepad_adapter.hpp and gamepad_adapter.cpp.
pub mod Support
pub mod Methods
pub mod Laws
pub mod Guards
pub mod Creation
use Prim.Native.String.{String}
use libvirtualhid.Base.{ℕ, Option, none, some}
use libvirtualhid.Core.Status.{OperationStatus, ErrorCode, success, failure, is_ok}
use libvirtualhid.Core.Types.{GamepadState}
use libvirtualhid.Core.Gamepad.{GamepadDevice}
use libvirtualhid.Core.Adapter.Support.{GamepadProfileSupport}

-- The owned gamepad, the state that is submitted as a whole, and what the profile supports.
pub record GamepadStateAdapter (B M F K : Type 0) : Type 0 where
  pub gamepad : Option (GamepadDevice B M F K)
  pub state : GamepadState F
  pub support : GamepadProfileSupport

abbrev pub missing_gamepad : OperationStatus
missing_gamepad = failure ErrorCode.device_closed "gamepad adapter has no owned gamepad"

abbrev pub unsupported_feature : String → OperationStatus
unsupported_feature feature = failure ErrorCode.unsupported_profile feature
