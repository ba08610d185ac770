-- ===== src/Core.antt =====
-- The portable core of the library: src/core and src/include/libvirtualhid.
pub mod Status
pub mod Types
pub mod Device
pub mod Keyboard
pub mod Touch
pub mod Touchscreen
pub mod Trackpad
pub mod Pen
pub mod Logger
pub mod Mouse
pub mod Gamepad
pub mod Options
pub mod Runtime
pub mod Buttons
pub mod Adapter
pub mod Profiles
pub mod Report
pub mod Output
pub mod Tests
