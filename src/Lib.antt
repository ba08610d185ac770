-- ===== src/Lib.antt =====
-- A model of libvirtualhid, the library that makes virtual gamepads, keyboards, mice, touchscreens,
-- trackpads and pen tablets, and the theorems about it.
--
-- The portable core (src/core, src/include/libvirtualhid) is a runtime that makes devices through a backend
-- of the platform, handles of single devices, and an adapter that keeps the state of a gamepad. On
-- Windows a driver shows the reports to the system: it queues input reports for the virtual HID
-- framework, and it turns the output reports of force feedback into rumble.
--
-- Base: lists, Boolean tests, signed integers and binary digits over the native numbers.
--
-- Core/Status, Core/Types, Core/Options: the data of types.hpp, and the validate_..._options functions of
-- runtime.cpp; Core/Options/Viewport is validate_mouse_options. Floating-point values are of a type F,
-- which the devices only pass on.
-- Core/Device: what the six devices of runtime.cpp share, with the laws of their methods in
-- Core/Device/Laws and, for all of them, Core/Device/All. Core/Keyboard, Core/Mouse, Core/Touch, Core/Touchscreen, Core/Trackpad, Core/Pen and
-- Core/Gamepad: the methods of each class, one function per method, and all of them as one step. A
-- call holds the device's mutex from its start to its end, so a call is one step. The backend's object is a
-- state that each call of the backend turns into another, with a status, by functions that are
-- parameters. What a gamepad uses of report.cpp is a record of two functions, which Core/Report fills; the
-- standard library's formatting is a parameter.
-- Core/Logger: the Logger of runtime.cpp; whether the consumer's callback throws is a parameter.
-- Core/Runtime: RuntimeState. Core/Runtime/Registry: count_open_devices and close_devices on one list of
-- weak pointers, in which an expired pointer is none. Core/Runtime/Create: the create_... methods;
-- Core/Runtime/Active: active_device_count and close_all; Core/Runtime/Unique, Core/Runtime/Runs: the ids
-- of the devices over sequences of calls. The overloads that fill in a default profile only build
-- options and are left out. Two threads in a create_... method take their ids one after the other, and the
-- model runs such calls one after the other.
-- Core/Buttons: GamepadButton and ButtonSet of types.cpp, with the 32 bits as a native number;
-- Core/Buttons/Laws has its theorem.
-- Core/Adapter: gamepad_adapter.cpp; Core/Adapter/Support says what a profile supports,
-- Core/Adapter/Methods has the methods of GamepadStateAdapter, Core/Adapter/Laws,
-- Core/Adapter/Guards and Core/Adapter/Creation the theorems.
-- Core/Profiles: the built-in profiles of profiles.cpp. Their report descriptors are lists of bytes, in
-- Core/Profiles/Generic, Core/Profiles/Dualshock4Usb, Core/Profiles/Dualshock4Bluetooth,
-- Core/Profiles/DualsenseUsb and Core/Profiles/DualsenseBluetooth, or are read from hexadecimal text, in
-- Core/Profiles/Hex. Core/Profiles/Hid reads a descriptor as the HID specification says, with as much fuel
-- as the descriptor has bytes, since an item takes at least one; Core/Profiles/Sizes and
-- Core/Profiles/Laws hold the two against each other.
-- Core/Report: the packing of input reports, of report.cpp, and the choice of a layout by kind.
-- Core/Report/Numbers has the conversions of axes and triggers; the arithmetic of floats is a parameter, and
-- the clocks and the static counters are arguments. Core/Report/Bytes has the writes and reads: the body of
-- a packing function is the list of its stores, in their order. Core/Report/Crc is the checksum,
-- Core/Report/ButtonBits the button words and the hat, Core/Report/Normalize the normalized state and the
-- encodings of batteries and touch contacts; Core/Report/Dualshock4, Core/Report/Dualsense,
-- Core/Report/SwitchPro and Core/Report/Gip are the layouts of those gamepads, and Core/Report itself has
-- the generic and the Xbox 360 ones. The theorems are in Core/Report/Bounds, Core/Report/Laws,
-- Core/Report/Sealed, Core/Report/Seals, Core/Report/ButtonBits/Laws and, with the profiles and the gamepad
-- device, Core/Report/BuiltIn.
-- Core/Output: the parsing of output reports, of report.cpp, with Core/Output/Pid for the PID rumble of the
-- generic and Xbox gamepads, Core/Output/Switch and Core/Output/Sony; the theorems are in
-- Core/Output/Laws, Core/Output/Sealed and Core/Output/Reads, which has Core/Output/Reads/Append for lists,
-- Core/Output/Reads/Sony and Core/Output/Reads/Rumble for the kinds of reports.
--
-- Windows/Protocol: src/platform/windows/shared/lvh_windows_protocol.h, what is used of it.
-- Windows/VhfQueue: VhfInputReportQueue of src/platform/windows/shared/vhf_input_report_queue.hpp. Its three
-- queues are lists, front first; Windows/VhfQueue/Mouse is the accumulation and the splitting of mouse
-- motion, Windows/VhfQueue/Discrete the comparison of gamepad reports, with Windows/VhfQueue/Layout for where the
-- packing functions store what is compared, Windows/VhfQueue/Bytes the words of a
-- report. The accumulators, of 64 bits in the source, are unbounded.
-- Windows/PidRumble: GenericPidRumbleState of src/platform/windows/shared/generic_pid_rumble.hpp, with
-- Windows/PidRumble/Effects for one effect and Windows/PidRumble/Reports for the output reports. Times are
-- nanoseconds; the clock is an argument of each operation. The scaling of a force in double precision is a
-- parameter that stays within 65535 and keeps 0.
-- Windows/PidFeatures: GenericPidFeatureState of src/platform/windows/shared/generic_pid_protocol.hpp, the
-- effect pool of force feedback; Windows/PidFeatures/Pool is the abstract pool, and Windows/PidFeatures/Steps
-- relates the state to it. The flags of the state are the bits of a byte.
-- Windows/PidFeatures/Descriptor is the report descriptor with force feedback.
-- Windows/Control: the request that creates a device, of src/platform/windows/control_protocol.hpp; the
-- request itself is in Windows/Protocol. Windows/Descriptors: the report descriptors of
-- src/platform/windows/shared/keyboard_protocol.hpp and mouse_protocol.hpp.
-- Windows/Features: the feature reports of PlayStation gamepads, of
-- src/platform/windows/shared/playstation_feature_protocol.hpp; Windows/Features/Bytes,
-- Windows/Features/Payloads and Windows/Features/Laws have the proofs.
--
-- Shared/SwitchPro: the replies of a Switch Pro controller, of src/shared/switch_pro_protocol.hpp, with the
-- packet timer as an argument; Shared/SwitchPro/Copies is about copies in a report, Shared/SwitchPro/Flash
-- about reads of a block of the flash and Shared/SwitchPro/Replies about those in whole replies.
-- Shared/PlayStation: the tables of src/shared/playstation_feature_reports.hpp.
--
-- Broker/License: the policy of src/platform/shared/lvh_broker_license_policy.hpp.
-- Broker/Validation: the checks of a request that creates a device, of
-- src/platform/windows/broker/broker_request_validation.hpp; Broker/Validation/Text and
-- Broker/Validation/Checks take them one by one, and Broker/Validation/Requests holds them against the
-- client's request.
--
-- Apart from the reader of descriptors in Core/Profiles/Hid, loops are recursion on lists or on a number of
-- rounds, so they need no fuel. Counters and ids keep their wrap-around at 2^64.
--
-- Not modelled: the protocols of single controllers in src/shared and src/platform/windows/shared that are not
-- named above, which the modelled code does not call; the backends of Linux, Windows and macOS, the
-- drivers' framework callbacks, the brokers' services and the tools, which call the operating system.
pub mod Base
pub mod Broker
pub mod Core
pub mod Shared
pub mod Windows
