-- ===== src/Core/Tests/Buttons.antt =====
-- A set of buttons, at a concrete change.
use libvirtualhid.Base.{◌≡◌, ◌==◌, true, if◌then◌else◌}
use libvirtualhid.Core.Buttons.{GamepadButton, index, set_button, test}
use libvirtualhid.Core.Buttons.Laws.{test-set_button}

test-set_button_example :
    test (set_button 5 GamepadButton.guide true) GamepadButton.x
    ≡ (if index GamepadButton.guide == index GamepadButton.x then true else test 5 GamepadButton.x)
test-set_button_example = test-set_button 5 GamepadButton.guide GamepadButton.x true
