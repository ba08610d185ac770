-- ===== src/Core/Touch.antt =====
-- What `Touchscreen` and `Trackpad` of runtime.cpp share: the check of a contact, and the contact that
-- the device remembers.
use libvirtualhid.Base.{if◌then◌else◌}
use libvirtualhid.Base.Int.{ℤ, pos, ltb_ℤ}
use libvirtualhid.Core.Status.{OperationStatus, ErrorCode, success, failure}
use libvirtualhid.Core.Types.{TouchContact}
use libvirtualhid.Core.Device.{Device}

-- The check of a contact's id, which `release_contact` and the others repeat.
pub validate_contact_id : ℤ → OperationStatus
validate_contact_id id =
    if ltb_ℤ id (pos 0)
    then failure ErrorCode.invalid_argument "touch contact id must not be negative"
    else success

pub validate_touch_contact : {F : Type 0} → TouchContact F → OperationStatus
unfolding validate_contact_id
validate_touch_contact contact = validate_contact_id contact.id

-- A device that remembers the last contact.
abbrev pub TouchDevice : Type 0 → Type 0 → Type 0 → Type 0
TouchDevice B O F = Device B O (TouchContact F)
