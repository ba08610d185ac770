-- ===== src/Broker/Validation/Requests.antt =====
-- The requests of the client pass the checks of the broker.
use Prim.Native.String.{String}
use libvirtualhid.Base.{take, ℕ, ◌≤◌, ◌≡◌, true, List, length, if◌then◌else◌}
use libvirtualhid.Core.Types.{DeviceType, DeviceProfile}
use libvirtualhid.Windows.Protocol.{CreateDeviceRequest}
use libvirtualhid.Windows.Control.{is_empty, pid_descriptor, make_create_device_request}
use libvirtualhid.Broker.Validation.{valid_device_request}
use libvirtualhid.Broker.Validation.Text.{is_text, take-copy_string, take-copy_bytes}
use libvirtualhid.Broker.Validation.Checks.{make_create_device_request-IsValid}

-- The descriptor that is sent: the one with force feedback, if there is one.
abbrev pub sent_descriptor : DeviceProfile → List ℕ
sent_descriptor profile =
    let pid = pid_descriptor profile in if is_empty pid then profile.report_descriptor else pid

-- The texts and the descriptor, as the sizes in a request delimit them.
abbrev pub Carries : (String → List ℕ) → DeviceProfile → String → CreateDeviceRequest → Type 0
Carries text profile stable_id request =
    (take request.report_sizes.name_size request.name ≡ take 127 (text profile.name))
    × (take request.report_sizes.manufacturer_size request.manufacturer
        ≡ take 127 (text profile.manufacturer))
    × (take request.report_sizes.stable_id_size request.stable_id ≡ take 127 (text stable_id))
    × (take request.report_sizes.report_descriptor_size request.report_descriptor
        ≡ take 2048 (sent_descriptor profile))

make_create_device_request-Carries :
    (text : String → List ℕ) (device_id : ℕ) (profile : DeviceProfile) (stable_id : String)
    → Carries text profile stable_id (make_create_device_request text device_id profile stable_id)
unfolding make_create_device_request
make_create_device_request-Carries text device_id profile stable_id = (
  take-copy_string 128 (text profile.name),
  take-copy_string 128 (text profile.manufacturer),
  take-copy_string 128 (text stable_id),
  take-copy_bytes 2048 (sent_descriptor profile),
)

-- The broker accepts every request that the client makes for a gamepad: its report descriptor, its sizes
-- and its texts pass the checks, however long they are. By their sizes the request holds the first 127
-- characters of the texts and the first 2048 bytes of the descriptor, which is the profile's or the one
-- with force feedback. The gamepad has an id, an input report and a report descriptor that are not empty,
-- and texts without a zero character.
pub make_create_device_request-IsAccepted :
    (text : String → List ℕ) (device_id : ℕ) (profile : DeviceProfile) (stable_id : String)
    → profile.device_type ≡ DeviceType.gamepad
    → 1 ≤ device_id
    → 1 ≤ profile.input_report_size
    → 1 ≤ length profile.report_descriptor
    → is_text (text profile.name) ≡ true
    → is_text (text profile.manufacturer) ≡ true
    → is_text (text stable_id) ≡ true
    → (valid_device_request (make_create_device_request text device_id profile stable_id) ≡ true)
      × Carries text profile stable_id (make_create_device_request text device_id profile stable_id)
make_create_device_request-IsAccepted text device_id profile stable_id kind id input descriptor name
      manufacturer stable =
    (
      make_create_device_request-IsValid text device_id profile stable_id kind id input descriptor
          name manufacturer stable,
      make_create_device_request-Carries text device_id profile stable_id,
    )
