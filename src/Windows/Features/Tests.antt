-- ===== src/Windows/Features/Tests.antt =====
-- The feature reports of a DualShock 4 over Bluetooth.
use libvirtualhid.Base.{◌≡◌, ◌==◌, ◌∷◌, [], refl, some}
use libvirtualhid.Windows.Features.{make_playstation_feature_report, parse_bytes, parse_mac_address}
use libvirtualhid.Windows.Protocol.{
  CreateDeviceRequest, bus_bluetooth, create_device_request_size, device_gamepad,
  gamepad_dualshock4,
}
use libvirtualhid.Windows.Features.Laws.{
  Conforms, is_answered, known, profile_of, make_playstation_feature_report-Conforms,
}

abbrev request : CreateDeviceRequest
request = record {
  version = 5;
  size = create_device_request_size;
  client_device_id = 7;
  device_type = device_gamepad;
  bus_type = bus_bluetooth;
  gamepad_kind = gamepad_dualshock4;
  flags = 0;
  hardware_ids = record {
    vendor_id = 0;
    product_id = 0;
    device_version = 0;
    report_id = 0;
    reserved = [];
  };
  report_sizes = record {
    input_report_size = 64;
    output_report_size = 32;
    report_descriptor_size = 0;
    name_size = 0;
    manufacturer_size = 0;
    stable_id_size = 0;
  };
  report_descriptor = [];
  name = [];
  manufacturer = [];
  stable_id = [];
}

make_playstation_feature_report-Conforms_example :
    (is_answered (make_playstation_feature_report request 0x12)
      ≡ known request.gamepad_kind (request.bus_type == bus_bluetooth) 0x12)
    × Conforms
        (profile_of request)
        (request.bus_type == bus_bluetooth)
        0x12
        (make_playstation_feature_report request 0x12)
make_playstation_feature_report-Conforms_example =
    make_playstation_feature_report-Conforms request 0x12

-- "02:00:0a:0B:00:ff".
parsed_address :
    parse_mac_address
      (48 ∷ 50 ∷ 58 ∷ 48 ∷ 48 ∷ 58 ∷ 48 ∷ 97 ∷ 58 ∷ 48 ∷ 66 ∷ 58 ∷ 48 ∷ 48 ∷ 58 ∷ 102 ∷ 102 ∷ [])
    ≡ some (2 ∷ 0 ∷ 10 ∷ 11 ∷ 0 ∷ 255 ∷ [])
unfolding parse_bytes
parsed_address = refl
