-- ===== src/Windows/PidFeatures/Tests.antt =====
-- The PID feature state at concrete reports.
use libvirtualhid.Base.{◌≡◌, refl, [], ◌∷◌, some}
use libvirtualhid.Windows.PidFeatures.{
  initial, payload, handle_set_feature, handle_output_report, create_effect, get_feature_report,
}
use libvirtualhid.Windows.PidFeatures.Pool.{feature_request, output_request}
use libvirtualhid.Windows.PidFeatures.Steps.{Steps, handle-PoolStep}

-- The first creation gives effect 1, and leaves 65534 units of the pool.
first_load :
    get_feature_report 0x12 (handle_set_feature 0x11 (0x11 ∷ 1 ∷ []) initial).1
    ≡ some (0x12 ∷ 1 ∷ 1 ∷ 254 ∷ 255 ∷ [])
unfolding get_feature_report handle_set_feature create_effect
first_load = refl

handle-PoolStep_example :
    Steps initial refl
      (feature_request 0x11 (payload 0x11 (0x11 ∷ 1 ∷ [])))
      (handle_set_feature 0x11 (0x11 ∷ 1 ∷ []) initial)
    × Steps initial refl
        (output_request 0x11 (payload 0x11 (0x11 ∷ 1 ∷ [])))
        (handle_output_report 0x11 (0x11 ∷ 1 ∷ []) initial)
handle-PoolStep_example = handle-PoolStep initial refl 0x11 (0x11 ∷ 1 ∷ [])
