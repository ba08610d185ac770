-- ===== src/Core/Options/Viewport.antt =====
-- `validate_mouse_options` of runtime.cpp, against what the bounds of a mouse mean.
use libvirtualhid.Base.{
  ◌≡◌, ◌↔◌, ◌⊎◌, inl, inr, ◌&&◌, ◌||◌, Bool, true, false, not, if◌then◌else◌, arith,
}
use libvirtualhid.Base.Int.{ℤ, pos, negsuc, ◌+ℤ◌, ◌≤ℤ◌, ltb_ℤ, leb_ℤ, int_laws}
use libvirtualhid.Core.Status.{OperationStatus, ErrorCode, success, failure, is_ok}
use libvirtualhid.Core.Types.{DeviceType, PointerViewport}
use libvirtualhid.Core.Options.{CreateMouseOptions, validate_profile}

abbrev is_zero_ℤ : ℤ → Bool
is_zero_ℤ a = leb_ℤ a (pos 0) && leb_ℤ (pos 0) a

valid_dimensions : PointerViewport → Bool
valid_dimensions v =
    leb_ℤ (pos 0) v.width
    && leb_ℤ (pos 0) v.height
    && (is_zero_ℤ v.width && is_zero_ℤ v.height || ltb_ℤ (pos 0) v.width && ltb_ℤ (pos 0) v.height)

-- The test of the last check. The sums are of 64 bits in the source and do not overflow for 32-bit
-- values.
contained : PointerViewport → PointerViewport → Bool
contained desktop v = not (
    ltb_ℤ v.offset_x desktop.offset_x
    || ltb_ℤ v.offset_y desktop.offset_y
    || ltb_ℤ (desktop.offset_x +ℤ desktop.width) (v.offset_x +ℤ v.width)
    || ltb_ℤ (desktop.offset_y +ℤ desktop.height) (v.offset_y +ℤ v.height))

validate_bounds : PointerViewport → PointerViewport → OperationStatus
unfolding valid_dimensions contained
validate_bounds desktop v =
    let has_desktop = ltb_ℤ (pos 0) desktop.width in
    let has_viewport = ltb_ℤ (pos 0) v.width in
    if not (valid_dimensions desktop) || not (valid_dimensions v)
    then failure ErrorCode.invalid_argument
        "mouse viewport dimensions must both be positive or both be zero"
    else if (if has_desktop then not has_viewport else has_viewport)
    then failure ErrorCode.invalid_argument
        "mouse desktop and target viewport must be configured together"
    else if has_desktop && not (contained desktop v)
    then failure ErrorCode.invalid_argument
        "mouse target viewport must be contained by the virtual desktop"
    else success

pub validate_mouse_options : CreateMouseOptions → OperationStatus
unfolding validate_profile validate_bounds
validate_mouse_options options =
    let validation =
      validate_profile DeviceType.mouse "device profile is not a mouse" options.profile in
    if not (is_ok validation) then validation else validate_bounds options.desktop options.viewport

-- Neither is configured.
abbrev IsUnset : PointerViewport → Type 0
IsUnset v = (v.width ≡ pos 0) × (v.height ≡ pos 0)

-- An area of at least one pixel.
abbrev IsArea : PointerViewport → Type 0
IsArea v = (pos 1 ≤ℤ v.width) × (pos 1 ≤ℤ v.height)

-- The point (x, y) is one of the area's pixels.
abbrev pub Covers : PointerViewport → ℤ → ℤ → Type 0
Covers v x y =
    (v.offset_x ≤ℤ x)
    × (x +ℤ pos 1 ≤ℤ v.offset_x +ℤ v.width)
    × (v.offset_y ≤ℤ y)
    × (y +ℤ pos 1 ≤ℤ v.offset_y +ℤ v.height)

-- Every pixel of the viewport is a pixel of the desktop.
abbrev pub IsWithin : PointerViewport → PointerViewport → Type 0
IsWithin v desktop = (x y : ℤ) → Covers v x y → Covers desktop x y

abbrev pub BoundsAreValid : PointerViewport → PointerViewport → Type 0
BoundsAreValid desktop v =
    (IsUnset desktop × IsUnset v) ⊎ (IsArea desktop × IsArea v × IsWithin v desktop)

-- The four comparisons, as inequalities of integers.
abbrev Edges : PointerViewport → PointerViewport → Type 0
Edges desktop v =
    (desktop.offset_x ≤ℤ v.offset_x)
    × (v.offset_x +ℤ v.width ≤ℤ desktop.offset_x +ℤ desktop.width)
    × (desktop.offset_y ≤ℤ v.offset_y)
    × (v.offset_y +ℤ v.height ≤ℤ desktop.offset_y +ℤ desktop.height)

contained_iff : (desktop v : PointerViewport) → (contained desktop v ≡ true) ↔ Edges desktop v
unfolding contained
contained_iff desktop v = ground arith

Edges-IsWithin : (desktop v : PointerViewport) → Edges desktop v → IsWithin v desktop
Edges-IsWithin desktop v e x y c = (omega int_laws, omega int_laws, omega int_laws, omega int_laws)

IsWithin-Edges : (desktop v : PointerViewport) → IsArea v → IsWithin v desktop → Edges desktop v
IsWithin-Edges desktop v area within =
    let first =
      within v.offset_x v.offset_y
        (omega int_laws, omega int_laws, omega int_laws, omega int_laws) in
    let last =
      within (v.offset_x +ℤ v.width +ℤ negsuc 0) (v.offset_y +ℤ v.height +ℤ negsuc 0)
        (omega int_laws, omega int_laws, omega int_laws, omega int_laws) in
    (omega int_laws, omega int_laws, omega int_laws, omega int_laws)

valid_dimensions_iff : (v : PointerViewport) → (valid_dimensions v ≡ true) ↔ (IsUnset v ⊎ IsArea v)
unfolding valid_dimensions
valid_dimensions_iff v = ground arith

-- What the function checks, with the dimensions and the containment as two tests.
validate_bounds_tests :
    (desktop v : PointerViewport)
    → (is_ok (validate_bounds desktop v) ≡ true) ↔ (
        (valid_dimensions desktop ≡ true)
        × (valid_dimensions v ≡ true)
        × (ltb_ℤ (pos 0) desktop.width ≡ ltb_ℤ (pos 0) v.width)
        × ((ltb_ℤ (pos 0) desktop.width ≡ false) ⊎ (contained desktop v ≡ true)))
unfolding validate_bounds
validate_bounds_tests desktop v = ground arith

-- The tests on the dimensions, read as cases.
validate_bounds_cases :
    (desktop v : PointerViewport)
    → (is_ok (validate_bounds desktop v) ≡ true)
      ↔ ((IsUnset desktop × IsUnset v) ⊎ (IsArea desktop × IsArea v × (contained desktop v ≡ true)))
validate_bounds_cases desktop v =
    ground
      (arith, validate_bounds_tests desktop v, valid_dimensions_iff desktop, valid_dimensions_iff v)

-- Two bounds are accepted exactly when neither is configured, or both are areas and every pixel of the
-- viewport is a pixel of the desktop.
validate_bounds-BoundsAreValid :
    (desktop v : PointerViewport)
    → (is_ok (validate_bounds desktop v) ≡ true) ↔ BoundsAreValid desktop v
validate_bounds-BoundsAreValid desktop v = (
  λ h. elim ((validate_bounds_cases desktop v).0 h) [
    | inl u ↦ inl u
    | inr (d, w, c) ↦ inr (d, w, Edges-IsWithin desktop v ((contained_iff desktop v).0 c))
  ],
  λ b. (validate_bounds_cases desktop v).1 (elim b [
    | inl u ↦ inl u
    | inr (d, w, c) ↦ inr (d, w, (contained_iff desktop v).1 (IsWithin-Edges desktop v w c))
  ]),
)

-- Options are accepted exactly when their profile passes the check for a mouse and their bounds are
-- valid: neither desktop nor viewport is set, or both are areas and every pixel of the viewport is a
-- pixel of the desktop.
pub validate_mouse_options_iff :
    (options : CreateMouseOptions)
    → (is_ok (validate_mouse_options options) ≡ true) ↔ (
        (is_ok (validate_profile DeviceType.mouse "device profile is not a mouse" options.profile)
          ≡ true)
        × BoundsAreValid options.desktop options.viewport)
unfolding validate_mouse_options
validate_mouse_options_iff options =
    ground (arith, validate_bounds-BoundsAreValid options.desktop options.viewport)
