-- ===== src/Shared/SwitchPro/Flash.antt =====
-- The reads of the SPI flash: the reply against an image of the flash.
use libvirtualhid.Base.{
  ℕ, zero, suc, ◌+◌, ◌-◌, ◌≤◌, ◌<◌, ◌≡◌, ◌∙◌, ◌⊎◌, refl, List, [], ◌∷◌, get_or, length, take, drop,
  min, max, if-cases, leb, leb→le, arith,
}
use libvirtualhid.Shared.SwitchPro.{copy_spi_data}
use libvirtualhid.Shared.SwitchPro.Copies.{
  length-copy_to, get_or-copy_to_in, get_or-copy_to_out, get_or-take, get_or-drop, length-take,
}

length-drop_lem : (n : ℕ) (xs : List ℕ) → length (drop n xs) ≡ length xs - n
length-drop_lem zero xs = omega arith
length-drop_lem (suc n) [] = omega arith
length-drop_lem (suc n) (x ∷ xs) = omega (arith, length-drop_lem n xs)

module _ (r : List ℕ) (address size data_address : ℕ) (bytes : List ℕ) where
  abbrev begins : ℕ
  begins = max address data_address

  abbrev ends : ℕ
  ends = min (address + size) (data_address + length bytes)

  abbrev to : ℕ
  to = 20 + (begins - address)

  abbrev chunk : List ℕ
  chunk = take (min (ends - begins) (length r - to)) (drop (begins - data_address) bytes)

  length-chunk : length chunk ≡ min (ends - begins) (length r - to)
  length-chunk = omega (
    arith,
    length-take (min (ends - begins) (length r - to)) (drop (begins - data_address) bytes),
    length-drop_lem (begins - data_address) bytes,
  )

  pub length-copy_spi_data : length (copy_spi_data r address size data_address bytes) ≡ length r
  unfolding copy_spi_data
  length-copy_spi_data =
      if-cases (λ (s : List ℕ). length s ≡ length r) (leb ends begins) (λ _. refl)
        (λ _.
          if-cases (λ (s : List ℕ). length s ≡ length r) (leb (length r) to) (λ _. refl)
            (λ _. length-copy_to r to chunk))

  -- A byte that was asked for and that the data has.
  pub copy_spi_data-in :
      (i : ℕ)
      → i < size
      → 20 + i < length r
      → data_address ≤ address + i
      → address + i < data_address + length bytes
      → get_or (copy_spi_data r address size data_address bytes) (20 + i) 0
        ≡ get_or bytes (address + i - data_address) 0
  unfolding copy_spi_data
  copy_spi_data-in i h k lo hi =
      if-cases (λ (s : List ℕ). get_or s (20 + i) 0 ≡ get_or bytes (address + i - data_address) 0)
        (leb ends begins) (λ e. absurd (omega (arith, leb→le ends begins e)))
        (λ _.
          if-cases
            (λ (s : List ℕ). get_or s (20 + i) 0 ≡ get_or bytes (address + i - data_address) 0)
            (leb (length r) to) (λ e. absurd (omega (arith, leb→le (length r) to e)))
            (λ _.
              get_or-copy_to_in r to chunk (address + i - begins) (20 + i)
                (omega (arith, length-chunk)) k (omega arith)
              ∙ get_or-take (min (ends - begins) (length r - to))
                  (drop (begins - data_address) bytes) (address + i - begins) (omega arith)
              ∙ get_or-drop (begins - data_address) bytes (address + i - begins)
                  (address + i - data_address) (omega arith)))

  -- A byte that was not asked for, or that the data has not.
  pub copy_spi_data-out :
      (i : ℕ)
      → (size ≤ i) ⊎ ((address + i < data_address) ⊎ (data_address + length bytes ≤ address + i))
      → get_or (copy_spi_data r address size data_address bytes) (20 + i) 0 ≡ get_or r (20 + i) 0
  unfolding copy_spi_data
  copy_spi_data-out i h =
      if-cases (λ (s : List ℕ). get_or s (20 + i) 0 ≡ get_or r (20 + i) 0) (leb ends begins)
        (λ _. refl)
        (λ _.
          if-cases (λ (s : List ℕ). get_or s (20 + i) 0 ≡ get_or r (20 + i) 0) (leb (length r) to)
            (λ _. refl)
            (λ _. get_or-copy_to_out r to chunk (20 + i) (ground (arith, length-chunk))))
