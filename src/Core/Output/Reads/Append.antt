-- ===== src/Core/Output/Reads/Append.antt =====
-- Reports with bytes behind them, and outputs apart from the report that they carry.
use libvirtualhid.Base.{
  ℕ, zero, suc, ◌+◌, ◌≤◌, ◌<◌, ◌≡◌, ◌∙◌, refl, ap, sym, ltb, Bool, true, false, List, [], ◌∷◌, ◌++◌,
  map, get_or, length, take, drop, if◌then◌else◌, leb, arith,
}
use mathlib.Core.List.{map-append}
use libvirtualhid.Core.Output.Types.{GamepadOutput}

abbrev pub without_report : GamepadOutput → GamepadOutput
without_report output = record output { raw_report = [] }

-- What outputs say, apart from the report that they carry.
abbrev pub said : List GamepadOutput → List GamepadOutput
said outputs = map without_report outputs

pub get_or-append :
    (r extra : List ℕ) (i : ℕ) → i < length r → get_or (r ++ extra) i 0 ≡ get_or r i 0
get_or-append [] extra i h = absurd (omega arith)
get_or-append (x ∷ r) extra zero h = refl
get_or-append (x ∷ r) extra (suc i) h = get_or-append r extra i (omega arith)

pub length-append : (r extra : List ℕ) → length (r ++ extra) ≡ length r + length extra
length-append [] extra = omega arith
length-append (x ∷ r) extra = omega (arith, length-append r extra)

take-append : (n : ℕ) (r extra : List ℕ) → n ≤ length r → take n (r ++ extra) ≡ take n r
take-append zero r extra h = refl
take-append (suc n) [] extra h = absurd (omega arith)
take-append (suc n) (x ∷ r) extra h =
    ap (λ (ys : List ℕ). x ∷ ys) (take-append n r extra (omega arith))

pub take-drop-append :
    (o n : ℕ) (r extra : List ℕ)
    → o + n ≤ length r
    → take n (drop o (r ++ extra)) ≡ take n (drop o r)
take-drop-append zero n r extra h = take-append n r extra (omega arith)
take-drop-append (suc o) n [] extra h = absurd (omega arith)
take-drop-append (suc o) n (x ∷ r) extra h = take-drop-append o n r extra (omega arith)

pub said-append :
    (xs xs' ys ys' : List GamepadOutput)
    → said xs ≡ said xs'
    → said ys ≡ said ys'
    → said (xs ++ ys) ≡ said (xs' ++ ys')
said-append xs xs' ys ys' e f =
    map-append without_report xs ys
    ∙ ap (λ zs. zs ++ said ys) e
    ∙ ap (λ zs. said xs' ++ zs) f
    ∙ sym (map-append without_report xs' ys')

pub said-unless :
    (b : Bool) (x y : GamepadOutput)
    → without_report x ≡ without_report y
    → said (if b then [] else x ∷ []) ≡ said (if b then [] else y ∷ [])
said-unless true x y e = refl
said-unless false x y e = ap (λ (output : GamepadOutput). output ∷ []) e

pub said-when :
    (b : Bool) (x y : GamepadOutput)
    → without_report x ≡ without_report y
    → said (if b then x ∷ [] else []) ≡ said (if b then y ∷ [] else [])
said-when true x y e = ap (λ (output : GamepadOutput). output ∷ []) e
said-when false x y e = refl

pub said-either :
    (b : Bool) (x y x' y' : GamepadOutput)
    → without_report x ≡ without_report y
    → without_report x' ≡ without_report y'
    → said (if b then x ∷ [] else x' ∷ []) ≡ said (if b then y ∷ [] else y' ∷ [])
said-either true x y x' y' e f = ap (λ (output : GamepadOutput). output ∷ []) e
said-either false x y x' y' e f = ap (λ (output : GamepadOutput). output ∷ []) f

pub leb_false→lt : (m n : ℕ) → leb m n ≡ false → n < m
leb_false→lt m n h = ground arith

pub ltb_false→le : (m n : ℕ) → ltb m n ≡ false → n ≤ m
ltb_false→le m n h = ground arith

pub still_long :
    (r extra : List ℕ) (n : ℕ) → ltb (length r) n ≡ false → ltb (length (r ++ extra)) n ≡ false
still_long r extra n h = ground (arith, length-append r extra)

pub still_at_least :
    (r extra : List ℕ) (n : ℕ) → leb n (length r) ≡ true → leb n (length (r ++ extra)) ≡ true
still_at_least r extra n h = ground (arith, length-append r extra)
