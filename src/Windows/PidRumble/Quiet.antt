-- ===== src/Windows/PidRumble/Quiet.antt =====
-- What the driver need not come back for: times between two transitions.
use libvirtualhid.Base.{ℕ, ◌≤◌, ◌≡◌, ◌∙◌, ◌⊎◌, refl, false, List, [], ◌∷◌, arith, map, All}
use libvirtualhid.Windows.PidRumble.Effects.{Effect, expire_effect}
use libvirtualhid.Windows.PidRumble.{
  Scaling, State, combined, contribution, is_felt, ignored, expire_effects, current_strength,
  advance, next_transition,
}
use libvirtualhid.Windows.PidRumble.Invariant.{IsWell, advance-IsWell}
use libvirtualhid.Windows.PidRumble.Schedule.{Before, settled, advance-IsSettled}

-- A started effect has begun by a time. A pause in which an effect was started can put its beginning off.
abbrev pub HasBegun : ℕ → Effect → Type 0
HasBegun now e = (e.started ≡ false) ⊎ (e.start ≤ now)

expire_effect-HasBegun :
    (e : Effect) (now : ℕ) → HasBegun now e → HasBegun now (expire_effect e now)
unfolding expire_effect
expire_effect-HasBegun e now h = ground arith

map-expire_effect-HasBegun :
    (es : List Effect) (now : ℕ)
    → All (HasBegun now) es
    → All (HasBegun now) (map (λ e. expire_effect e now) es)
map-expire_effect-HasBegun [] now a = tt
map-expire_effect-HasBegun (e ∷ es) now a =
    (expire_effect-HasBegun e now a.0, map-expire_effect-HasBegun es now a.1)

advance-HasBegun :
    (sc : Scaling) (s : State) (now : ℕ)
    → All (HasBegun now) s.effects
    → All (HasBegun now) (advance sc s now).0.effects
unfolding advance expire_effects
advance-HasBegun sc s now a = ground (arith, map-expire_effect-HasBegun s.effects now a)

contribution-later :
    (sc : Scaling) (gain t u : ℕ) (e : Effect)
    → HasBegun t e
    → t ≤ u
    → contribution sc gain u e ≡ contribution sc gain t e
unfolding contribution is_felt
contribution-later sc gain t u e h le = ground arith

combined-later :
    (sc : Scaling) (gain t u : ℕ) (es : List Effect) (sum : ℕ)
    → All (HasBegun t) es
    → t ≤ u
    → combined sc gain u es sum ≡ combined sc gain t es sum
unfolding combined
combined-later sc gain t u [] sum a le = refl
combined-later sc gain t u (e ∷ es) sum a le =
    rw (contribution-later sc gain t u e a.0 le) (combined-later sc gain t u es _ a.1 le)

current_strength-later :
    (sc : Scaling) (s : State) (t u : ℕ)
    → All (HasBegun t) s.effects
    → t ≤ u
    → current_strength sc s u ≡ current_strength sc s t
unfolding current_strength
current_strength-later sc s t u a le =
    rw (combined-later sc s.device_gain t u s.effects 0 a le) refl

-- Between an advance and the next transition that it leaves there is nothing to do: an advance at any time
-- in between, or at any later time if no transition is left, changes nothing and reports no change. All
-- effects that are marked as started have begun by the first advance.
pub advance-quiet :
    (sc : Scaling) (s : State) (t u : ℕ)
    → IsWell s
    → All (HasBegun t) s.effects
    → t ≤ u
    → Before u (next_transition (advance sc s t).0)
    → advance sc (advance sc s t).0 u ≡ ((advance sc s t).0, ignored)
advance-quiet sc s t u w a le b = settled sc (advance sc s t).0 u (advance-IsWell sc s t w) b (
    current_strength-later sc (advance sc s t).0 t u (advance-HasBegun sc s t a) le
    ∙ (advance-IsSettled sc s t).1)
