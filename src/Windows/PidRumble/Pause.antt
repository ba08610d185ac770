-- ===== src/Windows/PidRumble/Pause.antt =====
-- What a pause does to the schedule: device control 5 and 6.
use libvirtualhid.Base.{
  ℕ, ◌+◌, ◌-◌, ◌≡◌, refl, sym, ap, ◌∙◌, false, List, [], ◌∷◌, Option, none, some, arith, map,
}
use libvirtualhid.Windows.PidRumble.Effects.{Effect, candidate, shift_end, shift_effect}
use libvirtualhid.Windows.PidRumble.{State, earlier, next_candidate, next_transition}
use libvirtualhid.Windows.PidRumble.Reports.{pause, continue_effects}
use libvirtualhid.Windows.PidRumble.Schedule.{next_transition_running}

earlier-shift :
    (d : ℕ) (a b : Option ℕ) → earlier (shift_end a d) (shift_end b d) ≡ shift_end (earlier a b) d
unfolding earlier shift_end
earlier-shift d a none = refl
earlier-shift d none (some t) = refl
earlier-shift d (some n) (some t) = ground arith

candidate-shift : (d : ℕ) (e : Effect) → candidate (shift_effect d e) ≡ shift_end (candidate e) d
unfolding candidate shift_effect shift_end
candidate-shift d e = ground arith

next_candidate-shift :
    (d : ℕ) (es : List Effect) (next : Option ℕ)
    → next_candidate (map (shift_effect d) es) (shift_end next d)
      ≡ shift_end (next_candidate es next) d
unfolding next_candidate
next_candidate-shift d [] next = refl
next_candidate-shift d (e ∷ es) next =
    ap (next_candidate (map (shift_effect d) es))
      (ap (earlier (shift_end next d)) (candidate-shift d e) ∙ earlier-shift d next (candidate e))
    ∙ next_candidate-shift d es (earlier next (candidate e))

next_candidate-none :
    (d : ℕ) (es : List Effect)
    → next_candidate (map (shift_effect d) es) none ≡ shift_end (next_candidate es none) d
unfolding shift_end
next_candidate-none d es = next_candidate-shift d es none

continue_effects-pause :
    (s : State) (now d : ℕ)
    → s.paused ≡ false
    → let t = continue_effects (pause s now) (now + d) in
      (t.paused ≡ false) × (t.effects ≡ map (shift_effect d) s.effects)
unfolding pause continue_effects
continue_effects-pause s now d free =
    let cancel : now + d - now ≡ d = omega arith in
    (ground arith, ground (arith, ap (λ k. map (shift_effect k) s.effects) cancel))

next_transition-pause :
    (s : State) (now : ℕ) → s.paused ≡ false → next_transition (pause s now) ≡ none
unfolding pause next_transition
next_transition-pause s now free = ground arith

-- A pause takes its length out of the schedule: a paused device has no next transition, and one that
-- is continued a time after it was paused has its next transition that much later.
pub next_transition-continue_effects :
    (s : State) (now d : ℕ)
    → s.paused ≡ false
    → (next_transition (pause s now) ≡ none)
      × (next_transition (continue_effects (pause s now) (now + d))
          ≡ shift_end (next_transition s) d)
next_transition-continue_effects s now d free =
    let t = continue_effects-pause s now d free in
    (
      next_transition-pause s now free,
      next_transition_running _ t.0
          ∙ ap (λ es. next_candidate es none) t.1
          ∙ next_candidate-none d s.effects
          ∙ ap (λ o. shift_end o d) (sym (next_transition_running s free)),
    )
