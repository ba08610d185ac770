-- ===== src/Windows/PidRumble/Schedule.antt =====
-- When the driver has to come back: `next_transition`, `expire_effects`, pause and continue.
use libvirtualhid.Base.{
  ℕ, ◌<◌, ◌≡◌, refl, sym, subst, true, false, List, [], ◌∷◌, Option, none, some, arith, map, All,
  if-cases, Bool-cases, ==_iff, inl, inr,
}
use libvirtualhid.Windows.PidRumble.Effects.{Effect, expire_effect, candidate}
use libvirtualhid.Windows.PidRumble.{
  Scaling, State, Update, ignored, expire_effects, current_strength, advance, earlier,
  next_candidate, next_transition,
}
use libvirtualhid.Windows.PidRumble.Invariant.{IsConsistent, IsWell, advance-IsWell}

-- A time lies before another, where none is never.
abbrev pub Before : ℕ → Option ℕ → Type 0
Before now none = Unit {0}
Before now (some t) = now < t

earlier-Before : (now : ℕ) (a b : Option ℕ) → Before now (earlier a b) → Before now a × Before now b
unfolding earlier
earlier-Before now a none h = (h, tt)
earlier-Before now none (some t) h = (tt, h)
earlier-Before now (some n) (some t) h = ground arith

Before-earlier : (now : ℕ) (a b : Option ℕ) → Before now a → Before now b → Before now (earlier a b)
unfolding earlier
Before-earlier now a none h k = h
Before-earlier now none (some t) h k = k
Before-earlier now (some n) (some t) h k = ground arith

next_candidate-Before :
    (now : ℕ) (es : List Effect) (next : Option ℕ)
    → Before now (next_candidate es next)
    → Before now next × All (λ e. Before now (candidate e)) es
unfolding next_candidate
next_candidate-Before now [] next h = (h, tt)
next_candidate-Before now (e ∷ es) next h =
    let rest = next_candidate-Before now es (earlier next (candidate e)) h in
    let here = earlier-Before now next (candidate e) rest.0 in (here.0, (here.1, rest.1))

Before-next_candidate :
    (now : ℕ) (es : List Effect) (next : Option ℕ)
    → Before now next
    → All (λ e. Before now (candidate e)) es
    → Before now (next_candidate es next)
unfolding next_candidate
Before-next_candidate now [] next h a = h
Before-next_candidate now (e ∷ es) next h a =
    Before-next_candidate now es (earlier next (candidate e))
      (Before-earlier now next (candidate e) h a.0) a.1

expire_effect-Before :
    (e : Effect) (now : ℕ) → IsConsistent e → Before now (candidate e) → expire_effect e now ≡ e
unfolding expire_effect candidate
expire_effect-Before e now c h = ground arith

map-expire_effect-Before :
    (es : List Effect) (now : ℕ)
    → All IsConsistent es
    → All (λ e. Before now (candidate e)) es
    → map (λ e. expire_effect e now) es ≡ es
map-expire_effect-Before [] now c h = refl
map-expire_effect-Before (e ∷ es) now c h =
    rw (expire_effect-Before e now c.0 h.0, map-expire_effect-Before es now c.1 h.1) refl

pub next_transition_running :
    (s : State) → s.paused ≡ false → next_transition s ≡ next_candidate s.effects none
unfolding next_transition
next_transition_running s h = ground arith

-- Until the next transition no effect starts or ends.
expire_effects-Before :
    (s : State) (now : ℕ) → IsWell s → Before now (next_transition s) → expire_effects s now ≡ s
unfolding expire_effects
expire_effects-Before s now w h = elim (Bool-cases s.paused) [
  | inl held ↦ ground arith
  | inr free ↦
      let later = subst (Before now) (next_transition_running s free) h in
      let parts = next_candidate-Before now s.effects none later in
      ground (arith, map-expire_effect-Before s.effects now w.each parts.1)
]

candidate-expire_effect : (e : Effect) (now : ℕ) → Before now (candidate (expire_effect e now))
unfolding expire_effect candidate
candidate-expire_effect e now = ground arith

candidates-expire :
    (es : List Effect) (now : ℕ)
    → All (λ e. Before now (candidate e)) (map (λ e. expire_effect e now) es)
candidates-expire [] now = tt
candidates-expire (e ∷ es) now = (candidate-expire_effect e now, candidates-expire es now)

next_transition-map :
    (s : State) (now : ℕ)
    → s.paused ≡ false
    → next_transition (expire_effects s now)
      ≡ next_candidate (map (λ e. expire_effect e now) s.effects) none
unfolding expire_effects next_transition
next_transition-map s now h = ground arith

next_transition-paused :
    (s : State) (now : ℕ) → s.paused ≡ true → next_transition (expire_effects s now) ≡ none
unfolding expire_effects next_transition
next_transition-paused s now h = ground arith

-- Once the effects are expired, what is left to happen lies in the future.
next_transition-expire_effects :
    (s : State) (now : ℕ) → Before now (next_transition (expire_effects s now))
next_transition-expire_effects s now = elim (Bool-cases s.paused) [
  | inl held ↦ subst (Before now) (sym (next_transition-paused s now held)) tt
  | inr free ↦
      subst (Before now) (sym (next_transition-map s now free))
        (Before-next_candidate now _ none tt (candidates-expire s.effects now))
]

pub settled :
    (sc : Scaling) (u : State) (now : ℕ)
    → IsWell u
    → Before now (next_transition u)
    → current_strength sc u now ≡ u.last_strength
    → advance sc u now ≡ (u, ignored)
unfolding advance
settled sc u now w b e = rw (expire_effects-Before u now w b) (ground arith)

-- Where a timer's advance ends: the strength is the current one, and nothing is due.
abbrev pub IsSettled : Scaling → ℕ → State → Type 0
IsSettled sc now u = Before now (next_transition u) × (current_strength sc u now ≡ u.last_strength)

with_strength-IsSettled :
    (sc : Scaling) (t : State) (now : ℕ)
    → Before now (next_transition t)
    → IsSettled sc now (record t { last_strength = current_strength sc t now })
unfolding next_transition current_strength
with_strength-IsSettled sc t now b = (b, refl)

pub advance-IsSettled : (sc : Scaling) (s : State) (now : ℕ) → IsSettled sc now (advance sc s now).0
unfolding advance
advance-IsSettled sc s now =
    let later = next_transition-expire_effects s now in
    if-cases (λ (r : State × Update). IsSettled sc now r.0) _ (λ same. (later, (==_iff _ _).0 same))
      (λ _. with_strength-IsSettled sc (expire_effects s now) now later)

-- A timer makes progress: after an advance the next transition, if there is one, lies strictly in
-- the future, and a second advance at the same time changes nothing and reports no change.
pub advance-progress :
    (sc : Scaling) (s : State) (now : ℕ)
    → IsWell s
    → let s' = (advance sc s now).0 in
      Before now (next_transition s') × (advance sc s' now ≡ (s', ignored))
advance-progress sc s now w =
    let done = advance-IsSettled sc s now in
    (done.0, settled sc _ now (advance-IsWell sc s now w) done.0 done.1)
