-- ===== src/Broker/Tests.antt =====
-- The license policy at concrete times and devices.
use libvirtualhid.Base.{
  ℕ, ◌+◌, ◌*◌, ◌≡◌, ◌≤◌, ◌<◌, ◌↔◌, refl, true, false, List, [], ◌∷◌, none, arith,
}
use libvirtualhid.Broker.License.{
  SelectorCall, keep, run, keep-run, active, remaining, remaining-active, subscription_current,
  duration,
}

-- A subscription lasts for 25 hours from its validation.
current : subscription_current 100 90_099 ≡ true
current = refl

lapsed : subscription_current 100 90_100 ≡ false
lapsed = refl

abbrev calls : List SelectorCall
calls = SelectorCall.keeps 9 ∷ SelectorCall.removes 9 ∷ []

abbrev first_id : ℕ
first_id = 4

abbrev second_id : ℕ
second_id = 9

keep-run_example :
    ((keep (run (keep none first_id).0 calls) second_id).1 ≡ true) ↔ (second_id ≡ first_id)
keep-run_example = keep-run none first_id second_id calls refl (tt, ((λ e. omega arith), tt))

remaining-active_example :
    ((active 5 1_000 ≡ true) ↔ (0 < remaining 5 1_000))
    × (remaining 5 1_000 ≤ 300)
    × (active 5 1_000 ≡ true
        → (5 + duration ≤ 1_000 + remaining 5 1_000 * 1_000_000_000)
          × (1_000 + remaining 5 1_000 * 1_000_000_000 < 5 + duration + 1_000_000_000))
remaining-active_example = remaining-active 5 1_000
