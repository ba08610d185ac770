-- ===== src/Windows/VhfQueue/Drain.antt =====
-- Popping empties the queue: a report of more motion than one report can carry is split into
-- finitely many.
use libvirtualhid.Base.{
  ℕ, zero, suc, ◌+◌, ◌≤◌, ◌<◌, ◌≡◌, refl, ◌⊎◌, inl, inr, true, false, List, [], ◌∷◌, none, some,
  arith, length,
}
use libvirtualhid.Base.Int.{ℤ, pos, negsuc, pos_part, neg_part, ◌-ℤ◌, clamp}
use libvirtualhid.Windows.VhfQueue.Mouse.{
  PendingMouseReport, delivered, subtract, is_still, is_zero, left_over, pop_mouse_report,
}
use libvirtualhid.Windows.VhfQueue.Discrete.{Report}
use libvirtualhid.Windows.VhfQueue.{VhfInputReportQueue, empty, pop_from, pop}

-- The distance of an integer from 0.
abbrev pub magnitude : ℤ → ℕ
magnitude a = pos_part a + neg_part a

abbrev pub motion : PendingMouseReport → ℕ
motion p = magnitude p.x + magnitude p.y + magnitude p.wheel + magnitude p.pan

abbrev pub mouse_weight : List PendingMouseReport → ℕ
mouse_weight [] = 0
mouse_weight (p ∷ ps) = suc (motion p + mouse_weight ps)

-- How many pops the queue can take at most.
abbrev pub weight : VhfInputReportQueue → ℕ
weight q = length q.protocol_reports + mouse_weight q.mouse_reports + length q.reports

-- Taking the clamped part off leaves nothing, or less than there was.
clamp_progress :
    (v : ℤ) (lo hi : ℕ)
    → 0 < hi
    → let rest = v -ℤ clamp v (negsuc lo) (pos hi) in
      (rest ≡ pos 0) ⊎ (magnitude rest < magnitude v)
unfolding clamp ◌-ℤ◌
clamp_progress v lo hi h = ground arith

motion-left_over :
    (p : PendingMouseReport)
    → (is_still (subtract p (delivered p)) ≡ true) ⊎ (motion (subtract p (delivered p)) < motion p)
unfolding is_still subtract delivered is_zero
motion-left_over p = ground (
  arith,
  clamp_progress p.x 32767 32767,
  clamp_progress p.y 32767 32767,
  clamp_progress p.wheel 126 127,
  clamp_progress p.pan 126 127,
)

mouse_weight-left_over :
    (p : PendingMouseReport) (ps : List PendingMouseReport)
    → mouse_weight (left_over p ps) < mouse_weight (p ∷ ps)
unfolding left_over
mouse_weight-left_over p ps = ground (arith, motion-left_over p)

pop_from-progress :
    (q : VhfInputReportQueue) (rs : List Report) (ms : List PendingMouseReport) (xs : List Report)
    → q.protocol_reports ≡ rs
    → q.mouse_reports ≡ ms
    → q.reports ≡ xs
    → (((pop_from q rs ms xs).0 ≡ none)
        × (empty q ≡ true)
        × (weight (pop_from q rs ms xs).1 ≡ weight q))
      ⊎ ((r : Report) × ((pop_from q rs ms xs).0 ≡ some r)
          × (empty q ≡ false)
          × (weight (pop_from q rs ms xs).1 < weight q))
unfolding pop_from pop_mouse_report empty
pop_from-progress q (r ∷ rs) ms xs a b c = inr (r, refl, ground arith, rw (a, b, c) (omega arith))
pop_from-progress q [] (m ∷ ms) xs a b c =
    inr (_, refl, ground arith, rw (a, b, c) (omega (arith, mouse_weight-left_over m ms)))
pop_from-progress q [] [] [] a b c = inl (refl, ground arith, refl)
pop_from-progress q [] [] (x ∷ xs) a b c = inr (x, refl, ground arith, rw (a, b, c) (omega arith))

-- A pop fails on the empty queue only, and otherwise takes some of the weight off.
pop-progress :
    (q : VhfInputReportQueue)
    → (((pop q).0 ≡ none) × (empty q ≡ true) × (weight (pop q).1 ≡ weight q))
      ⊎ ((r : Report) × ((pop q).0 ≡ some r) × (empty q ≡ false) × (weight (pop q).1 < weight q))
unfolding pop
pop-progress q = pop_from-progress q q.protocol_reports q.mouse_reports q.reports refl refl refl

-- The state after a number of pops.
pub pops_times : ℕ → VhfInputReportQueue → VhfInputReportQueue
pops_times zero q = q
pops_times (suc n) q = pops_times n (pop q).1

weight-empty : (q : VhfInputReportQueue) → empty q ≡ true → weight q ≡ 0
unfolding empty
weight-empty q h = ground arith

-- As many pops as the weight, or more, leave the queue empty, and the next pop has no report.
pub pops_times-empty :
    (n : ℕ) (q : VhfInputReportQueue)
    → weight q ≤ n
    → (empty (pops_times n q) ≡ true) × ((pop (pops_times n q)).0 ≡ none)
unfolding pops_times
pops_times-empty zero q h = elim (pop-progress q) [
  | inl (done, gone, _) ↦ (gone, done)
  | inr (r, _, _, less) ↦ absurd (omega arith)
]
pops_times-empty (suc n) q h = elim (pop-progress q) [
  | inl (_, gone, same) ↦ pops_times-empty n (pop q).1 (omega (arith, weight-empty q gone))
  | inr (r, _, _, less) ↦ pops_times-empty n (pop q).1 (omega arith)
]
