-- ===== src/Snapshot/Scheduler/Progress/Waves.antt =====
-- The waves and the counts of `_update_run_progress`.
use fuzzmeter.Prelude.{
  ℕ, zero, suc, ◌+◌, ◌-◌, ◌*◌, ◌/◌, ◌%◌, ◌≤◌, ◌<◌, ◌≡◌, true, arith, Bool-cases, inl, inr, length,
}
use native.Mathlib.Nat.{div-add-mod, mod-lt}
use fuzzmeter.Snapshot.Scheduler.State.{Settings, Scheduler}
use fuzzmeter.Snapshot.Scheduler.Progress.{
  in_waves, wave_count, wave_idx, campaign_progress, update_run_progress,
}

one_le_quotient : (m w q r : ℕ) → w * q + r ≡ m → r < w → w ≤ m → 1 ≤ q
one_le_quotient m w zero r e lt le = absurd (omega arith)
one_le_quotient m w (suc q) r e lt le = omega arith

one-le-div : (m w : ℕ) → 0 < w → w ≤ m → 1 ≤ m / w
one-le-div m w pos le = one_le_quotient m w (m / w) (m % w) (div-add-mod m w) (mod-lt m pos) le

one_wave : (c : Settings) → in_waves c ≡ true → 1 ≤ wave_count c
unfolding in_waves wave_count
one_wave c waves =
    one-le-div (c.total_trials + c.trial_workers - 1) c.trial_workers (ground arith) (ground arith)

-- The wave on show is one of the waves, whatever the settings and the trials.
pub wave_in_range :
    (now : ℕ) (s : Scheduler)
    → let p = (update_run_progress now s).1 in (1 ≤ p.wave_idx) × (p.wave_idx ≤ p.wave_count)
unfolding update_run_progress wave_idx
wave_in_range now s = elim (Bool-cases (in_waves s.settings)) [
  | inl waves ↦ rw waves (let e = one_wave s.settings waves in ground arith)
  | inr single ↦ rw single (omega arith)
]

-- Where no more trials are active than have started and no more have started than there are,
-- every trial of the campaign is shown as completed, active or queued.
pub trials_accounted :
    (now : ℕ) (s : Scheduler)
    → length s.active ≤ length s.campaign_trials
    → length s.campaign_trials ≤ s.settings.total_trials
    → let p = campaign_progress now s in p.completed + p.active + p.queued ≡ s.settings.total_trials
unfolding campaign_progress
trials_accounted now s a b = omega arith
