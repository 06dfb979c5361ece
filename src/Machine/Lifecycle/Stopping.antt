-- ===== src/Machine/Lifecycle/Stopping.antt =====
-- `Stop` presses the power button until the machine is off.
use mathlib.Core.Path.{subst}
use go_virtualbox.Prelude.{
  ℕ, zero, suc, ◌<◌, true, false, none, some, [], ◌∷◌, ◌≡◌, refl, ap, arith, Bool-cases, inl, inr,
  ◌==◌,
}
use go_virtualbox.Go.Outcome.{ok}
use go_virtualbox.Vbcmd.{Host, World, run}
use go_virtualbox.Vbcmd.Effects.{proceed-ok}
use go_virtualbox.Machine.Kinds.{Machine, paused}
use go_virtualbox.Machine.Lifecycle.{stop_loop, stop, refresh, resume_if, is_down}

-- The power button was pressed `k` times, and then the machine was off: the presses and the looks
-- at the machine succeeded.
pub data Stops (host : Host) : ℕ → World Machine → World Machine → Type 0 where
  is_off : {w : World Machine} → (w.this.state == "poweroff") ≡ true → Stops host zero w w
  press :
      {k : ℕ} {w v : World Machine} (pressed looked : World Machine)
      → (w.this.state == "poweroff") ≡ false
      → run ("controlvm" ∷ w.this.name ∷ "acpipowerbutton" ∷ []) host w ≡ (ok tt, pressed)
      → refresh host pressed ≡ (ok tt, looked)
      → Stops host k looked v
      → Stops host (suc k) w v

-- `Stop` waits long enough with more fuel than presses.
stop_loop-enough :
    (host : Host) (k fuel : ℕ) (w v : World Machine)
    → Stops host k w v
    → k < fuel
    → stop_loop fuel host w ≡ (ok (some tt), v)
unfolding stop_loop
stop_loop-enough host k zero w v stops h = absurd (omega arith)
stop_loop-enough host zero (suc fuel) w _ (is_off e) h = rw e refl
stop_loop-enough host (suc k) (suc fuel) w v (press pressed looked on run_ok refresh_ok later) h =
    rw on (rw run_ok (rw refresh_ok (stop_loop-enough host k fuel looked v later (omega arith))))

stop_loop-Stops :
    (host : Host) (fuel : ℕ) (w v : World Machine)
    → stop_loop fuel host w ≡ (ok (some tt), v)
    → (k : ℕ) × (k < fuel) × Stops host k w v
unfolding stop_loop
stop_loop-Stops host zero w v h =
    let out_of_fuel : ok none ≡ ok (some tt) = ap (λ p. p.0) h in absurd (cc out_of_fuel)
stop_loop-Stops host (suc fuel) w v h = elim (Bool-cases (w.this.state == "poweroff")) [
  | inl e ↦ (zero, omega arith, subst (Stops host zero w) (ap (λ p. p.1) (rw e at h)) (is_off e))
  | inr on ↦
      let (t, pressed, run_ok, h1) =
        proceed-ok (run ("controlvm" ∷ w.this.name ∷ "acpipowerbutton" ∷ []) host w) _ host _ v
          (rw on at h) in
      let (u, looked, refresh_ok, h2) = proceed-ok (refresh host pressed) _ host _ v h1 in
      let (k, less, stops) = stop_loop-Stops host fuel looked v h2 in
      (suc k, omega arith, press {k = k} pressed looked on run_ok refresh_ok stops)
]

Stops-off :
    (host : Host) (k : ℕ) (w v : World Machine)
    → Stops host k w v
    → (v.this.state == "poweroff") ≡ true
Stops-off host zero w _ (is_off e) = e
Stops-off host (suc k) w v (press pressed looked on run_ok refresh_ok later) =
    Stops-off host k looked v later

-- When the machine is not down, resuming it (if it is paused) succeeds and `k` presses stop it,
-- `Stop` returns without an error after them, given more fuel than presses.
pub stop-enough :
    (host : Host) (k fuel : ℕ) (w resumed v : World Machine)
    → is_down w.this.state ≡ false
    → resume_if (w.this.state == paused) host w ≡ (ok tt, resumed)
    → Stops host k resumed v
    → k < fuel
    → stop fuel host w ≡ (ok (some tt), v)
unfolding stop
stop-enough host k fuel w resumed v up resume_ok stops h =
    rw up (rw resume_ok (stop_loop-enough host k fuel resumed v stops h))

-- When the machine is not down and `Stop` returns without an error, the machine is off as it was
-- last seen, after some number of presses of the power button.
pub stop-Stops :
    (host : Host) (fuel : ℕ) (w v : World Machine)
    → is_down w.this.state ≡ false
    → stop fuel host w ≡ (ok (some tt), v)
    → (resumed : World Machine) × (k : ℕ) × Stops host k resumed v
      × (resume_if (w.this.state == paused) host w ≡ (ok tt, resumed))
      × ((v.this.state == "poweroff") ≡ true)
unfolding stop
stop-Stops host fuel w v up h =
    let (t, resumed, resume_ok, h1) =
      proceed-ok (resume_if (w.this.state == paused) host w) _ host _ v (rw up at h) in
    let (k, less, stops) = stop_loop-Stops host fuel resumed v h1 in
    (resumed, k, stops, resume_ok, Stops-off host k resumed v stops)
