-- ===== src/Vbhostd/System/Stuck.antt =====
-- cmd/vbhostd: what becomes of the loop over the properties when no waiter is left.
use go_virtualbox.Prelude.{List, ℕ, ◌<◌, ◌≡◌}
use go_virtualbox.Vbcmd.{Host}
use go_virtualbox.Guest.Waiter.{returned, Waiter, Alone, reports, fails, quits, ends}
use go_virtualbox.Vbhostd.{Line}
use go_virtualbox.Vbhostd.System.{
  ended, looping, State, pattern, waiter_at, Step, starts, loops, waits, sends, finishes, handles,
  leaves, closes, closes_again, selects, completes, exits_completed, exits_timeout,
}

-- Nothing runs for a machine.
abbrev pub Over : State → ℕ → Type 0
Over s i = ((s.watch i).phase ≡ returned) × ((s.watch i).forwarder ≡ ended)

module _ (host : Host) where
  returned-stuck :
      (s : State) {i : ℕ} {v : Waiter (List Line)}
      → (s.watch i).phase ≡ returned
      → ¬ Alone host (s.watch i).vm pattern (waiter_at s (s.watch i)) v
  returned-stuck s over (reports at result) = cc
  returned-stuck s over (fails at result) = cc
  returned-stuck s over (quits at shut) = cc
  returned-stuck s over (ends at) = cc

  never_moves :
      (s : State)
      → s.main ≡ looping
      → ((i : ℕ) → i < s.size → Over s i)
      → (t : State) → ¬ Step host s t
  never_moves s e over t (starts at) = cc
  never_moves s e over t (loops at) = cc
  never_moves s e over t (waits i live below step) = returned-stuck s (over i below).0 step
  never_moves s e over t (sends i live below offers holds) =
      let (is_back, is_over) = over i below in cc
  never_moves s e over t (finishes i live below shut holds) =
      let (is_back, is_over) = over i below in cc
  never_moves s e over t (handles i at below holds result) =
      let (is_back, is_over) = over i below in cc
  never_moves s e over t (leaves i at below holds result) =
      let (is_back, is_over) = over i below in cc
  never_moves s e over t (closes i at visit open_) = cc
  never_moves s e over t (closes_again i at visit shut) = cc
  never_moves s e over t (selects at) = cc
  never_moves s e over t (completes at none_left) = cc
  never_moves s e over t (exits_completed at told) = cc
  never_moves s e over t (exits_timeout at) = cc

  -- The loop over the properties is stuck when every waiter has returned and every forwarder has
  -- ended, also with no machine at all: nobody closes `agg`, so no goroutine can take a step.
  pub looping-stuck :
      (s : State)
      → s.main ≡ looping
      → ((i : ℕ) → i < s.size → Over s i)
      → ¬ ((t : State) × Step host s t)
  looping-stuck s e over (t, step) = never_moves s e over t step
