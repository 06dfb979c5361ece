-- ===== src/Guest/Logged.antt =====
-- guestprop.go: the programs that a wait runs.
use go_virtualbox.Prelude.{true, [], ◌∷◌, String, refl}
use go_virtualbox.Vbcmd.{Host, World, Invocation, prepare, set_opts, manage, run_out}
use go_virtualbox.Vbcmd.Logs.{
  Adds, Adds-none, proceed-Adds, checked_output-Adds, run_out-Adds, either-Adds,
}
use go_virtualbox.Guest.{wait_in_guest, wait_guest_property}

-- the command of the host, and the one that a guest has in front
abbrev pub outer_wait : Host → String → String → Invocation
outer_wait host vm prop = prepare host.os host.manage ("guestproperty" ∷ "wait" ∷ vm ∷ prop ∷ [])

abbrev pub inner_wait : Host → String → Invocation
inner_wait host prop =
    prepare host.os (record host.manage { sudo = true }) ("guestproperty" ∷ "wait" ∷ prop ∷ [])

module _ (P : Invocation → Type 0) where
  wait_in_guest-Adds :
      {S : Type 0} (prop : String) (host : Host) (w : World S)
      → P (inner_wait host prop)
      → Adds P w (wait_in_guest prop host w).1
  unfolding wait_in_guest manage set_opts
  wait_in_guest-Adds prop host w p =
      either-Adds P host host.manage.guest _ _ w
        (checked_output-Adds P (record host.manage { sudo = true })
          ("guestproperty" ∷ "wait" ∷ prop ∷ []) (λ out. tt) host w p)
        (Adds-none P refl)

  -- A wait runs no other programs than these.
  pub wait_guest_property-Adds :
      {S : Type 0} (vm prop : String) (host : Host) (w : World S)
      → P (outer_wait host vm prop)
      → P (inner_wait host prop)
      → Adds P w (wait_guest_property vm prop host w).1
  unfolding wait_guest_property
  wait_guest_property-Adds vm prop host w outer inner =
      proceed-Adds P (wait_in_guest prop host w) _ host (wait_in_guest-Adds prop host w inner)
        (λ a v.
          proceed-Adds P (run_out ("guestproperty" ∷ "wait" ∷ vm ∷ prop ∷ []) host v) _ host
            (run_out-Adds P _ host v outer) (λ out u. Adds-none P refl))
