-- ===== src/Machine/Lifecycle/Getting.antt =====
-- machine.go: `GetMachine` on a host whose showvminfo prints properties.
use go_virtualbox.Prelude.{String, List, [], ◌∷◌}
use go_virtualbox.Vbcmd.{Reply, Host, World}
use go_virtualbox.Vbcmd.Effects.{invocation}

abbrev pub showvminfo : String → List String
showvminfo id = "showvminfo" ∷ id ∷ "--machinereadable" ∷ []

abbrev pub info_reply : {S : Type 0} → Host → String → World S → Reply
info_reply host id w = host.reply w.log (invocation host (showvminfo id))
