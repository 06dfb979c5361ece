-- ===== src/Machine/Lifecycle/Plan/Done.antt =====
-- machine.go: what the operations on a machine run, and what they leave out after a failure.
use mathlib.Core.Path.{subst}
use go_virtualbox.Prelude.{sym}
use go_virtualbox.Vbcmd.{Host, World}
use go_virtualbox.Vbcmd.Effects.{Did, script-Did}
use go_virtualbox.Machine.Kinds.{Machine}
use go_virtualbox.Machine.Lifecycle.Plan.{Operation, operate, plan, kind_of, operate-plan}

-- What each operation does in the world: the first command of its plan runs, and each further one when
-- the one before it has succeeded; the first that fails is the last one that runs, and the operation
-- returns its error. Without a failure all of the plan has run and there is no error. The object
-- stays as it is, and nothing else runs.
pub operate-Did :
    (op : Operation) (host : Host) (w : World Machine)
    → let (result, after) = operate op host w in
      Did host (plan op (kind_of w.this.state) w.this.name) w result after
operate-Did op host w =
    let commands = plan op (kind_of w.this.state) w.this.name in
    subst (λ r. Did host commands w r.0 r.1) (sym (operate-plan op host w))
      (script-Did commands host w)
