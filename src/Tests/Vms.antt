-- ===== src/Tests/Vms.antt =====
-- machine.go and vbcmd.go on a host that replies as VBoxManage does.
use go_virtualbox.Prelude.{
  ◌≤◌, String, none, some, List, [], ◌∷◌, insert, ◌≡◌, refl, length, lookup, insert,
}
use go_virtualbox.Go.Outcome.{ok, err, exec_failed, exec_error, err_not_found}
use go_virtualbox.Vbcmd.{Command, Invocation, Reply, Host, World, proceed, ◌>>=◌, pure, run}
use go_virtualbox.Vbcmd.Effects.{Did, script, run-outcome_of, ran}
use go_virtualbox.Machine.Kinds.{Nic}
use go_virtualbox.Machine.Nic.{nics_of}
use go_virtualbox.Machine.Nic.Read.{NicsAt, nics_of-NicsAt}
use go_virtualbox.Machine.Lifecycle.{refresh, delete, restart}
use go_virtualbox.Machine.Lifecycle.Plan.{op_delete, operate-plan}
use go_virtualbox.Machine.Lifecycle.Plan.Done.{operate-Did}
use go_virtualbox.Machine.Lifecycle.Restarting.{restart_saved}
use go_virtualbox.Machine.Config.{modify}
use go_virtualbox.Machine.Config.Modified.{modify_words, modify-command_line}
use go_virtualbox.Uart.Commands.{modify_vm_cmd_args}
use go_virtualbox.Uart.FromInfo.{PropMap}
use go_virtualbox.Tests.Hosts.{obedient, without_vboxmanage, vm_in}

abbrev delete_words : List (List String)
delete_words =
    ("controlvm" ∷ "vm" ∷ "poweroff" ∷ []) ∷ ("unregistervm" ∷ "vm" ∷ "--delete" ∷ []) ∷ []

operate-plan_example :
    delete obedient (vm_in "running") ≡ script delete_words obedient (vm_in "running")
operate-plan_example = operate-plan op_delete obedient (vm_in "running")

-- `Delete` of a machine that runs
operate-Did_example :
    let (result, after) = delete obedient (vm_in "running") in
    Did obedient delete_words (vm_in "running") result after
operate-Did_example = operate-Did op_delete obedient (vm_in "running")

run-outcome_of_example : run ("--version" ∷ []) without_vboxmanage (vm_in "running") ≡ (
  err (exec_failed (exec_error "VBoxManage" err_not_found)),
  record (vm_in "running") {
    log = record { program = "VBoxManage"; argv = "--version" ∷ [] } ∷ [];
  },
)
unfolding go_virtualbox.Vbcmd.prepare
run-outcome_of_example = run-outcome_of ("--version" ∷ []) without_vboxmanage (vm_in "running")

restart_saved_example :
    restart 9 obedient (vm_in "saved")
    ≡ (script (
            ("startvm" ∷ "vm" ∷ "--type" ∷ "headless" ∷ [])
            ∷ ("startvm" ∷ "vm" ∷ "--type" ∷ "headless" ∷ [])
            ∷ [])
          >>= λ t. pure (some t))
        obedient
        (vm_in "saved")
restart_saved_example = restart_saved 9 obedient (vm_in "saved") refl

no_ports : modify_vm_cmd_args [] ≡ ok []
unfolding modify_vm_cmd_args
no_ports = refl

modify-command_line_example :
    modify [] obedient (vm_in "poweroff")
    ≡ refresh obedient
        (ran obedient (modify_words (vm_in "poweroff").this [] []) (vm_in "poweroff"))
modify-command_line_example = modify-command_line [] [] obedient (vm_in "poweroff") no_ports

abbrev nic_info : PropMap
nic_info =
    ("nic1", "nat")
    ∷ ("nictype1", "82540EM")
    ∷ ("macaddress1", "080027")
    ∷ ("natnet1", "nat")
    ∷ ("nic2", "none")
    ∷ []

abbrev nat_nic : Nic
nat_nic = record {
  network = "nat";
  network_name = "nat";
  hardware = "82540EM";
  host_interface = "";
  mac_addr = "080027";
}

nat_nic_read : nics_of nic_info ≡ ok (nat_nic ∷ [])
unfolding nics_of lookup go_virtualbox.Go.Strconv.decimal
nat_nic_read = refl

nat_nic_at : NicsAt nic_info 4 1 (nat_nic ∷ []) × (length (nat_nic ∷ []) ≤ 4)
nat_nic_at = nics_of-NicsAt nic_info (nat_nic ∷ []) nat_nic_read

abbrev two_lines_host : Host
two_lines_host = record obedient {
  reply = λ log inv. record { stdout = "name=\"vm\"\nmemory=1\n"; stderr = ""; failure = none };
}
