-- ===== src/Tests/Programs.antt =====
-- cmd/vbhostd, pfrule.go, the extra data and `MakeDiskImage` at concrete inputs.
use go_virtualbox.Prelude.{
  ℕ, ◌+◌, ◌*◌, ◌^◌, String, none, some, List, [], ◌∷◌, ◌≡◌, refl, arith, ap, sym,
}
use go_virtualbox.Go.Outcome.{ok, panic, nil_call}
use go_virtualbox.Go.Strings.{split}
use go_virtualbox.Vbcmd.{World, Host}
use go_virtualbox.Vbcmd.Effects.{ran}
use go_virtualbox.Guest.{GuestProperty}
use go_virtualbox.Guest.Shown.{value_shown}
use go_virtualbox.Vbhostd.{Line, event_loop}
use go_virtualbox.Vbhostd.Allowed.{event_loop-keep}
use go_virtualbox.Forwarding.{PfRule, pf_tcp, format, rule_string}
use go_virtualbox.Machine.Config.Texts.{get_extra_data}
use go_virtualbox.Machine.Config.Texts.Shown.{get_extra_data-shown}
use go_virtualbox.Disk.Fill.{IsWriter}
use go_virtualbox.Disk.Image.{Process, Source, make_disk_image}
use go_virtualbox.Disk.Image.Whole.{IsProcess, Returns, make_disk_image-Returns}
use go_virtualbox.Tests.Hosts.{obedient, vm_in}

abbrev property : String → String → GuestProperty
property name value = record { name = name; value = value }

abbrev asked : List GuestProperty
asked =
    property "vbhostd/open" "https://x y"
    ∷ property "vbhostd/open" "file:///etc"
    ∷ property "vbhostd/other" "http://z"
    ∷ property "vbhostd/open" "mailto:a"
    ∷ property "vbhostd/error" "gone"
    ∷ property "vbhostd/open" "http://late"
    ∷ []

abbrev no_lines : World (List Line)
no_lines = record { log = []; this = [] }

event_loop-keep_example :
    (event_loop asked obedient no_lines).1.log
    ≡ record { program = "xdg_open"; argv = "https://x" ∷ "y" ∷ [] }
      ∷ record { program = "xdg_open"; argv = "mailto:a" ∷ [] }
      ∷ []
unfolding go_virtualbox.Vbhostd.Allowed.requests go_virtualbox.Vbhostd.Allowed.is_allowed
    go_virtualbox.Go.Strings.Trim.has_prefix go_virtualbox.Vbhostd.open_command split
event_loop-keep_example = event_loop-keep asked obedient no_lines

abbrev ssh : PfRule
ssh = record {
  proto = pf_tcp;
  host_ip = some (127 ∷ 0 ∷ 0 ∷ 1 ∷ []);
  guest_ip = none;
  host_port = 2222;
  guest_port = 22;
}

ssh_printed : format ssh ≡ "tcp,127.0.0.1,2222,,22"
unfolding format
ssh_printed = refl

ssh_string : rule_string ssh ≡ "tcp://127.0.0.1:2222 --> :22"
unfolding rule_string
ssh_string = refl

-- VBoxManage knows one extra value
abbrev extra_host : Host
extra_host = record obedient {
  reply = λ log inv. record { stdout = value_shown "a,b"; stderr = ""; failure = none };
}

get_extra_data-shown_example :
    get_extra_data "k" extra_host (vm_in "running")
    ≡ (ok (some "a,b"), ran extra_host ("getextradata" ∷ "vm" ∷ "k" ∷ []) (vm_in "running"))
unfolding go_virtualbox.Go.Strings.Trim.trim_right
get_extra_data-shown_example =
    get_extra_data-shown "k" (some "a,b") extra_host (vm_in "running") (refl, refl) refl refl

-- a process whose state is the number of bytes it has taken
abbrev counter : Process ℕ
counter = record {
  stdin_pipe = λ w. none;
  cmd_start = λ path words w. (w, none);
  stdin = record { write = λ w m. (w + m, m, none) };
  close = λ w. (w, none);
  wait = λ w. (w, none);
}

-- a reader of 1000 bytes
abbrev thousand : Source ℕ
thousand w = (w + 1000, 1000, none)

counter-IsWriter : IsWriter counter.stdin (λ w. w)
counter-IsWriter = record {
  takes_all = λ w v m k h. (sym (ap (λ r. r.1) h), sym (ap (λ r. r.0) h));
}

counter-IsProcess : IsProcess counter (λ w. w)
counter-IsProcess = record {
  writes = counter-IsWriter;
  start_keeps = λ path words w. refl;
  close_keeps = λ w. refl;
  wait_keeps = λ w. refl;
}

make_disk_image-Returns_example :
    Returns counter
      (λ w. w)
      (0 + 1 * 2 ^ 20)
      (make_disk_image counter "VBoxManage" "disk.vdi" 1 (some thousand) 0)
make_disk_image-Returns_example =
    make_disk_image-Returns counter (λ w. w) thousand "VBoxManage" "disk.vdi" 1 0 counter-IsProcess
      (λ w. (refl, omega arith)) (omega arith)

-- a nil reader is called
nil_reader : make_disk_image counter "VBoxManage" "disk.vdi" 1 none 0 ≡ some (panic nil_call, 0)
unfolding make_disk_image
nil_reader = refl
