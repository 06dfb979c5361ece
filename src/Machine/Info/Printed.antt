-- ===== src/Machine/Info/Printed.antt =====
-- machine.go: `GetMachine` on the text that showvminfo prints.
use go_virtualbox.Prelude.{String, true, none, List, [], ◌≡◌, refl, ap}
use go_virtualbox.Go.Outcome.{ok}
use go_virtualbox.Go.Scanner.RoundTrip.{unlines, are_lines, scan_lines-unlines}
use go_virtualbox.Vbcmd.{Host}
use go_virtualbox.Uart.FromInfo.{PropMap}
use go_virtualbox.Machine.Info.{vminfo_as_prop_map, scanned_all, machine_of_props, machine_of_reply}
use go_virtualbox.Machine.Info.Lines.{ShowAll, insert_all, add_lines-ShowAll}

-- The map of a text whose lines show entries.
pub vminfo_as_prop_map-ShowAll :
    (lines : List String) (entries : PropMap)
    → ShowAll lines entries
    → are_lines lines ≡ true
    → vminfo_as_prop_map (unlines lines) ≡ ok (insert_all entries [])
unfolding vminfo_as_prop_map scanned_all
vminfo_as_prop_map-ShowAll lines entries shown fine =
    rw (scan_lines-unlines lines fine) (ap ok (add_lines-ShowAll lines entries [] shown))

-- what a successful `showvminfo` with this text gives
pub machine_of_reply-ShowAll :
    (host : Host) (lines : List String) (entries : PropMap) (stderr : String)
    → ShowAll lines entries
    → are_lines lines ≡ true
    → machine_of_reply host.stat host.dir (unlines lines) stderr none
      ≡ machine_of_props host.stat host.dir (insert_all entries [])
unfolding machine_of_reply
machine_of_reply-ShowAll host lines entries stderr shown fine =
    rw (vminfo_as_prop_map-ShowAll lines entries shown fine) refl
