-- ===== src/Lib.antt =====
-- A model of go-virtualbox, a Go library that drives VirtualBox by running the program VBoxManage:
-- it makes command lines from Go values, runs them, and reads the text that is printed back into Go
-- values. The model covers the package in the repository's root, and the program cmd/vbhostd that waits
-- for properties of guests.
--
-- The parts and their files:
--   Go          what the code uses of Go's standard library: errors and panics (Outcome), strings,
--               strconv, fmt.Sscanf (Scan), the type bits of files, regexp (Regexp),
--               bufio.Scanner (Scanner) and the addresses of package net (Net).
--   CmdArgs     cmd_arg.go: the arguments of a command with overrides, and `Args`. Spec is the command
--               line that is meant.
--   Uart        uart.go: keys and ranks (Key), the base and the interrupt (Com), types and modes
--               (Kinds), the record and the filter (Device), the words of modifyvm (Commands), the
--               ports from the properties (FromInfo) and from texts and maps (Create).
--   Storage     storage.go: the constants and records (Kinds), `findStorageMedia` (Media) and the
--               controllers (Controllers).
--   Vbcmd       vbcmd.go: `command`, `prepare`, `run`, `runOut` and `runOutErr`.
--   Vbmgt       vbmgt.go: the search for the program, over a `System` that answers its questions.
--   Machine     machine.go and nic.go: the record (Kinds), the flags, the NICs, what showvminfo prints
--               (Info, with the patterns of vbmgt.go), the methods that start and stop (Lifecycle),
--               those that configure (Config, with the port forwarding and the extra data in
--               Texts), and the functions on all machines (Registry, with extra.go). In Lifecycle,
--               Plan has the commands of each method, Documented the state machine of doc.go, and
--               Exclusive the callers that share the mutex of `GetMachine`.
--   Forwarding  pfrule.go: the rules of port forwarding.
--   Guest       guestprop.go: the properties of guests (Shown and Changed read back what is printed), and
--               the goroutine of `WaitGuestProperties` (Waiter) as a step relation.
--   Networks    the loop over the lines of a list (Lines), masks (util.go), the host-only networks
--               (hostonlynet.go), the NAT networks (natnet.go) and the DHCP servers (dhcp.go).
--   Vbhostd     cmd/vbhostd: which machines are waited for, the loop that opens addresses, and the whole
--               program with its goroutines (System) as a step relation.
--   Disk        disk.go: `ZeroFill` and `MakeDiskImage` (Image); medium.go, import.go, version.go.
--   Tests       the theorems at concrete inputs.
--
-- How state and effects are modelled. A `Host` is the computer: runtime.GOOS, the command that
-- `Manage()` returns, os.Stat, filepath.Dir, and the reply of a program, a function of all programs
-- that ran before and of this one. A call is a function from the host and a `World`, the log of the
-- invocations and the object of the method, to an outcome and a world. A method that assigns to `*m`
-- changes that object, and a call that fails keeps the changes made before it. What VirtualBox does is
-- not modelled: theorems hold for every reply, and those on `Stop` name the replies they need, or a
-- VirtualBox that obeys the tables of doc.go.
--
-- Names are the source's in snake_case. A Go map that is only read or written by key is a list of
-- pairs; a map that a loop runs over is the list of its entries in the order of the loop. Messages of
-- errors are left out, and the values they quote are kept. A text is a list of characters, so a bound
-- on bytes is exact for ASCII. `uint` values are natural numbers, with the wrap of 64 bits written
-- where the source can reach it.
--
-- Of the package go-multierror the code uses Append and ErrorOrNil: the model lists the errors that are
-- appended, and what ErrorOrNil makes of them is a parameter, with the law that the result is nil
-- exactly when no error but nil ones was appended. The error of DHCPs for a name that is there twice is
-- kept without the keys that golang.org/x/exp/maps lists.
--
-- The loop of `Stop` runs on fuel, one for each look at the machine's state, and says `none` when the
-- fuel is out; more fuel than presses of the power button is enough. The loop of `ZeroFill` runs on fuel
-- too, and the number of bytes is enough. The groups of an IPv6 address
-- are read in at most eight rounds, as there are 16 bytes. All other loops are structural.
--
-- `DHCPs` keeps pointers in its map and changes the records through them: its model has a store of
-- records, and a pointer is a place in it. `MakeDiskImage` talks to a program that runs at the same
-- time; the program and the reader are parameters, and the zeros have as much fuel as bytes.
--
-- The waiter for guest properties is a step relation: a step is a wait that returns, a property that the
-- reader takes, the end, or the caller's close(done). The other members of its WaitGroup stand still.
--
-- Of package net the texts of addresses are modelled up to the limit of four digits in a group of
-- IPv6, which older releases of Go do not have. strings.ToLower is modelled where its result is in ASCII.
--
-- vbhostd is a step relation over one world and one group: a waiter of Guest takes its steps among those
-- of the other machines, a forwarder takes a property from its waiter and `main` takes it from the
-- forwarder, each in one step as the channels have no buffer. The loop over the map `done` visits its
-- entries in any order, and the timeout may end the select at any moment. A call of a program is one
-- step, and what package flag makes of the command line is a parameter.
--
-- What doc.go says of VBoxManage is a relation, and a VirtualBox that obeys it is a parameter of the
-- theorems on the documented states: it has a state and a history of states for each log, so that a
-- reset, which goes through poweroff, is told from a command that does nothing. Nothing is said of a
-- command in a state that the table does not list.
--
-- A call of GetMachine is one step too. Why that is right is shown apart (Machine/Lifecycle/Exclusive):
-- the mutex lets no two runs of showvminfo overlap, for any number of goroutines.
--
-- Not modelled: logging, and the wait of a second in `Stop`.
pub mod CmdArgs
pub mod Disk
pub mod Forwarding
pub mod Go
pub mod Guest
pub mod Machine
pub mod Networks
pub mod Prelude
pub mod Storage
pub mod Tests
pub mod Uart
pub mod Vbcmd
pub mod Vbhostd
pub mod Vbmgt
