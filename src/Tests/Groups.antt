-- ===== src/Tests/Groups.antt =====
-- vbmgt.go on a Linux system.
use go_virtualbox.Prelude.{true, none, some, [], ◌∷◌, ◌==◌, if◌then◌else◌, ◌≡◌, refl}
use go_virtualbox.Go.Outcome.{ok}
use go_virtualbox.Vbmgt.{System, is_sudoer, no_error, not_found}
use go_virtualbox.Vbmgt.Sudoer.{no_groups, a_group, is_sudoer-elem}

abbrev linux_system : System
linux_system = record {
  os = "linux";
  getenv = λ name. "";
  join = λ parts. "";
  stat = λ path. no_error;
  look_path = λ name. not_found;
  abs = λ path. none;
  group_ids = some (some ("100" ∷ "27" ∷ []));
  group_name = λ id. if id == "27" then some "sudo" else some "users";
}

is_sudoer-elem_example : is_sudoer linux_system ≡ ok true
is_sudoer-elem_example =
    is_sudoer-elem linux_system ("100" ∷ "27" ∷ []) ("users" ∷ "sudo" ∷ []) refl refl (
      a_group "100" "users" ("27" ∷ []) ("sudo" ∷ []) refl
        (a_group "27" "sudo" [] [] refl no_groups))
