-- ===== src/Vbmgt/Sudoer.antt =====
-- Who is a sudoer.
use go_virtualbox.Prelude.{String, some, List, [], ◌∷◌, ◌==◌, ◌≡◌, refl, elem, Bool-cases, inl, inr}
use go_virtualbox.Go.Outcome.{ok}
use go_virtualbox.Vbmgt.{System, group_loop, is_sudoer}

-- the names of the groups
pub data Named (sys : System) : List String → List String → Type 0 where
  no_groups : Named sys [] []
  a_group :
      (id name : String) (ids names : List String)
      → sys.group_name id ≡ some name
      → Named sys ids names
      → Named sys (id ∷ ids) (name ∷ names)

group_loop-elem :
    (sys : System) (ids names : List String)
    → Named sys ids names
    → group_loop sys ids ≡ ok (elem "sudo" names)
unfolding group_loop
group_loop-elem sys _ _ no_groups = refl
group_loop-elem sys _ _ (a_group id name ids names is later) =
    rw is (elim (Bool-cases (name == "sudo")) [
      | inl sudoer ↦ rw sudoer refl
      | inr other ↦ rw other (group_loop-elem sys ids names later)
    ])

-- On Linux, a user whose groups all have a name is a sudoer exactly when one of them is `sudo`.
pub is_sudoer-elem :
    (sys : System) (ids names : List String)
    → sys.os ≡ "linux"
    → sys.group_ids ≡ some (some ids)
    → Named sys ids names
    → is_sudoer sys ≡ ok (elem "sudo" names)
unfolding is_sudoer
is_sudoer-elem sys ids names linux user named =
    rw (user, linux) (group_loop-elem sys ids names named)
