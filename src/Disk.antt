-- ===== src/Disk.antt =====
-- disk.go: `ZeroFill`; medium.go, import.go and version.go.
pub mod Fill
pub mod Image
use go_virtualbox.Prelude.{
  ℕ, zero, suc, ◌-◌, String, Bool, true, false, Option, none, some, List, [], ◌∷◌, ltb,
  if◌then◌else◌,
}
use go_virtualbox.Go.Outcome.{Error}
use go_virtualbox.Vbcmd.{Exec, ◌>>=◌, pure, check, run, run_out_err}

-- An io.Writer with its state: Write of so many zero bytes gives the count and an error.
pub record Writer (W : Type 0) : Type 0 where
  pub write : W → ℕ → W × ℕ × Option Error

abbrev pub blocksize : ℕ
blocksize = 32768

-- the length of the slice that is written
abbrev pub block_of : ℕ → ℕ
block_of n = if ltb blocksize n then blocksize else n

-- after a write: an error ends the loop, and else n -= k
unfoldable pub fill_rest :
    {W : Type 0}
    → (W → ℕ → Option (W × Option Error))
    → ℕ
    → W × ℕ × Option Error
    → Option (W × Option Error)
fill_rest again n (w, k, some e) = some (w, some e)
fill_rest again n (w, k, none) = again w (n - k)

-- The loop on fuel, `none` when the fuel is out. A count above n ends it, as a negative n does.
unfoldable pub zero_fill : {W : Type 0} → Writer W → ℕ → W → ℕ → Option (W × Option Error)
unfolding fill_rest
zero_fill writer fuel w zero = some (w, none)
zero_fill writer zero w (suc n) = none
zero_fill writer (suc fuel) w (suc n) =
    fill_rest (zero_fill writer fuel) (suc n) (writer.write w (block_of (suc n)))

unfoldable pub unregister_disk : {S : Type 0} → String → Exec S (Unit {0})
unfolding run_out_err
unregister_disk id_or_fn = do
  (stdout, stderr, e) ← run_out_err ("closemedium" ∷ "disk" ∷ id_or_fn ∷ [])
  check e tt

unfoldable pub unregister_dvd : {S : Type 0} → String → Exec S (Unit {0})
unfolding run_out_err
unregister_dvd id_or_fn = do
  (stdout, stderr, e) ← run_out_err ("closemedium" ∷ "dvd" ∷ id_or_fn ∷ [])
  check e tt

unfoldable pub import_ov : {S : Type 0} → String → Exec S (Unit {0})
unfolding run
import_ov path = run ("import" ∷ path ∷ [])

unfoldable pub version : {S : Type 0} → Exec S String
unfolding run_out_err
version = do (stdout, stderr, e) ← run_out_err ("--version" ∷ []); check e stdout
