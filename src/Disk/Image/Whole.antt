-- ===== src/Disk/Image/Whole.antt =====
-- disk.go: the program that makes the image gets exactly the bytes that it was told.
use mathlib.Core.Path.{subst}
use go_virtualbox.Prelude.{
  ℕ, ◌+◌, ◌-◌, ◌*◌, ◌^◌, ◌≤◌, ◌<◌, String, true, false, ◌&&◌, Option, none, some, List, ltb, ◌≡◌,
  refl, ◌∙◌, sym, arith, Bool-cases, inl, inr,
}
use go_virtualbox.Go.Outcome.{Outcome, ok, err, Error}
use go_virtualbox.Disk.Fill.{IsWriter, zero_fill-ends}
use go_virtualbox.Disk.Image.{
  Process, Source, Result, size_bytes, left_of, and_then, close_wait, fill_left, copy_from,
  image_words, make_disk_image,
}

-- What the system asks of a process, with the number of bytes that its input has taken: only writes
-- to the input change that number.
pub record IsProcess {W : Type 0} (process : Process W) (taken : W → ℕ) : Type 0 where
  pub writes : IsWriter process.stdin taken
  pub start_keeps :
      (path : String) (words : List String) (w : W)
      → taken (process.cmd_start path words w).0 ≡ taken w
  pub close_keeps : (w : W) → taken (process.close w).0 ≡ taken w
  pub wait_keeps : (w : W) → taken (process.wait w).0 ≡ taken w

-- io.Copy returns the number of bytes that were written, and there are at most so many.
abbrev pub IsSource : {W : Type 0} → (W → ℕ) → ℕ → Source W → Type 0
IsSource {W} taken most copy =
    (w : W) → (taken (copy w).0 ≡ taken w + (copy w).1) × ((copy w).1 ≤ most)

left_of-sub : (bytes n : ℕ) → n ≤ bytes → bytes < 2 ^ 63 → left_of bytes n ≡ bytes - n
unfolding left_of
left_of-sub bytes n h small = omega arith

size_bytes-small : (size : ℕ) → size < 2 ^ 43 → size_bytes size ≡ size * 2 ^ 20
unfolding size_bytes
size_bytes-small size h = omega arith

module _ {W : Type 0} (process : Process W) (taken : W → ℕ) where
  -- it returns, and without an error the input has taken so many bytes
  abbrev pub Returns : ℕ → Result W → Type 0
  Returns total r =
      (o : Outcome (Unit {0})) × (w : W) × (r ≡ some (o, w)) × (o ≡ ok tt → taken w ≡ total)

  and_then-Returns :
      (total : ℕ) (r : W × Option Error) (next : W → Result W)
      → Returns total (next r.0)
      → Returns total (and_then process r next)
  and_then-Returns total (w, none) next h = h
  and_then-Returns total (w, some e) next h = (err e, w, refl, λ bad. absurd (cc bad))

module _ {W : Type 0} (process : Process W) (taken : W → ℕ) (is : IsProcess process taken) where
  close_wait-Returns :
      (total : ℕ) (w : W) → taken w ≡ total → Returns process taken total (close_wait process w)
  unfolding close_wait
  close_wait-Returns total w h =
      let closed = is.close_keeps w in
      let waited = is.wait_keeps (process.close w).0 in
      and_then-Returns process taken total (process.close w) _ (
        and_then-Returns process taken total (process.wait (process.close w).0) _
          (ok tt, _, refl, λ _. waited ∙ closed ∙ h))

  fill_left-Returns :
      (total left : ℕ) (w : W)
      → taken w + left ≡ total
      → left < 2 ^ 63
      → Returns process taken total (fill_left process left w)
  unfolding fill_left
  fill_left-Returns total left w h small = elim (Bool-cases (ltb 0 left)) [
    | inl some_left ↦
        let (v, e, ended, all) = zero_fill-ends process.stdin taken left w is.writes in
        let more : (ltb 0 left && ltb left (2 ^ 63)) ≡ true = ground arith in
        rw more (rw ended (filled-Returns v e (λ ok_here. let a = all ok_here in omega arith)))
    | inr nothing ↦
        let fewer : (ltb 0 left && ltb left (2 ^ 63)) ≡ false = ground arith in
        rw fewer (close_wait-Returns total w (ground arith))
  ]
    where
      filled-Returns :
          (v : W) (e : Option Error)
          → (e ≡ none → taken v ≡ total)
          → Returns process taken total (and_then process (v, e) (close_wait process))
      filled-Returns v none t = close_wait-Returns total v (t refl)
      filled-Returns v (some e) t = (err e, v, refl, λ bad. absurd (cc bad))

  copy_from-Returns :
      (bytes : ℕ) (copy : Source W) (w : W)
      → IsSource taken bytes copy
      → bytes < 2 ^ 63
      → Returns process taken (taken w + bytes) (copy_from process bytes (some copy) w)
  unfolding copy_from
  copy_from-Returns bytes copy w source small =
      let (copied, bounded) = source w in
      let (v, n, e) = copy w in
      and_then-Returns process taken (taken w + bytes) (v, e) _
        (subst (λ left. Returns process taken (taken w + bytes) (fill_left process left v))
          (sym (left_of-sub bytes n bounded small))
          (fill_left-Returns (taken w + bytes) (bytes - n) v (omega arith) (omega arith)))

-- MakeDiskImage returns, and when it returns no error the program has got size * 2 ^ 20 bytes: what
-- the reader has, which is at most as much, and zeros. The size is below 2 ^ 43, the writer takes
-- all bytes of a write without an error, and only writes to its input change what it has taken.
pub make_disk_image-Returns :
    {W : Type 0} (process : Process W) (taken : W → ℕ) (copy : Source W) (path dest : String)
    (size : ℕ) (w : W)
    → IsProcess process taken
    → IsSource taken (size * 2 ^ 20) copy
    → size < 2 ^ 43
    → Returns process taken
        (taken w + size * 2 ^ 20)
        (make_disk_image process path dest size (some copy) w)
unfolding make_disk_image
make_disk_image-Returns process taken copy path dest size w is source small =
    let started = process.cmd_start path (image_words size dest) w in
    let total = taken w + size * 2 ^ 20 in
    let kept = is.start_keeps path (image_words size dest) w in
    let copied =
      copy_from-Returns process taken is (size * 2 ^ 20) copy started.0 source (omega arith) in
    and_then-Returns process taken total (w, process.stdin_pipe w) _
      (and_then-Returns process taken total started
        (copy_from process (size_bytes size) (some copy))
        (subst
          (λ bytes. Returns process taken total (copy_from process bytes (some copy) started.0))
          (sym (size_bytes-small size small))
          (subst
            (λ t.
              Returns process taken (t + size * 2 ^ 20)
                (copy_from process (size * 2 ^ 20) (some copy) started.0))
            kept copied)))
