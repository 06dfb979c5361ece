-- ===== src/Disk/Image.antt =====
-- disk.go: `MakeDiskImage` feeds a raw image to a program that is running.
pub mod Whole
use go_virtualbox.Prelude.{
  ℕ, zero, suc, ◌+◌, ◌-◌, ◌*◌, ◌%◌, ◌^◌, String, Char, Bool, ◌&&◌, Option, none, some, List, [],
  ◌∷◌, ltb, if◌then◌else◌, append,
}
use go_virtualbox.Go.Outcome.{Outcome, ok, err, panic, Error, nil_call}
use go_virtualbox.Go.Strconv.{decimal}
use go_virtualbox.Disk.{Writer, zero_fill}

-- A program with its standard input: StdinPipe, Start, the writer, Close and Wait. `W` is what becomes
-- of all of it.
pub record Process (W : Type 0) : Type 0 where
  pub stdin_pipe : W → Option Error
  pub cmd_start : String → List String → W → W × Option Error
  pub stdin : Writer W
  pub close : W → W × Option Error
  pub wait : W → W × Option Error

-- io.Copy(stdin, r): how many bytes it has copied, below 2 ^ 63
abbrev pub Source : Type 0 → Type 0
Source W = W → W × ℕ × Option Error

-- int64(size) << 20, as the 64 bits of the number
unfoldable pub size_bytes : ℕ → ℕ
size_bytes size = size * 2 ^ 20 % 2 ^ 64

-- fmt.Sprintf("%d", n), of the 64 bits of n
unfoldable pub signed_decimal : ℕ → String
unfolding decimal
signed_decimal n = if ltb n (2 ^ 63) then decimal n else append "-" (decimal (2 ^ 64 - n))

-- sizeBytes - n, as 64 bits
unfoldable pub left_of : ℕ → ℕ → ℕ
left_of bytes n = (bytes + (2 ^ 64 - n)) % 2 ^ 64

abbrev pub image_words : ℕ → String → List String
unfolding signed_decimal size_bytes
image_words size dest =
    "convertfromraw" ∷ "stdin" ∷ dest ∷ signed_decimal (size_bytes size) ∷ "--format" ∷ "VDI" ∷ []

-- what a call returned, or `none` where the fuel of `ZeroFill` is out
abbrev pub Result : Type 0 → Type 0
Result W = Option (Outcome (Unit {0}) × W)

module _ {W : Type 0} (process : Process W) where
  -- if err != nil { return err }
  abbrev pub and_then : W × Option Error → (W → Result W) → Result W
  and_then (w, some e) next = some (err e, w)
  and_then (w, none) next = next w

  abbrev pub all_done : W → Result W
  all_done w = some (ok tt, w)

  -- stdin.Close() and cmd.Wait()
  unfoldable pub close_wait : W → Result W
  close_wait w = and_then (process.close w) (λ v. and_then (process.wait v) all_done)

  abbrev pub filled : Option (W × Option Error) → Result W
  unfolding close_wait
  filled none = none
  filled (some result) = and_then result close_wait

  -- the zeros that are missing, with as much fuel as bytes
  unfoldable pub fill_left : ℕ → W → Result W
  unfolding zero_fill filled close_wait
  fill_left left w =
      if ltb 0 left && ltb left (2 ^ 63)
      then filled (zero_fill process.stdin left w left)
      else close_wait w

  -- A nil reader is called, and so io.Copy panics.
  unfoldable pub copy_from : ℕ → Option (Source W) → W → Result W
  unfolding fill_left left_of
  copy_from bytes none w = some (panic nil_call, w)
  copy_from bytes (some copy) w =
      let (v, n, e) = copy w in and_then (v, e) (fill_left (left_of bytes n))

  unfoldable pub make_disk_image : String → String → ℕ → Option (Source W) → W → Result W
  unfolding copy_from image_words size_bytes
  make_disk_image path dest size source w =
      and_then (w, process.stdin_pipe w)
        (λ u.
          and_then (process.cmd_start path (image_words size dest) u)
            (copy_from (size_bytes size) source))
