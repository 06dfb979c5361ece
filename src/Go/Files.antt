-- ===== src/Go/Files.antt =====
-- Of packages os and io/fs: the type bits of a file. `os.Stat` is a parameter of the model: a
-- function from paths, `none` where it fails.
use go_virtualbox.Prelude.{String, Bool, not, ◌&&◌, Option}

-- fs.FileMode.Type()
pub record FileType : Type 0 where
  pub dir : Bool
  pub symlink : Bool
  pub device : Bool
  pub named_pipe : Bool
  pub socket : Bool
  pub char_device : Bool
  pub irregular : Bool

abbrev pub Stat : Type 0
Stat = String → Option FileType

-- fs.ModeCharDevice == ftype: that bit is set, and no other
unfoldable pub equals_char_device : FileType → Bool
equals_char_device t =
    t.char_device
    && (not t.dir
        && (not t.symlink
            && (not t.device && (not t.named_pipe && (not t.socket && not t.irregular)))))
