-- ===== src/Networks/Lines/Blocks.antt =====
-- What the loop over the lines reads: the blocks of lines that an empty line ends.
use go_virtualbox.Prelude.{
  String, false, Option, List, [], ◌∷◌, ◌++◌, Dict, insert, ◌==◌, ◌≡◌, refl, ap, ◌∙◌, sym, All,
  append-nil,
}
use go_virtualbox.Go.Outcome.{Outcome, ok, Error, ◌>>=◌, bind_assoc, bind_congr}
use go_virtualbox.Networks.Lines.{Reader, colon_entry, assign_entry, line_step, line_loop, finish}

-- lines that are not empty
abbrev pub IsBlock : List String → Type 0
IsBlock [] = Unit {0}
IsBlock (line ∷ lines) = ((line == "") ≡ false) × IsBlock lines

-- each block with an empty line behind it, and then the last lines
abbrev pub with_ends : List (List String) → List String → List String
with_ends [] last = last
with_ends (block ∷ blocks) last = block ++ "" ∷ with_ends blocks last

module _ {V : Type 0} (reader : Reader V) where
  -- the entry that the lines of a block make, one after the other
  unfoldable pub assign_block : List String → V → Outcome V
  assign_block [] v = ok v
  assign_block (line ∷ lines) v = assign_entry reader (colon_entry line) v >>= assign_block lines

  -- the entries of the blocks, put into the map in their order; the first error ends it
  unfoldable pub assign_blocks : List (List String) → Dict V → Outcome (Dict V)
  unfolding assign_block
  assign_blocks [] m = ok m
  assign_blocks (block ∷ blocks) m =
      assign_block block reader.fresh >>= λ v. assign_blocks blocks (insert (reader.key v) v m)

  -- the loop on a block, with what is done after it
  line_loop-block :
      {A : Type 0} (block rest : List String) (m : Dict V) (v : V) (next : Dict V × V → Outcome A)
      → IsBlock block
      → (line_loop reader (block ++ rest) (m, v) >>= next)
        ≡ (assign_block block v >>= λ v'. line_loop reader rest (m, v') >>= next)
  unfolding line_loop line_step assign_block
  line_loop-block [] rest m v next h = refl
  line_loop-block (line ∷ lines) rest m v next (h, hs) =
      let o = assign_entry reader (colon_entry line) v in
      rw h (
        ap (λ x. x >>= next) (bind_assoc o _ _)
        ∙ bind_assoc o _ next
        ∙ bind_congr o _ _ (λ v'. line_loop-block lines rest m v' next hs)
        ∙ sym (bind_assoc o _ _))

  line_loop-last :
      (last : List String) (m : Dict V) (v : V) (stopped : Option Error)
      → IsBlock last
      → (line_loop reader last (m, v) >>= finish reader stopped)
        ≡ (assign_block last v >>= λ v'. finish reader stopped (m, v'))
  unfolding line_loop
  line_loop-last last m v stopped h =
      ap (λ lines. line_loop reader lines (m, v) >>= finish reader stopped) (sym (append-nil last))
      ∙ line_loop-block last [] m v (finish reader stopped) h

  -- The loop makes the map of the blocks that an empty line ends, in their order, and the lines
  -- behind the last empty line make no entry: only an error in them counts. An error that stopped
  -- the scanner is returned after those of the lines.
  pub line_loop-assign_blocks :
      (blocks : List (List String)) (last : List String) (m : Dict V) (stopped : Option Error)
      → All IsBlock blocks
      → IsBlock last
      → (line_loop reader (with_ends blocks last) (m, reader.fresh) >>= finish reader stopped) ≡ (
          assign_blocks blocks m >>= λ entries.
          assign_block last reader.fresh >>= λ v. finish reader stopped (entries, v))
  unfolding assign_blocks line_loop line_step
  line_loop-assign_blocks [] last m stopped hb hl = line_loop-last last m reader.fresh stopped hl
  line_loop-assign_blocks (block ∷ blocks) last m stopped (h, hb) hl =
      let o = assign_block block reader.fresh in
      line_loop-block block ("" ∷ with_ends blocks last) m reader.fresh (finish reader stopped) h
      ∙ bind_congr o _ _
          (λ v. line_loop-assign_blocks blocks last (insert (reader.key v) v m) stopped hb hl)
      ∙ sym (bind_assoc o _ _)
