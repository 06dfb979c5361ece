-- ===== src/Machine/Info/Lines.antt =====
-- The lines of `showvminfo` as properties.
use Prim.Native.String.append as Append
use go_virtualbox.Prelude.{
  ℕ, String, Char, code, true, false, some, List, [], ◌∷◌, ◌≡◌, ◌≢◌, refl, sym, ◌∙◌, ap, append,
  insert, arith, ◌==◌, nat_eq, Bool-cases, inl, inr, eq_iff,
}
use go_virtualbox.Go.Regexp.{
  Regex, Captures, Continue, alt, group, many, chr, empty, all_of, dot, match_at, match_one, before,
  find_submatch, accept, capture,
}
use go_virtualbox.Go.Regexp.Greedy.{
  Needs, match_many-last, match_many-all, before-append, before-nil,
}
use go_virtualbox.Go.Strings.{Lacks, Lacks-append}
use go_virtualbox.Machine.Info.{re_vm_info_line, add_property, add_lines}
use go_virtualbox.Uart.FromInfo.{PropMap}

-- a text in quotes
abbrev pub quoted : String → String
quoted value = String.◌∷◌ "\"" (append value (String.◌∷◌ "\"" String.[]))

abbrev value_part : Regex
value_part = all_of (
    chr b'='
    ∷ alt (all_of (chr b'"' ∷ group 3 (many dot) ∷ chr b'"' ∷ [])) (group 4 (many dot))
    ∷ [])

-- what follows the value: its quote
abbrev after_value : String → Continue
after_value s t caps =
    match_at (all_of (chr b'"' ∷ [])) t ((3, before s t) ∷ caps)
      (λ u caps'. match_at empty u caps' accept)

after_value-Needs : (s : String) → Needs b'"' (after_value s)
unfolding match_at match_one
after_value-Needs s = record { at_end = λ caps. refl; elsewhere = λ c t caps h. ground arith }

value_read :
    (value : String) (caps : Captures)
    → Lacks 10 value
    → match_at value_part (String.◌∷◌ "=" (quoted value)) caps accept ≡ some ((3, value) ∷ caps)
unfolding match_at match_one
value_read value caps h =
    let s = append value (String.◌∷◌ "\"" String.[]) in
    let last =
      match_many-last b'"' (after_value s) (after_value-Needs s) value "" "\"" caps
        ((3, value) ∷ caps) refl (omega arith) h tt
        (rw (before-append value (String.◌∷◌ "\"" String.[])) refl) in
    rw last refl

abbrev after_key : String → Continue
after_key s t caps = match_at value_part t ((2, before s t) ∷ caps) accept

after_key-Needs : (s : String) → Needs b'=' (after_key s)
unfolding match_at match_one
after_key-Needs s = record { at_end = λ caps. refl; elsewhere = λ c t caps h. ground arith }

pub before-cons :
    (c : Char) (key t : String) → before (String.◌∷◌ c (append key t)) t ≡ String.◌∷◌ c key
before-cons c key t =
    ap (λ s. before s t) (sym (Append.cons c key t)) ∙ before-append (String.◌∷◌ c key) t

-- The text does not start with a quote.
abbrev pub Unquoted : String → Type 0
Unquoted String.[] = Unit {0}
Unquoted (String.◌∷◌ c s) = code c ≢ b'"'

plain_value_read :
    (value : String) (caps : Captures)
    → Unquoted value
    → Lacks 10 value
    → match_at value_part (String.◌∷◌ "=" value) caps accept ≡ some ((4, value) ∷ caps)
unfolding match_at match_one
plain_value_read String.[] caps u h = rw (before-nil "") refl
plain_value_read (String.◌∷◌ c value) caps u h =
    let no_quote : nat_eq b'"' (code c) ≡ false = ground arith in
    rw no_quote (
      match_many-all 10 _ (String.◌∷◌ c value) caps ((4, String.◌∷◌ c value) ∷ caps) h
        (ap (λ s. some ((4, s) ∷ caps)) (before-nil (String.◌∷◌ c value))))

module _ (c : Char) (key value shown : String) (g : ℕ) (plain : code c ≢ b'"')
    (c_line : code c ≢ 10) (key_line : Lacks 10 key) (shown_lacks : Lacks b'=' shown)
    (reads : (caps : Captures)
      → match_at value_part (String.◌∷◌ "=" shown) caps accept ≡ some ((g, value) ∷ caps)) where
  -- the line `<key>=<shown>`
  abbrev line : String
  line = String.◌∷◌ c (append key (String.◌∷◌ "=" shown))

  key_read :
      after_key line (String.◌∷◌ "=" shown) [] ≡ some ((g, value) ∷ (2, String.◌∷◌ c key) ∷ [])
  key_read = rw (before-cons c key (String.◌∷◌ "=" shown)) (reads ((2, String.◌∷◌ c key) ∷ []))

  line_read :
      match_at re_vm_info_line line [] accept ≡ some ((g, value) ∷ (2, String.◌∷◌ c key) ∷ [])
  unfolding match_at match_one
  line_read =
      let last =
        match_many-last b'=' (after_key line) (after_key-Needs line) key shown "=" []
          ((g, value) ∷ (2, String.◌∷◌ c key) ∷ []) refl (omega arith) key_line shown_lacks
          key_read in
      let no_quote : nat_eq b'"' (code c) ≡ false = ground arith in
      let in_line : dot (code c) ≡ true = ground arith in rw (no_quote, in_line, last) refl

-- A line `<key>="<value>"` sets the key to the value, where the key is not empty and does not start
-- with a quote, the value holds no `=`, and neither holds a newline.
pub add_property-quoted :
    (c : Char) (key value : String) (props : PropMap)
    → code c ≢ b'"'
    → Lacks 10 (String.◌∷◌ c key)
    → Lacks 10 value
    → Lacks b'=' value
    → add_property
        (find_submatch re_vm_info_line (String.◌∷◌ c (append key (String.◌∷◌ "=" (quoted value)))))
        props
      ≡ insert (String.◌∷◌ c key) value props
unfolding add_property find_submatch capture
add_property-quoted c key value props plain (c_line, key_line) value_line value_lacks =
    let read =
      line_read c key value (quoted value) 3 plain c_line key_line
        (omega arith, Lacks-append b'=' value "\"" value_lacks (omega arith))
        (λ caps. value_read value caps value_line) in
    rw read (elim (Bool-cases (value == "")) [
      | inl none_given ↦
          rw none_given
            (ap (λ v. insert (String.◌∷◌ c key) v props) (sym ((eq_iff value "").0 none_given)))
      | inr given ↦ rw given refl
    ])

-- A line `<key>=<value>` sets the key to the value, where neither starts with a quote, the key is
-- not empty, the value holds no `=`, and neither holds a newline.
pub add_property-Unquoted :
    (c : Char) (key value : String) (props : PropMap)
    → code c ≢ b'"'
    → Unquoted value
    → Lacks 10 (String.◌∷◌ c key)
    → Lacks 10 value
    → Lacks b'=' value
    → add_property
        (find_submatch re_vm_info_line (String.◌∷◌ c (append key (String.◌∷◌ "=" value))))
        props
      ≡ insert (String.◌∷◌ c key) value props
unfolding add_property find_submatch capture
add_property-Unquoted c key value props plain value_plain (c_line, key_line) value_line
      value_lacks =
    let read =
      line_read c key value value 4 plain c_line key_line value_lacks
        (λ caps. plain_value_read value caps value_plain value_line) in
    rw read refl

-- The lines that show a property: with the value in quotes, or without quotes. The key is not empty
-- and does not start with a quote, the value holds no `=`, and neither holds a newline.
pub data Shows : String → String → String → Type 0 where
  in_quotes :
      (c : Char) (key value : String)
      → code c ≢ b'"'
      → Lacks 10 (String.◌∷◌ c key)
      → Lacks 10 value
      → Lacks b'=' value
      → Shows (String.◌∷◌ c (append key (String.◌∷◌ "=" (quoted value)))) (String.◌∷◌ c key) value
  bare :
      (c : Char) (key value : String)
      → code c ≢ b'"'
      → Unquoted value
      → Lacks 10 (String.◌∷◌ c key)
      → Lacks 10 value
      → Lacks b'=' value
      → Shows (String.◌∷◌ c (append key (String.◌∷◌ "=" value))) (String.◌∷◌ c key) value

add_property-Shows :
    (line key value : String) (props : PropMap)
    → Shows line key value
    → add_property (find_submatch re_vm_info_line line) props ≡ insert key value props
add_property-Shows _ key value props (in_quotes c k v p kl vl ve) =
    add_property-quoted c k v props p kl vl ve
add_property-Shows _ key value props (bare c k v p u kl vl ve) =
    add_property-Unquoted c k v props p u kl vl ve

-- lines that show the entries, one after the other
pub data ShowAll : List String → PropMap → Type 0 where
  no_line : ShowAll [] []
  next_line :
      (line key value : String) (lines : List String) (entries : PropMap)
      → Shows line key value
      → ShowAll lines entries
      → ShowAll (line ∷ lines) ((key, value) ∷ entries)

-- the entries put into the map, the first one first
abbrev pub insert_all : PropMap → PropMap → PropMap
insert_all [] props = props
insert_all ((key, value) ∷ entries) props = insert_all entries (insert key value props)

-- Lines that show entries, each as `<key>="<value>"` or as `<key>=<value>` with a value without `=`,
-- put these entries into the map in their order.
pub add_lines-ShowAll :
    (lines : List String) (entries props : PropMap)
    → ShowAll lines entries
    → add_lines lines props ≡ insert_all entries props
unfolding add_lines
add_lines-ShowAll _ _ props no_line = refl
add_lines-ShowAll _ _ props (next_line shown key value lines entries shows later) =
    rw (add_property-Shows shown key value props shows)
      (add_lines-ShowAll lines entries (insert key value props) later)
