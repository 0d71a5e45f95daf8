-- ===== src/Ui/Language.antt =====
-- The panel's language and its persistence: `Lang` of src/baler-ui/src/i18n.rs, `load_lang` and
-- `save_lang` of src/baler-ui/src/main.rs, over the file system of the counters. `std::fs::write` is
-- the creation of a file and a write; the folder of each path is not empty.
use claas_rollant.Prelude.{
  ◌≡◌, [], ◌∷◌, ◌++◌, true, false, Option, none, some, Result, ok, err, is_ok, if◌then◌else◌, arith,
}
use claas_rollant.Prelude.Text.{Text, codes, trim, eq_text}
use claas_rollant.Counter.Files.{FileSystem, ReadError}
use claas_rollant.Counter.Store.{Io, make_parent, ◌>>◌}

pub data Lang : Type 0 where
  en de : Lang

abbrev pub default_lang : Lang
default_lang = de

unfoldable pub as_code : Lang → Text
as_code en = codes "en"
as_code de = codes "de"

unfoldable pub from_code : Text → Lang
unfolding eq_text
from_code t =
    if eq_text t (codes "en") then en else if eq_text t (codes "de") then de else default_lang

unfoldable pub other : Lang → Lang
other en = de
other de = en

-- The code of a language, as it is read back from a file, names that language, also with white space
-- around it; the toggle changes the language, and twice the toggle changes nothing.
pub from_code-as_code :
    (l : Lang)
    → (from_code (trim (as_code l)) ≡ l)
      × (from_code (trim (32 ∷ as_code l ++ 10 ∷ [])) ≡ l)
      × (other (other l) ≡ l)
      × (other l ≡ l → ⊥)
unfolding as_code from_code trim other
from_code-as_code l = ground arith

module _ (fs : FileSystem) where
  open fs use {Disk, FilePath, read_to_string}

  abbrev read_lang : Result Text ReadError → Option Lang
  read_lang (ok t) = some (from_code (trim t))
  read_lang (err e) = none

  abbrev or_else : Option Lang → Option Lang → Lang
  or_else (some l) o = l
  or_else none (some l) = l
  or_else none none = default_lang

  -- The primary path `p`, then the fallback `q`, then German.
  unfoldable pub load_lang : FilePath → FilePath → Disk → Lang
  load_lang p q d = or_else (read_lang (read_to_string d p)) (read_lang (read_to_string d q))

  unfoldable pub try_write : FilePath → Text → Io fs (Unit {0})
  try_write p t = ◌>>◌ fs (make_parent fs (fs.parent p)) (◌>>◌ fs (fs.create p) (fs.write_text p t))

  unfoldable pub save_lang : FilePath → FilePath → Lang → Disk → Disk
  save_lang p q l d =
      let (d', r) = try_write p (as_code l) d in
      elim r [ ok u ↦ d' | err e ↦ (try_write q (as_code l) d').0 ]

  -- A write that succeeds is what the file then reads.
  try_write_reads :
      (p : FilePath) (t : Text) (d : Disk)
      → is_ok (try_write p t d).1 ≡ true
      → read_to_string (try_write p t d).0 p ≡ ok t
  unfolding try_write
  try_write_reads p t d h =
      let d1 = (make_parent fs (fs.parent p) d).0 in
      let d2 = (fs.create p d1).0 in
      ground (arith, fs.create_empty d1 p, fs.write_appends d2 p [] t)

  -- A language whose write to the primary path succeeds is the one that is loaded next. So is one that
  -- went to the fallback, if the primary file cannot be read afterwards.
  pub load_lang-save_lang :
      (p q : FilePath) (l : Lang) (d : Disk)
      → let (d', r) = try_write p (as_code l) d in
        (is_ok r ≡ true → load_lang p q (save_lang p q l d) ≡ l)
        × (is_ok r ≡ false
            → is_ok (try_write q (as_code l) d').1 ≡ true
            → is_ok (read_to_string (save_lang p q l d) p) ≡ false
            → load_lang p q (save_lang p q l d) ≡ l)
  unfolding load_lang save_lang
  load_lang-save_lang p q l d =
      let d' = (try_write p (as_code l) d).0 in
      ground (
        arith,
        try_write_reads p (as_code l) d,
        try_write_reads q (as_code l) d',
        (from_code-as_code l).0,
      )
