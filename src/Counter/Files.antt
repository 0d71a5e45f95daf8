-- ===== src/Counter/Files.antt =====
-- The file system below the counters, as the interface that `std::fs` and `std::path` give. The code
-- does not implement it: it is a parameter, with the documented behaviour of its calls as laws.
use claas_rollant.Prelude.{◌≡◌, ◌≢◌, ◌++◌, [], Option, some, Result, ok, is_ok, true, false}
use claas_rollant.Prelude.Text.{Text}

pub data ReadError : Type 0 where
  not_found other_error : ReadError

pub record FileSystem : Type 1 where
  pub Disk : Type 0
  pub FilePath : Type 0
  pub IoError : Type 0
  pub parent : FilePath → Option FilePath
  pub with_extension_tmp : FilePath → FilePath
  pub read_to_string : Disk → FilePath → Result Text ReadError
  pub create_dir_all : FilePath → Disk → Disk × Result (Unit {0}) IoError
  pub create : FilePath → Disk → Disk × Result (Unit {0}) IoError
  pub write_text : FilePath → Text → Disk → Disk × Result (Unit {0}) IoError
  pub sync_all : FilePath → Disk → Disk × Result (Unit {0}) IoError
  pub rename : FilePath → FilePath → Disk → Disk × Result (Unit {0}) IoError
  -- Creating the folder of a file does not change what reading that file gives.
  pub create_dir_all_keeps :
      (d : Disk) (p dir : FilePath)
      → parent p ≡ some dir
      → read_to_string (create_dir_all dir d).0 p ≡ read_to_string d p
  -- A file that is created is empty, and no other file changes.
  pub create_empty :
      (d : Disk) (p : FilePath)
      → is_ok (create p d).1 ≡ true
      → read_to_string (create p d).0 p ≡ ok []
  pub create_keeps :
      (d : Disk) (p q : FilePath) → q ≢ p → read_to_string (create p d).0 q ≡ read_to_string d q
  -- A write that succeeds appends the text, and no write changes another file.
  pub write_appends :
      (d : Disk) (p : FilePath) (old new : Text)
      → read_to_string d p ≡ ok old
      → is_ok (write_text p new d).1 ≡ true
      → read_to_string (write_text p new d).0 p ≡ ok (old ++ new)
  pub write_keeps :
      (d : Disk) (p q : FilePath) (t : Text)
      → q ≢ p
      → read_to_string (write_text p t d).0 q ≡ read_to_string d q
  pub sync_keeps :
      (d : Disk) (p q : FilePath) → read_to_string (sync_all p d).0 q ≡ read_to_string d q
  -- `rename` replaces its target with the source, or leaves the target as it was.
  pub rename_replaces :
      (d : Disk) (p q : FilePath)
      → is_ok (rename p q d).1 ≡ true
      → read_to_string (rename p q d).0 q ≡ read_to_string d p
  pub rename_fails :
      (d : Disk) (p q : FilePath)
      → is_ok (rename p q d).1 ≡ false
      → read_to_string (rename p q d).0 q ≡ read_to_string d q
