-- ===== src/Watchdog.antt =====
-- The hardware watchdog: src/baler-daemon/src/watchdog.rs, and the choice of its settings in
-- `build_net_wd` of src/baler-daemon/src/main.rs. The driver behind /dev/watchdog is not the
-- repository's, and stands as a parameter with what its documentation promises.
pub mod Armed
use claas_rollant.Prelude.{
  ℕ, zero, suc, ◌≡◌, Bool, true, false, List, [], ◌∷◌, Option, none, some, Result, ok, err, is_ok,
  if◌then◌else◌, ◌==◌, ◌||◌,
}

-- A magic close byte is among the bytes of a write.
abbrev pub has_magic : List ℕ → Bool
has_magic [] = false
has_magic (b ∷ bs) = (b == b'V') || has_magic bs

-- The driver: opening arms the timer; a write is a keepalive, and the driver keeps in mind whether the
-- last one held the byte 'V'; closing the file then disarms the timer, and else leaves it running.
pub record Driver : Type 1 where
  pub Device : Type 0
  pub File : Type 0
  pub IoError : Type 0
  pub open_write : Device → Device × Result File IoError
  pub settimeout : File → ℕ → Device → Device × Result ℕ IoError
  pub write_all : File → List ℕ → Device → Device × Result (Unit {0}) IoError
  pub close : File → Device → Device
  pub armed : Device → Bool
  pub magic : Device → Bool
  pub open_arms :
      (d : Device)
      → is_ok (open_write d).1 ≡ true
      → (armed (open_write d).0 ≡ true) × (magic (open_write d).0 ≡ false)
  pub settimeout_keeps :
      (f : File) (secs : ℕ) (d : Device)
      → (armed (settimeout f secs d).0 ≡ armed d) × (magic (settimeout f secs d).0 ≡ magic d)
  pub write_keeps :
      (f : File) (bs : List ℕ) (d : Device)
      → (armed (write_all f bs d).0 ≡ armed d)
        × (is_ok (write_all f bs d).1 ≡ true → magic (write_all f bs d).0 ≡ has_magic bs)
        × (is_ok (write_all f bs d).1 ≡ false → magic (write_all f bs d).0 ≡ magic d)
  pub close_disarms :
      (f : File) (d : Device) → armed (close f d) ≡ (if magic d then false else armed d)

module _ (dr : Driver) where
  open dr use {Device, File, IoError}

  pub record WatchdogPetter : Type 0 where
    pub dev : File
    pub magic_close : Bool

  abbrev pub opened :
      Bool → File → Device × Result ℕ IoError → Device × Result WatchdogPetter IoError
  opened magic_close f (d, ok granted) = (d, ok (record { dev = f; magic_close = magic_close }))
  opened magic_close f (d, err e) = (dr.close f d, err e)

  abbrev pub configured :
      Option ℕ → Bool → Device × Result File IoError → Device × Result WatchdogPetter IoError
  configured timeout_secs magic_close (d, err e) = (d, err e)
  configured none magic_close (d, ok f) = (d, ok (record { dev = f; magic_close = magic_close }))
  configured (some secs) magic_close (d, ok f) = opened magic_close f (dr.settimeout f secs d)

  -- `WatchdogPetter::open`; the file of a petter that cannot be configured is closed again.
  unfoldable pub open_petter : Option ℕ → Bool → Device → Device × Result WatchdogPetter IoError
  open_petter timeout_secs magic_close d = configured timeout_secs magic_close (dr.open_write d)

  -- A failed keepalive is logged only.
  unfoldable pub pet : WatchdogPetter → Device → Device
  pet p d = (dr.write_all p.dev (0 ∷ []) d).0

  -- `drop`, with the closing of its file.
  unfoldable pub drop : WatchdogPetter → Device → Device
  drop p d = dr.close p.dev (if p.magic_close then (dr.write_all p.dev (b'V' ∷ []) d).0 else d)

  -- The watchdog of the device build: 15 s, no magic close.
  unfoldable pub build_wd : Device → Device × Result WatchdogPetter IoError
  build_wd d = open_petter (some 15) false d

  -- Some rounds of the scan loop, as the watchdog sees them.
  abbrev pub pets : ℕ → WatchdogPetter → Device → Device
  pets zero p d = d
  pets (suc n) p d = pets n p (pet p d)
