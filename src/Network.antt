-- ===== src/Network.antt =====
-- The switch of the network interface by iproute2's `ip`: src/baler-daemon/src/network_mode.rs. The
-- processes are a parameter.
pub mod Contains
pub mod Scripts
use claas_rollant.Prelude.{
  ℕ, min, Bool, true, false, ◌||◌, List, [], ◌∷◌, ◌++◌, Option, none, some, Result, ok, err, ℤ,
  is_some, if◌then◌else◌, ltb, leb, ◌&&◌, ◌+◌,
}
use claas_rollant.Prelude.Text.{Text, codes, decimal, eq_text}
use claas_rollant.Ipc.{Ipv4Addr}
use claas_rollant.Ports.{NetworkError, command_failed, spawn_failed, NetworkController}

pub record NetworkMode : Type 0 where
  pub iface : Text
  pub ip : Ipv4Addr
  pub prefix_len : ℕ
  pub gateway : Option Ipv4Addr

unfoldable pub new : Text → Ipv4Addr → ℕ → NetworkMode
new iface ip prefix_len = record {
  iface = iface;
  ip = ip;
  prefix_len = min prefix_len 32;
  gateway = none;
}

unfoldable pub with_gateway : Ipv4Addr → NetworkMode → NetworkMode
with_gateway gateway m = record m { gateway = some gateway }

-- `Display` of an address: the octets with dots between them.
abbrev pub show_ip : Ipv4Addr → Text
show_ip ip = decimal ip.a ++ b'.' ∷ (decimal ip.b ++ b'.' ∷ (decimal ip.c ++ b'.' ∷ decimal ip.d))

unfoldable pub cidr : NetworkMode → Text
cidr m = show_ip m.ip ++ b'/' ∷ decimal m.prefix_len

-- `str::to_ascii_lowercase` and `str::contains`
abbrev to_lower : ℕ → ℕ
to_lower c = if leb b'A' c && leb c b'Z' then c + 32 else c

abbrev pub to_ascii_lowercase : Text → Text
to_ascii_lowercase [] = []
to_ascii_lowercase (c ∷ s) = to_lower c ∷ to_ascii_lowercase s

abbrev pub starts_with : Text → Text → Bool
starts_with [] s = true
starts_with (c ∷ p) [] = false
starts_with (c ∷ p) (d ∷ s) = eq_text (c ∷ []) (d ∷ []) && starts_with p s

abbrev pub contains : Text → Text → Bool
contains p [] = starts_with p []
contains p (c ∷ s) = starts_with p (c ∷ s) || contains p s

-- `args.join(" ")`
abbrev pub join : List Text → Text
join [] = []
join (a ∷ []) = a
join (a ∷ b ∷ rest) = a ++ b' ' ∷ join (b ∷ rest)

-- What a finished process leaves: its exit code, and what it printed as an error.
pub record Output : Type 0 where
  pub success : Bool
  pub code : Option ℤ
  pub stderr : Text

-- `std::process::Command::new("ip").args(…).output()`
pub record Processes : Type 1 where
  pub Host : Type 0
  pub IoError : Type 0
  pub run : List Text → Host → Host × Result Output IoError

module _ (ps : Processes) where
  open ps use {Host, IoError}

  abbrev pub Outcome : Type 0
  Outcome = Result (Unit {0}) (NetworkError IoError)

  abbrev outcome : Text → Result Output IoError → Outcome
  outcome argv (ok o) = if o.success then ok tt else err (command_failed argv o.code o.stderr)
  outcome argv (err e) = err (spawn_failed argv e)

  unfoldable pub run_ip : List Text → Host → Host × Outcome
  run_ip args h = let (h', r) = ps.run args h in (h', outcome (codes "ip " ++ join args) r)

  infixl 5 ◌>>◌
  abbrev ◌>>◌ : (Host → Host × Outcome) → (Host → Host × Outcome) → Host → Host × Outcome
  ◌>>◌ m k h = let (h', r) = m h in elim r [ ok u ↦ k h' | err e ↦ (h', err e) ]

  abbrev pub link_up : NetworkMode → List Text
  link_up m = codes "link" ∷ codes "set" ∷ codes "dev" ∷ m.iface ∷ codes "up" ∷ []

  abbrev pub flush : NetworkMode → List Text
  flush m = codes "addr" ∷ codes "flush" ∷ codes "dev" ∷ m.iface ∷ []

  abbrev pub add_address : NetworkMode → List Text
  add_address m = codes "addr" ∷ codes "add" ∷ cidr m ∷ codes "dev" ∷ m.iface ∷ []

  abbrev pub set_route : NetworkMode → Ipv4Addr → List Text
  set_route m gw =
      codes "route"
      ∷ codes "replace"
      ∷ codes "default"
      ∷ codes "via"
      ∷ show_ip gw
      ∷ codes "dev"
      ∷ m.iface
      ∷ []

  abbrev pub drop_route : NetworkMode → List Text
  drop_route m = codes "route" ∷ codes "del" ∷ codes "default" ∷ codes "dev" ∷ m.iface ∷ []

  abbrev add_gateway : NetworkMode → Option Ipv4Addr → Host → Host × Outcome
  add_gateway m none h = (h, ok tt)
  add_gateway m (some gw) h = run_ip (set_route m gw) h

  unfoldable pub enter_ethernet : NetworkMode → Host → Host × Result Ipv4Addr (NetworkError IoError)
  enter_ethernet m h =
      let (h', r) =
        (do run_ip (link_up m); run_ip (flush m); run_ip (add_address m); add_gateway m m.gateway)
          h in
      (h', elim r [ ok u ↦ ok m.ip | err e ↦ err e ])

  unfoldable pub is_missing_route : NetworkError IoError → Bool
  is_missing_route (command_failed argv code stderr) =
      let s = to_ascii_lowercase stderr in
      contains (codes "no such process") s || contains (codes "cannot find") s
  is_missing_route (spawn_failed argv e) = false

  -- A route that is not there is as good as removed.
  abbrev forgive : Outcome → Outcome
  forgive (ok u) = ok u
  forgive (err e) = if is_missing_route e then ok tt else err e

  abbrev drop_gateway : NetworkMode → Option Ipv4Addr → Host → Host × Outcome
  drop_gateway m none h = (h, ok tt)
  drop_gateway m (some gw) h = let (h', r) = run_ip (drop_route m) h in (h', forgive r)

  unfoldable pub enter_ethercat : NetworkMode → Host → Host × Outcome
  enter_ethercat m = do drop_gateway m m.gateway; run_ip (flush m); run_ip (link_up m)

  -- A mode behind the port of the control cycle: the mode stays, the host changes.
  abbrev pub controller : NetworkMode → NetworkController
  controller m = record {
    Net = Host;
    IoError = IoError;
    enter_ethernet = enter_ethernet m;
    enter_ethercat = enter_ethercat m;
  }
