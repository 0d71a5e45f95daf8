-- ===== src/Network/Scripts.antt =====
-- What the two switches run: the order of the commands, and the first error.
use claas_rollant.Prelude.{
  ◌≡◌, refl, true, false, List, [], ◌∷◌, ◌++◌, ◌⊎◌, inl, inr, Option, none, some, Result, ok, err,
  arith, Bool-cases,
}
use claas_rollant.Prelude.Text.{Text, codes}
use claas_rollant.Ipc.{Ipv4Addr}
use claas_rollant.Ports.{NetworkError, command_failed, spawn_failed}
use claas_rollant.Network.{
  NetworkMode, Processes, Output, Outcome, join, run_ip, enter_ethernet, enter_ethercat,
  is_missing_route, link_up, flush, add_address, set_route, drop_route,
}
use claas_rollant.Network.Contains.{IsNoRoute, missing-IsNoRoute, IsNoRoute-missing}

module _ (ps : Processes) where
  open ps use {Host, IoError}

  -- Commands run one after the other, up to the first that fails.
  abbrev pub run_script : List (List Text) → Host → Host × Outcome ps
  run_script [] h = (h, ok tt)
  run_script (c ∷ cs) h =
      let (h', r) = run_ip ps c h in elim r [ ok u ↦ run_script cs h' | err e ↦ (h', err e) ]

  abbrev route_commands : NetworkMode → Option Ipv4Addr → List (List Text)
  route_commands m none = []
  route_commands m (some gw) = set_route ps m gw ∷ []

  -- The commands of a switch to Ethernet.
  abbrev pub ethernet_script : NetworkMode → List (List Text)
  ethernet_script m = link_up ps m ∷ flush ps m ∷ add_address ps m ∷ route_commands m m.gateway

  abbrev pub answer : NetworkMode → Outcome ps → Result Ipv4Addr (NetworkError IoError)
  answer m (ok u) = ok m.ip
  answer m (err e) = err e

  -- The switch to Ethernet brings the link up, flushes it, adds the static address and then, with a
  -- gateway, sets the default route; it stops at the first command that fails and returns that
  -- command's error, and otherwise the address.
  pub enter_ethernet_lem :
      (m : NetworkMode) (h : Host)
      → let (h', r) = run_script (ethernet_script m) h in enter_ethernet ps m h ≡ (h', answer m r)
  unfolding enter_ethernet
  enter_ethernet_lem m h = ground arith

  -- The commands that take the address away and keep the link up.
  abbrev pub down_script : NetworkMode → List (List Text)
  down_script m = flush ps m ∷ link_up ps m ∷ []

  -- Without a gateway the switch to EtherCAT only flushes the addresses and keeps the link up.
  enter_ethercat-no_gateway :
      (m : NetworkMode) (h : Host)
      → m.gateway ≡ none
      → enter_ethercat ps m h ≡ run_script (down_script m) h
  unfolding enter_ethercat
  enter_ethercat-no_gateway m h e = ground arith

  abbrev pub argv_of : List Text → Text
  argv_of args = codes "ip " ++ join args

  -- The route is away after the command that deletes it: it succeeded, or `ip` said that there is none.
  abbrev pub IsAway : Result Output IoError → Type 0
  IsAway (ok o) = (o.success ≡ true) ⊎ IsNoRoute o.stderr
  IsAway (err e) = ⊥

  -- The error of a command that did not succeed.
  abbrev pub failure : Text → Result Output IoError → NetworkError IoError
  failure argv (ok o) = command_failed argv o.code o.stderr
  failure argv (err e) = spawn_failed argv e

  route_gone :
      (m : NetworkMode) (gw : Ipv4Addr) (h h' : Host)
      → m.gateway ≡ some gw
      → run_ip ps (drop_route ps m) h ≡ (h', ok tt)
      → enter_ethercat ps m h ≡ run_script (down_script m) h'
  unfolding enter_ethercat
  route_gone m gw h h' g e = ground arith

  route_forgiven :
      (m : NetworkMode) (gw : Ipv4Addr) (h h' : Host) (x : NetworkError IoError)
      → m.gateway ≡ some gw
      → run_ip ps (drop_route ps m) h ≡ (h', err x)
      → is_missing_route ps x ≡ true
      → enter_ethercat ps m h ≡ run_script (down_script m) h'
  unfolding enter_ethercat
  route_forgiven m gw h h' x g e missing = ground arith

  route_stuck :
      (m : NetworkMode) (gw : Ipv4Addr) (h h' : Host) (x : NetworkError IoError)
      → m.gateway ≡ some gw
      → run_ip ps (drop_route ps m) h ≡ (h', err x)
      → is_missing_route ps x ≡ false
      → enter_ethercat ps m h ≡ (h', err x)
  unfolding enter_ethercat
  route_stuck m gw h h' x g e missing = ground arith

  run_ip-success :
      (args : List Text) (h h' : Host) (o : Output)
      → ps.run args h ≡ (h', ok o)
      → o.success ≡ true
      → run_ip ps args h ≡ (h', ok tt)
  unfolding run_ip
  run_ip-success args h h' o e s = ground arith

  run_ip-failure :
      (args : List Text) (h h' : Host) (o : Output)
      → ps.run args h ≡ (h', ok o)
      → o.success ≡ false
      → run_ip ps args h ≡ (h', err (command_failed (argv_of args) o.code o.stderr))
  unfolding run_ip
  run_ip-failure args h h' o e s = ground arith

  run_ip-spawn :
      (args : List Text) (h h' : Host) (x : IoError)
      → ps.run args h ≡ (h', err x)
      → run_ip ps args h ≡ (h', err (spawn_failed (argv_of args) x))
  unfolding run_ip
  run_ip-spawn args h h' x e = ground arith

  spawn_no_route : (argv : Text) (x : IoError) → is_missing_route ps (spawn_failed argv x) ≡ false
  unfolding is_missing_route
  spawn_no_route argv x = refl

  not_away :
      (o : Output) (argv : Text)
      → o.success ≡ false
      → is_missing_route ps (command_failed argv o.code o.stderr) ≡ false
      → IsAway (ok o)
      → ⊥
  not_away o argv failed present (inl fine) = ground arith
  not_away o argv failed present (inr said) =
      ground (arith, IsNoRoute-missing ps argv o.stderr o.code said)

  -- The switch to EtherCAT with a gateway, by what the command that deletes the default route gave. If it
  -- succeeded, or its error output has "no such process" or "cannot find" somewhere, in any case of the
  -- letters, the addresses are flushed and the link is kept up. If not, or if the command could not be
  -- started, nothing more is run, and the switch ends with the error of that command.
  pub enter_ethercat_lem :
      (m : NetworkMode) (gw : Ipv4Addr) (h h' : Host) (r : Result Output IoError)
      → m.gateway ≡ some gw
      → ps.run (drop_route ps m) h ≡ (h', r)
      → (IsAway r → enter_ethercat ps m h ≡ run_script (down_script m) h')
        × ((IsAway r → ⊥)
            → enter_ethercat ps m h ≡ (h', err (failure (argv_of (drop_route ps m)) r)))
  enter_ethercat_lem m gw h h' (err x) g e =
      let argv = argv_of (drop_route ps m) in
      let ran = run_ip-spawn (drop_route ps m) h h' x e in
      (λ away. absurd away, λ there. route_stuck m gw h h' _ g ran (spawn_no_route argv x))
  enter_ethercat_lem m gw h h' (ok o) g e = elim (Bool-cases o.success) [
    | inl fine ↦ (
      λ away. route_gone m gw h h' g (run_ip-success (drop_route ps m) h h' o e fine),
      λ there. absurd (there (inl fine)),
    )
    | inr failed ↦
        let argv = argv_of (drop_route ps m) in
        let ran = run_ip-failure (drop_route ps m) h h' o e failed in
        elim (Bool-cases (is_missing_route ps (command_failed argv o.code o.stderr))) [
          | inl missing ↦ (
            λ away. route_forgiven m gw h h' _ g ran missing,
            λ there. absurd (there (inr (missing-IsNoRoute ps argv o.stderr o.code missing))),
          )
          | inr present ↦ (
            λ away. absurd (not_away o argv failed present away),
            λ there. route_stuck m gw h h' _ g ran present,
          )
        ]
  ]
