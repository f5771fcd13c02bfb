-- ===== src/Asio/Line.antt =====
-- What the calls of `AsioBackend` do to the terminal settings of the line.
use cross_plaform_serial.Asio.Reopen.{open_port_success}
use cross_plaform_serial.Asio.Io.{do_read}
use cross_plaform_serial.Asio.Lifecycle.{open_port, arm, start}
use cross_plaform_serial.Asio.Invariant.{apply_config-is_open}
use cross_plaform_serial.Common.{
  List, if-cases, Bytes, true, false, ◌≡◌, refl, ◌∙◌, arith, inl, inr, Option-cases, Option, none,
  some,
}
use cross_plaform_serial.Types.{
  OpenMode, no_error, Parity, no_parity, even_parity, odd_parity, space_parity, mark_parity,
}
use cross_plaform_serial.Device.{Device, IsDevice, HasTermios, KeepsMarkSpace, Termios, PortOption}
use cross_plaform_serial.Asio.State.{Completion, Asio, is_open}
use cross_plaform_serial.Asio.Config.{
  on_open_port, configure, configure_kept, set_raw, raw_mode, mark_space, apply_config,
  apply_native_timeouts, set_parity,
}

-- A line that passes bytes through untouched: nothing is stripped, translated, echoed, taken for
-- a signal or for flow control, and a read waits a tenth of a second at most.
pub record IsRaw (t : Termios) : Type 0 where
  pub no_break : (t.ignbrk ≡ false) × (t.brkint ≡ false) × (t.parmrk ≡ false)
  pub no_strip : (t.istrip ≡ false) × (t.inlcr ≡ false) × (t.igncr ≡ false) × (t.icrnl ≡ false)
  pub no_flow : (t.ixon ≡ false) × (t.ixoff ≡ false) × (t.ixany ≡ false)
  pub no_echo : (t.echo ≡ false) × (t.echonl ≡ false)
  pub no_edit : (t.icanon ≡ false) × (t.isig ≡ false) × (t.iexten ≡ false)
  pub no_output : t.opost ≡ false
  pub timing : (t.vmin ≡ 0) × (t.vtime ≡ 1)

-- The parity bits that a mark or space setting asks for; the others are asio's to set.
abbrev pub ParityBits : Parity → Termios → Termios → Type 0
ParityBits space_parity t u = (u.parenb ≡ true) × (u.cmspar ≡ true) × (u.parodd ≡ false)
ParityBits mark_parity t u = (u.parenb ≡ true) × (u.cmspar ≡ true) × (u.parodd ≡ true)
ParityBits no_parity t u = (u.parenb ≡ t.parenb) × (u.cmspar ≡ t.cmspar) × (u.parodd ≡ t.parodd)
ParityBits even_parity t u = (u.parenb ≡ t.parenb) × (u.cmspar ≡ t.cmspar) × (u.parodd ≡ t.parodd)
ParityBits odd_parity t u = (u.parenb ≡ t.parenb) × (u.cmspar ≡ t.cmspar) × (u.parodd ≡ t.parodd)

mark_space-IsRaw : (p : Parity) (t : Termios) → IsRaw t → IsRaw (mark_space p t)
unfolding mark_space
mark_space-IsRaw no_parity t r = r
mark_space-IsRaw _ t r = record {
  no_break = r.no_break;
  no_strip = r.no_strip;
  no_flow = r.no_flow;
  no_echo = r.no_echo;
  no_edit = r.no_edit;
  no_output = r.no_output;
  timing = r.timing;
}

raw_mode-IsRaw : (t : Termios) → IsRaw (raw_mode t)
unfolding raw_mode
raw_mode-IsRaw t = ground arith

raw_line-ParityBits : (p : Parity) (t : Termios) → ParityBits p t (mark_space p (raw_mode t))
unfolding mark_space raw_mode
raw_line-ParityBits no_parity t = ground arith
raw_line-ParityBits _ t = ground arith

mark_space-cmspar :
    (p : Parity) (t : Termios) → t.cmspar ≡ true → (mark_space p (raw_mode t)).cmspar ≡ true
unfolding mark_space raw_mode
mark_space-cmspar no_parity t e = e
mark_space-cmspar _ t e = ground arith

others_kept : (p : Parity) (t : Termios) → (mark_space p (raw_mode t)).others ≡ t.others
unfolding mark_space raw_mode
others_kept no_parity t = refl
others_kept _ t = refl

-- The mark-or-space bit of the line behind a port is set.
abbrev PortMarkSpace : (d : Device) → d.Port → Type 0
PortMarkSpace d p = (t : Termios) × (d.tcgetattr p ≡ some t) × (t.cmspar ≡ true)

module _ {d : Device} where
  -- The settings of the line, if there is a port and they can be read.
  abbrev pub line : Asio d → Option Termios
  line s = elim s.port [ none ↦ none | some p ↦ d.tcgetattr p ]

  apply_native_timeouts-line :
      IsDevice d
      → HasTermios d
      → (s : Asio d) (t : Termios) → is_open s ≡ true
      → line s ≡ some t
      → line (apply_native_timeouts s) ≡ some (mark_space s.parity (raw_mode t))
  unfolding apply_native_timeouts on_open_port set_raw is_open
  apply_native_timeouts-line laws terms s t o e = elim (Option-cases s.port) [
    | inl g ↦ ground arith
    | inr (p, g) ↦ ground (arith, terms.get_set (mark_space s.parity (raw_mode t)) p)
  ]

  -- `applyNativeTimeouts` on an open port whose settings can be read makes the line raw, whatever
  -- it was and whatever flow control is configured; it sets the parity bits for mark and space
  -- parity and leaves them as they are for the others.
  pub apply_native_timeouts-IsRaw :
      IsDevice d
      → HasTermios d
      → (s : Asio d) (t : Termios) → is_open s ≡ true
      → line s ≡ some t
      → (u : Termios) × (line (apply_native_timeouts s) ≡ some u)
        × IsRaw u
        × ParityBits s.parity t u
        × (u.others ≡ t.others)
  apply_native_timeouts-IsRaw laws terms s t o e = (
    mark_space s.parity (raw_mode t),
    apply_native_timeouts-line laws terms s t o e,
    mark_space-IsRaw s.parity (raw_mode t) (raw_mode-IsRaw t),
    raw_line-ParityBits s.parity t,
    others_kept s.parity t,
  )

  -- The mark-or-space bit of the line is set.
  abbrev pub HasMarkSpace : Asio d → Type 0
  HasMarkSpace s = (t : Termios) × (line s ≡ some t) × (t.cmspar ≡ true)

  set_option-PortMarkSpace :
      KeepsMarkSpace d
      → (o : PortOption) (p : d.Port) → PortMarkSpace d p
      → PortMarkSpace d (d.set_option o p).1
  set_option-PortMarkSpace keeps o p (t, e, m) =
      let (t', e', m') = keeps.cmspar_kept o p t e in (t', e', m' ∙ m)

  configured-HasMarkSpace :
      KeepsMarkSpace d
      → (s : Asio d) (o : Option d.Port) → HasMarkSpace (record s { port = o })
      → HasMarkSpace (on_open_port configure (record s { port = o }))
  unfolding on_open_port
  configured-HasMarkSpace keeps s none h = h
  configured-HasMarkSpace keeps s (some p) h =
      if-cases HasMarkSpace (d.is_open p)
        (λ _.
          configure_kept (PortMarkSpace d) (set_option-PortMarkSpace keeps)
            (record s { port = some p }) p h)
        (λ _. h)

  apply_config-HasMarkSpace :
      KeepsMarkSpace d → (s : Asio d) → HasMarkSpace s → HasMarkSpace (apply_config s)
  unfolding apply_config
  apply_config-HasMarkSpace keeps s h = configured-HasMarkSpace keeps s s.port h

  -- On an open port whose line has CMSPAR set, it is still set after every `setParity`, also one to
  -- no, even or odd parity.
  pub set_parity-HasMarkSpace :
      IsDevice d
      → HasTermios d
      → KeepsMarkSpace d
      → (q : Parity) (s : Asio d) → is_open s ≡ true
      → HasMarkSpace s
      → HasMarkSpace (set_parity q s).0
  unfolding set_parity
  set_parity-HasMarkSpace laws terms keeps q s o h =
      let u = apply_config (record s { parity = q }) in
      let (t, e, m) = apply_config-HasMarkSpace keeps (record s { parity = q }) h in
      (
        mark_space u.parity (raw_mode t),
        apply_native_timeouts-line laws terms u t
            (apply_config-is_open laws (record s { parity = q }) ∙ unfold is_open in o) e,
        mark_space-cmspar u.parity t m,
      )

  line-readable :
      HasTermios d
      → (s : Asio d) (o : Option d.Port) → is_open (record s { port = o }) ≡ true
      → (t : Termios) × (line (record s { port = o }) ≡ some t)
  unfolding is_open
  line-readable terms s none o = cc
  line-readable terms s (some p) o = terms.readable p o

  do_read-port : (s : Asio d) → (do_read s).port ≡ s.port
  unfolding do_read
  do_read-port s = ground arith

  -- The line can be read, and is raw.
  abbrev pub HasRawLine : Asio d → Type 0
  HasRawLine s = (t : Termios) × (line s ≡ some t) × IsRaw t

  start-HasRawLine :
      IsDevice d → HasTermios d → (s : Asio d) → is_open s ≡ true → HasRawLine (start s)
  unfolding start
  start-HasRawLine laws terms s o =
      let t = record s { error = no_error } in
      let u = apply_config t in
      let o' : is_open t ≡ true = unfold is_open in o in
      let open_u = apply_config-is_open laws t ∙ o' in
      let (x, e) = line-readable terms u u.port open_u in
      let (y, f, raw, p, k) = apply_native_timeouts-IsRaw laws terms u x open_u e in
      let v = arm (apply_native_timeouts u) in rw (do_read-port v) (unfold arm in (y, f, raw))

  -- A successful open of a closed backend makes the line raw, whatever the line was and whatever is
  -- configured: software flow control is off on the line, also where it is the configured one.
  pub open_port-HasRawLine :
      IsDevice d
      → HasTermios d
      → (last : List Completion) (name : Bytes) (mode : OpenMode) (s : Asio d) → is_open s ≡ false
      → (open_port last name mode s).1 ≡ true
      → HasRawLine (open_port last name mode s).0
  open_port-HasRawLine laws terms last name mode s =
      open_port_success laws HasRawLine (start-HasRawLine laws terms) last name mode s
