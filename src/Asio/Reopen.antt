-- ===== src/Asio/Reopen.antt =====
-- What `AsioBackend::open` establishes (src/detail/AsioBackend.cpp).

use mathlib.Core.Path.{subst⁻¹}
use cross_plaform_serial.Common.{
  ◌⊎◌, if-cases, Bytes, Bool, true, false, List, [], ◌∷◌, ◌++◌, ◌≡◌, refl, arith, inl, inr,
  Option-cases, Option, none, some, ◌==◌, ==_iff, ◌≢◌,
}
use cross_plaform_serial.Types.{OpenMode, no_error}
use cross_plaform_serial.Device.{Device, IsDevice, ErrorCode}
use cross_plaform_serial.Asio.State.{set_error, Asio, Completion, is_open, reading, map_error}
use cross_plaform_serial.Asio.Config.{
  on_open_port, apply_config, apply_native_timeouts, configure, set_raw,
}
use cross_plaform_serial.Asio.Io.{do_read}
use cross_plaform_serial.Asio.Lifecycle.{make_port, start, arm, try_open, open_port}
use cross_plaform_serial.Asio.Invariant.{configured-is_open}

module _ {d : Device} where
  -- From the closed `s`, a successful open leads to `t`.
  pub record Opened (s t : Asio d) : Type 0 where
    pub port_open : is_open t ≡ true
    pub started : (t.running ≡ true) × (t.closing ≡ false) × (t.thread ≡ true)
    pub no_fault : t.error ≡ no_error
    pub armed : t.pending ≡ s.pending ++ (reading ∷ [])
    pub kept :
        (t.bytes_to_write ≡ s.bytes_to_write)
        × (t.read_buffer ≡ s.read_buffer)
        × (t.notices ≡ s.notices)
        × (t.callbacks ≡ s.callbacks)

  -- From the closed `s`, an open that asio refuses with the error code `ec` leads to `t`.
  pub record Refused (s t : Asio d) (ec : ErrorCode) : Type 0 where
    pub port_closed : is_open t ≡ false
    pub fault : t.error ≡ map_error ec
    pub kept :
        (t.pending ≡ s.pending)
        × (t.bytes_to_write ≡ s.bytes_to_write)
        × (t.thread ≡ s.thread)
        × (t.notices ≡ s.notices)

  -- The members that configuring an open port leaves alone.
  configured-kept :
      (body : Asio d → d.Port → d.Port) (s : Asio d)
      → ((on_open_port body s).pending ≡ s.pending)
        × ((on_open_port body s).read_buffer ≡ s.read_buffer)
        × ((on_open_port body s).notices ≡ s.notices)
        × ((on_open_port body s).callbacks ≡ s.callbacks)
        × ((on_open_port body s).error ≡ s.error)
  unfolding on_open_port
  configured-kept body s = elim (Option-cases s.port) [
    | inl e ↦ ground arith
    | inr (p, e) ↦ ground arith
  ]

  pub start-Opened : IsDevice d → (s : Asio d) → is_open s ≡ true → Opened s (start s)
  unfolding start arm do_read is_open apply_config apply_native_timeouts
  start-Opened laws s o =
      let t = record s { error = no_error } in
      ground (
        arith,
        configured-is_open laws t,
        configured-kept configure t,
        configured-kept set_raw (apply_config t),
      )

  -- The answer of asio to the `open` of a backend.
  abbrev pub open_code : Bytes → Asio d → ErrorCode
  open_code name s = elim s.port [
    | none ↦ (d.open_port name d.make).0
    | some p ↦ (d.open_port name p).0
  ]

  abbrev pub OpenOutcome : ErrorCode → Asio d → Asio d × Bool → Type 0
  OpenOutcome ec s r =
      ((r.1 ≡ true) × (ec ≡ 0) × Opened s r.0) ⊎ ((r.1 ≡ false) × (ec ≢ 0) × Refused s r.0 ec)

  -- On a port that exists and is closed.
  try_open-OpenOutcome :
      IsDevice d
      → (name : Bytes) (p : d.Port) (s : Asio d) → d.is_open p ≡ false
      → OpenOutcome (d.open_port name p).0 s (try_open name (record s { io = true; port = some p }))
  unfolding try_open set_error is_open
  try_open-OpenOutcome laws name p s o =
      let ec = (d.open_port name p).0 in
      let t = record s { io = true; port = some (d.open_port name p).1 } in
      if-cases (OpenOutcome ec s) (ec == 0)
        (λ z.
          let h = start-Opened laws t (laws.open_success name p ((==_iff ec 0).0 z)) in
          inl (
            refl,
            (==_iff ec 0).0 z,
            record {
              port_open = h.port_open;
              started = h.started;
              no_fault = h.no_fault;
              armed = h.armed;
              kept = h.kept;
            },
          ))
        (λ z. inr (refl, ground arith, ground (arith, laws.open_failure name p)))

  -- Where the port is closed or missing, no `close` comes before the `open`.
  open_port_closed :
      (last : List Completion) (name : Bytes) (mode : OpenMode) (s : Asio d)
      → is_open (make_port s) ≡ false
      → open_port last name mode s ≡ try_open name (make_port s)
  unfolding open_port
  open_port_closed last name mode s c = rw c

  open_port_cases :
      IsDevice d
      → (last : List Completion) (name : Bytes) (mode : OpenMode) (s : Asio d) (o : Option d.Port)
      → is_open (record s { port = o }) ≡ false
      → OpenOutcome
          (open_code name (record s { port = o }))
          s
          (open_port last name mode (record s { port = o }))
  unfolding is_open make_port
  open_port_cases laws last name mode s none c =
      subst⁻¹ (OpenOutcome _ s)
        (open_port_closed last name mode (record s { port = none }) laws.make_closed)
        (try_open-OpenOutcome laws name d.make s laws.make_closed)
  open_port_cases laws last name mode s (some p) c =
      subst⁻¹ (OpenOutcome _ s) (open_port_closed last name mode (record s { port = some p }) c)
        (try_open-OpenOutcome laws name p s c)

  -- Opening a closed backend: either asio accepts the name, the call returns true, the port is open
  -- with a worker thread and no error, and one read is added to the queue; or it refuses, the call
  -- returns false, the port stays closed, the error is the one that `mapError` gives, and nothing
  -- is started.
  pub open_port-OpenOutcome :
      IsDevice d
      → (last : List Completion) (name : Bytes) (mode : OpenMode) (s : Asio d) → is_open s ≡ false
      → OpenOutcome (open_code name s) s (open_port last name mode s)
  open_port-OpenOutcome laws last name mode s c = open_port_cases laws last name mode s s.port c

  try_open_success {ℓ} :
      IsDevice d
      → (P : Asio d → Type ℓ) → ((s : Asio d) → is_open s ≡ true → P (start s))
      → (name : Bytes) (p : d.Port) (s : Asio d)
      → (try_open name (record s { port = some p })).1 ≡ true
      → P (try_open name (record s { port = some p })).0
  unfolding try_open is_open
  try_open_success laws P f name p s =
      if-cases {A = Asio d × Bool} (λ r. r.1 ≡ true → P r.0) ((d.open_port name p).0 == 0)
        (λ z _. f _ (laws.open_success name p ((==_iff _ 0).0 z))) (λ z h. cc)

  open_port_success_at {ℓ} :
      IsDevice d
      → (P : Asio d → Type ℓ) → ((s : Asio d) → is_open s ≡ true → P (start s))
      → (last : List Completion) (name : Bytes) (mode : OpenMode) (s : Asio d) (o : Option d.Port)
      → is_open (record s { port = o }) ≡ false
      → (open_port last name mode (record s { port = o })).1 ≡ true
      → P (open_port last name mode (record s { port = o })).0
  unfolding is_open make_port
  open_port_success_at laws P f last name mode s none c =
      subst⁻¹ {A = Asio d × Bool} (λ r. r.1 ≡ true → P r.0)
        (open_port_closed last name mode (record s { port = none }) laws.make_closed)
        (try_open_success laws P f name d.make (record s { io = true }))
  open_port_success_at laws P f last name mode s (some p) c =
      subst⁻¹ {A = Asio d × Bool} (λ r. r.1 ≡ true → P r.0)
        (open_port_closed last name mode (record s { port = some p }) c)
        (try_open_success laws P f name p (record s { io = true }))

  -- What holds after `start` on an open port holds after every successful open of a closed one.
  pub open_port_success {ℓ} :
      IsDevice d
      → (P : Asio d → Type ℓ) → ((s : Asio d) → is_open s ≡ true → P (start s))
      → (last : List Completion) (name : Bytes) (mode : OpenMode) (s : Asio d) → is_open s ≡ false
      → (open_port last name mode s).1 ≡ true
      → P (open_port last name mode s).0
  open_port_success laws P f last name mode s =
      open_port_success_at laws P f last name mode s s.port
