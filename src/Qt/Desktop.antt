-- ===== src/Qt/Desktop.antt =====
-- The desktop backend under a client whose callbacks run on the worker thread: what a controller of
-- the Qt examples needs of it, whichever interface the controller uses.

use cross_plaform_serial.Common.{
  ℕ, if-cases, Bytes, Bool, true, false, List, [], ◌∷◌, ◌++◌, ◌≡◌, ◌≢◌, refl, sym, ap, ◌∙◌, arith,
  inl, inr, Option-cases, Bool-cases, none, some, ◌==◌, ==_iff, if◌then◌else◌,
}
use cross_plaform_serial.Types.{Directions, Notice, no_error}
use cross_plaform_serial.Device.{Device, IsDevice}
use cross_plaform_serial.Asio.State.{
  set_error, Asio, Handler, reading, posted, writing, Completion, is_open,
}
use cross_plaform_serial.Asio.Io.{read, write, clear, flush_selector, run_handler, work, work_cases}
use cross_plaform_serial.Asio.Lifecycle.{if_open, begin_close, end_close, make_port, try_open}
use cross_plaform_serial.Asio.Closing.{end_close-Shut}
use cross_plaform_serial.Asio.Reopen.{start-Opened}
use cross_plaform_serial.Asio.Implements.{map_error-ne-no_error}
use cross_plaform_serial.Qt.Link.{Call}

-- An object around the backend, and what its callback does on a notification.
pub record Client (d : Device) : Type 1 where
  pub Port : Type 0
  pub backend : Port → Asio d
  pub with_backend : Asio d → Port → Port
  pub handle : Notice → Port → Port × List Call

-- The callback leaves the port of the device to the backend.
pub record IsClient {d : Device} (c : Client d) : Type 0 where
  pub backend_stored : (s : Asio d) (p : c.Port) → c.backend (c.with_backend s p) ≡ s
  pub handle_port :
      (n : Notice) (p : c.Port) → (c.backend (c.handle n p).0).port ≡ (c.backend p).port

module _ {d : Device} (c : Client d) where
  unfoldable pub handle_all : List Notice → c.Port → c.Port × List Call
  handle_all [] p = (p, [])
  handle_all (n ∷ ns) p =
      let (q, calls) = c.handle n p in let (r, rest) = handle_all ns q in (r, calls ++ rest)

  -- A handler makes one notification at most, and touches nothing afterwards that a callback looks
  -- at. `notices` is the model's record of the notifications; those of earlier handlers are done.
  unfoldable pub works_one : Completion → c.Port → c.Port × List Call
  unfolding handle_all
  works_one w p =
      let s = work w (record (c.backend p) { notices = [] }) in
      handle_all s.notices (c.with_backend s p)

  unfoldable pub works_all : List Completion → c.Port → c.Port × List Call
  unfolding works_one
  works_all [] p = (p, [])
  works_all (w ∷ ws) p =
      let (q, calls) = works_one w p in let (r, rest) = works_all ws q in (r, calls ++ rest)

  -- `AsioBackend::close`, with the callbacks of the handlers that still run.
  unfoldable pub closes : List Completion → c.Port → c.Port × List Call
  unfolding works_all begin_close end_close
  closes ws p =
      let (q, calls) = works_all ws (c.with_backend (begin_close (c.backend p)) p) in
      (c.with_backend (end_close (c.backend q)) q, calls)

  -- `AsioBackend::open`, with those of the `close` in it: up to `port_->open`, and all of it.
  unfoldable pub readies : List Completion → c.Port → c.Port × List Call
  unfolding closes make_port is_open
  readies ws p =
      let made = c.with_backend (make_port (c.backend p)) p in
      if is_open (c.backend made) then closes ws made else (made, [])

  unfoldable pub opens : List Completion → Bytes → c.Port → c.Port × List Call × Bool
  unfolding readies try_open
  opens ws name p =
      let (q, calls) = readies ws p in
      let r = try_open name (c.backend q) in (c.with_backend r.0 q, calls, r.1)

module _ {d : Device} where
  run_handler-port : (h : Handler) (c : Completion) (s : Asio d) → (run_handler h c s).port ≡ s.port
  unfolding run_handler
  run_handler-port reading c s = ground arith
  run_handler-port (posted bytes) c s = refl
  run_handler-port (writing bytes) c s = ground arith

  work-port : (c : Completion) (s : Asio d) → (work c s).port ≡ s.port
  work-port c s = work_cases (λ t. t.port ≡ s.port) c s refl (λ h _ _. run_handler-port h c _)

  same_port-is_open : (s t : Asio d) → t.port ≡ s.port → is_open t ≡ is_open s
  unfolding is_open
  same_port-is_open s t e = ground arith

  pub read-port : (out : Bool) (most : ℕ) (s : Asio d) → (read out most s).0.port ≡ s.port
  unfolding read
  read-port out most s = ground arith

  pub write-is_open : (bytes : Bytes) (n : ℕ) (s : Asio d) → is_open (write bytes n s).0 ≡ is_open s
  unfolding write is_open
  write-is_open bytes n s = ground arith

  -- How an attempt on a closed port ends.
  abbrev pub Tried : Asio d × Bool → Type 0
  Tried r = (is_open r.0 ≡ r.1) × (r.1 ≡ false → r.0.error ≢ no_error)

  -- Whether `port_` exists.
  abbrev pub has_port : Asio d → Bool
  has_port s = elim s.port [ none ↦ false | some p ↦ true ]

  has_port-cases : (s : Asio d) → has_port s ≡ true → (p : d.Port) × (s.port ≡ some p)
  has_port-cases s h = elim (Option-cases s.port) [ inl e ↦ ground arith | inr (p, e) ↦ (p, e) ]

  make_port-has_port : (s : Asio d) → has_port (make_port s) ≡ true
  unfolding make_port
  make_port-has_port s = elim (Option-cases s.port) [
    | inl e ↦ ground arith
    | inr (p, e) ↦ ground arith
  ]

  if_open-has_port : (f : d.Port → d.Port) (s : Asio d) → has_port (if_open f s) ≡ has_port s
  unfolding if_open
  if_open-has_port f s = elim (Option-cases s.port) [
    | inl e ↦ ground arith
    | inr (p, e) ↦ ground arith
  ]

module _ {d : Device} (laws : IsDevice d) where
  pub clear-is_open : (dirs : Directions) (s : Asio d) → is_open (clear dirs s).0 ≡ is_open s
  unfolding clear is_open
  clear-is_open dirs s = elim (Option-cases s.port) [
    | inl e ↦ ground arith
    | inr (p, e) ↦ ground (arith, laws.tcflush_open (flush_selector dirs) p)
  ]

  try_open-Tried :
      (name : Bytes) (s : Asio d) → is_open s ≡ false → has_port s ≡ true → Tried (try_open name s)
  unfolding try_open is_open set_error
  try_open-Tried name s o h =
      let (p, e) = has_port-cases s h in
      let t = record s { port = some (d.open_port name p).1 } in
      elim (Bool-cases ((d.open_port name p).0 == 0)) [
        | inl z ↦
            rw (e, try_open)
              (rw z (
                (start-Opened laws t (laws.open_success name p ((==_iff _ 0).0 z))).port_open,
                λ f. cc,
              ))
        | inr z ↦
            ground (arith, laws.open_failure name p, map_error-ne-no_error (d.open_port name p).0)
      ]

module _ {d : Device} {c : Client d} (client : IsClient c) where
  handle_all-port :
      (ns : List Notice) (p : c.Port) → (c.backend (handle_all c ns p).0).port ≡ (c.backend p).port
  unfolding handle_all
  handle_all-port [] p = refl
  handle_all-port (n ∷ ns) p = handle_all-port ns (c.handle n p).0 ∙ client.handle_port n p

  works_one-port :
      (w : Completion) (p : c.Port) → (c.backend (works_one c w p).0).port ≡ (c.backend p).port
  unfolding works_one
  works_one-port w p =
      let s = work w (record (c.backend p) { notices = [] }) in
      handle_all-port s.notices (c.with_backend s p)
      ∙ ap (λ (t : Asio d). t.port) (client.backend_stored s p)
      ∙ work-port w (record (c.backend p) { notices = [] })

  -- Only an open and a close open and close the port.
  pub works_one-is_open :
      (w : Completion) (p : c.Port)
      → is_open (c.backend (works_one c w p).0) ≡ is_open (c.backend p)
  works_one-is_open w p = same_port-is_open (c.backend p) _ (works_one-port w p)

  works_all-port :
      (ws : List Completion) (p : c.Port)
      → (c.backend (works_all c ws p).0).port ≡ (c.backend p).port
  unfolding works_all
  works_all-port [] p = refl
  works_all-port (w ∷ ws) p = works_all-port ws (works_one c w p).0 ∙ works_one-port w p

  has_port-same : (s t : Asio d) → t.port ≡ s.port → has_port t ≡ has_port s
  has_port-same s t e = ground arith

  closes-has_port :
      (ws : List Completion) (p : c.Port)
      → has_port (c.backend (closes c ws p).0) ≡ has_port (c.backend p)
  unfolding closes begin_close end_close
  closes-has_port ws p =
      let s = begin_close (c.backend p) in
      let (q, calls) = works_all c ws (c.with_backend s p) in
      ap has_port (client.backend_stored (end_close (c.backend q)) q)
      ∙ if_open-has_port d.close (record (c.backend q) { guard = false; thread = false })
      ∙ has_port-same s (c.backend q) (
          works_all-port ws (c.with_backend s p)
          ∙ ap (λ (t : Asio d). t.port) (client.backend_stored s p))
      ∙ if_open-has_port d.cancel (record (c.backend p) { closing = true; running = false })

  module _ (laws : IsDevice d) where
    pub closes-is_open :
        (ws : List Completion) (p : c.Port) → is_open (c.backend (closes c ws p).0) ≡ false
    unfolding closes
    closes-is_open ws p =
        let (q, calls) = works_all c ws (c.with_backend (begin_close (c.backend p)) p) in
        ap is_open (client.backend_stored (end_close (c.backend q)) q)
        ∙ (end_close-Shut laws (c.backend q)).port_closed

    readies-closed :
        (ws : List Completion) (p : c.Port)
        → let s = c.backend (readies c ws p).0 in (is_open s ≡ false) × (has_port s ≡ true)
    unfolding readies
    readies-closed ws p =
        let made = c.with_backend (make_port (c.backend p)) p in
        let m : has_port (c.backend made) ≡ true =
          ap has_port (client.backend_stored (make_port (c.backend p)) p)
          ∙ make_port-has_port (c.backend p) in
        if-cases {A = c.Port × List Call}
          (λ r. (is_open (c.backend r.0) ≡ false) × (has_port (c.backend r.0) ≡ true))
          (is_open (c.backend made)) (λ _. (closes-is_open ws made, closes-has_port ws made ∙ m))
          (λ o. (o, m))

    -- An open ends with the port open and the result true, or with the port closed, the result
    -- false and an error, whatever the callbacks did before.
    pub opens-Tried :
        (ws : List Completion) (name : Bytes) (p : c.Port)
        → let (q, calls, ok) = opens c ws name p in Tried (c.backend q, ok)
    unfolding opens
    opens-Tried ws name p =
        let q = (readies c ws p).0 in
        let (o, m) = readies-closed ws p in
        let r = try_open name (c.backend q) in
        let (t, f) = try_open-Tried laws name (c.backend q) o m in
        (
          ap is_open (client.backend_stored r.0 q) ∙ t,
          λ z e. f z (sym (ap (λ (s : Asio d). s.error) (client.backend_stored r.0 q)) ∙ e),
        )
