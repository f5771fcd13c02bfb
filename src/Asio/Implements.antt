-- ===== src/Asio/Implements.antt =====
-- `AsioBackend` as an implementation of `SerialBackend`.
use cross_plaform_serial.Asio.Invariant.{
  apply_config-is_open, configured-is_open, set_checked-is_open,
}
use cross_plaform_serial.Common.{
  ◌∷◌, if-cases, length-take, signed64, ℕ, Bytes, Bool, true, false, [], List, length, take, drop,
  ◌≡◌, ◌≢◌, refl, sym, ap, ◌∙◌, arith, inl, inr, some, Option-cases, minus_one, ◌⊎◌,
}
use cross_plaform_serial.Types.{OpenMode, Callbacks, no_error, not_open_error}
use cross_plaform_serial.ReadBuffer.Fifo.{pop_lem}
use cross_plaform_serial.Device.{Device, IsDevice, PortOption, ErrorCode}
use cross_plaform_serial.Backend.{SerialBackend, IsBackend, View, Config}
use cross_plaform_serial.Asio.State
use cross_plaform_serial.Asio.State.{
  reading, posted, writing, Handler, Handler, set_error, Asio, Completion, is_open, map_error,
  last_error, clear_error,
}
use cross_plaform_serial.Asio.Config.{
  on_open_port, configure, set_raw, apply_config, apply_native_timeouts, set_checked, set_baud_rate,
  set_data_bits, set_parity, set_stop_bits, set_flow_control,
}
use cross_plaform_serial.Asio.Io.{
  work_cases, work, do_read, work_all, run_handler, write, read, bytes_available, bytes_to_write,
  flush, clear,
}
use cross_plaform_serial.Asio.Lifecycle.{
  arm, end_close, try_open, start, make_port, begin_close, if_open, close, open_port,
}
use cross_plaform_serial.Asio.Closing.{close-Shut}
use cross_plaform_serial.Asio.Reopen.{open_port-OpenOutcome, OpenOutcome}

module _ {d : Device} where
  -- `backend->onReadyRead = …` and the two like it.
  unfoldable pub set_callbacks : Callbacks → Asio d → Asio d
  set_callbacks cbs s = record s { callbacks = cbs }

abbrev pub asio_backend : Device → SerialBackend
asio_backend d = record {
  State = Asio d;
  Schedule = List Completion;
  new = State.new;
  wire = set_callbacks;
  open_port = open_port;
  close = close;
  is_open = is_open;
  set_baud_rate = set_baud_rate;
  set_data_bits = set_data_bits;
  set_parity = set_parity;
  set_stop_bits = set_stop_bits;
  set_flow_control = set_flow_control;
  write = write;
  read = read;
  bytes_available = bytes_available;
  bytes_to_write = bytes_to_write;
  flush = flush;
  clear = clear;
  last_error = last_error;
  clear_error = clear_error;
}

pub map_error-ne-no_error : (ec : ErrorCode) → ec ≢ 0 → map_error ec ≢ no_error
unfolding map_error
map_error-ne-no_error ec h = ground arith

module _ {d : Device} where
  abbrev pub stored : Asio d → Config
  stored s = record {
    baud = s.baud;
    data_bits = s.data_bits;
    parity = s.parity;
    stop_bits = s.stop_bits;
    flow = s.flow;
  }

  abbrev pub asio_view : View (asio_backend d)
  asio_view = record { buffer = λ s. s.read_buffer.buf; config = stored }

  pub on_open_port-stored :
      (body : Asio d → d.Port → d.Port) (s : Asio d) → stored (on_open_port body s) ≡ stored s
  unfolding on_open_port
  on_open_port-stored body s = elim (Option-cases s.port) [
    | inl g ↦ ground arith
    | inr (p, g) ↦ ground arith
  ]

  pub set_checked-stored : (o : PortOption) (s : Asio d) → stored (set_checked o s).0 ≡ stored s
  unfolding set_checked
  set_checked-stored o s = elim (Option-cases s.port) [
    | inl g ↦ ground arith
    | inr (p, g) ↦ ground arith
  ]

  pub parity_kept :
      (v : _) (s : Asio d) → stored (set_parity v s).0 ≡ record (stored s) { parity = v }
  unfolding set_parity apply_config apply_native_timeouts
  parity_kept v s =
      on_open_port-stored set_raw _ ∙ on_open_port-stored configure (record s { parity = v })

  read_lem :
      (most : ℕ) (s : Asio d)
      → ((read true most s).2 ≡ take most s.read_buffer.buf)
        × ((read true most s).0.read_buffer.buf ≡ drop most s.read_buffer.buf)
        × ((read true most s).1 ≡ signed64 (length (read true most s).2))
  unfolding read
  read_lem most s =
      let (bytes, rest, n) = pop_lem most s.read_buffer in
      (bytes, rest, ap signed64 (n ∙ rw bytes (sym (length-take most s.read_buffer.buf))))

  pub run_handler-stored :
      (h : Handler) (c : Completion) (s : Asio d) → stored (run_handler h c s) ≡ stored s
  unfolding run_handler
  run_handler-stored reading c s = ground arith
  run_handler-stored (posted bytes) c s = refl
  run_handler-stored (writing bytes) c s = ground arith

  work_all-stored : (cs : List Completion) (s : Asio d) → stored (work_all cs s) ≡ stored s
  unfolding work_all
  work_all-stored [] s = refl
  work_all-stored (c ∷ cs) s =
      work_all-stored cs (work c s)
      ∙ work_cases (λ t. stored t ≡ stored s) c s refl (λ h _ _. run_handler-stored h c _)

  if_open-stored : (f : d.Port → d.Port) (s : Asio d) → stored (if_open f s) ≡ stored s
  unfolding if_open
  if_open-stored f s = elim (Option-cases s.port) [
    | inl g ↦ ground arith
    | inr (p, g) ↦ ground arith
  ]

  pub close-stored : (last : List Completion) (s : Asio d) → stored (close last s) ≡ stored s
  unfolding close begin_close end_close
  close-stored last s =
      if_open-stored d.close _
      ∙ work_all-stored last (begin_close s)
      ∙ if_open-stored d.cancel (record s { closing = true; running = false })

  start-stored : (s : Asio d) → stored (start s) ≡ stored s
  unfolding start do_read arm apply_config apply_native_timeouts
  start-stored s =
      let t = record s { error = no_error } in
      ground (
        arith,
        on_open_port-stored configure t,
        on_open_port-stored set_raw (on_open_port configure t),
      )

  try_open-stored : (name : Bytes) (s : Asio d) → stored (try_open name s).0 ≡ stored s
  unfolding try_open set_error
  try_open-stored name s = elim (Option-cases s.port) [
    | inl g ↦ ground arith
    | inr (p, g) ↦ ground (arith, start-stored (record s { port = some (d.open_port name p).1 }))
  ]

  make_port-stored : (s : Asio d) → stored (make_port s) ≡ stored s
  unfolding make_port
  make_port-stored s = elim (Option-cases s.port) [
    | inl g ↦ ground arith
    | inr (p, g) ↦ ground arith
  ]

  open_port-stored :
      (last : List Completion) (name : Bytes) (mode : OpenMode) (s : Asio d)
      → stored (open_port last name mode s).0 ≡ stored s
  unfolding open_port
  open_port-stored last name mode s =
      try_open-stored name _
      ∙ if-cases (λ t. stored t ≡ stored s) (is_open (make_port s))
          (λ _. close-stored last (make_port s) ∙ make_port-stored s) (λ _. make_port-stored s)

  outcome :
      (s : Asio d) (r : Asio d × Bool) (ec : ErrorCode)
      → OpenOutcome ec s r
      → ((r.1 ≡ true) × (is_open r.0 ≡ true) × (last_error r.0 ≡ no_error))
        ⊎ ((r.1 ≡ false) × (is_open r.0 ≡ false) × (last_error r.0 ≢ no_error))
  unfolding last_error
  outcome s r ec (inl (t, z, o)) = inl (t, o.port_open, o.no_fault)
  outcome s r ec (inr (t, z, o)) =
      inr (t, o.port_closed, λ h. map_error-ne-no_error ec z (sym o.fault ∙ h))

  write_closed_lem :
      (bytes : Bytes) (n : ℕ) (s : Asio d)
      → is_open s ≡ false
      → ((write bytes n s).1 ≡ minus_one) × (last_error (write bytes n s).0 ≡ not_open_error)
  unfolding write last_error
  write_closed_lem bytes n s c = ground arith

  same_port : (s t : Asio d) → t.port ≡ s.port → is_open t ≡ is_open s
  unfolding is_open
  same_port s t e = ground arith

  -- The desktop backend keeps the contract of `SerialBackend`, with its `ReadBuffer` as the bytes
  -- that wait and its five members as the settings: what `read` takes and leaves, what the setters
  -- store, that they neither open nor close the port, how an open of a closed port ends, that
  -- `close` closes, and that a write to a closed port fails with `NotOpenError`.
  pub asio-IsBackend : IsDevice d → IsBackend (asio_backend d) asio_view
  unfolding bytes_available last_error clear_error set_baud_rate set_data_bits set_parity
      set_stop_bits set_flow_control apply_config
  asio-IsBackend laws = record {
    available = λ s. refl;
    read_taken = λ most s. (read_lem most s).0;
    read_left = λ most s. (read_lem most s).1;
    read_count = λ most s. (read_lem most s).2;
    baud_stored = λ r s. set_checked-stored _ (record s { baud = r });
    data_bits_stored = λ v s. set_checked-stored _ (record s { data_bits = v });
    parity_stored = parity_kept;
    stop_bits_stored = λ v s. on_open_port-stored configure (record s { stop_bits = v });
    flow_stored = λ v s. on_open_port-stored configure (record s { flow = v });
    baud_open = λ r s. set_checked-is_open laws _ (record s { baud = r }) ∙ same_port s _ refl;
    data_bits_open =
        λ v s. set_checked-is_open laws _ (record s { data_bits = v }) ∙ same_port s _ refl;
    parity_open = λ v s. (configured-is_open laws (record s { parity = v })).0 ∙ same_port s _ refl;
    stop_bits_open =
        λ v s. apply_config-is_open laws (record s { stop_bits = v }) ∙ same_port s _ refl;
    flow_open = λ v s. apply_config-is_open laws (record s { flow = v }) ∙ same_port s _ refl;
    open_config = open_port-stored;
    open_outcome = λ w name m s c. outcome s _ _ (open_port-OpenOutcome laws w name m s c);
    close_closed = λ w s. (close-Shut laws w s).port_closed;
    write_closed = write_closed_lem;
    error_cleared = λ s. refl;
  }
