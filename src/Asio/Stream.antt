-- ===== src/Asio/Stream.antt =====
-- The bytes that the client reads against those that the device delivers.
use mathlib.Core.List.{append-nil, append_assoc}
use cross_plaform_serial.Common.{
  erase_idx, ℕ, Bytes, Bool, true, false, List, [], ◌∷◌, ◌++◌, ◌≡◌, refl, sym, ◌∙◌, ap, arith, inl,
  inr, Option-cases, none, some, get_elem?, take-append-drop, ◌==◌, if◌then◌else◌,
}
use cross_plaform_serial.ReadBuffer.Fifo.{pop_lem, buf-push}
use cross_plaform_serial.Device.{Device, PortOption}
use cross_plaform_serial.Asio.State.{
  Asio, Completion, reading, posted, writing, Handler, clear_error,
}
use cross_plaform_serial.Asio.Config.{
  on_open_port, configure, set_raw, apply_config, apply_native_timeouts, set_checked, set_baud_rate,
  set_data_bits, set_parity, set_stop_bits, set_flow_control,
}
use cross_plaform_serial.Asio.Io.{run_handler, work, write, read, flush, clear}
use cross_plaform_serial.Asio.Run.{
  Action, works, writes, reads, sets_baud_rate, sets_data_bits, sets_parity, sets_stop_bits,
  sets_flow_control, flushes, clears, clears_error, act, act_all,
}

-- What asio delivers to a handler: the bytes of a read that did not fail.
abbrev pub delivered : Handler → Completion → Bytes
delivered reading c = if c.code == 0 then c.arrived else []
delivered (posted bytes) c = []
delivered (writing bytes) c = []

module _ {d : Device} where
  abbrev pub available : Asio d → Bytes
  available s = s.read_buffer.buf

  -- What one action delivers from the device, and what it hands to the client.
  abbrev pub arriving : Action → Asio d → Bytes
  arriving (works c) s = elim (get_elem? s.pending c.handler) [
    | none ↦ []
    | some h ↦ if s.thread then delivered h c else []
  ]
  arriving a s = []

  abbrev pub taken : Action → Asio d → Bytes
  taken (reads out most) s = (read out most s).2
  taken a s = []

  abbrev pub arriving_all : List Action → Asio d → Bytes
  arriving_all [] s = []
  arriving_all (a ∷ acts) s = arriving a s ++ arriving_all acts (act a s)

  abbrev pub taken_all : List Action → Asio d → Bytes
  taken_all [] s = []
  taken_all (a ∷ acts) s = taken a s ++ taken_all acts (act a s)

  run_handler-available :
      (h : Handler) (c : Completion) (s : Asio d)
      → available (run_handler h c s) ≡ available s ++ delivered h c
  unfolding run_handler
  run_handler-available reading c s =
      ground (arith, buf-push c.arrived s.read_buffer, append-nil s.read_buffer.buf)
  run_handler-available (posted bytes) c s = sym (append-nil s.read_buffer.buf)
  run_handler-available (writing bytes) c s = ground (arith, append-nil s.read_buffer.buf)

  work-available :
      (c : Completion) (s : Asio d) → available (work c s) ≡ available s ++ arriving (works c) s
  unfolding work
  work-available c s = elim (Option-cases (get_elem? s.pending c.handler)) [
    | inl e ↦ ground (arith, append-nil (available s))
    | inr (h, e) ↦
        let t = record s { pending = erase_idx s.pending c.handler } in
        ground (arith, run_handler-available h c t, append-nil (available s))
  ]

  on_open_port-available :
      (body : Asio d → d.Port → d.Port) (s : Asio d) → available (on_open_port body s) ≡ available s
  unfolding on_open_port
  on_open_port-available body s = elim (Option-cases s.port) [
    | inl g ↦ ground arith
    | inr (p, g) ↦ ground arith
  ]

  set_checked-available :
      (o : PortOption) (s : Asio d) → available (set_checked o s).0 ≡ available s
  unfolding set_checked
  set_checked-available o s = elim (Option-cases s.port) [
    | inl g ↦ ground arith
    | inr (p, g) ↦ ground arith
  ]

  read-available :
      (out : Bool) (most : ℕ) (s : Asio d)
      → (read out most s).2 ++ available (read out most s).0 ≡ available s
  unfolding read
  read-available true most s =
      rw ((pop_lem most s.read_buffer).0, (pop_lem most s.read_buffer).1)
        (take-append-drop most s.read_buffer.buf)
  read-available false most s = refl

  act-available :
      (a : Action) (s : Asio d) → taken a s ++ available (act a s) ≡ available s ++ arriving a s
  unfolding act set_baud_rate set_data_bits set_parity set_stop_bits set_flow_control clear_error
      apply_config apply_native_timeouts
  act-available (works c) s = work-available c s
  act-available (reads out most) s = read-available out most s ∙ sym (append-nil (available s))
  act-available (sets_baud_rate r) s = set_checked-available _ _ ∙ sym (append-nil (available s))
  act-available (sets_data_bits b) s = set_checked-available _ _ ∙ sym (append-nil (available s))
  act-available (sets_parity p) s =
      on_open_port-available set_raw _
      ∙ on_open_port-available configure (record s { parity = p })
      ∙ sym (append-nil (available s))
  act-available (sets_stop_bits b) s =
      on_open_port-available configure _ ∙ sym (append-nil (available s))
  act-available (sets_flow_control f) s =
      on_open_port-available configure _ ∙ sym (append-nil (available s))
  act-available (writes bytes size) s = unfold write in ground (arith, append-nil (available s))
  act-available flushes s = unfold flush in ground (arith, append-nil (available s))
  act-available (clears dirs) s = unfold clear in ground (arith, append-nil (available s))
  act-available clears_error s = sym (append-nil (available s))

  -- Over every sequence of calls and handlers that does not open or close the port, what the client
  -- has read, followed by what is still buffered, is what was buffered at the start followed by all
  -- that the device delivered, in order.
  pub act_all-stream :
      (acts : List Action) (s : Asio d)
      → taken_all acts s ++ available (act_all acts s) ≡ available s ++ arriving_all acts s
  unfolding act_all
  act_all-stream [] s = sym (append-nil (available s))
  act_all-stream (a ∷ acts) s =
      append_assoc (taken a s) (taken_all acts (act a s)) (available (act_all acts (act a s)))
      ∙ ap (◌++◌ (taken a s)) (act_all-stream acts (act a s))
      ∙ sym (append_assoc (taken a s) (available (act a s)) (arriving_all acts (act a s)))
      ∙ rw (act-available a s)
          (append_assoc (available s) (arriving a s) (arriving_all acts (act a s)))
