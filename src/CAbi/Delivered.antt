-- ===== src/CAbi/Delivered.antt =====
-- The bytes that a C program reads through a handle against those that the device delivers.
use mathlib.Core.List.{append-nil, append_assoc}
use cross_plaform_serial.Common.{Bytes, List, [], ◌∷◌, ◌++◌, ◌≡◌, refl, sym, ◌∙◌, ap, none, some}
use cross_plaform_serial.Device.{Device}
use cross_plaform_serial.Asio.State.{Asio}
use cross_plaform_serial.Asio.Run.{Action, act, act_all}
use cross_plaform_serial.Asio.Stream.{taken, taken_all, available, arriving_all, act_all-stream}
use cross_plaform_serial.Asio.Implements.{asio_backend}
use cross_plaform_serial.SerialPort
use cross_plaform_serial.CAbi.{CPort, cps_serial_read}
use cross_plaform_serial.CAbi.Client.{
  Handle, CAction, c_works, c_writes, c_reads, c_sets_port_name, c_sets_baud_rate, c_sets_data_bits,
  c_sets_parity, c_sets_stop_bits, c_sets_flow_control, c_sets_callbacks, c_flushes, c_clears,
  c_clears_error, c_act, c_act_all, lowered, lowered_all, c_act_lem,
}

module _ {d : Device} where
  -- What the buffers that the program passes to `cps_serial_read` receive.
  abbrev pub c_taken : CAction → Handle d → Bytes
  c_taken (c_reads out most) p = (cps_serial_read p out most).2
  c_taken a p = []

  abbrev pub c_taken_all : List CAction → Handle d → Bytes
  c_taken_all [] p = []
  c_taken_all (a ∷ rest) p = c_taken a p ++ c_taken_all rest (c_act a p)

  -- What waits in the buffer behind a handle.
  abbrev pub c_waiting : Handle d → Bytes
  c_waiting none = []
  c_waiting (some p) = available p.port.backend

  c_taken-lowered :
      (a : CAction) (p : CPort (asio_backend d))
      → c_taken a (some p) ≡ taken_all (lowered a) p.port.backend
  c_taken-lowered (c_reads out most) p =
      unfold cps_serial_read SerialPort.read in sym (append-nil _)
  c_taken-lowered (c_works c) p = refl
  c_taken-lowered (c_writes bytes size) p = refl
  c_taken-lowered (c_sets_port_name name) p = refl
  c_taken-lowered (c_sets_baud_rate r dir) p = refl
  c_taken-lowered (c_sets_data_bits v) p = refl
  c_taken-lowered (c_sets_parity v) p = refl
  c_taken-lowered (c_sets_stop_bits v) p = refl
  c_taken-lowered (c_sets_flow_control v) p = refl
  c_taken-lowered (c_sets_callbacks fns user) p = refl
  c_taken-lowered c_flushes p = refl
  c_taken-lowered (c_clears dir) p = refl
  c_taken-lowered c_clears_error p = refl

  taken_all-append :
      (cs bs : List Action) (s : Asio d)
      → taken_all (cs ++ bs) s ≡ taken_all cs s ++ taken_all bs (act_all cs s)
  unfolding act_all
  taken_all-append [] bs s = refl
  taken_all-append (a ∷ cs) bs s =
      ap (◌++◌ (taken a s)) (taken_all-append cs bs (act a s))
      ∙ sym (append_assoc (taken a s) (taken_all cs (act a s)) _)

  act_all-append :
      (cs bs : List Action) (s : Asio d) → act_all (cs ++ bs) s ≡ act_all bs (act_all cs s)
  unfolding act_all
  act_all-append [] bs s = refl
  act_all-append (a ∷ cs) bs s = act_all-append cs bs (act a s)

  -- The program's reads are those of its backend, and the buffer is the backend's.
  c_taken_all-lowered :
      (cs : List CAction) (p : CPort (asio_backend d))
      → let s = p.port.backend in
        (c_taken_all cs (some p) ≡ taken_all (lowered_all cs) s)
        × (c_waiting (c_act_all cs (some p)) ≡ available (act_all (lowered_all cs) s))
  unfolding c_act_all act_all
  c_taken_all-lowered [] p = (refl, refl)
  c_taken_all-lowered (a ∷ cs) p =
      let s = p.port.backend in
      let (q, e, f, _) = c_act_lem a p in
      let (t, w) = c_taken_all-lowered cs q in
      let u = act_all (lowered a) s in
      (
        ap (λ h. c_taken a (some p) ++ c_taken_all cs h) e
            ∙ ap (λ l. l ++ c_taken_all cs (some q)) (c_taken-lowered a p)
            ∙ ap (λ l. taken_all (lowered a) s ++ l) (t ∙ ap (taken_all (lowered_all cs)) f)
            ∙ sym (taken_all-append (lowered a) (lowered_all cs) s),
        ap (λ h. c_waiting (c_act_all cs h)) e
            ∙ w
            ∙ ap (λ v. available (act_all (lowered_all cs) v)) f
            ∙ ap available (sym (act_all-append (lowered a) (lowered_all cs) s)),
      )

  -- Whatever a C program does with a handle over the desktop backend but opening and closing it,
  -- and whatever the worker thread does in between: the bytes that its calls of `cps_serial_read`
  -- receive, followed by those that still wait, are those that waited at the start followed by all
  -- that the device delivered, in order.
  pub c_taken_all-stream :
      (cs : List CAction) (p : CPort (asio_backend d))
      → c_taken_all cs (some p) ++ c_waiting (c_act_all cs (some p))
        ≡ c_waiting (some p) ++ arriving_all (lowered_all cs) p.port.backend
  c_taken_all-stream cs p =
      let (t, w) = c_taken_all-lowered cs p in
      rw (t, w) (act_all-stream (lowered_all cs) p.port.backend)
