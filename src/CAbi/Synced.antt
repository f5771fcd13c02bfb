-- ===== src/CAbi/Synced.antt =====
-- The state behind a handle, whatever a C program does with it.
use cross_plaform_serial.Common.{Bytes, List, [], ◌∷◌, ◌≡◌, refl, sym, ◌∙◌, ap, Option, none, some}
use cross_plaform_serial.Device.{Device, IsDevice}
use cross_plaform_serial.Types.{OpenMode}
use cross_plaform_serial.Asio.State.{Asio, Completion}
use cross_plaform_serial.Asio.State
use cross_plaform_serial.Asio.Run.{
  Action, sets_baud_rate, sets_data_bits, sets_parity, sets_stop_bits, sets_flow_control, act,
  act_all,
}
use cross_plaform_serial.Asio.Invariant.{Inv, new-Inv, same-Inv, act-Inv}
use cross_plaform_serial.Asio.Reachable.{close-Inv, open_port-Inv}
use cross_plaform_serial.Asio.Settings.{act_all-stored, configured_all}
use cross_plaform_serial.Asio.Implements.{
  asio_backend, asio-IsBackend, stored, close-stored, set_callbacks,
}
use cross_plaform_serial.SerialPort
use cross_plaform_serial.SerialPort.{SerialPort, push_config}
use cross_plaform_serial.SerialPort.Contract.{settings, open_port-settings}
use cross_plaform_serial.CAbi.{CPort, cps_serial_new, cps_serial_open, cps_serial_close, status}
use cross_plaform_serial.CAbi.Enums.{to_open_mode}
use cross_plaform_serial.CAbi.Client.{
  CEvent, c_opens, c_closes, c_acts, c_step, c_run, lowered, c_act_lem,
}

-- The invariant of the backend, and its settings are those that the facade remembers.
pub record IsSynced {d : Device} (p : CPort (asio_backend d)) : Type 0 where
  pub inv : Inv p.port.backend
  pub same_settings : stored p.port.backend ≡ settings p.port

module _ {d : Device} (laws : IsDevice d) where
  act_all-Inv : (acts : List Action) (s : Asio d) → Inv s → Inv (act_all acts s)
  unfolding act_all
  act_all-Inv [] s v = v
  act_all-Inv (a ∷ acts) s v = act_all-Inv acts (act a s) (act-Inv laws a s v)

  cps_serial_new-IsSynced :
      (name : Option Bytes) → IsSynced (cps_serial_new {b = asio_backend d} name)
  unfolding cps_serial_new SerialPort.new SerialPort.set_port_name set_callbacks State.new
  cps_serial_new-IsSynced none = record {
    inv = same-Inv State.new _ refl refl refl refl refl new-Inv;
    same_settings = refl;
  }
  cps_serial_new-IsSynced (some name) = record {
    inv = same-Inv State.new _ refl refl refl refl refl new-Inv;
    same_settings = refl;
  }

  push_config-Inv : (p : SerialPort (asio_backend d)) → Inv p.backend → Inv (push_config p).backend
  unfolding push_config act act_all
  push_config-Inv p v =
      act_all-Inv
        (sets_baud_rate p.baud_rate
          ∷ sets_data_bits p.data_bits
          ∷ sets_parity p.parity
          ∷ sets_stop_bits p.stop_bits
          ∷ sets_flow_control p.flow
          ∷ [])
        p.backend v

  open_port-IsSynced :
      (last : List Completion) (m : OpenMode) (p : CPort (asio_backend d))
      → IsSynced p
      → IsSynced (record p { port = (SerialPort.open_port last m p.port).0 })
  unfolding SerialPort.open_port
  open_port-IsSynced last m p v =
      let ready = record (p.port) { mode = m } in
      let (c, s, _, _) = open_port-settings (asio-IsBackend laws) last m p.port in
      record {
        inv =
            open_port-Inv laws last (push_config ready).port_name m (push_config ready).backend
              (push_config-Inv ready v.inv);
        same_settings = c ∙ sym s;
      }

  -- A handle that is not null stays so.
  c_step-IsSynced :
      (e : CEvent) (p : CPort (asio_backend d))
      → IsSynced p
      → (q : CPort (asio_backend d)) × (c_step e (some p) ≡ some q) × IsSynced q
  unfolding c_step
  c_step-IsSynced (c_opens last mode) p v =
      unfold cps_serial_open status in (_, refl, open_port-IsSynced last (to_open_mode mode) p v)
  c_step-IsSynced (c_closes last) p v =
      unfold cps_serial_close SerialPort.close in
      (
        _,
        refl,
        record {
          inv = close-Inv laws last p.port.backend;
          same_settings = close-stored last p.port.backend ∙ v.same_settings;
        },
      )
  c_step-IsSynced (c_acts a) p v =
      let (q, e, f, g) = c_act_lem a p in
      (
        q,
        e,
        record {
          inv = rw f (act_all-Inv (lowered a) p.port.backend v.inv);
          same_settings =
              ap stored f
              ∙ act_all-stored (lowered a) p.port.backend
              ∙ ap (configured_all (lowered a)) v.same_settings
              ∙ sym g;
        },
      )

  c_run-IsSynced :
      (es : List CEvent) (p : CPort (asio_backend d))
      → IsSynced p
      → (q : CPort (asio_backend d)) × (c_run es (some p) ≡ some q) × IsSynced q
  unfolding c_run
  c_run-IsSynced [] p v = (p, refl, v)
  c_run-IsSynced (e ∷ es) p v =
      let (q, f, w) = c_step-IsSynced e p v in
      let (r, g, u) = c_run-IsSynced es q w in (r, ap (c_run es) f ∙ g, u)

  -- Whatever a C program does with a new handle over the desktop backend, opening and closing it
  -- any number of times, and whatever the worker thread does in between: the handle stays valid,
  -- the port is open exactly while there is a worker thread, which the work guard keeps alive, the
  -- read loop runs only then, the counter is a 64-bit pattern, and the settings that the backend
  -- stores are those that the facade remembers.
  pub c_run-new-IsSynced :
      (es : List CEvent) (name : Option Bytes)
      → (q : CPort (asio_backend d)) × (c_run es (some (cps_serial_new name)) ≡ some q) × IsSynced q
  c_run-new-IsSynced es name =
      c_run-IsSynced es (cps_serial_new name) (cps_serial_new-IsSynced name)
