-- ===== src/SerialPort/Contract.antt =====
-- What the facade promises over any backend that keeps its contract.
use cross_plaform_serial.Common.{
  [], length, ◌≡◌, refl, ap, ◌∙◌, arith, ◌<◌, ◌^◌, to_size, signed64-pos, take-all, drop-all,
}
use cross_plaform_serial.Types.{OpenMode}
use cross_plaform_serial.Backend.{SerialBackend, IsBackend, View, Config}
use cross_plaform_serial.SerialPort.{SerialPort, push_config, open_port, read_all}

module _ {b : SerialBackend} where
  -- The settings as the facade stores them.
  abbrev pub settings : SerialPort b → Config
  settings p = record {
    baud = p.baud_rate;
    data_bits = p.data_bits;
    parity = p.parity;
    stop_bits = p.stop_bits;
    flow = p.flow;
  }

module _ {b : SerialBackend} {view : View b} (laws : IsBackend b view) where
  open view use {buffer, config}

  push_config-config : (p : SerialPort b) → config (push_config p).backend ≡ settings p
  unfolding push_config
  push_config-config p = rw (
    laws.flow_stored, laws.stop_bits_stored, laws.parity_stored, laws.data_bits_stored,
    laws.baud_stored,
  )

  -- Over a backend that keeps the contract, `open` gives the backend the five settings of the
  -- facade, whether the open succeeds or not, and changes neither them nor the port name; the mode
  -- is the one asked for.
  pub open_port-settings :
      (w : b.Schedule) (m : OpenMode) (p : SerialPort b)
      → let q = (open_port w m p).0 in
        (config q.backend ≡ settings p)
        × (settings q ≡ settings p)
        × (q.port_name ≡ p.port_name)
        × (q.mode ≡ m)
  unfolding open_port push_config
  open_port-settings w m p = (
    laws.open_config w p.port_name m (push_config (record p { mode = m })).backend
        ∙ push_config-config (record p { mode = m }),
    refl,
    refl,
    refl,
  )

  -- Over a backend that keeps the contract, `readAll` returns every byte that waits, in order, and
  -- leaves none, where fewer than 2 ^ 63 bytes wait.
  pub read_all_lem :
      (p : SerialPort b)
      → length (buffer p.backend) < 2 ^ 63
      → ((read_all p).1 ≡ buffer p.backend) × (buffer (read_all p).0.backend ≡ [])
  unfolding read_all
  read_all_lem p h =
      let bytes = buffer p.backend in
      let n = length bytes in
      let e = laws.available p.backend ∙ signed64-pos n h in
      let size : to_size (b.bytes_available p.backend) ≡ n = ap to_size e ∙ omega arith in
      ground (
        arith,
        e,
        size,
        laws.read_taken n p.backend,
        laws.read_left n p.backend,
        laws.read_count n p.backend,
        take-all n bytes,
        drop-all n bytes,
        signed64-pos n h,
      )
