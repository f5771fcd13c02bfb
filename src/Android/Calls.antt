-- ===== src/Android/Calls.antt =====
-- The methods of `AndroidBackend`.
use cross_plaform_serial.Common.{
  ℕ, ℤ, pos, Bytes, Bool, true, false, not, ◌&&◌, List, if◌then◌else◌, take, signed64, signed32,
  minus_one, ◌%◌, ◌^◌,
}
use cross_plaform_serial.Types.{
  DataBits, data_bits_value, Parity, parity_value, StopBits, stop_bits_value, FlowControl,
  flow_control_value, Directions, OpenMode, SerialError, no_error, open_error, write_error,
  unsupported_operation_error, unknown_error, not_open_error, Callbacks,
}
use cross_plaform_serial.ReadBuffer
use cross_plaform_serial.Android.Jvm.{Jvm, OpenArgs}
use cross_plaform_serial.Android.Globals.{
  jni_thread, clear_exception, register_instance, unregister_instance,
}
use cross_plaform_serial.Android.State.{Android, NativeCall, native_calls, set_error}

module _ {j : Jvm} where
  unfoldable pub register_handle : Android j → Android j
  unfolding register_instance
  register_handle s = record s {
    globals = record (s.globals) {
      registry = register_instance s.address s.address s.globals.registry;
    };
  }

  unfoldable pub unregister_handle : Android j → Android j
  unfolding unregister_instance
  unregister_handle s = record s {
    globals = record (s.globals) { registry = unregister_instance s.address s.globals.registry };
  }

  abbrev pub with_world : j.World → Android j → Android j
  with_world w s = record s { globals = record (s.globals) { world = w } }

  abbrev open_args : Android j → OpenArgs
  open_args s = record {
    baud = s.baud;
    data_bits = data_bits_value s.data_bits;
    parity = parity_value s.parity;
    stop_bits = stop_bits_value s.stop_bits;
    flow = flow_control_value s.flow;
  }

  -- From the call of the Java method on. The bridge starts its reader inside that call, and `early`
  -- is what the reader calls before `registerHandle`.
  unfoldable pub bridge_open : List NativeCall → Bytes → Android j → Android j × Bool
  unfolding register_handle set_error native_calls clear_exception
  bridge_open early name s =
      let (ok, w) = j.call_open s.address name (open_args s) s.globals.world in
      let raised = j.exception w in
      let t = with_world (clear_exception j w) (native_calls early s) in
      if ok && not raised
      then (record (register_handle t) { opened = true; error = no_error }, true)
      else (set_error open_error t, false)

  unfoldable pub open_port : List NativeCall → Bytes → OpenMode → Android j → Android j × Bool
  unfolding bridge_open set_error jni_thread
  open_port early name mode s =
      let (t, g) = jni_thread s.globals in
      if not s.globals.bridge_class
      then (set_error unsupported_operation_error s, false)
      else if not t.ok
      then (set_error unknown_error (record s { globals = g }), false)
      else bridge_open early name (record s { globals = g })

  -- The call of the Java method, if it can be made.
  unfoldable pub bridge_close : Android j → Android j
  unfolding jni_thread clear_exception
  bridge_close s =
      let (t, g) = jni_thread s.globals in
      let w = clear_exception j (j.call_close s.address g.world) in
      if not (s.globals.bridge_class && s.globals.mid_close)
      then s
      else if t.ok
      then with_world w (record s { globals = g })
      else record s { globals = g }

  -- `last` is what the reader calls between the exchange of the flag and `unregisterHandle`.
  unfoldable pub close : List NativeCall → Android j → Android j
  unfolding unregister_handle bridge_close native_calls ReadBuffer.clear
  close last s =
      let t = bridge_close (unregister_handle (native_calls last (record s { opened = false }))) in
      if not s.opened then s else record t { read_buffer = ReadBuffer.clear t.read_buffer }

  unfoldable pub is_open : Android j → Bool
  is_open s = s.opened

  unfoldable pub set_baud_rate : ℤ → Android j → Android j × Bool
  set_baud_rate r s = (record s { baud = r }, true)

  unfoldable pub set_data_bits : DataBits → Android j → Android j × Bool
  set_data_bits b s = (record s { data_bits = b }, true)

  unfoldable pub set_parity : Parity → Android j → Android j × Bool
  set_parity p s = (record s { parity = p }, true)

  unfoldable pub set_stop_bits : StopBits → Android j → Android j × Bool
  set_stop_bits b s = (record s { stop_bits = b }, true)

  unfoldable pub set_flow_control : FlowControl → Android j → Android j × Bool
  set_flow_control f s = (record s { flow = f }, true)

  -- From `NewByteArray` on, in an environment. The length is cut to a `jsize`, 32 bits.
  unfoldable pub bridge_write : Bytes → ℕ → Android j → Android j × ℤ
  unfolding set_error clear_exception
  bridge_write bytes size s =
      let (made, w) = j.new_byte_array (signed32 size) s.globals.world in
      let (written, w') = j.call_write s.address (take (size % 2 ^ 32) bytes) w in
      if not made
      then (with_world w s, minus_one)
      else if j.exception w'
      then (set_error write_error (with_world (j.exception_clear w') s), minus_one)
      else (with_world w' s, written)

  unfoldable pub write : Bytes → ℕ → Android j → Android j × ℤ
  unfolding bridge_write set_error jni_thread
  write bytes size s =
      let (t, g) = jni_thread s.globals in
      if not s.opened
      then (set_error not_open_error s, minus_one)
      else if not (s.globals.bridge_class && s.globals.mid_write)
      then (set_error unsupported_operation_error s, minus_one)
      else if not t.ok
      then (set_error unknown_error (record s { globals = g }), minus_one)
      else bridge_write bytes size (record s { globals = g })

  -- The pointer is not looked at: with a null one and bytes to copy, the C++ is undefined.
  unfoldable pub read : Bool → ℕ → Android j → Android j × ℤ × Bytes
  unfolding ReadBuffer.pop
  read out most s =
      let (n, bytes, rest) = ReadBuffer.pop most s.read_buffer in
      (record s { read_buffer = rest }, signed64 n, bytes)

  unfoldable pub bytes_available : Android j → ℤ
  unfolding ReadBuffer.size
  bytes_available s = signed64 (ReadBuffer.size s.read_buffer)

  unfoldable pub bytes_to_write : Android j → ℤ
  bytes_to_write s = pos 0

  unfoldable pub flush : Android j → Android j × Bool
  flush s = (s, true)

  unfoldable pub clear : Directions → Android j → Android j × Bool
  unfolding ReadBuffer.clear
  clear dirs s = (record s { read_buffer = ReadBuffer.clear s.read_buffer }, true)

  unfoldable pub last_error : Android j → SerialError
  last_error s = s.error

  unfoldable pub clear_error : Android j → Android j
  clear_error s = record s { error = no_error }

  -- The assignments to the three `std::function` members.
  unfoldable pub set_callbacks : Callbacks → Android j → Android j
  set_callbacks cbs s = record s { callbacks = cbs }
