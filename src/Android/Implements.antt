-- ===== src/Android/Implements.antt =====
-- `AndroidBackend` as an implementation of `SerialBackend`.
use cross_plaform_serial.Common.{
  ℕ, Bytes, true, false, [], ◌∷◌, List, none, some, length, take, drop, ◌≡◌, ◌≢◌, refl, sym, ap,
  ◌∙◌, arith, ◌⊎◌, signed64, length-take, minus_one,
}
use cross_plaform_serial.Types.{OpenMode, no_error, not_open_error}
use cross_plaform_serial.ReadBuffer.Fifo.{pop_lem}
use cross_plaform_serial.Backend.{SerialBackend, IsBackend, View, Config}
use cross_plaform_serial.Android.Jvm.{Jvm}
use cross_plaform_serial.Android.Globals.{Globals, jni_thread}
use cross_plaform_serial.Android.State
use cross_plaform_serial.Android.State.{
  Android, NativeCall, on_read, on_error, native_call, native_calls, set_error,
}
use cross_plaform_serial.Android.Calls.{
  open_port, close, is_open, set_baud_rate, set_data_bits, set_parity, set_stop_bits,
  set_flow_control, write, read, bytes_available, bytes_to_write, flush, clear, last_error,
  clear_error, set_callbacks, bridge_open, bridge_close, unregister_handle,
}

-- The backend that is constructed at an address, in a process with these globals.
abbrev pub android_backend : (j : Jvm) → Globals j → ℕ → SerialBackend
android_backend j g address = record {
  State = Android j;
  Schedule = List NativeCall;
  new = State.new address g;
  wire = set_callbacks;
  open_port = open_port;
  close = close;
  is_open = is_open;
  set_baud_rate = set_baud_rate;
  set_data_bits = set_data_bits;
  set_parity = set_parity;
  set_stop_bits = set_stop_bits;
  set_flow_control = set_flow_control;
  write = write;
  read = read;
  bytes_available = bytes_available;
  bytes_to_write = bytes_to_write;
  flush = flush;
  clear = clear;
  last_error = last_error;
  clear_error = clear_error;
}

module _ {j : Jvm} where
  abbrev pub stored : Android j → Config
  stored s = record {
    baud = s.baud;
    data_bits = s.data_bits;
    parity = s.parity;
    stop_bits = s.stop_bits;
    flow = s.flow;
  }

  abbrev pub android_view : (g : Globals j) (address : ℕ) → View (android_backend j g address)
  android_view g address = record { buffer = λ s. s.read_buffer.buf; config = stored }

  native_call-stored : (c : NativeCall) (s : Android j) → stored (native_call c s) ≡ stored s
  unfolding native_call
  native_call-stored (on_read h none p) s = refl
  native_call-stored (on_read h (some bytes) p) s = ground arith
  native_call-stored (on_error h c) s = ground arith

  native_calls-stored :
      (cs : List NativeCall) (s : Android j) → stored (native_calls cs s) ≡ stored s
  unfolding native_calls
  native_calls-stored [] s = refl
  native_calls-stored (c ∷ cs) s = native_calls-stored cs (native_call c s) ∙ native_call-stored c s

  bridge_open-stored :
      (early : List NativeCall) (name : Bytes) (s : Android j)
      → stored (bridge_open early name s).0 ≡ stored s
  unfolding bridge_open
  bridge_open-stored early name s = ground (arith, native_calls-stored early s)

  open_port-stored :
      (early : List NativeCall) (name : Bytes) (mode : OpenMode) (s : Android j)
      → stored (open_port early name mode s).0 ≡ stored s
  unfolding open_port
  open_port-stored early name mode s =
      ground
        (arith, bridge_open-stored early name (record s { globals = (jni_thread s.globals).1 }))

  read_lem :
      (most : ℕ) (s : Android j)
      → ((read true most s).2 ≡ take most s.read_buffer.buf)
        × ((read true most s).0.read_buffer.buf ≡ drop most s.read_buffer.buf)
        × ((read true most s).1 ≡ signed64 (length (read true most s).2))
  unfolding read
  read_lem most s =
      let (bytes, rest, n) = pop_lem most s.read_buffer in
      (bytes, rest, ap signed64 (n ∙ rw bytes (sym (length-take most s.read_buffer.buf))))

  native_call-opened : (c : NativeCall) (s : Android j) → (native_call c s).opened ≡ s.opened
  unfolding native_call
  native_call-opened (on_read h none p) s = refl
  native_call-opened (on_read h (some bytes) p) s = ground arith
  native_call-opened (on_error h c) s = ground arith

  pub native_calls-opened :
      (cs : List NativeCall) (s : Android j) → (native_calls cs s).opened ≡ s.opened
  unfolding native_calls
  native_calls-opened [] s = refl
  native_calls-opened (c ∷ cs) s = native_calls-opened cs (native_call c s) ∙ native_call-opened c s

  -- How an open of a closed port ends.
  open_port-outcome :
      (early : List NativeCall) (name : Bytes) (mode : OpenMode) (s : Android j)
      → is_open s ≡ false
      → let r = open_port early name mode s in
        ((r.1 ≡ true) × (is_open r.0 ≡ true) × (last_error r.0 ≡ no_error))
        ⊎ ((r.1 ≡ false) × (is_open r.0 ≡ false) × (last_error r.0 ≢ no_error))
  unfolding open_port is_open last_error
  open_port-outcome early name mode s c =
      ground (arith, native_calls-opened early (record s { globals = (jni_thread s.globals).1 }))

  bridge_close-opened : (s : Android j) → (bridge_close s).opened ≡ s.opened
  unfolding bridge_close
  bridge_close-opened s = ground arith

  close-is_open : (last : List NativeCall) (s : Android j) → is_open (close last s) ≡ false
  unfolding close is_open
  close-is_open last s =
      let t = record s { opened = false } in
      ground (
        arith,
        bridge_close-opened (unregister_handle (native_calls last t)),
        native_calls-opened last t,
      )

  write_closed_lem :
      (bytes : Bytes) (n : ℕ) (s : Android j)
      → is_open s ≡ false
      → ((write bytes n s).1 ≡ minus_one) × (last_error (write bytes n s).0 ≡ not_open_error)
  unfolding write last_error is_open
  write_closed_lem bytes n s c = ground arith

  -- The Android backend keeps the contract of `SerialBackend` too, for every machine, bridge and
  -- timing of its calls, with its `ReadBuffer` as the bytes that wait and its five members as the
  -- settings.
  pub android-IsBackend :
      (g : Globals j) (address : ℕ)
      → IsBackend (android_backend j g address) (android_view g address)
  unfolding bytes_available last_error clear_error set_baud_rate set_data_bits set_parity
      set_stop_bits set_flow_control is_open
  android-IsBackend g address = record {
    available = λ s. refl;
    read_taken = λ most s. (read_lem most s).0;
    read_left = λ most s. (read_lem most s).1;
    read_count = λ most s. (read_lem most s).2;
    baud_stored = λ r s. refl;
    data_bits_stored = λ v s. refl;
    parity_stored = λ v s. refl;
    stop_bits_stored = λ v s. refl;
    flow_stored = λ v s. refl;
    baud_open = λ r s. refl;
    data_bits_open = λ v s. refl;
    parity_open = λ v s. refl;
    stop_bits_open = λ v s. refl;
    flow_open = λ v s. refl;
    open_config = open_port-stored;
    open_outcome = open_port-outcome;
    close_closed = close-is_open;
    write_closed = write_closed_lem;
    error_cleared = λ s. refl;
  }
