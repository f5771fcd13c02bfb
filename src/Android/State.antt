-- ===== src/Android/State.antt =====
-- The members of `AndroidBackend`, and the native callbacks that the Java bridge calls on its own
-- thread.
use cross_plaform_serial.Common.{
  ℕ, ℤ, pos, Bytes, Bool, false, not, List, [], ◌∷◌, ◌++◌, Option, none, some, ◌==◌, if◌then◌else◌,
  length,
}
use cross_plaform_serial.Types.{
  DataBits, data8, Parity, no_parity, StopBits, one_stop, FlowControl, no_flow_control, SerialError,
  no_error, read_error, resource_error, Notice, ready_read, error_notice, Callbacks,
}
use cross_plaform_serial.ReadBuffer
use cross_plaform_serial.ReadBuffer.{ReadBuffer}
use cross_plaform_serial.Android.Jvm.{Jvm}
use cross_plaform_serial.Android.Globals.{Globals, find_instance}

-- A call of the Java bridge into the library, with the handle that it was given. The array of a
-- read is `none` if it is null; `pinned` says whether `GetByteArrayElements` is non-null.
pub data NativeCall : Type 0 where
  on_read : ℕ → Option Bytes → Bool → NativeCall
  on_error : ℕ → ℕ → NativeCall

module _ (j : Jvm) where
  -- The object at an address, with the globals that it shares with the others. `notices` are the
  -- calls made so far through `onReadyRead` and `onError`, oldest first.
  pub record Android : Type 0 where
    pub address : ℕ
    pub globals : Globals j
    pub baud : ℤ
    pub data_bits : DataBits
    pub parity : Parity
    pub stop_bits : StopBits
    pub flow : FlowControl
    pub opened : Bool
    pub error : SerialError
    pub read_buffer : ReadBuffer
    pub callbacks : Callbacks
    pub notices : List Notice

module _ {j : Jvm} where
  unfoldable pub new : ℕ → Globals j → Android j
  unfolding ReadBuffer.new
  new address g = record {
    address = address;
    globals = g;
    baud = pos 9600;
    data_bits = data8;
    parity = no_parity;
    stop_bits = one_stop;
    flow = no_flow_control;
    opened = false;
    error = no_error;
    read_buffer = ReadBuffer.new;
    callbacks = record { on_ready_read = false; on_bytes_written = false; on_error = false };
    notices = [];
  }

  -- A call through a `std::function` member, if it is set.
  unfoldable pub call_if : Bool → Notice → Android j → Android j
  call_if set n s = if set then record s { notices = s.notices ++ (n ∷ []) } else s

  unfoldable pub set_error : SerialError → Android j → Android j
  set_error e s = record s { error = e }

  unfoldable pub handle_data : Bytes → ℕ → Android j → Android j
  unfolding call_if ReadBuffer.push
  handle_data bytes n s =
      call_if s.callbacks.on_ready_read ready_read
        (record s { read_buffer = ReadBuffer.push bytes n s.read_buffer })

  -- Whether `findInstance` finds this object for a handle.
  unfoldable pub is_found : ℕ → Android j → Bool
  is_found handle s = elim (find_instance handle s.globals.registry) [
    | none ↦ false
    | some a ↦ a == s.address
  ]

  -- `cpsNativeOnRead` and `cpsNativeOnError`, as far as they touch this object.
  unfoldable pub native_call : NativeCall → Android j → Android j
  unfolding is_found handle_data call_if
  native_call (on_read handle none pinned) s = s
  native_call (on_read handle (some bytes) pinned) s =
      let n = length bytes in
      if not (is_found handle s)
      then s
      else if n == 0
      then s
      else if pinned
      then handle_data bytes n s
      else s
  native_call (on_error handle code) s =
      let e = if code == 0 then read_error else resource_error in
      if is_found handle s then call_if s.callbacks.on_error (error_notice e) s else s

  unfoldable pub native_calls : List NativeCall → Android j → Android j
  native_calls [] s = s
  native_calls (c ∷ cs) s = native_calls cs (native_call c s)
