-- ===== src/Android/Silent.antt =====
-- What `AndroidBackend` and the C interface over it say of a write or a reader that failed.
use cross_plaform_serial.Common.{
  ◌⊎◌, ℕ, ℤ, Bytes, Bool, true, false, not, ◌&&◌, some, ◌≡◌, arith, minus_one, signed32, take,
  to_size, ◌%◌, ◌^◌, if◌then◌else◌, ◌==◌, [], ◌∷◌, ◌++◌,
}
use cross_plaform_serial.Types.{no_error, write_error, read_error, resource_error, error_notice}
use cross_plaform_serial.Android.Jvm.{Jvm}
use cross_plaform_serial.Android.Globals.{Globals, jni_thread}
use cross_plaform_serial.Android.State.{Android, on_error, native_call, is_found}
use cross_plaform_serial.Android.Calls.{write, bridge_write, last_error}
use cross_plaform_serial.Android.Implements.{android_backend}
use cross_plaform_serial.SerialPort
use cross_plaform_serial.CAbi.Enums.{err_none, of_error}
use cross_plaform_serial.CAbi.{CPort, cps_serial_write, cps_serial_error}

module _ {j : Jvm} where
  -- The machine when a write of so many bytes has allocated its array, and whether it could.
  abbrev pub allocation : ℕ → Android j → Bool × j.World
  allocation size s = j.new_byte_array (signed32 size) (jni_thread s.globals).1.world

  -- What the Java method then returns, and the machine after it.
  abbrev pub java_write : Bytes → ℕ → Android j → ℤ × j.World
  java_write bytes size s =
      j.call_write s.address (take (size % 2 ^ 32) bytes) (allocation size s).1

  -- On an open backend with a bridge and an environment: without an array, a write returns -1 and
  -- the error stays as it was; if the Java method raises, it returns -1 with WriteError; else it
  -- returns what the Java method returned, also -1, and the error stays as it was.
  pub write_outcome :
      (bytes : Bytes) (size : ℕ) (s : Android j)
      → s.opened ≡ true
      → s.globals.bridge_class ≡ true
      → s.globals.mid_write ≡ true
      → (jni_thread s.globals).0.ok ≡ true
      → ((write bytes size s).1 ≡ (
          if not (allocation size s).0
          then minus_one
          else if j.exception (java_write bytes size s).1
          then minus_one
          else (java_write bytes size s).0))
        × (last_error (write bytes size s).0 ≡ (
            if (allocation size s).0 && j.exception (java_write bytes size s).1
            then write_error
            else s.error))
  unfolding write bridge_write last_error
  write_outcome bytes size s o b m t = ground arith

module _ {j : Jvm} (g : Globals j) (address : ℕ) where
  -- On an open backend with a bridge, an environment and no error so far, where there is no memory
  -- for the array, or the Java method returns -1 with no exception: `cps_serial_write` returns -1,
  -- and `cps_serial_error` is CPS_ERR_NONE.
  cps_serial_write_silent :
      (p : CPort (android_backend j g address)) (bytes : Bytes) (size : ℤ)
      → p.port.backend.opened ≡ true
      → p.port.backend.globals.bridge_class ≡ true
      → p.port.backend.globals.mid_write ≡ true
      → (jni_thread p.port.backend.globals).0.ok ≡ true
      → p.port.backend.error ≡ no_error
      → (let s = p.port.backend in
          ((allocation (to_size size) s).0 ≡ false)
          ⊎ ((j.exception (java_write bytes (to_size size) s).1 ≡ false)
              × ((java_write bytes (to_size size) s).0 ≡ minus_one)))
      → let (q, n) = cps_serial_write (some p) bytes size in
        (n ≡ minus_one) × (cps_serial_error q ≡ err_none)
  unfolding cps_serial_write cps_serial_error SerialPort.write SerialPort.error of_error
  cps_serial_write_silent p bytes size o b m t e f =
      let (r, w) = write_outcome bytes (to_size size) p.port.backend o b m t in ground (arith, r, w)

module _ {j : Jvm} where
  -- When the Java reader fails, the client of a registered backend that has set `onError` is told
  -- of a ReadError for the code 0 and else of a ResourceError, and `lastError` stays as it was.
  on_error_unrecorded :
      (handle code : ℕ) (s : Android j)
      → is_found handle s ≡ true
      → s.callbacks.on_error ≡ true
      → let t = native_call (on_error handle code) s in
        (t.notices
          ≡ s.notices ++ (error_notice (if code == 0 then read_error else resource_error) ∷ []))
        × (last_error t ≡ last_error s)
  unfolding native_call last_error
  on_error_unrecorded handle code s f c = ground arith
