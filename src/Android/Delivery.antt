-- ===== src/Android/Delivery.antt =====
-- The bytes that the Java bridge hands in against those that the client gets.
use mathlib.Core.List.{append-nil, append_assoc}
use cross_plaform_serial.Common.{
  ℕ, Bytes, false, ◌&&◌, List, [], ◌∷◌, ◌++◌, none, some, ◌≡◌, refl, sym, ap, ◌∙◌, arith,
  if◌then◌else◌, ◌==◌, take-append-drop,
}
use cross_plaform_serial.Types.{OpenMode}
use cross_plaform_serial.ReadBuffer.Fifo.{pop_lem, buf-push}
use cross_plaform_serial.Android.Jvm.{Jvm}
use cross_plaform_serial.Android.Globals.{jni_thread-registry, find_instance, jni_thread}
use cross_plaform_serial.Android.State.{
  Android, NativeCall, on_read, on_error, native_call, native_calls, is_found,
}
use cross_plaform_serial.Android.Calls.{
  open_port, bridge_open, write, bridge_write, read, clear, clear_error, set_baud_rate,
  set_data_bits, set_parity, set_stop_bits, set_flow_control,
}
use cross_plaform_serial.Android.Run.{
  Action, calls_native, writes, reads, clears, clears_error, sets_baud_rate, sets_data_bits,
  sets_parity, sets_stop_bits, sets_flow_control, act, act_all,
}

module _ {j : Jvm} where
  abbrev pub waiting : Android j → Bytes
  waiting s = s.read_buffer.buf

  -- What one action brings in: the bytes of a read for this object whose array can be read.
  abbrev pub incoming : Action → Android j → Bytes
  incoming (calls_native (on_read handle (some bytes) pinned)) s =
      if is_found handle s && pinned then bytes else []
  incoming a s = []

  -- What one action takes out: the bytes that the client reads, or those that a `clear` drops.
  abbrev pub outgoing : Action → Android j → Bytes
  outgoing (reads out most) s = (read out most s).2
  outgoing (clears dirs) s = waiting s
  outgoing a s = []

  abbrev pub incoming_all : List Action → Android j → Bytes
  incoming_all [] s = []
  incoming_all (a ∷ rest) s = incoming a s ++ incoming_all rest (act a s)

  abbrev pub outgoing_all : List Action → Android j → Bytes
  outgoing_all [] s = []
  outgoing_all (a ∷ rest) s = outgoing a s ++ outgoing_all rest (act a s)

  -- A step that moves no byte.
  still : (s t : Android j) → waiting t ≡ waiting s → waiting t ≡ waiting s ++ []
  still s t e = e ∙ sym (append-nil (waiting s))

  act-waiting :
      (a : Action) (s : Android j) → outgoing a s ++ waiting (act a s) ≡ waiting s ++ incoming a s
  unfolding act native_call clear_error set_baud_rate set_data_bits set_parity set_stop_bits
      set_flow_control
  act-waiting (calls_native (on_read h none p)) s = still s s refl
  act-waiting (calls_native (on_read h (some bytes) p)) s =
      unfold native_call in ground (arith, buf-push bytes s.read_buffer, append-nil (waiting s))
  act-waiting (calls_native (on_error h c)) s =
      unfold native_call in ground (arith, append-nil (waiting s))
  act-waiting (writes bytes size) s =
      unfold write bridge_write in ground (arith, append-nil (waiting s))
  act-waiting (reads out most) s =
      let (bytes, rest, n) = pop_lem most s.read_buffer in
      unfold read in
      rw (bytes, rest, take-append-drop most (waiting s)) (sym (append-nil (waiting s)))
  act-waiting (clears dirs) s = unfold clear in refl
  act-waiting clears_error s = still s s refl
  act-waiting (sets_baud_rate r) s = still s s refl
  act-waiting (sets_data_bits b) s = still s s refl
  act-waiting (sets_parity p) s = still s s refl
  act-waiting (sets_stop_bits b) s = still s s refl
  act-waiting (sets_flow_control f) s = still s s refl

  -- While the port is neither opened nor closed, what the client has read and what it has dropped
  -- by `clear`, followed by what is still buffered, is what was buffered at the start followed by
  -- what the Java bridge handed in for this object, in order.
  pub act_all_fifo :
      (rest : List Action) (s : Android j)
      → outgoing_all rest s ++ waiting (act_all rest s) ≡ waiting s ++ incoming_all rest s
  unfolding act_all
  act_all_fifo [] s = sym (append-nil (waiting s))
  act_all_fifo (a ∷ rest) s =
      append_assoc (outgoing a s) (outgoing_all rest (act a s)) (waiting (act_all rest (act a s)))
      ∙ ap (◌++◌ (outgoing a s)) (act_all_fifo rest (act a s))
      ∙ sym (append_assoc (outgoing a s) (waiting (act a s)) (incoming_all rest (act a s)))
      ∙ rw (act-waiting a s) (append_assoc (waiting s) (incoming a s) (incoming_all rest (act a s)))

  unfound :
      (c : NativeCall) (s : Android j)
      → ((handle : ℕ) → is_found handle s ≡ false)
      → native_call c s ≡ s
  unfolding native_call
  unfound (on_read h none p) s f = refl
  unfound (on_read h (some bytes) p) s f = ground (arith, f h)
  unfound (on_error h c) s f = ground (arith, f h)

  unfound_all :
      (cs : List NativeCall) (s : Android j)
      → ((handle : ℕ) → is_found handle s ≡ false)
      → native_calls cs s ≡ s
  unfolding native_calls
  unfound_all [] s f = refl
  unfound_all (c ∷ cs) s f = rw (unfound c s f) (unfound_all cs s f)

  is_found-jni_thread :
      (h : ℕ) (s : Android j)
      → is_found h (record s { globals = (jni_thread s.globals).1 }) ≡ is_found h s
  unfolding is_found
  is_found-jni_thread h s =
      ap (λ r. elim (find_instance h r) [ none ↦ false | some a ↦ a == s.address ])
        (jni_thread-registry s.globals)

  bridge_open_early :
      (early : List NativeCall) (name : Bytes) (s : Android j)
      → ((handle : ℕ) → is_found handle s ≡ false)
      → bridge_open early name s ≡ bridge_open [] name s
  unfolding bridge_open
  bridge_open_early early name s f = rw (unfound_all early s f, unfound_all [] s f) refl

  -- `registerHandle` comes after the Java `open`, which starts the reader: whatever the reader
  -- hands in before that, an open of an unregistered backend does what it does when nothing is
  -- handed in.
  open_port_early :
      (early : List NativeCall) (name : Bytes) (mode : OpenMode) (s : Android j)
      → ((handle : ℕ) → is_found handle s ≡ false)
      → open_port early name mode s ≡ open_port [] name mode s
  unfolding open_port
  open_port_early early name mode s f =
      let t = record s { globals = (jni_thread s.globals).1 } in
      let found_no : (handle : ℕ) → is_found handle t ≡ false =
        λ h. is_found-jni_thread h s ∙ f h in
      ground (arith, bridge_open_early early name t found_no)
