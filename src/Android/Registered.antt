-- ===== src/Android/Registered.antt =====
-- The registry of open backends over opening, closing and everything in between.
use cross_plaform_serial.Common.{
  ℕ, Bytes, true, false, [], ◌∷◌, List, Option, none, some, ◌≡◌, ◌≢◌, refl, sym, ap, ◌∙◌, arith,
  if◌then◌else◌, Bool-cases, inl, inr, ◌⊎◌,
}
use cross_plaform_serial.Types.{OpenMode}
use cross_plaform_serial.Android.Jvm.{Jvm}
use cross_plaform_serial.Android.Globals.{
  jni_thread-registry, Globals, jni_thread, find_instance, register_instance, unregister_instance,
  find_instance-register_instance, find_instance-unregister_instance,
}
use cross_plaform_serial.Android.State.{
  Android, new, NativeCall, on_read, on_error, native_call, native_calls,
}
use cross_plaform_serial.Android.Calls.{
  open_port, close, write, read, clear, clear_error, set_baud_rate, set_data_bits, set_parity,
  set_stop_bits, set_flow_control, bridge_open, bridge_close, bridge_write, register_handle,
  unregister_handle,
}
use cross_plaform_serial.Android.Run.{
  Action, calls_native, writes, Event, opens, closes, acts, act, step, run,
}

module _ {j : Jvm} where
  -- What the registry says of a handle.
  abbrev pub entry_of : ℕ → Android j → Option ℕ
  entry_of handle s = find_instance handle s.globals.registry

  -- From `s` to `t` the object is where it was, as open as it was, and in the registry as it was,
  -- as is every other object.
  pub record Unmoved (s t : Android j) : Type 0 where
    pub same_address : t.address ≡ s.address
    pub same_opened : t.opened ≡ s.opened
    pub same_registry : t.globals.registry ≡ s.globals.registry

  native_call-Unmoved : (c : NativeCall) (s : Android j) → Unmoved s (native_call c s)
  unfolding native_call
  native_call-Unmoved (on_read h none p) s = ground arith
  native_call-Unmoved (on_read h (some bytes) p) s = ground arith
  native_call-Unmoved (on_error h c) s = ground arith

  Unmoved-trans : (s t u : Android j) → Unmoved s t → Unmoved t u → Unmoved s u
  Unmoved-trans s t u p q = ground arith

  native_calls-Unmoved : (cs : List NativeCall) (s : Android j) → Unmoved s (native_calls cs s)
  unfolding native_calls
  native_calls-Unmoved [] s = ground arith
  native_calls-Unmoved (c ∷ cs) s =
      Unmoved-trans s (native_call c s) (native_calls cs (native_call c s))
        (native_call-Unmoved c s) (native_calls-Unmoved cs (native_call c s))

  bridge_write-Unmoved :
      (bytes : Bytes) (size : ℕ) (s : Android j) → Unmoved s (bridge_write bytes size s).0
  unfolding bridge_write
  bridge_write-Unmoved bytes size s = ground arith

  write-Unmoved : (bytes : Bytes) (size : ℕ) (s : Android j) → Unmoved s (write bytes size s).0
  unfolding write
  write-Unmoved bytes size s =
      let t = record s { globals = (jni_thread s.globals).1 } in
      ground (arith, jni_thread-registry s.globals, bridge_write-Unmoved bytes size t)

  act-Unmoved : (a : Action) (s : Android j) → Unmoved s (act a s)
  unfolding act read clear clear_error set_baud_rate set_data_bits set_parity set_stop_bits
      set_flow_control
  act-Unmoved (calls_native c) s = native_call-Unmoved c s
  act-Unmoved (writes bytes size) s = write-Unmoved bytes size s
  act-Unmoved a s = ground arith

  -- This object is registered under its address while it is open and else nothing is there, and
  -- the other handles stand for what they stood for in `r`.
  pub record IsRegistered (r : ℕ → Option ℕ) (s : Android j) : Type 0 where
    pub own : entry_of s.address s ≡ (if s.opened then some s.address else none)
    pub others : (handle : ℕ) → handle ≢ s.address → entry_of handle s ≡ r handle

  Unmoved-IsRegistered :
      (r : ℕ → Option ℕ) (s t : Android j) → Unmoved s t → IsRegistered r s → IsRegistered r t
  Unmoved-IsRegistered r s t u v = record {
    own = ground (arith, v.own);
    others =
        λ h n. ap (find_instance h) u.same_registry ∙ v.others h (λ e. n (e ∙ sym u.same_address));
  }

  -- From `s` to `t` the object is put into the registry, or taken out of it.
  pub record Entered (s t : Android j) : Type 0 where
    pub same_address : t.address ≡ s.address
    pub now_open : t.opened ≡ true
    pub entered : t.globals.registry ≡ register_instance s.address s.address s.globals.registry

  pub record Left (s t : Android j) : Type 0 where
    pub same_address : t.address ≡ s.address
    pub now_closed : t.opened ≡ false
    pub left : t.globals.registry ≡ unregister_instance s.address s.globals.registry

  bridge_open_cases :
      (early : List NativeCall) (name : Bytes) (s : Android j)
      → Unmoved s (bridge_open early name s).0 ⊎ Entered s (bridge_open early name s).0
  unfolding bridge_open register_handle
  bridge_open_cases early name s =
      let u = native_calls-Unmoved early s in
      ground (arith, u.same_address, u.same_opened, u.same_registry)

  open_port_cases :
      (early : List NativeCall) (name : Bytes) (mode : OpenMode) (s : Android j)
      → Unmoved s (open_port early name mode s).0 ⊎ Entered s (open_port early name mode s).0
  unfolding open_port
  open_port_cases early name mode s =
      let t = record s { globals = (jni_thread s.globals).1 } in
      ground (arith, jni_thread-registry s.globals, bridge_open_cases early name t)

  bridge_close-Unmoved : (s : Android j) → Unmoved s (bridge_close s)
  unfolding bridge_close
  bridge_close-Unmoved s = ground (arith, jni_thread-registry s.globals)

  close-Left : (last : List NativeCall) (s : Android j) → s.opened ≡ true → Left s (close last s)
  unfolding close unregister_handle
  close-Left last s o =
      let t = native_calls last (record s { opened = false }) in
      ground (
        arith,
        native_calls-Unmoved last (record s { opened = false }),
        bridge_close-Unmoved (unregister_handle t),
      )

  close_closed : (last : List NativeCall) (s : Android j) → s.opened ≡ false → close last s ≡ s
  unfolding close
  close_closed last s o = ground arith

  Entered-IsRegistered :
      (r : ℕ → Option ℕ) (s t : Android j) → Entered s t → IsRegistered r s → IsRegistered r t
  Entered-IsRegistered r s t u v = record {
    own =
        ground
          (arith, find_instance-register_instance s.address s.address s.address s.globals.registry);
    others = λ h n. ground (
      arith,
      find_instance-register_instance s.address s.address h s.globals.registry,
      v.others h,
    );
  }

  Left-IsRegistered :
      (r : ℕ → Option ℕ) (s t : Android j) → Left s t → IsRegistered r s → IsRegistered r t
  Left-IsRegistered r s t u v = record {
    own = ground (arith, find_instance-unregister_instance s.address s.address s.globals.registry);
    others = λ h n.
        ground
          (arith, find_instance-unregister_instance s.address h s.globals.registry, v.others h);
  }

  step-IsRegistered :
      (r : ℕ → Option ℕ) (e : Event) (s : Android j) → IsRegistered r s → IsRegistered r (step e s)
  unfolding step
  step-IsRegistered r (acts a) s v = Unmoved-IsRegistered r s (act a s) (act-Unmoved a s) v
  step-IsRegistered r (opens early name mode) s v =
      let t = (open_port early name mode s).0 in
      elim (open_port_cases early name mode s) [
        | inl u ↦ Unmoved-IsRegistered r s t u v
        | inr u ↦ Entered-IsRegistered r s t u v
      ]
  step-IsRegistered r (closes last) s v = elim (Bool-cases s.opened) [
    | inl o ↦ Left-IsRegistered r s (close last s) (close-Left last s o) v
    | inr c ↦ rw (close_closed last s c) v
  ]

  run-IsRegistered :
      (r : ℕ → Option ℕ) (es : List Event) (s : Android j)
      → IsRegistered r s
      → IsRegistered r (run es s)
  unfolding run
  run-IsRegistered r [] s v = v
  run-IsRegistered r (e ∷ es) s v = run-IsRegistered r es (step e s) (step-IsRegistered r e s v)

  -- A new backend whose address is not in the registry is, after every sequence of opens, closes,
  -- other calls and calls of the Java bridge, registered under its address while it is open, and
  -- not at all while it is closed; and every other handle stands for what it stood for.
  pub run-new-IsRegistered :
      (address : ℕ) (g : Globals j) (es : List Event)
      → find_instance address g.registry ≡ none
      → IsRegistered (λ handle. find_instance handle g.registry) (run es (new address g))
  unfolding new
  run-new-IsRegistered address g es e =
      run-IsRegistered (λ handle. find_instance handle g.registry) es (new address g)
        (record { own = e; others = λ h n. refl })
