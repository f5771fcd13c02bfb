-- ===== src/Android/Init.antt =====
-- What `androidInit` leaves behind.
use mathlib.Core.Path.{subst}
use cross_plaform_serial.Common.{
  Bytes, Bool, true, false, not, Option, none, some, ◌++◌, ◌≡◌, ◌≢◌, ◌⊎◌, refl, ◌∙◌, arith,
  if◌then◌else◌, if-cases, inl, inr,
}
use cross_plaform_serial.Types.{
  SerialError, no_error, unsupported_operation_error, resource_error, unknown_error,
}
use cross_plaform_serial.Android.Jvm.{Jvm, IsJvm}
use cross_plaform_serial.Android.Globals.{
  Globals, JniThread, jni_thread, jni_thread-registry, clear_exception,
}
use cross_plaform_serial.Android.Bridge.{
  android_init, init_context, load_bridge, load_from, cache_path, bind_bridge, write_dex,
  load_class, ensure_dir, cps, cps_dex,
}

not-true : (b : Bool) → not b ≡ true → b ≡ false
not-true b e = ground arith

not-false : (b : Bool) → not b ≡ false → b ≡ true
not-false b e = ground arith

module _ (j : Jvm) where
  -- How an initialisation ends, where `class` says whether the class was there before. Without a
  -- context, the error is UnsupportedOperationError and the class is as it was. With one, a class
  -- that was there is kept; else either something failed with an error and there is still no class,
  -- or NoError is returned and the class is what `NewGlobalRef` returned for it.
  abbrev pub Initialised : Bool → Globals j × SerialError → Type 0
  Initialised class (h, e) =
      ((h.context ≡ false) × (e ≡ unsupported_operation_error) × (h.bridge_class ≡ class))
      ⊎ ((h.context ≡ true)
          × (((class ≡ true) × (e ≡ no_error) × (h.bridge_class ≡ true))
              ⊎ ((class ≡ false)
                  × (((e ≢ no_error) × (h.bridge_class ≡ false))
                      ⊎ ((e ≡ no_error)
                          × ((w : j.World) × (h.bridge_class ≡ (j.new_bridge_class w).0)))))))

  -- `loadBridge` ends so, and leaves the context and the registry alone.
  abbrev Loaded : Globals j → Globals j × SerialError → Type 0
  Loaded g r = (r.0.registry ≡ g.registry) × Initialised g.bridge_class r

  failed-Loaded :
      (g : Globals j) (w : j.World) (e : SerialError)
      → g.context ≡ true
      → g.bridge_class ≡ false
      → e ≢ no_error
      → Loaded g (record g { world = w }, e)
  failed-Loaded g w e c b n = (refl, inr (c, inr (b, inl (n, b))))

  load_from-Loaded :
      (path : Bytes) (g : Globals j)
      → g.context ≡ true
      → g.bridge_class ≡ false
      → Loaded g (load_from j path g)
  unfolding load_from bind_bridge
  load_from-Loaded path g c b =
      let dex = (path ++ cps) ++ cps_dex in
      let (w1, written) = write_dex j dex (ensure_dir j (path ++ cps) g.world) in
      let (w2, loaded) = load_class j dex w1 in
      if-cases (Loaded g) (not written) (λ _. failed-Loaded g w1 resource_error c b (λ z. cc))
        (λ _.
          if-cases (Loaded g) (not loaded) (λ _. failed-Loaded g w2 unknown_error c b (λ z. cc))
            (λ _. (refl, inr (c, inr (b, inr (refl, (w2, refl)))))))

  -- From the path of the cache on.
  found-Loaded :
      (path : Option Bytes) (w : j.World) (g : Globals j)
      → g.context ≡ true
      → g.bridge_class ≡ false
      → Loaded g (elim path [
        | none ↦ (record g { world = w }, unknown_error)
        | some p ↦ load_from j p (record g { world = w })
      ])
  found-Loaded none w g c b = failed-Loaded g w unknown_error c b (λ z. cc)
  found-Loaded (some p) w g c b = load_from-Loaded p (record g { world = w }) c b

  load_bridge-Loaded : (g : Globals j) → Loaded g (load_bridge j g)
  unfolding load_bridge
  load_bridge-Loaded g =
      let (w, path) = cache_path j g.world in
      if-cases (Loaded g) (not g.context) (λ z. (refl, inl (not-true g.context z, refl, refl)))
        (λ z.
          if-cases (Loaded g) g.bridge_class
            (λ b. (refl, inr (not-false g.context z, inl (b, refl, b))))
            (λ b. found-Loaded path w g (not-false g.context z) b))

  clear_exception_lem : IsJvm j → (w : j.World) → j.exception (clear_exception j w) ≡ false
  unfolding clear_exception
  clear_exception_lem laws w = ground (arith, laws.cleared w)

  init_context-Loaded :
      IsJvm j
      → (t : JniThread) (g : Globals j)
      → (j.exception (init_context j t g).0.world ≡ false) × Loaded g (init_context j t g)
  unfolding init_context
  init_context-Loaded laws t g =
      let (context, w1) = j.new_context g.world in
      let (h, e) = load_bridge j (record g { context = context; world = w1 }) in
      let l : Loaded g (h, e) = load_bridge-Loaded (record g { context = context; world = w1 }) in
      (
        ground
            (arith, clear_exception_lem laws h.world, laws.detach_kept (clear_exception j h.world)),
        l,
      )

  -- No exception is pending, the registry is as it was, and the initialisation ended.
  abbrev Finished : Globals j → Globals j × SerialError → Type 0
  Finished g r =
      (j.exception r.0.world ≡ false) × (r.0.registry ≡ g.registry) × Initialised g.bridge_class r

  jni_thread-vm : (g : Globals j) → (jni_thread g).0.ok ≡ true → g.vm ≡ true
  unfolding jni_thread
  jni_thread-vm g ok = ground arith

  jni_thread-bridge_class : (g : Globals j) → (jni_thread g).1.bridge_class ≡ g.bridge_class
  unfolding jni_thread
  jni_thread-bridge_class g = ground arith

  -- With a context and an environment, and whatever `NewGlobalRef` returns for the context and for
  -- the class: `androidInit` leaves no Java exception pending and the registry as it was, and ends
  -- in one of four ways. The reference to the context is null, the error is
  -- UnsupportedOperationError and the class is as it was. Or the reference is not null, and either
  -- the class was there, is kept, and NoError is returned; or there was and is no class and an error
  -- is returned; or there was none, NoError is returned, and the class is what `NewGlobalRef`
  -- returned for it, which may be null.
  pub android_init_lem :
      IsJvm j
      → (java_vm : Bool) (g : Globals j)
      → (jni_thread (if java_vm then record g { vm = true } else g)).0.ok ≡ true
      → let (h, e) = android_init j java_vm true g in
        (j.exception h.world ≡ false)
        × (h.registry ≡ g.registry)
        × Initialised g.bridge_class (h, e)
  unfolding android_init
  android_init_lem laws java_vm g ok =
      let g1 = if java_vm then record g { vm = true } else g in
      let (t, g2) = jni_thread g1 in
      let v : g1.vm ≡ true = jni_thread-vm g1 ok in
      let same : g1.bridge_class ≡ g.bridge_class = ground arith in
      let kept : g1.registry ≡ g.registry = ground arith in
      let (x, (r, i)) = init_context-Loaded laws t g2 in
      if-cases {A = Globals j × SerialError} (Finished g) (not g1.vm) (λ z. absurd cc)
        (λ _.
          if-cases {A = Globals j × SerialError} (Finished g) (not t.ok) (λ z. absurd cc)
            (λ _. (
              x,
              r ∙ jni_thread-registry g1 ∙ kept,
              subst (λ class. Initialised class (init_context j t g2))
                  (jni_thread-bridge_class g1 ∙ same) i,
            )))
