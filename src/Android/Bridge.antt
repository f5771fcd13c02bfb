-- ===== src/Android/Bridge.antt =====
-- `ensureDir`, `loadBridge`, `androidInit` and `JNI_OnLoad`: the Java bridge is written to the code
-- cache as a dex file and loaded from there.
use cross_plaform_serial.Common.{
  Bytes, Bool, true, false, not, ◌||◌, List, [], ◌∷◌, ◌++◌, Option, none, some, ◌==◌, if◌then◌else◌,
}
use cross_plaform_serial.Types.{
  SerialError, no_error, unknown_error, unsupported_operation_error, resource_error,
}
use cross_plaform_serial.CAbi.Enums.{CError, of_error}
use cross_plaform_serial.Android.Jvm.{
  Jvm, enumerate, open_method, write_method, close_method, set_context,
}
use cross_plaform_serial.Android.Globals.{Globals, JniThread, jni_thread, clear_exception}

-- The loop of `ensureDir`: the directories that end before a slash of the rest, where `done` is what
-- stands before the rest.
unfoldable pub dirs_from : Bytes → Bytes → List Bytes
dirs_from done [] = []
dirs_from done (c ∷ rest) =
    let more = dirs_from (done ++ (c ∷ [])) rest in if c == 47 then done ∷ more else more

-- The arguments of `mkdir`, in order. The loop starts at the second character.
unfoldable pub dirs_made : Bytes → List Bytes
unfolding dirs_from
dirs_made [] = [] ∷ []
dirs_made (c ∷ rest) = dirs_from (c ∷ []) rest ++ ((c ∷ rest) ∷ [])

-- "/cps" and "/cps.dex".
abbrev pub cps : Bytes
cps = 47 ∷ 99 ∷ 112 ∷ 115 ∷ []

abbrev pub cps_dex : Bytes
cps_dex = 47 ∷ 99 ∷ 112 ∷ 115 ∷ 46 ∷ 100 ∷ 101 ∷ 120 ∷ []

module _ (j : Jvm) where
  unfoldable pub mkdir_all : List Bytes → j.World → j.World
  mkdir_all [] w = w
  mkdir_all (d ∷ ds) w = mkdir_all ds (j.mkdir d w)

  unfoldable pub ensure_dir : Bytes → j.World → j.World
  unfolding mkdir_all dirs_made
  ensure_dir path w = mkdir_all (dirs_made path) w

  -- The path of the code cache, up to the test of `jCachePath`.
  unfoldable pub cache_path : j.World → j.World × Option Bytes
  cache_path w =
      let (has_dir, w1) = j.get_cache_dir w in
      let (path, w2) = j.get_absolute_path w1 in
      if j.exception w1
      then (j.exception_clear w1, none)
      else if has_dir
      then (w2, path)
      else (w1, none)

  -- Up to `chmod`: whether the file was written.
  unfoldable pub write_dex : Bytes → j.World → j.World × Bool
  write_dex dex w =
      let (opened, w1) = j.open_file dex (j.remove_file dex w) in
      let (written, w2) = j.write_file dex w1 in
      if not opened
      then (w1, false)
      else if not written
      then (w2, false)
      else (j.chmod_read_only dex w2, true)

  -- The class loader and the class: whether both could be had.
  unfoldable pub load_class : Bytes → j.World → j.World × Bool
  load_class dex w =
      let (loader, w1) = j.new_loader dex w in
      let (class, w2) = j.load_class w1 in
      if j.exception w1 || not loader
      then (j.exception_clear w1, false)
      else if j.exception w2 || not class
      then (j.exception_clear w2, false)
      else (w2, true)

  -- `setContext`, where there is such a method.
  unfoldable pub hand_context : j.World → j.World
  unfolding clear_exception
  hand_context w =
      let (found, w1) = j.method_id set_context w in
      if found then clear_exception j (j.call_set_context w1) else w1

  -- From the global reference to the class on, which is not tested. What the calls on a null class
  -- do is left to the machine.
  unfoldable pub bind_bridge : j.World → Globals j → Globals j
  unfolding hand_context clear_exception
  bind_bridge w g =
      let (class, w0) = j.new_bridge_class w in
      let (m1, w1) = j.method_id enumerate w0 in
      let (m2, w2) = j.method_id open_method w1 in
      let (m3, w3) = j.method_id write_method w2 in
      let (m4, w4) = j.method_id close_method w3 in
      let w5 = clear_exception j (j.register_natives w4) in
      record g {
        bridge_class = class;
        mid_enumerate = m1;
        mid_open = m2;
        mid_write = m3;
        mid_close = m4;
        world = if g.context then hand_context w5 else w5;
      }

  -- From the dex file on, for the path of the cache.
  unfoldable pub load_from : Bytes → Globals j → Globals j × SerialError
  unfolding ensure_dir write_dex load_class bind_bridge
  load_from path g =
      let dir = path ++ cps in
      let dex = dir ++ cps_dex in
      let (w1, written) = write_dex dex (ensure_dir dir g.world) in
      let (w2, loaded) = load_class dex w1 in
      if not written
      then (record g { world = w1 }, resource_error)
      else if not loaded
      then (record g { world = w2 }, unknown_error)
      else (bind_bridge w2 g, no_error)

  -- There is an environment wherever this is called.
  unfoldable pub load_bridge : Globals j → Globals j × SerialError
  unfolding cache_path load_from
  load_bridge g =
      let r = cache_path g.world in
      let h = record g { world = r.0 } in
      if not g.context
      then (g, unsupported_operation_error)
      else if g.bridge_class
      then (g, no_error)
      else elim r.1 [ none ↦ (h, unknown_error) | some path ↦ load_from path h ]

  -- With a non-null context and an environment; the global reference to the context may be null.
  unfoldable pub init_context : JniThread → Globals j → Globals j × SerialError
  unfolding load_bridge clear_exception
  init_context t g =
      let (context, w1) = j.new_context g.world in
      let (h, e) = load_bridge (record g { context = context; world = w1 }) in
      let w = clear_exception j h.world in
      (record h { world = if t.attached then j.detach w else w }, e)

  -- The two arguments are true where they are non-null.
  unfoldable pub android_init : Bool → Bool → Globals j → Globals j × SerialError
  unfolding init_context jni_thread
  android_init java_vm context g =
      let g1 = if java_vm then record g { vm = true } else g in
      let (t, g2) = jni_thread g1 in
      if not g1.vm
      then (g1, unknown_error)
      else if not context
      then (g1, no_error)
      else if not t.ok
      then (g2, unknown_error)
      else init_context t g2

  -- `cps_serial_init_android`, as compiled for Android.
  unfoldable pub cps_serial_init_android : Bool → Bool → Globals j → Globals j × CError
  unfolding android_init of_error
  cps_serial_init_android java_vm context g =
      let (h, e) = android_init java_vm context g in (h, of_error e)

  unfoldable pub jni_on_load : Globals j → Globals j
  jni_on_load g = record g { vm = true }
