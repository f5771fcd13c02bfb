-- ===== src/Tests/Phone.antt =====
-- src/detail/AndroidBackend.cpp with a simulated Java machine.
use cross_plaform_serial.CAbi.{no_c_callbacks, CPort}
use cross_plaform_serial.Common.{
  pos, minus_one, Bytes, Bool, true, false, List, [], ◌∷◌, ◌++◌, ◌≡◌, refl, some, length, ◌==◌,
  if◌then◌else◌,
}
use cross_plaform_serial.Types.{
  no_flow_control, one_stop, no_parity, data8, read_write, all_directions, no_error,
}
use cross_plaform_serial.Backend.{IsBackend}
use cross_plaform_serial.Android.Jvm.{Jvm, IsJvm, raises, null_element}
use cross_plaform_serial.Android.Globals.{Globals, jni_thread, find_instance}
use cross_plaform_serial.Android.State
use cross_plaform_serial.Android.State.{Android, on_read, on_error, native_call, is_found}
use cross_plaform_serial.Android.Calls.{open_port}
use cross_plaform_serial.Android.Run.{
  Action, calls_native, reads, clears, Event, opens, closes, acts, act_all, run,
}
use cross_plaform_serial.Android.Implements.{android_backend, android_view, android-IsBackend}
use cross_plaform_serial.Android.Registered.{IsRegistered, run-new-IsRegistered}
use cross_plaform_serial.Android.Delivery.{act_all_fifo, incoming_all, outgoing_all, waiting}
use cross_plaform_serial.Android.Init.{Initialised, android_init_lem}
use cross_plaform_serial.Android.Bridge.{android_init}

-- A machine whose thread is attached. A write of one byte fails in Java, with -1.
abbrev pub phone : Jvm
phone = record {
  World = Bool;
  get_env = λ w. true;
  attach = λ w. (true, w);
  detach = λ w. w;
  exception = λ w. w;
  exception_clear = λ w. false;
  new_context = λ w. (true, w);
  get_cache_dir = λ w. (true, w);
  get_absolute_path = λ w. (some (47 ∷ 100 ∷ []), w);
  new_loader = λ dex w. (true, w);
  load_class = λ w. (true, w);
  new_bridge_class = λ w. (true, w);
  method_id = λ m w. (true, w);
  register_natives = λ w. w;
  call_set_context = λ w. w;
  call_enumerate = λ w. (some (raises ∷ null_element ∷ []), w);
  call_open = λ h name args w. (true, w);
  new_byte_array = λ n w. (true, w);
  call_write = λ h bytes w. (if length bytes == 1 then minus_one else pos (length bytes), w);
  call_close = λ h w. w;
  mkdir = λ d w. w;
  remove_file = λ f w. w;
  open_file = λ f w. (true, w);
  write_file = λ f w. (true, w);
  chmod_read_only = λ f w. w;
}

phone-IsJvm : IsJvm phone
phone-IsJvm = record { cleared = λ w. refl; detach_kept = λ w. refl }

-- Before and after the bridge is loaded.
abbrev cold : Globals phone
cold = record {
  vm = true;
  context = false;
  bridge_class = false;
  mid_enumerate = false;
  mid_open = false;
  mid_write = false;
  mid_close = false;
  registry = [];
  world = false;
}

abbrev ready : Globals phone
ready = record cold {
  context = true;
  bridge_class = true;
  mid_enumerate = true;
  mid_open = true;
  mid_write = true;
  mid_close = true;
}

abbrev closed : Android phone
closed = record {
  address = 64;
  globals = ready;
  baud = pos 9600;
  data_bits = data8;
  parity = no_parity;
  stop_bits = one_stop;
  flow = no_flow_control;
  opened = false;
  error = no_error;
  read_buffer = record { buf = [] };
  callbacks = record { on_ready_read = true; on_bytes_written = true; on_error = true };
  notices = [];
}

abbrev opened : Android phone
opened = record closed { opened = true; globals = record ready { registry = (64, 64) ∷ [] } }

loaded : (android_init phone true true cold).0 ≡ ready
unfolding android_init
loaded = refl

opens_registered : (open_port [] (47 ∷ []) read_write closed).0 ≡ opened
unfolding open_port
opens_registered = refl

android-IsBackend_example : IsBackend (android_backend phone cold 64) (android_view cold 64)
android-IsBackend_example = android-IsBackend cold 64

abbrev life : List Event
life = opens [] (47 ∷ []) read_write ∷ acts (reads true 3) ∷ closes [] ∷ []

run-new-IsRegistered_example :
    IsRegistered (λ handle. find_instance handle ready.registry) (run life (State.new 64 ready))
unfolding find_instance
run-new-IsRegistered_example = run-new-IsRegistered 64 ready life refl

-- Two bytes come in, one is read, one more comes in, and the rest is dropped.
abbrev talk : List Action
talk =
    calls_native (on_read 64 (some (7 ∷ 8 ∷ [])) true)
    ∷ reads true 1
    ∷ calls_native (on_read 64 (some (9 ∷ [])) true)
    ∷ clears all_directions
    ∷ []

act_all_fifo_example :
    outgoing_all talk opened ++ waiting (act_all talk opened)
    ≡ waiting opened ++ incoming_all talk opened
act_all_fifo_example = act_all_fifo talk opened

-- A handle with its port open, on a simulated phone.
abbrev handle : CPort (android_backend phone ready 64)
handle = record {
  port = record {
    backend = opened;
    port_name = 47 ∷ [];
    baud_rate = pos 9600;
    data_bits = data8;
    parity = no_parity;
    stop_bits = one_stop;
    flow = no_flow_control;
    mode = read_write;
    cbs = record { on_ready_read = false; on_bytes_written = false; on_error = false };
  };
  user_data = 0;
  captured = no_c_callbacks;
}

android_init_lem_example :
    let (h, e) = android_init phone true true cold in
    (phone.exception h.world ≡ false)
    × (h.registry ≡ cold.registry)
    × Initialised phone cold.bridge_class (h, e)
unfolding jni_thread
android_init_lem_example = android_init_lem phone phone-IsJvm true cold refl

-- A machine that is out of memory once the class is loaded.
abbrev poor : Jvm
poor = record phone { new_bridge_class = λ w. (false, w) }

abbrev cold_poor : Globals poor
cold_poor = record {
  vm = true;
  context = false;
  bridge_class = false;
  mid_enumerate = false;
  mid_open = false;
  mid_write = false;
  mid_close = false;
  registry = [];
  world = false;
}

-- NoError, and no class.
no_class :
    let (h, e) = android_init poor true true cold_poor in (e ≡ no_error) × (h.bridge_class ≡ false)
unfolding android_init jni_thread
no_class = (refl, refl)

-- "/d/e"
abbrev path : Bytes
path = 47 ∷ 100 ∷ 47 ∷ 101 ∷ []
