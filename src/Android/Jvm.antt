-- ===== src/Android/Jvm.antt =====
-- What src/detail/AndroidBackend.cpp calls of the Java virtual machine, of the Java class behind it
-- and of the file system: an interface whose operations are parameters. Local references are
-- created and deleted there and are left out.
use cross_plaform_serial.Common.{ℕ, ℤ, Bytes, Bool, false, ◌≡◌, Option, List}

-- The static methods of com.cps.android.CpsUsbSerial that are looked up by name.
pub data Method : Type 0 where
  enumerate open_method write_method close_method set_context : Method

-- The `int` arguments of `open`.
pub record OpenArgs : Type 0 where
  pub baud : ℤ
  pub data_bits : ℕ
  pub parity : ℕ
  pub stop_bits : ℕ
  pub flow : ℕ

-- A string field is `none` if there is no such field, it is null, or its text cannot be had; an
-- `int` field if there is no such field.
pub record CpsPortInfo : Type 0 where
  pub name : Option Bytes
  pub description : Option Bytes
  pub manufacturer : Option Bytes
  pub serial_number : Option Bytes
  pub system_location : Option Bytes
  pub vid : Option ℤ
  pub pid : Option ℤ

-- An element of the array that `enumerate` returns: reading it raises an exception, it is null, or
-- it is an object.
pub data Element : Type 0 where
  raises : Element
  null_element : Element
  info : CpsPortInfo → Element

-- `World` is the machine with its threads, objects and files. An operation that returns an object
-- says whether it is non-null, or what it holds. `exception` is `ExceptionCheck`. `new_context` and
-- `new_bridge_class` are `NewGlobalRef` of the context, which replaces the old one, and of the class;
-- it returns NULL when memory runs out.
pub record Jvm : Type 1 where
  pub World : Type 0
  pub get_env : World → Bool
  pub attach : World → Bool × World
  pub detach : World → World
  pub exception : World → Bool
  pub exception_clear : World → World
  pub new_context : World → Bool × World
  pub get_cache_dir : World → Bool × World
  pub get_absolute_path : World → Option Bytes × World
  pub new_loader : Bytes → World → Bool × World
  pub load_class : World → Bool × World
  pub new_bridge_class : World → Bool × World
  pub method_id : Method → World → Bool × World
  pub register_natives : World → World
  pub call_set_context : World → World
  pub call_enumerate : World → Option (List Element) × World
  pub call_open : ℕ → Bytes → OpenArgs → World → Bool × World
  pub new_byte_array : ℤ → World → Bool × World
  pub call_write : ℕ → Bytes → World → ℤ × World
  pub call_close : ℕ → World → World
  pub mkdir : Bytes → World → World
  pub remove_file : Bytes → World → World
  pub open_file : Bytes → World → Bool × World
  pub write_file : Bytes → World → Bool × World
  pub chmod_read_only : Bytes → World → World

-- `ExceptionClear` leaves no exception pending, and detaching the thread raises none.
pub record IsJvm (j : Jvm) : Type 0 where
  pub cleared : (w : j.World) → j.exception (j.exception_clear w) ≡ false
  pub detach_kept : (w : j.World) → j.exception (j.detach w) ≡ j.exception w
