-- ===== src/Android/Globals.antt =====
-- The globals of src/detail/AndroidBackend.cpp: the machine, the bridge class with its methods, and
-- the registry of open backends; and `JniThread`.
use cross_plaform_serial.Common.{
  ℕ, Bool, true, false, not, List, [], ◌∷◌, Option, none, some, ◌==◌, if◌then◌else◌, ◌≡◌, arith,
}
use cross_plaform_serial.Android.Jvm.{Jvm}

-- An `unordered_map` from handles to addresses, with one entry for a key.
abbrev pub Registry : Type 0
Registry = List (ℕ × ℕ)

unfoldable pub erase : ℕ → Registry → Registry
erase id [] = []
erase id ((k, a) ∷ r) = let rest = erase id r in if k == id then rest else (k, a) ∷ rest

unfoldable pub register_instance : ℕ → ℕ → Registry → Registry
unfolding erase
register_instance id b r = (id, b) ∷ erase id r

unfoldable pub unregister_instance : ℕ → Registry → Registry
unfolding erase
unregister_instance id r = erase id r

unfoldable pub find_instance : ℕ → Registry → Option ℕ
find_instance id [] = none
find_instance id ((k, a) ∷ r) = let rest = find_instance id r in if k == id then some a else rest

find_instance-erase :
    (id j : ℕ) (r : Registry)
    → find_instance j (erase id r) ≡ (if j == id then none else find_instance j r)
unfolding erase find_instance
find_instance-erase id j [] = ground arith
find_instance-erase id j ((k, a) ∷ r) = ground (arith, find_instance-erase id j r)

-- Looking a handle up after it, or another one, is taken out or put in.
pub find_instance-unregister_instance :
    (id j : ℕ) (r : Registry)
    → find_instance j (unregister_instance id r) ≡ (if j == id then none else find_instance j r)
unfolding unregister_instance
find_instance-unregister_instance id j r = find_instance-erase id j r

pub find_instance-register_instance :
    (id b j : ℕ) (r : Registry)
    → find_instance j (register_instance id b r) ≡ (if j == id then some b else find_instance j r)
unfolding register_instance find_instance
find_instance-register_instance id b j r = ground (arith, find_instance-erase id j r)

module _ (j : Jvm) where
  -- A pointer is true where it is non-null.
  pub record Globals : Type 0 where
    pub vm : Bool
    pub context : Bool
    pub bridge_class : Bool
    pub mid_enumerate : Bool
    pub mid_open : Bool
    pub mid_write : Bool
    pub mid_close : Bool
    pub registry : Registry
    pub world : j.World

-- `JniThread`: whether there is an environment, and whether the constructor attached the thread.
pub record JniThread : Type 0 where
  pub ok : Bool
  pub attached : Bool

module _ {j : Jvm} where
  unfoldable pub jni_thread : Globals j → JniThread × Globals j
  jni_thread g =
      let a = j.attach g.world in
      if not g.vm
      then (record { ok = false; attached = false }, g)
      else if j.get_env g.world
      then (record { ok = true; attached = false }, g)
      else (record { ok = a.0; attached = a.0 }, record g { world = a.1 })

  pub jni_thread-registry : (g : Globals j) → (jni_thread g).1.registry ≡ g.registry
  unfolding jni_thread
  jni_thread-registry g = ground arith

-- `if (env->ExceptionCheck()) env->ExceptionClear();`
unfoldable pub clear_exception : (j : Jvm) → j.World → j.World
clear_exception j w = if j.exception w then j.exception_clear w else w
