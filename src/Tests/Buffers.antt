-- ===== src/Tests/Buffers.antt =====
-- src/detail/ReadBuffer.hpp on concrete bytes.
use cross_plaform_serial.Common.{List, [], ◌∷◌, ◌≡◌, refl}
use cross_plaform_serial.ReadBuffer.{ReadBuffer, push, pop, Call, pushes, pops, run}

abbrev three : ReadBuffer
three = record { buf = 10 ∷ 20 ∷ 30 ∷ [] }

abbrev calls : List Call
calls = pops 2 ∷ pushes (40 ∷ 50 ∷ []) ∷ pops 9 ∷ []

popped_in_order : (run calls three).0 ≡ 10 ∷ 20 ∷ 30 ∷ 40 ∷ 50 ∷ []
unfolding run pop push
popped_in_order = refl
