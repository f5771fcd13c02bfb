-- ===== src/Qt/CText.antt =====
-- A `const char*` as the Qt examples and the library read it: up to the first zero byte.
use cross_plaform_serial.Common.{Bytes, [], ◌∷◌, ◌==◌, if◌then◌else◌}

unfoldable pub c_string : Bytes → Bytes
c_string [] = []
c_string (c ∷ text) = let rest = c_string text in if c == 0 then [] else c ∷ rest
