-- ===== src/Asio/Clearing.antt =====
-- What `AsioBackend::clear` discards on Linux.
use cross_plaform_serial.Common.{ℕ, ◌≡◌, ◌≢◌, refl, arith, inl, inr, Option-cases}
use cross_plaform_serial.Types.{Directions, input, output, all_directions}
use cross_plaform_serial.Device.{Device}
use cross_plaform_serial.Asio.State.{Asio}
use cross_plaform_serial.Asio.Io.{flush_selector, clear}

-- TCIOFLUSH, which asks for both queues.
abbrev pub tcioflush : ℕ
tcioflush = 2

selector_cases :
    (dirs : Directions)
    → (flush_selector dirs ≢ tcioflush) × (flush_selector all_directions ≡ flush_selector output)
unfolding flush_selector
selector_cases input = (ground arith, refl)
selector_cases output = (ground arith, refl)
selector_cases all_directions = (ground arith, refl)

module _ {d : Device} where
  same_selector :
      (dirs dirs' : Directions) (s : Asio d)
      → flush_selector dirs ≡ flush_selector dirs'
      → clear dirs s ≡ clear dirs' s
  unfolding clear
  same_selector dirs dirs' s e = elim (Option-cases s.port) [
    | inl g ↦ rw (g, clear) refl
    | inr (p, g) ↦ rw (g, clear, e) refl
  ]

  -- No argument makes `clear` ask the system for both queues (TCIOFLUSH on Linux); a `clear` of all
  -- directions does just what a `clear` of the output does; and no `clear` discards a byte of the
  -- read buffer.
  clear_all-eq-clear_output :
      (s : Asio d)
      → ((dirs : Directions) → flush_selector dirs ≢ tcioflush)
        × (clear all_directions s ≡ clear output s)
        × ((dirs : Directions) → (clear dirs s).0.read_buffer ≡ s.read_buffer)
  unfolding clear
  clear_all-eq-clear_output s = (
    λ dirs. (selector_cases dirs).0,
    same_selector all_directions output s (selector_cases output).1,
    λ dirs. elim (Option-cases s.port) [ inl g ↦ ground arith | inr (p, g) ↦ ground arith ],
  )
