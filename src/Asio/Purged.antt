-- ===== src/Asio/Purged.antt =====
-- What `AsioBackend::clear` does to the read loop on Windows.
use Prim.Native.Nat.{bit_and}
use mathlib.Core.Path.{subst⁻¹}
use cross_plaform_serial.Asio.Invariant.{Inv}
use cross_plaform_serial.Asio.ReadLoop.{IsLooping, reads_pending-erase_eq}
use cross_plaform_serial.Asio.Closing.{reads_pending}
use cross_plaform_serial.Common.{
  Bool, false, not, ◌||◌, ◌==◌, ℕ, true, ◌≡◌, refl, ◌∙◌, ap, arith, inl, inr, Option-cases, some,
  get_elem?, erase_idx,
}
use cross_plaform_serial.Types.{Directions, input, output, all_directions}
use cross_plaform_serial.Device.{Device, ErrorCode}
use cross_plaform_serial.Asio.State.{Asio, Completion, reading}
use cross_plaform_serial.Asio.Io.{work}
use cross_plaform_serial.Asio.ReadLoop.{ReadFailed, work-ReadFailed}
use cross_plaform_serial.Asio.Windows.{Comm, clear, purge_flags, purge_rxabort}
use cross_plaform_serial.Asio.State.{is_open}

-- ERROR_OPERATION_ABORTED
abbrev pub operation_aborted : ErrorCode
operation_aborted = 995

-- Whether the directions include the input.
abbrev pub has_input : Directions → Bool
has_input input = true
has_input output = false
has_input all_directions = true

purge_flags-has_input :
    (dirs : Directions) → not (bit_and (purge_flags dirs) purge_rxabort == 0) ≡ has_input dirs
unfolding purge_flags
purge_flags-has_input input = refl
purge_flags-has_input output = refl
purge_flags-has_input all_directions = refl

-- What Windows documents of `PurgeComm`: with PURGE_RXABORT it aborts the read that waits on the
-- port, and without it no read; and it leaves the port open. `aborted` says of a port that its read
-- was aborted.
pub record HasPurge {d : Device} (comm : Comm d) : Type 0 where
  pub aborted : d.Port → Bool
  pub purge_aborted :
      (flags : ℕ) (p : d.Port)
      → aborted (comm.purge_comm flags p).1 ≡ (not (bit_and flags purge_rxabort == 0) || aborted p)
  pub purge_open : (flags : ℕ) (p : d.Port) → d.is_open (comm.purge_comm flags p).1 ≡ d.is_open p

module _ {d : Device} {comm : Comm d} (system : HasPurge comm) where
  -- The handler `c` gets ERROR_OPERATION_ABORTED where the read on the port of `s` was aborted.
  abbrev pub IsAnswer : Completion → Asio d → Type 0
  IsAnswer c s =
      (p : d.Port) → s.port ≡ some p → system.aborted p ≡ true → c.code ≡ operation_aborted

  -- From the open `s` with the port `p`, `clear` leads to `t`: the system has aborted the read if
  -- the input is included, and else none; the port is open, and nothing else changes.
  record Purged (dirs : Directions) (p : d.Port) (s t : Asio d) : Type 0 where
    aborts :
        (q : d.Port) × (t.port ≡ some q) × (system.aborted q ≡ (has_input dirs || system.aborted p))
    still_open : is_open t ≡ true
    pending : t.pending ≡ s.pending
    thread : t.thread ≡ s.thread
    running : t.running ≡ s.running
    read_buffer : t.read_buffer ≡ s.read_buffer

  clear-Purged :
      (dirs : Directions) (p : d.Port) (s : Asio d)
      → s.port ≡ some p
      → d.is_open p ≡ true
      → Purged dirs p s (clear comm dirs s).0
  unfolding clear is_open
  clear-Purged dirs p s e o =
      let q = (comm.purge_comm (purge_flags dirs) p).1 in
      let t : (clear comm dirs s).0 ≡ record s { port = some q } = rw (e, clear) (rw o refl) in
      subst⁻¹ (Purged dirs p s) t (record {
        aborts = (
          q,
          refl,
          system.purge_aborted (purge_flags dirs) p
              ∙ ap (λ b. b || system.aborted p) (purge_flags-has_input dirs),
        );
        still_open = system.purge_open (purge_flags dirs) p ∙ o;
        pending = refl;
        thread = refl;
        running = refl;
        read_buffer = refl;
      })

  open-port :
      (s : Asio d) → is_open s ≡ true → (p : d.Port) × (s.port ≡ some p) × (d.is_open p ≡ true)
  unfolding is_open
  open-port s o = elim (Option-cases s.port) [
    | inl e ↦ ground arith
    | inr (p, e) ↦ (p, e, ground arith)
  ]

  -- On Windows a `clear` that includes the input stops the reading of a healthy port. From a state
  -- with the invariant and a running read loop, the call makes `PurgeComm` abort the read that
  -- waits; when the handler of that read is then called, with ERROR_OPERATION_ABORTED as the system
  -- has it for an aborted read, the loop takes this for a failure of the device: it ends with a
  -- ResourceError, of which the client is told once if it has set the callback, while the port is
  -- open, the bytes already received are kept and no read waits.
  pub clear-ReadFailed :
      (dirs : Directions) (c : Completion) (s : Asio d)
      → Inv s
      → IsLooping s
      → s.running ≡ true
      → get_elem? s.pending c.handler ≡ some reading
      → has_input dirs ≡ true
      → IsAnswer c (clear comm dirs s).0
      → let t = (clear comm dirs s).0 in
        let u = work c t in
        ReadFailed t u
        × (is_open u ≡ true)
        × (reads_pending u.pending ≡ 0)
        × (u.read_buffer ≡ s.read_buffer)
  clear-ReadFailed dirs c s v l r e i answer =
      let t = (clear comm dirs s).0 in
      let (p, g, o) = open-port s (v.thread_open ∙ v.running_thread r) in
      let k = clear-Purged dirs p s g o in
      let (q, f, a) = k.aborts in
      let one : reads_pending s.pending ≡ 1 = l ∙ rw r refl in
      let code : c.code ≡ operation_aborted = answer q f (a ∙ rw i refl) in
      let (failed, h) =
        work-ReadFailed c t (ap (λ hs. get_elem? hs c.handler) k.pending ∙ e)
          (k.thread ∙ v.running_thread r) (k.running ∙ r) (omega (arith, code)) in
      (
        failed,
        failed.still_open ∙ k.still_open,
        ap reads_pending (h ∙ ap (λ hs. erase_idx hs c.handler) k.pending)
            ∙ omega (arith, reads_pending-erase_eq s.pending c.handler reading e, one),
        failed.kept ∙ k.read_buffer,
      )
