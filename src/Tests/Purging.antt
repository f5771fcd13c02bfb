-- ===== src/Tests/Purging.antt =====
-- The Windows branches of src/detail/AsioBackend.cpp on the simulated line.
use cross_plaform_serial.Asio.Closing.{reads_pending}
use Prim.Native.Nat.{bit_and}
use cross_plaform_serial.Common.{some, none, false, ◌||◌, ◌==◌, not, true, [], ◌≡◌, refl, none}
use cross_plaform_serial.Types.{input}
use cross_plaform_serial.Asio.State.{is_open, Asio, Completion}
use cross_plaform_serial.Asio.Io.{work}
use cross_plaform_serial.Asio.ReadLoop.{ReadFailed}
use cross_plaform_serial.Asio.Windows.{Comm, clear, purge_rxabort}
use cross_plaform_serial.Asio.Purged.{HasPurge, operation_aborted, clear-ReadFailed}
use cross_plaform_serial.Tests.Simulated.{sim}
use cross_plaform_serial.Tests.Desktop.{session-IsLooping, session-Inv, code, session}

-- A system whose calls succeed.
abbrev comm : Comm sim
comm = record {
  set_comm_timeouts = λ t p. p;
  get_comm_state = λ p. none;
  set_comm_state = λ dcb p. p;
  flush_file_buffers = λ p. (true, p);
  purge_comm = λ flags p.
      (true, record p { read_aborted = not (bit_and flags purge_rxabort == 0) || p.read_aborted });
}

abbrev aborted : Completion
aborted = record { handler = 0; code = operation_aborted; arrived = []; written = 0 }

comm-HasPurge : HasPurge comm
comm-HasPurge = record {
  aborted = λ p. p.read_aborted;
  purge_aborted = λ flags p. refl;
  purge_open = λ flags p. refl;
}

cleared : Asio sim
unfolding session
cleared = (clear comm input session).0

-- The call has aborted the read.
cleared_aborted : elim cleared.port [ none ↦ false | some l ↦ l.read_aborted ] ≡ true
unfolding cleared session code clear
cleared_aborted = refl

clear-ReadFailed_example :
    ReadFailed cleared (work aborted cleared)
    × (is_open (work aborted cleared) ≡ true)
    × (reads_pending (work aborted cleared).pending ≡ 0)
    × ((work aborted cleared).read_buffer ≡ session.read_buffer)
unfolding cleared session code
clear-ReadFailed_example =
    clear-ReadFailed comm-HasPurge input aborted session session-Inv session-IsLooping refl refl
      refl (λ p e a. refl)
