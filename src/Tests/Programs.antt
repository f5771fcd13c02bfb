-- ===== src/Tests/Programs.antt =====
-- C programs over the desktop backend on the simulated line.
use cross_plaform_serial.Common.{pos, true, List, [], ◌∷◌, ◌++◌, ◌≡◌, refl, some}
use cross_plaform_serial.SerialPort
use cross_plaform_serial.CAbi.{CPort, cps_serial_new, cps_serial_read, cps_serial_write}
use cross_plaform_serial.CAbi.Enums.{mode_readwrite}
use cross_plaform_serial.CAbi.Client.{
  CAction, CEvent, c_works, c_writes, c_reads, c_opens, c_closes, c_acts, c_act, c_act_all, c_run,
  lowered_all,
}
use cross_plaform_serial.CAbi.Delivered.{c_taken_all, c_waiting, c_taken_all-stream}
use cross_plaform_serial.CAbi.Synced.{IsSynced, c_run-new-IsSynced}
use cross_plaform_serial.Asio.Stream.{arriving_all}
use cross_plaform_serial.Tests.Simulated.{sim-IsDevice}
use cross_plaform_serial.Tests.Desktop.{code, name, arrives, session}
use cross_plaform_serial.Tests.Interface.{desktop, busy, handle}

-- Two more bytes arrive, one byte is read, then all, and three are written.
abbrev conversation : List CAction
conversation =
    c_works (arrives (5 ∷ 6 ∷ []))
    ∷ c_reads true (pos 1)
    ∷ c_reads true (pos 9)
    ∷ c_writes (1 ∷ 2 ∷ 3 ∷ []) (pos 3)
    ∷ []

received : c_taken_all conversation (some busy) ≡ 8 ∷ 5 ∷ 6 ∷ []
unfolding busy handle session code c_act cps_serial_read cps_serial_write SerialPort.read
received = refl

c_taken_all-stream_example :
    c_taken_all conversation (some busy) ++ c_waiting (c_act_all conversation (some busy))
    ≡ c_waiting (some busy) ++ arriving_all (lowered_all conversation) busy.port.backend
c_taken_all-stream_example = c_taken_all-stream conversation busy

-- Opened twice, with a byte in between.
abbrev program : List CEvent
program =
    c_opens [] mode_readwrite
    ∷ c_acts (c_works (arrives (5 ∷ [])))
    ∷ c_closes []
    ∷ c_opens [] mode_readwrite
    ∷ c_acts (c_reads true (pos 1))
    ∷ []

c_run-new-IsSynced_example :
    (q : CPort desktop) × (c_run program (some (cps_serial_new (some name))) ≡ some q) × IsSynced q
c_run-new-IsSynced_example = c_run-new-IsSynced sim-IsDevice program (some name)
