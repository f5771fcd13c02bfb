-- ===== src/Tests/Desktop.antt =====
-- src/detail/AsioBackend.cpp on the simulated line.
use cross_plaform_serial.Backend.{IsBackend}
use cross_plaform_serial.Asio.Line.{
  set_parity-HasMarkSpace, open_port-HasRawLine, HasMarkSpace, HasRawLine,
}
use cross_plaform_serial.Asio.Reachable.{run-new-Inv, open_port-Inv}
use cross_plaform_serial.Asio.Sessions.{stale_write, clean_session, stale_read}
use cross_plaform_serial.Asio.Closing.{close-Shut, close-Quiet, Shut, Quiet}
use cross_plaform_serial.Asio.Reopen.{open_port-OpenOutcome, open_code, OpenOutcome}
use cross_plaform_serial.Asio.Stream.{act_all-stream, arriving_all, available, taken_all}
use cross_plaform_serial.Asio.Invariant.{Inv}
use cross_plaform_serial.Asio.Progress.{work_all-drained, turns, rounds}
use cross_plaform_serial.Asio.Counting.{act_all-Counts, Counts, outstanding}
use cross_plaform_serial.Asio.Stalled.{work_stalled}
use cross_plaform_serial.Asio.Closing.{reads_pending}
use cross_plaform_serial.Asio.ReadLoop.{act_all-IsLooping, IsLooping, ReadFailed}
use cross_plaform_serial.Common.{
  length, ℕ, Bytes, true, false, List, [], ◌∷◌, ◌++◌, ◌≡◌, refl, arith, ◌%◌, ◌^◌, negsuc, pos,
}
use cross_plaform_serial.Types.{
  read_write, resource_error, ready_read, even_parity, software_control, mark_parity,
}
use cross_plaform_serial.ReadBuffer
use cross_plaform_serial.Asio.State.{
  map_error, call_if, notify_error, set_error, Asio, Completion, is_open, reading, posted, new,
}
use cross_plaform_serial.Asio.Config.{
  set_stop_bits, set_data_bits, set_baud_rate, set_checked, apply_config, on_open_port,
  set_parity_option, asio_flow_control, asio_stop_bits, asio_parity, set_parity, set_flow_control,
  apply_native_timeouts, configure, set_raw, raw_mode, mark_space,
}
use cross_plaform_serial.Asio.Io.{
  flush_selector, flush, write_handler, read_handler, do_read, enqueue, work, work_all, write, read,
  bytes_to_write, bytes_available, clear, run_handler,
}
use cross_plaform_serial.Asio.Lifecycle.{
  try_open, start, arm, make_port, end_close, begin_close, if_open, open_port, close,
}
use cross_plaform_serial.Asio.Run.{
  step, Action, works, writes, reads, Event, opens, closes, acts, run, act, act_all,
}
use cross_plaform_serial.Asio.Implements.{asio_view, asio-IsBackend, asio_backend, set_callbacks}
use cross_plaform_serial.Tests.Simulated.{
  sim, sim-IsDevice, sim-HasTermios, sim-KeepsMarkSpace, cooked,
}

abbrev pub name : Bytes
name = 47 ∷ 100 ∷ []

abbrev pub arrives : Bytes → Completion
arrives bytes = record { handler = 0; code = 0; arrived = bytes; written = 0 }

abbrev fails : ℕ → Completion
fails i = record { handler = i; code = 125; arrived = []; written = 0 }

-- A backend with all callbacks set, before and after its first open.
unfoldable pub fresh : Asio sim
unfolding new set_callbacks
fresh =
    set_callbacks (record { on_ready_read = true; on_bytes_written = true; on_error = true }) new

-- The functions of the backend, which the tests run.
unfoldable pub code : Unit {0}
unfolding new set_callbacks is_open set_error notify_error call_if map_error enqueue do_read
    read_handler write_handler run_handler work work_all write read bytes_available bytes_to_write
    flush clear flush_selector asio_parity asio_stop_bits asio_flow_control raw_mode mark_space
    set_parity_option configure set_raw on_open_port apply_config apply_native_timeouts set_checked
    set_baud_rate set_data_bits set_parity set_stop_bits set_flow_control if_open begin_close
    end_close close make_port arm start try_open open_port act act_all step run ReadBuffer.push
    ReadBuffer.pop ReadBuffer.size ReadBuffer.clear ReadBuffer.new
code = tt

unfoldable pub session : Asio sim
unfolding fresh
session = (open_port [] name read_write fresh).0

session_open : (is_open session ≡ true) × (session.pending ≡ reading ∷ [])
unfolding session code
session_open = (refl, refl)

-- Two bytes arrive, one is read, three are written.
abbrev pub talk : List Action
talk = works (arrives (7 ∷ 8 ∷ [])) ∷ reads true 1 ∷ writes (1 ∷ 2 ∷ 3 ∷ []) 3 ∷ []

after_talk :
    ((act_all talk session).read_buffer.buf ≡ 8 ∷ [])
    × (bytes_to_write (act_all talk session) ≡ pos 3)
    × ((act_all talk session).notices ≡ ready_read ∷ [])
    × ((act_all talk session).pending ≡ reading ∷ posted (1 ∷ 2 ∷ 3 ∷ []) ∷ [])
unfolding session code
after_talk = (refl, refl, refl, refl)

fresh-Shut : Shut fresh
unfolding fresh code
fresh-Shut = record {
  port_closed = refl;
  joined = refl;
  unguarded = refl;
  drained = refl;
  counted = refl;
}

fresh-Inv : Inv fresh
unfolding fresh code
fresh-Inv = record {
  thread_open = refl;
  guarded = refl;
  running_thread = λ r. cc;
  counter = omega arith;
}

pub session-Inv : Inv session
unfolding session
session-Inv = open_port-Inv sim-IsDevice [] name read_write fresh fresh-Inv

clean_session_example :
    let t = (open_port [] name read_write fresh).0 in
    ((act_all talk t).bytes_to_write ≡ outstanding (act_all talk t).pending % 2 ^ 64)
    × IsLooping (act_all talk t)
    × (taken_all talk t ++ available (act_all talk t) ≡ arriving_all talk t)
unfolding fresh code
clean_session_example =
    clean_session sim-IsDevice [] name read_write talk fresh fresh-Inv fresh-Shut refl refl

act_all-stream_example :
    taken_all talk session ++ available (act_all talk session)
    ≡ available session ++ arriving_all talk session
act_all-stream_example = act_all-stream talk session

act_all-Counts_example : Counts 0 (act_all talk session)
unfolding session code
act_all-Counts_example = act_all-Counts 0 talk session refl

act_all-IsLooping_example : IsLooping (act_all talk session)
unfolding session code
act_all-IsLooping_example = act_all-IsLooping sim-IsDevice talk session session-Inv refl

abbrev life : List Event
life = opens [] name read_write ∷ acts (works (fails 0)) ∷ closes [] ∷ opens [] name read_write ∷ []

run-new-Inv_example : Inv (run life (new {d = sim}))
run-new-Inv_example = run-new-Inv sim-IsDevice life

open_port-OpenOutcome_example :
    OpenOutcome (open_code name fresh) fresh (open_port [] name read_write fresh)
unfolding fresh code
open_port-OpenOutcome_example = open_port-OpenOutcome sim-IsDevice [] name read_write fresh refl

close-Quiet_example : Quiet session (close (fails 0 ∷ []) session)
close-Quiet_example = close-Quiet (fails 0 ∷ []) session

close-Shut_example : Shut (close (fails 0 ∷ []) session)
close-Shut_example = close-Shut sim-IsDevice (fails 0 ∷ []) session

pub session-IsLooping : IsLooping session
unfolding session code
session-IsLooping = refl

work_stalled_example :
    let t = work (fails 0) session in
    let u = act_all talk t in
    ReadFailed session t
    × (is_open u ≡ true)
    × (u.running ≡ false)
    × (reads_pending u.pending ≡ 0)
    × (arriving_all talk t ≡ [])
    × (taken_all talk t ++ available u ≡ available session)
unfolding session code
work_stalled_example =
    work_stalled sim-IsDevice (fails 0) session talk session-Inv session-IsLooping refl refl
      (omega arith)

-- Closed while a read waits and while three bytes are being written, with no time for the worker.
left_reading : Asio sim
unfolding session
left_reading = close [] session

left_writing : Asio sim
unfolding session
left_writing =
    work_all (record (fails 1) { code = 0 } ∷ arrives (5 ∷ []) ∷ [])
      (act_all (writes (1 ∷ 2 ∷ 3 ∷ []) 3 ∷ []) session)

stale_read_example :
    let t = (open_port [] name read_write left_reading).0 in
    (t.running ≡ true)
    × ((work (fails 0) t).running ≡ false)
    × ((work (fails 0) t).error ≡ resource_error)
    × (is_open (work (fails 0) t) ≡ true)
unfolding left_reading session code
stale_read_example =
    stale_read sim-IsDevice [] name read_write left_reading [] (fails 0)
      (close-Shut sim-IsDevice [] session) refl refl refl (omega arith)

stale_write_example :
    bytes_to_write (work (fails 0) (open_port [] name read_write (close [] left_writing)).0)
    ≡ negsuc 2
unfolding left_writing session code
stale_write_example =
    stale_write sim-IsDevice [] name read_write (close [] left_writing) (reading ∷ [])
      (1 ∷ 2 ∷ 3 ∷ []) (fails 0) (close-Shut sim-IsDevice [] left_writing) refl refl refl
      (omega arith) (omega arith)

-- Software flow control is configured before the open.
software : Asio sim
unfolding fresh code
software = (set_flow_control software_control fresh).0

open_port-HasRawLine_example : HasRawLine (open_port [] name read_write software).0
unfolding software fresh code
open_port-HasRawLine_example =
    open_port-HasRawLine sim-IsDevice sim-HasTermios [] name read_write software refl refl

-- Mark parity is set, and then even parity.
marked : Asio sim
unfolding session code
marked = (set_parity mark_parity session).0

set_parity-HasMarkSpace_example : HasMarkSpace (set_parity even_parity marked).0
unfolding marked session code
set_parity-HasMarkSpace_example =
    set_parity-HasMarkSpace sim-IsDevice sim-HasTermios sim-KeepsMarkSpace even_parity marked refl
      (mark_space mark_parity (raw_mode cooked), refl, refl)

asio-IsBackend_example : IsBackend (asio_backend sim) asio_view
asio-IsBackend_example = asio-IsBackend sim-IsDevice

-- All handlers of the writes report an error.
work_all-drained_example :
    let s = act_all talk session in
    let cs = turns 125 0 (rounds s.pending) s in
    (length cs ≡ rounds s.pending)
    × (outstanding (work_all cs s).pending ≡ 0)
    × (bytes_to_write (work_all cs s) ≡ pos 0)
unfolding session code
work_all-drained_example = work_all-drained 125 0 (act_all talk session) refl refl
