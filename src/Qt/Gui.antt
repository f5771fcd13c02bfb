-- ===== src/Qt/Gui.antt =====
-- `SerialController` of examples/qt_serial/serialcontroller.cpp and `CabiController` of
-- examples/qt_serial_cabi/cabicontroller.cpp, over what they use of the library. A name is the
-- UTF-8 text of a QString. A lambda of `QMetaObject::invokeMethod` waits in the queue of the GUI
-- thread, which Qt empties in order.
use Prim.Native.String.{String}
use cross_plaform_serial.Common.{
  ℤ, Bytes, Bool, true, false, List, [], ◌∷◌, ◌++◌, minus_one, if◌then◌else◌,
}
use cross_plaform_serial.Qt.Link.{Link, Call, received, erred}

-- The signals, with their arguments. The time and the words around the bytes are left out.
pub data Signal : Type 0 where
  connected_changed : Bool → Signal
  data_received : Bytes → Signal
  failed_to_open : Bytes → String → Signal
  error_occurred : String → Signal

module _ (l : Link) where
  -- `connectThread_`: joined or never started; started; at the end of its function, with the result
  -- of the open still to be posted and the mutex held.
  pub data Thread : Type 0 where
    idle : Thread
    started : Bytes → ℤ → Thread
    reporting : Bytes → l.Result → Thread

  -- The lambdas of `connectPort` and of the error callback, with what they capture.
  pub data Posted : Type 0 where
    opened : Bytes → l.Result → Posted
    failed : String → Posted

  -- `queue` and `signals` are oldest first.
  pub record Controller : Type 0 where
    pub port : l.Port
    pub connected : Bool
    pub connected_port : Bytes
    pub thread : Thread
    pub queue : List Posted
    pub signals : List Signal

-- The members of a new controller, around its port.
unfoldable pub new : (l : Link) → l.Port → Controller l
new l p = record {
  port = p;
  connected = false;
  connected_port = [];
  thread = idle;
  queue = [];
  signals = [];
}

module _ {l : Link} where
  unfoldable pub emits : Signal → Controller l → Controller l
  emits g s = record s { signals = s.signals ++ (g ∷ []) }

  unfoldable pub posts : Posted l → Controller l → Controller l
  posts c s = record s { queue = s.queue ++ (c ∷ []) }

  -- What the callbacks on the worker thread did.
  unfoldable pub take_calls : List Call → Controller l → Controller l
  unfolding emits posts
  take_calls [] s = s
  take_calls (received bytes ∷ cs) s = take_calls cs (emits (data_received bytes) s)
  take_calls (erred message ∷ cs) s = take_calls cs (posts (failed message) s)

  unfoldable pub works : l.Step → Controller l → Controller l
  unfolding take_calls
  works w s = let (p, calls) = l.work w s.port in take_calls calls (record s { port = p })

  -- The function of `connectThread_`: up to the result of the open, and from there to its end.
  unfoldable pub opens : l.Schedule → Controller l → Controller l
  unfolding take_calls
  opens w s = elim s.thread [
    | idle ↦ s
    | started name baud ↦
        let (p, calls, r) = l.connect w name baud s.port in
        take_calls calls (record s { port = p; thread = reporting name r })
    | reporting name r ↦ s
  ]

  unfoldable pub reports : Controller l → Controller l
  unfolding posts
  reports s = elim s.thread [
    | idle ↦ s
    | started name baud ↦ s
    | reporting name r ↦ posts (opened name r) (record s { thread = idle })
  ]

  -- `connectThread_.join()` where it is joinable.
  unfoldable pub join : l.Schedule → Controller l → Controller l
  unfolding opens reports
  join w s = reports (opens w s)

  -- What follows in `disconnectPort` and in the error lambda, with the mutex.
  unfoldable pub shut : l.Schedule → Controller l → Controller l
  unfolding emits take_calls
  shut w s =
      let (p, calls) = l.close w s.port in
      let t = record (take_calls calls (record s { port = p })) {
        connected = false;
        connected_port = [];
      } in
      if s.connected then emits (connected_changed false) t else s

  -- One schedule for the join and one for the close.
  unfoldable pub disconnect_port : l.Schedule → l.Schedule → Controller l → Controller l
  unfolding join shut
  disconnect_port w w' s = shut w' (join w s)

  -- Whether the port is closed first and with which schedules its calls wait: for the close, and
  -- for the join. `disconnectPort` leaves no thread to join.
  unfoldable pub connect_port : l.Schedule → l.Schedule → Bytes → ℤ → Controller l → Controller l
  unfolding disconnect_port join
  connect_port w w' name baud s =
      let t = if s.connected then disconnect_port w w' s else s in
      record (join w t) { thread = started name baud }

  unfoldable pub send : Bytes → Controller l → Controller l × ℤ
  send text s =
      let (p, n) = l.write text s.port in
      if s.connected then (record s { port = p }, n) else (s, minus_one)

  -- The mutex is free once a thread that holds it has reported.
  unfoldable pub clear : Controller l → Controller l
  unfolding reports
  clear s = let t = reports s in if t.connected then record t { port = l.clear t.port } else t

  -- The two lambdas. The second waits for the mutex after its signal.
  unfoldable pub invoke : l.Schedule → Posted l → Controller l → Controller l
  unfolding emits shut reports
  invoke w (opened name r) s =
      if l.is_success r
      then emits (connected_changed true) (record s { connected = true; connected_port = name })
      else emits (failed_to_open name (l.failure r s.port)) s
  invoke w (failed message) s = shut w (reports (emits (error_occurred message) s))

  -- The event loop takes the oldest lambda.
  unfoldable pub dispatch : l.Schedule → Controller l → Controller l
  unfolding invoke
  dispatch w s = elim s.queue [ [] ↦ s | c ∷ cs ↦ invoke w c (record s { queue = cs }) ]

-- A step of one of the four threads: the worker, that of `connectPort`, Qt's event loop, or a call
-- from QML.
pub data Event (l : Link) : Type 0 where
  worker_steps : l.Step → Event l
  thread_opens : l.Schedule → Event l
  thread_reports : Event l
  loop_dispatches : l.Schedule → Event l
  calls_connect : l.Schedule → l.Schedule → Bytes → ℤ → Event l
  calls_disconnect : l.Schedule → l.Schedule → Event l
  calls_send : Bytes → Event l
  calls_clear : Event l

module _ {l : Link} where
  unfoldable pub step : Event l → Controller l → Controller l
  step (worker_steps w) s = works w s
  step (thread_opens w) s = opens w s
  step thread_reports s = reports s
  step (loop_dispatches w) s = dispatch w s
  step (calls_connect w w' name baud) s = connect_port w w' name baud s
  step (calls_disconnect w w') s = disconnect_port w w' s
  step (calls_send text) s = (send text s).0
  step calls_clear s = clear s

  unfoldable pub run : List (Event l) → Controller l → Controller l
  run [] s = s
  run (e ∷ es) s = run es (step e s)
