-- ===== src/Qt/Link.antt =====
-- What the controllers of the Qt examples use of the library: an interface that the C++ and the C
-- controller fill in, so that what they do on the GUI thread is written once.
use Prim.Native.String.{String}
use cross_plaform_serial.Common.{false, ℤ, Bytes, Bool, List, ◌≡◌}

-- What a callback on the worker thread hands to the GUI thread: the signal `dataReceived`, with its
-- bytes, or the message of an error, in a queued invocation.
pub data Call : Type 0 where
  received : Bytes → Call
  erred : String → Call

-- A `Port` is the member `port_`. `work` is a step of the library's worker thread, with the
-- callbacks that it makes. A `Schedule` is the steps that the worker takes inside a call that waits
-- for it. `connect` is what the thread of `connectPort` does up to the result of the open.
-- `failure` is the message for a failed one, made when the port is as given.
pub record Link : Type 1 where
  pub Port : Type 0
  pub Step : Type 0
  pub Schedule : Type 0
  pub Result : Type 0
  pub is_open : Port → Bool
  pub work : Step → Port → Port × List Call
  pub connect : Schedule → Bytes → ℤ → Port → Port × List Call × Result
  pub is_success : Result → Bool
  pub failure : Result → Port → String
  pub close : Schedule → Port → Port × List Call
  pub write : Bytes → Port → Port × ℤ
  pub clear : Port → Port

-- Only `connect` and `close` open and close the port; the result says whether it is open.
pub record IsLink (l : Link) : Type 0 where
  pub work_open : (w : l.Step) (p : l.Port) → l.is_open (l.work w p).0 ≡ l.is_open p
  pub connect_outcome :
      (w : l.Schedule) (name : Bytes) (baud : ℤ) (p : l.Port)
      → let (q, _, r) = l.connect w name baud p in l.is_open q ≡ l.is_success r
  pub close_closed : (w : l.Schedule) (p : l.Port) → l.is_open (l.close w p).0 ≡ false
  pub write_open : (bytes : Bytes) (p : l.Port) → l.is_open (l.write bytes p).0 ≡ l.is_open p
  pub clear_open : (p : l.Port) → l.is_open (l.clear p) ≡ l.is_open p
