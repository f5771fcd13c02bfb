-- ===== src/Device.antt =====
-- What src/detail/AsioBackend.cpp uses of boost::asio's `serial_port` and of the POSIX terminal
-- calls on its handle: an interface whose operations are parameters of the model, and the
-- documented behaviour that the code relies on as laws.
use cross_plaform_serial.Common.{ℕ, Bytes, Bool, true, false, ◌≡◌, ◌≢◌, Option, some}

-- `boost::system::error_code`, by its value: 0 is success.
abbrev pub ErrorCode : Type 0
ErrorCode = ℕ

-- The enumerators of asio's options that the code names.
pub data AsioParity : Type 0 where
  none even odd : AsioParity

pub data AsioStopBits : Type 0 where
  one onepointfive two : AsioStopBits

pub data AsioFlowControl : Type 0 where
  none hardware software : AsioFlowControl

-- An argument of `serial_port::set_option`.
pub data PortOption : Type 0 where
  baud_rate : ℕ → PortOption
  character_size : ℕ → PortOption
  parity : AsioParity → PortOption
  stop_bits : AsioStopBits → PortOption
  flow_control : AsioFlowControl → PortOption

-- `struct termios`, by the flags and control characters that the code writes.
pub record Termios : Type 0 where
  pub ignbrk : Bool
  pub brkint : Bool
  pub parmrk : Bool
  pub istrip : Bool
  pub inlcr : Bool
  pub igncr : Bool
  pub icrnl : Bool
  pub ixon : Bool
  pub ixoff : Bool
  pub ixany : Bool
  pub echo : Bool
  pub echonl : Bool
  pub icanon : Bool
  pub isig : Bool
  pub iexten : Bool
  pub opost : Bool
  pub parenb : Bool
  pub parodd : Bool
  pub cmspar : Bool
  pub vmin : ℕ
  pub vtime : ℕ
  -- every other bit of the structure
  pub others : ℕ

-- A `Port` is a `serial_port` with the line that it drives. `tcgetattr` is `none` when the call
-- fails; `tcdrain` and `tcflush` say whether they returned 0.
pub record Device : Type 1 where
  pub Port : Type 0
  pub make : Port
  pub is_open : Port → Bool
  pub open_port : Bytes → Port → ErrorCode × Port
  pub cancel : Port → Port
  pub close : Port → Port
  pub set_option : PortOption → Port → ErrorCode × Port
  pub tcgetattr : Port → Option Termios
  pub tcsetattr : Termios → Port → Port
  pub tcdrain : Port → Bool × Port
  pub tcflush : ℕ → Port → Bool × Port

-- A port is open from a successful open to the close, whatever is called on it in between.
pub record IsDevice (d : Device) : Type 0 where
  pub make_closed : d.is_open d.make ≡ false
  pub open_success :
      (name : Bytes) (p : d.Port)
      → (d.open_port name p).0 ≡ 0
      → d.is_open (d.open_port name p).1 ≡ true
  pub open_failure :
      (name : Bytes) (p : d.Port)
      → (d.open_port name p).0 ≢ 0
      → d.is_open p ≡ false
      → d.is_open (d.open_port name p).1 ≡ false
  pub close_closed : (p : d.Port) → d.is_open (d.close p) ≡ false
  pub cancel_open : (p : d.Port) → d.is_open (d.cancel p) ≡ d.is_open p
  pub set_option_open : (o : PortOption) (p : d.Port) → d.is_open (d.set_option o p).1 ≡ d.is_open p
  pub tcsetattr_open : (t : Termios) (p : d.Port) → d.is_open (d.tcsetattr t p) ≡ d.is_open p
  pub tcdrain_open : (p : d.Port) → d.is_open (d.tcdrain p).1 ≡ d.is_open p
  pub tcflush_open : (q : ℕ) (p : d.Port) → d.is_open (d.tcflush q p).1 ≡ d.is_open p

-- The settings of an open line can be read, and what was set with `tcsetattr` is what is read.
pub record HasTermios (d : Device) : Type 0 where
  pub readable : (p : d.Port) → d.is_open p ≡ true → (t : Termios) × (d.tcgetattr p ≡ some t)
  pub get_set :
      (t : Termios) (p : d.Port) → d.is_open p ≡ true → d.tcgetattr (d.tcsetattr t p) ≡ some t

-- asio has no mark and no space parity: its options leave CMSPAR as it is.
pub record KeepsMarkSpace (d : Device) : Type 0 where
  pub cmspar_kept :
      (o : PortOption) (p : d.Port) (t : Termios)
      → d.tcgetattr p ≡ some t
      → (t' : Termios) × (d.tcgetattr (d.set_option o p).1 ≡ some t') × (t'.cmspar ≡ t.cmspar)
