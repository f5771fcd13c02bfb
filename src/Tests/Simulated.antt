-- ===== src/Tests/Simulated.antt =====
-- A simulated serial line, which has every documented behaviour that the theorems assume.
use mathlib.Core.Option.{some-injective}
use cross_plaform_serial.Common.{
  ap, ◌∙◌, Bytes, Bool, true, false, [], ◌∷◌, ◌≡◌, refl, some, arith, zero, suc,
}
use cross_plaform_serial.Device.{
  Device, IsDevice, HasTermios, KeepsMarkSpace, Termios, PortOption, ErrorCode, baud_rate,
  character_size, parity, stop_bits, flow_control, AsioParity, even, odd,
}

pub record Line : Type 0 where
  pub opened : Bool
  -- whether the read that waits was aborted
  pub read_aborted : Bool
  pub tio : Termios

-- A line as a terminal has it: lines are edited, echoed and translated.
abbrev pub cooked : Termios
cooked = record {
  ignbrk = false;
  brkint = true;
  parmrk = false;
  istrip = false;
  inlcr = false;
  igncr = false;
  icrnl = true;
  ixon = true;
  ixoff = false;
  ixany = false;
  echo = true;
  echonl = false;
  icanon = true;
  isig = true;
  iexten = true;
  opost = true;
  parenb = false;
  parodd = false;
  cmspar = false;
  vmin = 1;
  vtime = 0;
  others = 7;
}

-- The empty name is not found.
abbrev open_line : Bytes → Line → ErrorCode × Line
open_line [] l = (2, l)
open_line (c ∷ name) l = (0, record l { opened = true })

-- A rate of 0 is refused with EINVAL; parity sets PARENB and PARODD.
abbrev set_line : PortOption → Line → ErrorCode × Line
set_line (baud_rate zero) l = (22, l)
set_line (baud_rate (suc n)) l = (0, l)
set_line (character_size n) l = (0, l)
set_line (parity AsioParity.none) l =
    (0, record l { tio = record (l.tio) { parenb = false; parodd = false } })
set_line (parity even) l = (0, record l { tio = record (l.tio) { parenb = true; parodd = false } })
set_line (parity odd) l = (0, record l { tio = record (l.tio) { parenb = true; parodd = true } })
set_line (stop_bits v) l = (0, l)
set_line (flow_control v) l = (0, l)

abbrev pub sim : Device
sim = record {
  Port = Line;
  make = record { opened = false; read_aborted = false; tio = cooked };
  is_open = λ l. l.opened;
  open_port = open_line;
  cancel = λ l. l;
  close = λ l. record l { opened = false };
  set_option = set_line;
  tcgetattr = λ l. some l.tio;
  tcsetattr = λ t l. record l { tio = t };
  tcdrain = λ l. (true, l);
  tcflush = λ q l. (true, l);
}

set_line-opened : (o : PortOption) (l : Line) → (set_line o l).1.opened ≡ l.opened
set_line-opened (baud_rate zero) l = refl
set_line-opened (baud_rate (suc n)) l = refl
set_line-opened (character_size n) l = refl
set_line-opened (parity AsioParity.none) l = refl
set_line-opened (parity even) l = refl
set_line-opened (parity odd) l = refl
set_line-opened (stop_bits v) l = refl
set_line-opened (flow_control v) l = refl

set_line-cmspar : (o : PortOption) (l : Line) → (set_line o l).1.tio.cmspar ≡ l.tio.cmspar
set_line-cmspar (baud_rate zero) l = refl
set_line-cmspar (baud_rate (suc n)) l = refl
set_line-cmspar (character_size n) l = refl
set_line-cmspar (parity AsioParity.none) l = refl
set_line-cmspar (parity even) l = refl
set_line-cmspar (parity odd) l = refl
set_line-cmspar (stop_bits v) l = refl
set_line-cmspar (flow_control v) l = refl

open_success_lem :
    (name : Bytes) (l : Line) → (open_line name l).0 ≡ 0 → (open_line name l).1.opened ≡ true
open_success_lem [] l e = absurd (omega arith)
open_success_lem (c ∷ name) l e = refl

open_failure_lem :
    (name : Bytes) (l : Line)
    → ((open_line name l).0 ≡ 0 → ⊥)
    → l.opened ≡ false
    → (open_line name l).1.opened ≡ false
open_failure_lem [] l e c = c
open_failure_lem (x ∷ name) l e c = absurd (e refl)

pub sim-IsDevice : IsDevice sim
sim-IsDevice = record {
  make_closed = refl;
  open_success = open_success_lem;
  open_failure = open_failure_lem;
  close_closed = λ l. refl;
  cancel_open = λ l. refl;
  set_option_open = set_line-opened;
  tcsetattr_open = λ t l. refl;
  tcdrain_open = λ l. refl;
  tcflush_open = λ q l. refl;
}

pub sim-HasTermios : HasTermios sim
sim-HasTermios = record { readable = λ l o. (l.tio, refl); get_set = λ t l o. refl }

pub sim-KeepsMarkSpace : KeepsMarkSpace sim
sim-KeepsMarkSpace = record {
  cmspar_kept = λ o l t e. (
    (set_line o l).1.tio,
    refl,
    set_line-cmspar o l ∙ ap (λ u. u.cmspar) (some-injective l.tio t e),
  );
}
