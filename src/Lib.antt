-- ===== src/Lib.antt =====
-- A serial-port library in C++ with a C interface: a verification of its core on Linux, of its
-- Android backend, of its enumeration of ports on Windows, and of the controllers of its Qt
-- examples.
--
-- Parts. `SerialPort` (src/SerialPort.cpp) is a facade that keeps the settings and the user's
-- callbacks, and passes every call on to a `SerialBackend` (src/detail/SerialBackend.hpp). On
-- the desktop that is `AsioBackend` (src/detail/AsioBackend.cpp): a `boost::asio` serial port,
-- an `io_context` with one worker thread, a read loop that fills a `ReadBuffer`
-- (src/detail/ReadBuffer.hpp), and writes that are queued. On Android it is `AndroidBackend`
-- (src/detail/AndroidBackend.cpp), which calls a Java bridge through JNI and is called by it,
-- from the thread of its reader, with a handle that a registry of the process maps to the
-- object. The C interface (src/CAbi.cpp, include/cps/cps.h) wraps a `SerialPort` in a handle.
-- Apart from these, `SerialPortInfo` (src/SerialPortInfo.cpp) lists the ports that
-- src/detail/PortEnumerator.cpp finds in sysfs or through SetupAPI.
--
-- The Qt examples use the library from four threads. `SerialController`
-- (examples/qt_serial/serialcontroller.cpp) holds a `SerialPort`, and `CabiController`
-- (examples/qt_serial_cabi/cabicontroller.cpp) a handle of the C interface; they open it on a
-- thread of their own, are called back on the worker thread of the library, and hand results and
-- errors to the GUI thread as queued lambdas. Their list models (portlistmodel.cpp,
-- portlistmodel_cabi.cpp) show the ports.
--
-- Files.
--   Common, Common/*     bytes, lists, Boolean tests, 64-bit integers
--   Types                include/cps/SerialTypes.hpp: the enumerations and their integers
--   ReadBuffer           src/detail/ReadBuffer.hpp; ReadBuffer/Fifo reasons about it
--   Device               what is called of boost::asio and <termios.h>, as a parameter
--   Backend              src/detail/SerialBackend.hpp and the contract of a backend
--   Asio/State           the members of `AsioBackend`, `isOpen`, errors, notifications
--   Asio/Config          `applyConfig`, `applyNativeTimeouts` and the setters
--   Asio/Io              `doRead`, `write`, their handlers, `read`, `flush`, `clear`
--   Asio/Lifecycle       `open` and `close`
--   Asio/Run             sequences of calls and handlers
--   Asio/Windows         the branches of `mapError`, `applyNativeTimeouts`, `flush` and `clear`
--                        on Windows
--   Asio/*               the other files there are proofs, named for what they prove
--   Android/Jvm          what is called of JNI, the Java bridge and the files, as a parameter
--   Android/Globals      the globals of the process, the registry and `JniThread`
--   Android/State        the members of `AndroidBackend` and the functions that Java calls
--   Android/Calls, Run   its methods, and sequences of them and of calls from Java
--   Android/Bridge       `ensureDir`, `loadBridge`, `androidInit`, `JNI_OnLoad`
--   Android/Enumerate    `enumeratePorts` there
--   Android/*            the other files there are proofs, named for what they prove
--   SerialPort           src/SerialPort.cpp; SerialPort/Contract reasons about it
--   SerialPort/Objects   its special members, on a store of objects with addresses;
--                        SerialPort/Moved reasons about it
--   CAbi, CAbi/Enums     src/CAbi.cpp and include/cps/cps.h; CAbi/Laws and CAbi/Silent are proofs
--   CAbi/Paired          the CPS_ENUM_CHECK lines of src/CAbi.cpp, against the casts
--   CAbi/Client          what a C program does with a handle over the desktop backend;
--                        CAbi/Synced and CAbi/Delivered reason about it
--   CAbi/Ports           the port array there, on a heap; CAbi/Freed reasons about it
--   PortInfo             src/SerialPortInfo.cpp
--   PortInfo/Names, Hex, Enumerator
--                        src/detail/PortEnumerator.cpp on Linux; Upwards, Depth and
--                        Sorted reason about it
--   PortInfo/Windows     the same file on Windows; Com and HardwareId reason about it
--   Qt/Link              what a controller uses of the library: an interface with laws
--   Qt/Gui               the controllers over a link: `connectPort`, its thread, its lambda,
--                        `disconnectPort`, `send`, `clear`, the event loop, and sequences of them
--   Qt/Desktop           the desktop backend with callbacks that run on its worker thread
--   Qt/Serial, Handle    `SerialController` and `CabiController` over it, which fill the link
--   Qt/Protocol          the abstract view of a controller; Qt/Protocol/* reason about it, and
--                        Qt/Refines, Steps, Told, Settled and Races about the controllers with it
--   Qt/Notified, Heard, Shown, SerialShown, HandleShown
--                        the bytes that the controllers show
--   Qt/Rows, CText       the list models; Qt/Refreshed reasons about them
--   Tests/*              a simulated line, machine and file system, runs of the code on them, and
--                        the theorems applied there
--
-- State. An object is a record of its members, and a method returns the new record beside its
-- result. The queue of the `io_context` is the list `pending` of handlers that asio has not called
-- yet: reads, posted functions, and writes with the buffer they hold. `work` takes any one of them
-- and calls it with any error code and data, so every order in which asio may complete them is
-- covered. What was told to the user is the list `notices`.
--
-- Interleaving. A call and a handler are one step each: the code guards the buffer by a mutex and
-- the other shared members are atomics or are written by one thread. `close` waits for the worker
-- and takes the handlers that run before the join as an argument, any finite list. Nothing needs
-- fuel: every loop is over a list, but for the upward search in sysfs, which the code itself ends
-- after ten rounds.
--
-- On Android the calls of the Java bridge are steps too. `open` and `close` take those that come
-- in while they run as lists: in `open`, from the Java call to the registration; in `close`, from
-- the exchange of the flag to the removal from the registry. A call of a `std::function` member
-- is taken to be one step with what precedes it.
--
-- In the Qt examples a step belongs to one of the four threads: the worker, the thread of
-- `connectPort`, the event loop, a call from QML. The thread of `connectPort` has two steps, up to
-- the result of its open and from there to its end, and holds the mutex in between; a call that
-- waits for it or for the mutex runs what is left of it first. A close or an open of the port takes
-- the handlers that the worker runs meanwhile, with their callbacks, as a list. The event loop
-- takes the queued lambdas in order. A QString is its UTF-8 text, and the time and the wording
-- around the bytes and the messages are left out. The model keeps of the two controllers what they
-- share once, in Qt/Gui; its lines are those of `SerialController`, and `CabiController` differs
-- only in what its link does.
--
-- Numbers. A `std::size_t` is a natural number below 2 ^ 64; a `std::int64_t` counter is its 64-bit
-- pattern and is read as a signed number; `long` has 64 bits. The error codes, the `tcflush`
-- selectors and CMSPAR are those of Linux, but for Asio/Windows.
--
-- Parameters. `Device` has the serial port of asio and the terminal calls: opening, cancelling,
-- closing, options, tcgetattr, tcsetattr, tcdrain, tcflush. `IsDevice` says what they do to the
-- openness of the port, `HasTermios` that settings are read back as they were set, and
-- `KeepsMarkSpace` that the options of asio leave CMSPAR alone, since asio sets only PARENB, PARODD
-- and IGNPAR or INPCK for parity. `Files` has what the enumeration asks of the file system, with
-- nothing assumed of it. Tests/Simulated is a device with all that is assumed.
--
-- `Jvm` has the state of the machine and the answers of JNI, of the Java methods and of the file
-- calls; `IsJvm` says that a cleared exception is gone and that detaching a thread raises none.
-- Local references and the log are left out, and so are the calls that only find a class or a
-- method where the code does not test their result. `Setup` has what SetupAPI answers and the
-- conversion to UTF-8, with nothing assumed, and `Comm` the serial calls of Windows, of which
-- `HasPurge` says what PURGE_RXABORT does to the read that waits. `MovedFrom` says what the standard
-- library leaves in a string or function that was moved from; nothing is assumed of it. `Link` is no parameter of the program: Qt/Serial and Qt/Handle are its two
-- instances, with proofs of `IsLink` from `IsDevice`. That a read delivers at most 4096 bytes is
-- what asio says of `async_read_some` into `readScratch_`.
--
-- Not modelled: a whole `AsioBackend` on Windows, of which only the branches that differ are;
-- the Java bridge; several Android backends that call each other's steps; the stubs off Android;
-- 2 ^ 31 ports or more; an integer outside an enumeration that is cast to it; allocation failure
-- in C++; the destructors of the Qt controllers, the controllers over the Android backend, the main
-- functions and QML of the Qt examples, the other examples, which only call and print, and the
-- build files.
pub mod Common
pub mod Types
pub mod ReadBuffer
pub mod Device
pub mod Asio
pub mod Backend
pub mod SerialPort
pub mod PortInfo
pub mod CAbi
pub mod Android
pub mod Qt
mod Tests
