-- ===== src/Lib.antt =====
-- Verification of airies-ups, a daemon that watches an uninterruptible power supply, reports what
-- it sees, shuts dependent hosts down when the battery runs out, and holds a register of the UPS
-- while the weather is severe.
--
-- The parts and how they interact. The UPS layer (src/ups) talks to a device through a driver and
-- gives a snapshot, `ups_data_t`; its recovery layer (src/ups/ups.c) closes and reopens the
-- transport around the driver's failures. The monitor (src/monitor) polls it: a fast loop reads
-- the status word and the transfer reason every 200 ms and reports changes of the power bits, a
-- slow loop reads the whole snapshot, detects the other transitions, fires events and calls the
-- alert engine (src/alerts) and the shutdown trigger (src/shutdown) at every poll.
--
-- The files. Base holds shared notation, lists over native numbers (Base/Lists), bit masks
-- (Base/Bits, where `has w mask` is C's `(w & mask) != 0`), signed integers (Base/Int), printed
-- texts (Base/Text) and the interface to doubles (Base/Double). Ups/Flags has the masks of
-- src/ups/ups.h, Ups/Data the snapshot, Ups/Format the tables and decoders of
-- src/ups/ups_format.c, Ups/Connection the recovery and read dispatch of src/ups/ups.c,
-- Ups/Connection/Write its validated write, and Ups/Connect its search for a driver and its choice
-- of commands and registers. Ups/Registers has the register descriptors of src/ups/ups_driver.h
-- and their search by name, Ups/Smt/Table and Ups/Srt/Table the tables of src/ups/ups_smt.c and
-- src/ups/ups_srt.c with the options in Ups/Smt/Options and Ups/Srt/Options, Ups/Blocks the reads
-- of their status and measurements, Ups/Exchange their other reads, writes and commands. Ups/Smt
-- is the choice of descriptors in src/ups/ups_smt.c, Ups/RegisterText its decoding of texts and
-- its detection, Ups/Modbus the pacing of src/ups/ups_modbus.c. Ups/Pdc is the status of a HID
-- power device and Ups/Pdc/Settings its commands and settings, both of src/ups/hid_pdc_core.c.
-- Ups/Hid is the report descriptor parser of src/ups/hid_parser.c, Ups/Hid/Find and Ups/Hid/Value
-- its search for a field and its reading of one. Monitor/XferRing is src/monitor/xfer_ring.c,
-- Monitor/FastLoop one tick of src/monitor/fast_loop.c, Monitor/SlowPoll one round of the poll
-- loop of src/monitor/monitor.c, Monitor/Events the events both fire. Alerts is
-- src/alerts/alerts.c. Shutdown/Trigger is `shutdown_check_trigger` of src/shutdown/shutdown.c,
-- Shutdown/Async the asynchronous manager of that file, its locked sections as functions and, in
-- Shutdown/Async/Steps, all threads as a step relation. Shutdown/Targets is the action on one
-- target, the waits and the execution of a group, and Shutdown/Workflow the three phases of a run
-- around it. Weather is the poll cycle of src/weather/weather.c, which sets and clears the
-- monitor's inhibit, and Weather/Checks its checks of alerts and forecast. Sse is src/api/sse.c,
-- whose streams carry the monitor's events and the status to the browsers. Auth is the sessions,
-- the password and the request check of src/api/auth.c. Http is the request handler of
-- src/api/server.c, Http/Routes its methods and routes, Http/Routes/Table the routes that
-- src/api/routes registers, Http/Files its static files, Http/Cookies its Set-Cookie texts.
-- Http/Settings is the handler of src/api/routes/config.c that sets a register, Http/Login the
-- password and session handlers of src/api/routes/auth_routes.c, Http/Commands and Http/StatusPage
-- the command handler and the status document of src/api/routes/routes.c. Each of these has its
-- theorems in a folder of its name; a module Laws, Contents, Cause, Transitions, Levels, Recovery,
-- Debounce, Report, Decode, Search, Dispatch, Packing, Total, Suffix, Bits, Aligned, Waits, Rows,
-- Harmless, Actions, Steps, Summary, Cycles, Joined, Access, Sessions, Revocation, Stream, Intact,
-- Slots, Decoded, Gap, Status, Verified, Words, First, Reached, Inside, Parsed, Guarded,
-- Strangers, Uploads, Written, Checked, Snapshot, Run, Page, Naming, Usages or Present proves and
-- models nothing of its own. Tests holds runs on concrete inputs. A function keeps its C name,
-- less the module's prefix where the module carries it; `ups_read` stands for the three read
-- functions with the same body.
--
-- Conventions. A machine word is a native number, its wrap-around written out where it can occur;
-- `int` is a signed integer without bound, and an `int` counter that only rises is a number. A
-- struct that is changed in place is a record that the function returns. The clock, the database
-- and the driver's answers are arguments. A `double` is a value of an abstract type with the
-- comparisons, sums and differences that the code makes (Base.Double), so NaN is among the values
-- and no law is assumed. Loops over arrays recur on the list or on the rounds left, so no fuel is
-- needed. The descriptor parser has one round more than there are bytes, since an item takes a
-- byte at least, and the waits for hosts and children take the number of rounds as an argument;
-- `none` stands for a loop that has not ended, and theorems say from how many rounds on it does;
-- the threads' endless loops are modelled a round at a time.
--
-- Not modelled. The messages of events (severity, category, title and the reason suffix are kept),
-- logging, SQL, the locks around each step, the per-poll callbacks and the daily job of the slow
-- loop, and the parts of the repository that no file above names: the drivers' transports, the
-- tables and readings of the HID drivers, and the command line. Of the HTTP server libmicrohttpd,
-- the sockets, the queueing of responses and the handlers of src/api/routes that no file above
-- names are left out. Of the weather control the requests, the parsing of their answers and the
-- JSON it prints are left out, of the authentication the hashing.
pub mod Base
pub mod Ups
pub mod Monitor
pub mod Alerts
pub mod Shutdown
pub mod Weather
pub mod Auth
pub mod Sse
pub mod Http
pub mod Tests
