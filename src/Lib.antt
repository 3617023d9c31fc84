-- ===== src/Lib.antt =====
-- OpenSprinkler: the firmware of an irrigation controller, in its build for Linux (Raspberry Pi).
-- Once a second the main loop (`do_loop` in firmware/main.cpp) looks at rain, starts the programs
-- whose time has come, gives start times to the queued stations, turns stations on and off and moves
-- the station bits to the valves. Requests over the network (firmware/server.cpp) change settings
-- and programs, and queue or stop stations, in the same state.
--
-- Files, and the code that they model:
--   Common       shared names, Boolean tests, arrays as functions, bits of a byte, signed integers.
--   WaterTime    firmware/utils.cpp: `water_time_...`.
--   Runtime      firmware/program.cpp: the queue (`reset_runtime`, `enqueue`, `dequeue`) and the links
--                `station_qid`. Links: consistency. Removal: the queue as a list up to order. Bounds: the
--                indices into the arrays.
--   Program      firmware/program.cpp: `ProgramStruct`, whether a program starts at a given minute.
--                Days, Match: which minutes these are. Faults: the divisions in it.
--   Controller   firmware/OpenSprinkler.h, OpenSprinkler.cpp: the state that the firmware keeps in
--                static members, as one record; the log and the events that it emits are lists.
--                Stations: station bits and shift registers. Settings: options, rain delay, sensors.
--                Programs: the store of programs (firmware/program.cpp: `add`, `del`, ...); Listing and
--                Refinement: the list of programs that the store stands for.
--                OptionIndex: the option numbers of firmware/defines.h.
--   Scheduler    firmware/main.cpp: `schedule_all_stations`, `turn_off_station`,
--                `process_dynamic_events`, the resets, `manual_start_program`.
--   MainLoop     firmware/main.cpp: `do_loop`, part by part (Minute: the start of programs).
--   Http         firmware/server.cpp: the text of a request (`findKeyVal`, `urlDecode`, ...). Sizes: the
--                buffers that values are copied to.
--   Server       firmware/server.cpp: the handlers that change state, and `handle_web_request`.
--   Json         firmware/server.cpp: the pages that print the state. Numbers, Programs, Reading,
--                Roundtrip: a program as numbers, and read again. Pages, Remaining, Options, Joined: the
--                other pages. Log, Records, LogPage, LogRange: the page of the log.
--   Weather      firmware/weather.cpp, and `check_weather` and the flow count of firmware/main.cpp.
--   System       the parts together: the steps that change the state (a second of `do_loop`, a request,
--                the periodic work, an answer of the weather service) and the states that they reach.
--                Kept, Queueing, Sensors, Starting, Second, Requests, Settings, Programs, Options: what
--                each operation keeps. Safety: reachable states. Slots, Idle, Quiet: the second in which
--                the last station stops. Total: seconds that come to their end.
--   Special      firmware/OpenSprinkler.cpp: what remote, HTTP and GPIO stations are sent. Scan, Remote,
--                Answer: the request for a remote station as the other controller reads it.
--   Message      firmware/main.cpp: the text of a push message (`push_message`).
--   Setup        firmware/main.cpp: `do_setup`, with `begin` and `options_setup` of
--                firmware/OpenSprinkler.cpp. Kept, Closed, Safe: the state that the controller starts
--                with.
--   ... Tests    runs, and instances of the theorems at concrete inputs.
--
-- Conventions. `int` and `ulong` have 32 bits; sums of `ulong` are taken modulo 2^32, a `uint16_t`
-- modulo 2^16 and a `byte` modulo 2^8 where the source stores one. An array is a function of the
-- index. A loop over a fixed range is `replay n body`, which runs the body at 0, ..., n - 1; a search in
-- a text recurs on the text. Two loops take fuel: the digits of a number n that is printed, n + 1, which
-- is enough, since each step divides by ten (the numbers are read back as they were), and the loop over
-- the days of the log, for which 367 rounds are enough unless it does not end at all. A handler returns
-- the state and the result code. A division that faults is `none` (`divided_by`, `remainder_by`), and so
-- is then the second in which it does. `queue i` behind the array, and `buffer_rest` behind a value
-- in a buffer (by the name of the value, `[]` for a whole request), stand for what lies in memory there;
-- the latter may change at any time. `gmtime` of the C
-- library, the value of the sensor's pin, the text that the weather service sends, and for the pages
-- the contents of two files, the type of the hardware and the boards that are detected are parameters,
-- as are the version of the hardware and whether the network could be started. A page is the text that
-- is printed; the page of the log has no text if the loop over its days does not end.
--
-- Not modelled: the display, buttons and the network stack of the Arduino build; the pulses to RF
-- stations, the connections to other hosts, the text of the request for the weather; the headers of an
-- answer and the packets that a long page is cut into; the flow rate, a floating-point number, in the
-- state and on the pages (the log's lines are printed without it); the pins and the detection of the
-- hardware at the start.
pub mod Common
pub mod WaterTime
pub mod Runtime
pub mod Program
pub mod Controller
pub mod Scheduler
pub mod MainLoop
pub mod Http
pub mod Server
pub mod Weather
pub mod Json
pub mod System
pub mod Setup
pub mod Special
pub mod Message
