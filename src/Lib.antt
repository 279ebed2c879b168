-- ===== src/Lib.antt =====
-- Grbl_ESP32, a CNC controller firmware (Grbl_Esp32/src): the path from received bytes to the
-- realtime state machine.
--
-- How the parts interact. A task takes bytes from the serial port and the network interfaces
-- (Clients.antt, Serial.cpp). Realtime characters act at once on the flags and overrides of the
-- system (Serial.antt, Serial.cpp with mc_reset of MotionControl.cpp); all other bytes go into the
-- client's receive ring (InputBuffer.antt, WebUI/InputBuffer.cpp). The main loop reads the ring,
-- collects lines and hands them to the command or the G-code interpreter (Line.antt, Protocol.cpp),
-- and at each check point runs protocol_exec_rt_system, which turns the pending flags into changes
-- of the machine's state (Protocol.antt with Protocol/Hold.antt and Protocol/Cycle.antt,
-- Protocol.cpp). While the machine is suspended, protocol_exec_rt_suspend parks it, switches
-- spindle and coolant off and on again and waits (Suspend.antt and Suspend/Loop.antt, Protocol.cpp with mc_parking_motion of
-- MotionControl.cpp and delay_msec of NutsBolts.cpp). System.antt has the state record and its flags (System.h, Exec.h), Errors.antt the
-- error codes (Error.h), Regex.antt the matcher for setting names (Regex.cpp).
--
-- A G-code line goes through gc_execute_line (GCode.antt, GCode.cpp): comments are removed
-- (GCode/Collapse.antt), and each word, a letter with a number (GCode/Number.antt, NutsBolts.cpp), is
-- checked and put into the block (GCode/GWords.antt, GCode/MWords.antt, GCode/ValueWords.antt and
-- GCode/Parse.antt).
--
-- The planner makes a block of each line (Planner/Line.antt, Planner.cpp and NutsBolts.cpp), keeps the
-- blocks in a ring, looks ahead over it and plans it anew under an override (Planner.antt,
-- Planner/Recalculate.antt and Planner/Profiles.antt, Planner.cpp). The step generator takes the motions in segments from a
-- second ring and makes the steps (Stepper.antt, Stepper.cpp and Probe.cpp); st_prep_buffer fills that
-- ring from the planner's blocks (Stepper/Prepare.antt with Stepper/Prepare/Profile.antt, the velocity
-- profile of a block, Stepper/Prepare/Ramp.antt, the distance of a segment, and
-- Stepper/Prepare/Fill.antt, the segment and the loop), and Stepper/Prepare/Parking.antt puts a block
-- aside for a parking motion.
--
-- How state and operations correspond. The globals `sys`, `sys_rt_...` and `cycle_stop` are one
-- record, System; each function of the source is a definition of the same name in snake_case that
-- takes the record and returns the new one, with the state of the other components beside it in a
-- type W. The calls on those components are the fields of the record Subsystems (Subsystems.antt),
-- which a section takes as a parameter; Subsystems/Trace.antt is an instance that logs the calls,
-- for the examples. PrepKeeps states which fields of the system the segment generator writes. A
-- long function is split along its own blocks, one definition for each. C bit fields are records of
-- Bool; a uint8_t that can wrap is written with `% 2 ^ 8`. The parser's numbers are floats: a type F
-- with the operations of the record FloatOps (GCode.antt), so that what is proved holds for any
-- arithmetic; the planner's are a type with SpeedOps (Planner/Recalculate.antt), of whose order it is
-- used that it is irreflexive and transitive; those of st_prep_buffer a type with MotionOps
-- (Stepper/Prepare.antt), where a double is not told apart from a float, and Counts
-- (Stepper/Prepare/Fill/Counts.antt) states what the count of steps relies on. What the
-- build and the machine give is the record Board.
--
-- Bounds and fuel. The busy wait on a critical alarm runs over a list of interrupts, one for each
-- round, and gives `none` while the list holds no reset. client_check has fuel, one unit for each
-- byte; as much fuel as there are waiting bytes is enough. The word loop has fuel 257, one unit for
-- each byte of a line of less than 256 bytes and one more. What the line buffer holds behind a collapsed
-- line is an argument of gc_parse_line, since a short line that begins with `$` is parsed from there. The passes of the planner have fuel 16, a
-- unit for each place of its ring; the scaling of a number has 64 rounds, which take any int8_t
-- exponent to zero. st_prep_buffer has fuel 6 for its loop, a round for each place of the segment
-- ring, which is enough, and fuel for the ramps of one segment; where the ramps need more, which
-- depends on the arithmetic, its outcome is ramps_on. All other loops are structural.
--
-- The suspend loop runs over a list of what its rounds read and a list of the runs of
-- protocol_exec_rt_system in it, each an arbitrary function on the system that gives its calls on spindle
-- and coolant too, and waits where these end.
--
-- Concurrency. A pass of the state machine and the handling of one byte are atomic steps; an
-- interrupt acts between them, or in a round of the busy wait. A run of the step interrupt is one
-- atomic step; what it reads from other tasks is an argument of the run (Inputs).
--
-- Configuration. PARKING_ENABLE is defined and DEBUG is not; all client interfaces and the SD card
-- are compiled in (an interface that is not has no bytes); the coolant pins are parameters; the
-- stepper stream over I2S is left out.
--
-- Not modelled: the checks of a whole G-code block and its execution; the settings and $-commands;
-- the homing cycles, arcs and jogs; the drivers, the network interfaces and the reports, which are pin
-- access, library calls and formatting.
pub mod Base
pub mod Regex
pub mod InputBuffer
pub mod Suspend
pub mod System
pub mod Subsystems
pub mod Serial
pub mod Clients
pub mod Errors
pub mod Line
pub mod Protocol
pub mod GCode
pub mod Planner
pub mod Stepper
