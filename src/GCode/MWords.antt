-- ===== src/GCode/MWords.antt =====
-- GCode.cpp (Grbl_Esp32/src): `case 'M'` in the word loop of `gc_execute_line`.
use grbl_esp.Base.{ℕ, ◌&&◌, ◌||◌, ltb, leb, ◌==◌, if◌then◌else◌}
use grbl_esp.Errors.{Error}
use grbl_esp.GCode.{
  ModalGroup, ProgramFlow, SpindleState, GCodeCoolant, ToolChange, IoControl, AxisCommand, Block,
  Board, Result, ok, fail,
}
use grbl_esp.GCode.GWords.{Command}

module _ {F : Type 0} where
  abbrev with_flow : ProgramFlow → Block F → Block F
  with_flow m b = record b { modal = record b.modal { program_flow = m } }

  abbrev with_spindle : SpindleState → Block F → Block F
  with_spindle m b = record b { modal = record b.modal { spindle = m } }

  abbrev with_io : IoControl → Block F → Block F
  with_io m b = record b { modal = record b.modal { io_control = m } }

  abbrev command : AxisCommand → Block F → ModalGroup → Result (Command F)
  command axis b g = ok (record { block = b; axis_command = axis; mantissa = 0; group = g })

  -- M7, M8 and M9; a coolant without a pin is accepted and ignored
  unfoldable pub coolant_word : Board → ℕ → Block F → Block F
  coolant_word board v b =
      if v == 7
      then if board.has_mist_pin then record b { coolant = GCodeCoolant.m7 } else b
      else if v == 8
      then if board.has_flood_pin then record b { coolant = GCodeCoolant.m8 } else b
      else record b { coolant = GCodeCoolant.m9 }

  -- the switch of `case 'M'`, by the value of the word
  unfoldable pub m_switch : Board → ℕ → AxisCommand → Block F → Result (Command F)
  unfolding coolant_word
  m_switch board v axis b =
      if v == 0
      then command axis (with_flow ProgramFlow.paused b) ModalGroup.mm4
      else if v == 1
      then command axis b ModalGroup.mm4
      else if v == 2
      then command axis (with_flow ProgramFlow.completed_m2 b) ModalGroup.mm4
      else if v == 30
      then command axis (with_flow ProgramFlow.completed_m30 b) ModalGroup.mm4
      else if v == 3
      then command axis (with_spindle SpindleState.cw b) ModalGroup.mm7
      else if v == 4
      then if board.allows_m4
        then command axis (with_spindle SpindleState.ccw b) ModalGroup.mm7
        else fail Error.gcode_unsupported_command
      else if v == 5
      then command axis (with_spindle SpindleState.disable b) ModalGroup.mm7
      else if v == 6
      then command axis
          (record b { modal = record b.modal { tool_change = ToolChange.tool_enable } })
          ModalGroup.mm6
      else if v == 7 || v == 8 || v == 9
      then command axis (coolant_word board v b) ModalGroup.mm8
      else if v == 62
      then command axis (with_io IoControl.digital_on_sync b) ModalGroup.mm10
      else if v == 63
      then command axis (with_io IoControl.digital_off_sync b) ModalGroup.mm10
      else if v == 64
      then command axis (with_io IoControl.digital_on_immediate b) ModalGroup.mm10
      else if v == 65
      then command axis (with_io IoControl.digital_off_immediate b) ModalGroup.mm10
      else if v == 67
      then command axis (with_io IoControl.set_analog_sync b) ModalGroup.mm10
      else if v == 68
      then command axis (with_io IoControl.set_analog_immediate b) ModalGroup.mm10
      else if board.has_paper_feed_pin && leb 100 v && leb v 102
      then command axis (record b { paper_feed_cmd = v }) ModalGroup.mm11
      else if board.has_servo_pin && leb 103 v && leb v 108
      then command axis (record b { servo_cmd = v }) ModalGroup.mm12
      else fail Error.gcode_unsupported_command

  -- there is no M word with a mantissa
  unfoldable pub m_word : Board → ℕ → Block F → AxisCommand → ℕ → Result (Command F)
  unfolding m_switch
  m_word board v b axis mantissa =
      if ltb 0 mantissa then fail Error.gcode_command_value_not_integer else m_switch board v axis b
