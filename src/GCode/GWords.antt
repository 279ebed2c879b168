-- ===== src/GCode/GWords.antt =====
-- GCode.cpp (Grbl_Esp32/src): `case 'G'` in the word loop of `gc_execute_line`.
use grbl_esp.Base.{ℕ, not, ◌||◌, Option, none, some, ltb, ◌==◌, if◌then◌else◌}
use grbl_esp.Errors.{Error}
use grbl_esp.GCode.{
  ModalGroup, NonModal, Motion, Plane, Distance, FeedRate, Units, ToolLengthOffset, CoordIndex,
  AxisCommand, has_axis_command, Block, Board, Result, ok, fail, bind,
}

-- What a command word leaves: the block, the axis command, what is left of the mantissa, and the
-- modal group of the word.
pub record Command (F : Type 0) : Type 0 where
  pub block : Block F
  pub axis_command : AxisCommand
  pub mantissa : ℕ
  pub group : ModalGroup

module _ {F : Type 0} where
  abbrev with_motion : Motion → Block F → Block F
  with_motion m b = record b { modal = record b.modal { motion = m } }

  abbrev with_plane : Plane → Block F → Block F
  with_plane m b = record b { modal = record b.modal { plane_select = m } }

  abbrev with_distance : Distance → Block F → Block F
  with_distance m b = record b { modal = record b.modal { distance = m } }

  abbrev with_feed_rate : FeedRate → Block F → Block F
  with_feed_rate m b = record b { modal = record b.modal { feed_rate = m } }

  abbrev with_units : Units → Block F → Block F
  with_units m b = record b { modal = record b.modal { units = m } }

  abbrev with_tool_length : ToolLengthOffset → Block F → Block F
  with_tool_length m b = record b { modal = record b.modal { tool_length = m } }

  abbrev with_coord : CoordIndex → Block F → Block F
  with_coord m b = record b { modal = record b.modal { coord_select = m } }

  abbrev with_non_modal : NonModal → Block F → Block F
  with_non_modal m b = record b { non_modal_command = m }

  -- a word that leaves the axis command and the mantissa alone
  abbrev plain : Block F → AxisCommand → ℕ → ModalGroup → Result (Command F)
  plain b axis mantissa g =
      ok (record { block = b; axis_command = axis; mantissa = mantissa; group = g })

  -- `check_mantissa:` for G28, G30 and G92
  unfoldable pub check_mantissa : Block F → AxisCommand → ℕ → Result (Command F)
  check_mantissa b axis mantissa =
      if mantissa == 0
      then if has_axis_command axis
        then fail Error.gcode_axis_command_conflict
        else plain b AxisCommand.non_modal 0 ModalGroup.mg0
      else if mantissa == 10
      then plain b axis 0 ModalGroup.mg0
      else fail Error.gcode_unsupported_command

  -- G10, the only non-modal word that takes a mantissa without a check of its own
  unfoldable pub set_coordinate_data : Block F → AxisCommand → ℕ → Result (Command F)
  set_coordinate_data b axis mantissa =
      let b' = with_non_modal NonModal.set_coordinate_data b in
      if mantissa == 0
      then if has_axis_command axis
        then fail Error.gcode_axis_command_conflict
        else plain b' AxisCommand.non_modal mantissa ModalGroup.mg0
      else plain b' axis mantissa ModalGroup.mg0

  -- `mantissa ? set : go`
  abbrev set_or_go : ℕ → NonModal → NonModal → Block F → Block F
  set_or_go mantissa set_it go b = with_non_modal (if mantissa == 0 then go else set_it) b

  -- G38: G38.5 sets the motion of G38.4
  unfoldable pub probe_word : Board → Block F → AxisCommand → ℕ → Result (Command F)
  probe_word board b axis mantissa =
      let probe =
        λ (m : Motion). plain (with_motion m b) AxisCommand.motion_mode 0 ModalGroup.mg1 in
      if not board.has_probe_pin
      then fail Error.gcode_unsupported_command
      else if has_axis_command axis
      then fail Error.gcode_axis_command_conflict
      else if mantissa == 20
      then probe Motion.probe_toward
      else if mantissa == 30
      then probe Motion.probe_toward_no_error
      else if mantissa == 40
      then probe Motion.probe_away
      else if mantissa == 50
      then probe Motion.probe_away
      else fail Error.gcode_unsupported_command

  -- G90 and G91, with G91.1
  unfoldable pub distance_word : ℕ → Block F → AxisCommand → ℕ → Result (Command F)
  distance_word int_value b axis mantissa =
      if int_value == 90
      then if mantissa == 0
        then plain (with_distance Distance.absolute b) axis mantissa ModalGroup.mg3
        else fail Error.gcode_unsupported_command
      else if mantissa == 0
      then plain (with_distance Distance.incremental b) axis mantissa ModalGroup.mg3
      else if mantissa == 10
      then plain b axis 0 ModalGroup.mg4
      else fail Error.gcode_unsupported_command

  -- G43.1 and G49
  unfoldable pub tool_length_word : ℕ → Block F → AxisCommand → ℕ → Result (Command F)
  tool_length_word int_value b axis mantissa =
      let offset = λ (m : ToolLengthOffset).
        plain (with_tool_length m b) AxisCommand.tool_length_offset 0 ModalGroup.mg8 in
      if has_axis_command axis
      then fail Error.gcode_axis_command_conflict
      else if int_value == 49
      then offset ToolLengthOffset.cancel
      else if mantissa == 10
      then offset ToolLengthOffset.enable_dynamic
      else fail Error.gcode_unsupported_command

  -- G0 to G3, G80 and the words that only set a mode; `none` for all others
  unfoldable pub mode_word : ℕ → Block F → AxisCommand → ℕ → Option (Result (Command F))
  mode_word v b axis mantissa =
      let move = λ (m : Motion).
        some (plain (with_motion m b) AxisCommand.motion_mode mantissa ModalGroup.mg1) in
      let mode = λ (b' : Block F) (g : ModalGroup). some (plain b' axis mantissa g) in
      if v == 4
      then mode (with_non_modal NonModal.dwell b) ModalGroup.mg0
      else if v == 53
      then mode (with_non_modal NonModal.absolute_override b) ModalGroup.mg0
      else if v == 0
      then move Motion.seek
      else if v == 1
      then move Motion.linear
      else if v == 2
      then move Motion.cw_arc
      else if v == 3
      then move Motion.ccw_arc
      else if v == 80
      then mode (with_motion Motion.no_motion b) ModalGroup.mg1
      else if v == 17
      then mode (with_plane Plane.xy b) ModalGroup.mg2
      else if v == 18
      then mode (with_plane Plane.zx b) ModalGroup.mg2
      else if v == 19
      then mode (with_plane Plane.yz b) ModalGroup.mg2
      else if v == 93
      then mode (with_feed_rate FeedRate.inverse_time b) ModalGroup.mg5
      else if v == 94
      then mode (with_feed_rate FeedRate.units_per_min b) ModalGroup.mg5
      else if v == 20
      then mode (with_units Units.inches b) ModalGroup.mg6
      else if v == 21
      then mode (with_units Units.mm b) ModalGroup.mg6
      else if v == 40
      then mode b ModalGroup.mg7
      else none

  -- G54 to G59
  unfoldable pub coord_word : ℕ → Block F → AxisCommand → ℕ → Option (Result (Command F))
  coord_word v b axis mantissa =
      let select =
        λ (c : CoordIndex). some (plain (with_coord c b) axis mantissa ModalGroup.mg12) in
      if v == 54
      then select CoordIndex.g54
      else if v == 55
      then select CoordIndex.g55
      else if v == 56
      then select CoordIndex.g56
      else if v == 57
      then select CoordIndex.g57
      else if v == 58
      then select CoordIndex.g58
      else if v == 59
      then select CoordIndex.g59
      else none

  -- the words with conditions of their own. `int_value` is a uint8_t, so that the default case's
  -- tests for 800, 801 and 802 fail
  unfoldable pub special_word : Board → ℕ → Block F → AxisCommand → ℕ → Result (Command F)
  unfolding set_coordinate_data check_mantissa probe_word distance_word tool_length_word
  special_word board v b axis mantissa =
      if v == 10
      then set_coordinate_data b axis mantissa
      else if v == 28
      then check_mantissa (set_or_go mantissa NonModal.set_home0 NonModal.go_home0 b) axis mantissa
      else if v == 30
      then check_mantissa (set_or_go mantissa NonModal.set_home1 NonModal.go_home1 b) axis mantissa
      else if v == 92
      then check_mantissa
          (set_or_go mantissa NonModal.reset_coordinate_offset NonModal.set_coordinate_offset b)
          axis mantissa
      else if v == 38
      then probe_word board b axis mantissa
      else if v == 90 || v == 91
      then distance_word v b axis mantissa
      else if v == 43 || v == 49
      then tool_length_word v b axis mantissa
      else if v == 61
      then if mantissa == 0
        then plain b axis mantissa ModalGroup.mg13
        else fail Error.gcode_unsupported_command
      else fail Error.gcode_unsupported_command

  -- the switch of `case 'G'`
  unfoldable pub g_switch : Board → ℕ → Block F → AxisCommand → ℕ → Result (Command F)
  unfolding mode_word coord_word special_word
  g_switch board v b axis mantissa =
      let special = special_word board v b axis mantissa in
      elim (mode_word v b axis mantissa) [
        | some r ↦ r
        | none ↦ elim (coord_word v b axis mantissa) [ some r ↦ r | none ↦ special ]
      ]

  -- with the test for a mantissa that no command has taken
  unfoldable pub g_word : Board → ℕ → Block F → AxisCommand → ℕ → Result (Command F)
  unfolding g_switch
  g_word board v b axis mantissa =
      bind (g_switch board v b axis mantissa)
        (λ c. if ltb 0 c.mantissa then fail Error.gcode_command_value_not_integer else ok c)
