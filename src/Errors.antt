-- ===== src/Errors.antt =====
-- Error.h (Grbl_Esp32/src): the error codes, in the order of the enumeration.

pub data Error : Type 0 where
  ok expected_command_letter bad_number_format invalid_statement : Error
  negative_value setting_disabled setting_step_pulse_min setting_read_fail : Error
  idle_error system_gc_lock soft_limit_error overflow : Error
  max_step_rate_exceeded check_door line_length_exceeded travel_exceeded : Error
  invalid_jog_command setting_disabled_laser homing_no_cycles gcode_unsupported_command : Error
  gcode_modal_group_violation gcode_undefined_feed_rate gcode_command_value_not_integer
        gcode_axis_command_conflict :
      Error
  gcode_word_repeated gcode_no_axis_words gcode_invalid_line_number gcode_value_word_missing : Error
  gcode_unsupported_coord_sys gcode_g53_invalid_motion_mode gcode_axis_words_exist
        gcode_no_axis_words_in_plane :
      Error
  gcode_invalid_target gcode_arc_radius_error gcode_no_offsets_in_plane gcode_unused_words : Error
  gcode_g43_dynamic_axis_error gcode_max_value_exceeded p_param_max_exceeded fs_failed_mount : Error
  fs_failed_read fs_failed_open_dir fs_dir_not_found fs_file_empty : Error
  fs_file_not_found fs_failed_open_file fs_failed_busy fs_failed_del_dir : Error
  fs_failed_del_file bt_fail_begin wifi_fail_begin number_range : Error
  invalid_value message_failed nvs_set_failed nvs_get_stats_failed : Error
  authentication_failed eol another_interface_busy jog_cancelled : Error
