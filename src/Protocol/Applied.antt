-- ===== src/Protocol/Applied.antt =====
-- The overrides at the end of protocol_exec_rt_system (Protocol.cpp).
use grbl_esp.Base.{◌≡◌, Bool, false, arith}
use grbl_esp.System.{System, no_accessory}
use grbl_esp.Subsystems.{Subsystems}
use grbl_esp.Protocol.{
  motion_overrides, spindle_override, stop_override, flood_override, mist_override, exec_overrides,
}

-- the values that run are those that were asked for
pub record MotionApplied (s t : System) : Type 0 where
  pub feed : t.f_override ≡ s.rt_f_override
  pub rapid : t.r_override ≡ s.rt_r_override

pub record Applied (s t : System) : Type 0 where
  pub motion : MotionApplied s t
  pub spindle : t.spindle_speed_ovr ≡ s.rt_s_override
  pub accessory : t.rt_accessory ≡ no_accessory

module _ {W : Type 0} (sub : Subsystems W) (flood_pin mist_pin : Bool) where
  motion_overrides-applied :
      (s : System) (w : W)
      → let t = (motion_overrides sub flood_pin mist_pin s w).0 in
        MotionApplied s t × (t.rt_s_override ≡ s.rt_s_override)
  unfolding motion_overrides
  motion_overrides-applied s w = ground arith

  spindle_override-applied :
      (s : System) (w : W)
      → let t = (spindle_override sub flood_pin mist_pin s w).0 in
        (t.spindle_speed_ovr ≡ s.rt_s_override)
        × (t.f_override ≡ s.f_override)
        × (t.r_override ≡ s.r_override)
  unfolding spindle_override
  spindle_override-applied s w = ground arith

  -- what the stop and coolant overrides leave of the overrides
  pub record SameOverrides (s t : System) : Type 0 where
    pub feed : t.f_override ≡ s.f_override
    pub rapid : t.r_override ≡ s.r_override
    pub spindle : t.spindle_speed_ovr ≡ s.spindle_speed_ovr

  stop_override-applied :
      (s : System)
      → let t = stop_override sub flood_pin mist_pin s in
        SameOverrides s t × (t.rt_accessory ≡ record s.rt_accessory { spindle_ovr_stop = false })
  unfolding stop_override
  stop_override-applied s = ground arith

  flood_override-applied :
      (s : System) (w : W)
      → let t = (flood_override sub flood_pin mist_pin s w).0 in
        SameOverrides s t
        × (t.rt_accessory ≡ record s.rt_accessory { coolant_flood_ovr_toggle = false })
  unfolding flood_override
  flood_override-applied s w = ground arith

  mist_override-applied :
      (s : System) (w : W)
      → let t = (mist_override sub flood_pin mist_pin s w).0 in
        SameOverrides s t
        × (t.rt_accessory ≡ record s.rt_accessory { coolant_mist_ovr_toggle = false })
  unfolding mist_override
  mist_override-applied s w = ground arith

  -- Behind the overrides the feed, rapid and spindle overrides are those that were asked for, and
  -- no spindle stop or coolant toggle is pending any more.
  pub exec_overrides-Applied :
      (s : System) (w : W) → Applied s (exec_overrides sub flood_pin mist_pin s w).0
  unfolding exec_overrides
  exec_overrides-Applied s w =
      let p = motion_overrides sub flood_pin mist_pin s w in
      let q = spindle_override sub flood_pin mist_pin p.0 p.1 in
      let t = stop_override sub flood_pin mist_pin q.0 in
      let r = flood_override sub flood_pin mist_pin t q.1 in
      ground (
        arith,
        motion_overrides-applied s w,
        spindle_override-applied p.0 p.1,
        stop_override-applied q.0,
        flood_override-applied t q.1,
        mist_override-applied r.0 r.1,
      )
