-- ===== src/Motions/Arcs.antt =====
-- `mc_arc` (grbl/motion_control.c): a circle as lines.
use uno_pen_plotter.Prelude.{
  ℕ, zero, suc, ◌+◌, ◌-◌, Bool, false, ◌||◌, Option, some, ◌==◌, ltb, if◌then◌else◌,
}
use uno_pen_plotter.Gcode.{Float, Vector, PlanData, Axis, at, put}
use uno_pen_plotter.Motions.{Parts, Plotter, ◌>>=◌}
use uno_pen_plotter.Motions.Lines.{mc_line}

-- What the caller gives; `position` is the parser's array, which the loop moves on.
pub record Arc (F : Type 0) : Type 0 where
  pub target : Vector F
  pub offset : Vector F
  pub radius : F
  pub axis_0 : Axis
  pub axis_1 : Axis
  pub axis_linear : Axis
  pub is_clockwise_arc : Bool

abbrev pub n_arc_correction : ℕ
n_arc_correction = 12

-- x >= y
abbrev at_least : {F : Type 0} → Float F → F → F → Bool
at_least float x y = float.lt y x || float.eq x y

unfoldable pub angular_travel : {F : Type 0} → Parts F → Arc F → Vector F → F
angular_travel parts arc position =
    let float = parts.float in
    let offset_0 = at arc.axis_0 arc.offset in
    let offset_1 = at arc.axis_1 arc.offset in
    let r_axis0 = float.negate offset_0 in
    let r_axis1 = float.negate offset_1 in
    let rt_axis0 =
      float.sub (at arc.axis_0 arc.target) (float.add (at arc.axis_0 position) offset_0) in
    let rt_axis1 =
      float.sub (at arc.axis_1 arc.target) (float.add (at arc.axis_1 position) offset_1) in
    let travel =
      parts.atan2 (float.sub (float.mul r_axis0 rt_axis1) (float.mul r_axis1 rt_axis0))
        (float.add (float.mul r_axis0 rt_axis0) (float.mul r_axis1 rt_axis1)) in
    let epsilon = float.decimal 5 7 in
    let turn = float.mul (float.decimal 2 0) parts.pi in
    if arc.is_clockwise_arc
    then if at_least float travel (float.negate epsilon) then float.sub travel turn else travel
    else if at_least float epsilon travel
    then float.add travel turn
    else travel

unfoldable pub arc_segments : {F : Type 0} → Parts F → Arc F → F → ℕ
arc_segments parts arc travel =
    let float = parts.float in
    let tolerance = parts.settings.arc_tolerance in
    parts.floor_uint16 (
      float.div (float.fabs (float.mul (float.mul (float.decimal 5 1) travel) arc.radius)) (
        float.sqrt
          (float.mul tolerance (float.sub (float.mul (float.decimal 2 0) arc.radius) tolerance))))

-- The radius vector, and `count`, the steps since it was computed exactly.
pub record Radius (F : Type 0) : Type 0 where
  pub r_axis0 : F
  pub r_axis1 : F
  pub count : ℕ

-- The vector of the `i`-th segment from the one before.
unfoldable pub rotate : {F : Type 0} → Parts F → Arc F → F → ℕ → Radius F → Radius F
rotate parts arc theta_per_segment i r =
    let float = parts.float in
    let twice_cos = float.sub (float.decimal 2 0) (float.mul theta_per_segment theta_per_segment) in
    let sin_t =
      float.mul (float.mul theta_per_segment (float.decimal 16666667 8))
        (float.add twice_cos (float.decimal 4 0)) in
    let cos_t = float.mul twice_cos (float.decimal 5 1) in
    let theta = float.mul (parts.from_uint16 i) theta_per_segment in
    let cos_ti = parts.cos theta in
    let sin_ti = parts.sin theta in
    let offset_0 = at arc.axis_0 arc.offset in
    let offset_1 = at arc.axis_1 arc.offset in
    if ltb r.count n_arc_correction
    then record {
      r_axis0 = float.sub (float.mul r.r_axis0 cos_t) (float.mul r.r_axis1 sin_t);
      r_axis1 = float.add (float.mul r.r_axis0 sin_t) (float.mul r.r_axis1 cos_t);
      count = r.count + 1;
    }
    else record {
      r_axis0 = float.add (float.mul (float.negate offset_0) cos_ti) (float.mul offset_1 sin_ti);
      r_axis1 = float.sub (float.mul (float.negate offset_0) sin_ti) (float.mul offset_1 cos_ti);
      count = 0;
    }

-- What the loop does not change.
pub record Segments (F : Type 0) : Type 0 where
  pub theta_per_segment : F
  pub linear_per_segment : F
  pub center_axis0 : F
  pub center_axis1 : F

unfoldable pub arc_position :
    {F : Type 0} → Parts F → Arc F → Segments F → Radius F → Vector F → Vector F
arc_position parts arc s r position =
    let float = parts.float in
    let moved =
      put arc.axis_1 (float.add s.center_axis1 r.r_axis1)
        (put arc.axis_0 (float.add s.center_axis0 r.r_axis0) position) in
    put arc.axis_linear (float.add (at arc.axis_linear moved) s.linear_per_segment) moved

abbrev pub last_line :
    {F : Type 0}
    → Parts F
    → Arc F
    → PlanData F
    → Vector F
    → Plotter F
    → Option (Vector F × Plotter F)
last_line parts arc pl_data position p =
    mc_line parts arc.target pl_data p >>= λ p'. some (position, p')

-- `for (i = 1; i<segments; i++)` with `left` turns to go, and the last line after it.
unfoldable pub arc_loop :
    {F : Type 0}
    → Parts F
    → Arc F
    → Segments F
    → PlanData F
    → ℕ
    → ℕ
    → Radius F
    → Vector F
    → Plotter F
    → Option (Vector F × Plotter F)
unfolding rotate arc_position
arc_loop parts arc s pl_data zero i r position p = last_line parts arc pl_data position p
arc_loop parts arc s pl_data (suc left) i r position p =
    let r' = rotate parts arc s.theta_per_segment i r in
    let position' = arc_position parts arc s r' position in
    let more = arc_loop parts arc s pl_data left (i + 1) r' position' in
    mc_line parts position' pl_data p >>= λ p'.
    if p'.machine.abort then some (position', p') else more p'

-- The feed rate of an arc in inverse time is that of its segments.
unfoldable pub segment_data : {F : Type 0} → Parts F → ℕ → PlanData F → PlanData F
segment_data parts segments pl_data =
    if pl_data.inverse_time
    then record pl_data {
      feed_rate = parts.float.mul pl_data.feed_rate (parts.from_uint16 segments);
      inverse_time = false;
    }
    else pl_data

unfoldable pub arc_lines :
    {F : Type 0}
    → Parts F
    → Arc F
    → PlanData F
    → F
    → ℕ
    → Vector F
    → Plotter F
    → Option (Vector F × Plotter F)
unfolding arc_loop
arc_lines {F} parts arc pl_data travel segments position p =
    let float = parts.float in
    let n = parts.from_uint16 segments in
    let s : Segments F = record {
      theta_per_segment = float.div travel n;
      linear_per_segment =
          float.div (float.sub (at arc.axis_linear arc.target) (at arc.axis_linear position)) n;
      center_axis0 = float.add (at arc.axis_0 position) (at arc.axis_0 arc.offset);
      center_axis1 = float.add (at arc.axis_1 position) (at arc.axis_1 arc.offset);
    } in
    let r : Radius F = record {
      r_axis0 = float.negate (at arc.axis_0 arc.offset);
      r_axis1 = float.negate (at arc.axis_1 arc.offset);
      count = 0;
    } in
    arc_loop parts arc s pl_data (segments - 1) 1 r position p

-- The parser's position and the plotter afterwards.
unfoldable pub mc_arc :
    {F : Type 0}
    → Parts F
    → Arc F
    → PlanData F
    → Vector F
    → Plotter F
    → Option (Vector F × Plotter F)
unfolding arc_loop
mc_arc parts arc pl_data position p =
    let travel = angular_travel parts arc position in
    let segments = arc_segments parts arc travel in
    if segments == 0
    then last_line parts arc pl_data position p
    else arc_lines parts arc (segment_data parts segments pl_data) travel segments position p
