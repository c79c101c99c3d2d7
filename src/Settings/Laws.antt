-- ===== src/Settings/Laws.antt =====
-- Changing a setting: what each number names, the flags that depend on each other, and the copy in the
-- EEPROM.
use uno_pen_plotter.Prelude.{
  ℕ, ◌-◌, ◌/◌, ◌%◌, ◌≡◌, true, not, ◌&&◌, ◌||◌, Option, none, some, arith, ltb, if◌then◌else◌,
}
use uno_pen_plotter.Eeprom.{Program}
use uno_pen_plotter.Settings.{Float, Settings, Store, axis_n_settings}
use uno_pen_plotter.Settings.Change.{
  Outcome, refused, changed, find_axis_setting, set_axis, change_axis, change_pins, change_reports,
  change_limits, change_homing, change_other, change_setting,
}
use uno_pen_plotter.Settings.Saved.{
  Layout, write_global_settings, finish, settings_store_global_setting,
}

-- The numbers of axis settings, counted from 100, are ten for each kind, of which the first three
-- name the axes; every other number is refused.
pub find_axis_setting_lem :
    (parameter : ℕ)
    → find_axis_setting axis_n_settings 0 parameter ≡ (
        if ltb (parameter / 10) axis_n_settings && ltb (parameter % 10) 3
        then some (parameter / 10, parameter % 10)
        else none)
unfolding find_axis_setting
find_axis_setting_lem parameter = ground arith

-- Soft limits are only on together with homing.
abbrev pub SoftNeedsHoming : {F : Type 0} → Settings F → Type 0
SoftNeedsHoming s = (not s.flags.soft_limit_enable || s.flags.homing_enable) ≡ true

abbrev Fine : {F : Type 0} → Outcome F → Type 0
Fine (refused status) = Unit
Fine (changed s) = SoftNeedsHoming s.settings

flags-set_axis :
    {F : Type 0} (float : Float F) (set_idx axis : ℕ) (value : F) (s : Settings F)
    → (set_axis float set_idx axis value s).flags ≡ s.flags
unfolding set_axis
flags-set_axis float set_idx axis value s = ground arith

axis-Fine :
    {F : Type 0} (float : Float F) (found : Option (ℕ × ℕ)) (value : F) (s : Store F)
    → SoftNeedsHoming s.settings
    → Fine (change_axis float found value s)
unfolding change_axis
axis-Fine float none value s h = tt
axis-Fine float (some (set_idx, axis)) value s h =
    rw (flags-set_axis float set_idx axis value s.settings) h

pins-Fine :
    {F : Type 0} (p v : ℕ) (s : Store F) → SoftNeedsHoming s.settings → Fine (change_pins p v s)
unfolding change_pins
pins-Fine p v s h = ground arith

reports-Fine :
    {F : Type 0} (p v : ℕ) (x : F) (s : Store F)
    → SoftNeedsHoming s.settings
    → Fine (change_reports p v x s)
unfolding change_reports
reports-Fine p v x s h = ground arith

limits-Fine :
    {F : Type 0} (p v : ℕ) (s : Store F) → SoftNeedsHoming s.settings → Fine (change_limits p v s)
unfolding change_limits
limits-Fine p v s h = ground arith

homing-Fine :
    {F : Type 0} (p v : ℕ) (x : F) (s : Store F)
    → SoftNeedsHoming s.settings
    → Fine (change_homing p v x s)
unfolding change_homing
homing-Fine p v x s h = ground arith

other-Fine :
    {F : Type 0} (float : Float F) (p : ℕ) (x : F) (s : Store F)
    → SoftNeedsHoming s.settings
    → Fine (change_other float p x s)
unfolding change_other
other-Fine float p x s h = ground (
  arith,
  pins-Fine p (float.trunc x) s h,
  reports-Fine p (float.trunc x) x s h,
  limits-Fine p (float.trunc x) s h,
  homing-Fine p (float.trunc x) x s h,
)

change-Fine :
    {F : Type 0} (float : Float F) (p : ℕ) (x : F) (s : Store F)
    → SoftNeedsHoming s.settings
    → Fine (change_setting float p x s)
unfolding change_setting
change-Fine float p x s h = ground (
  arith,
  axis-Fine float (find_axis_setting axis_n_settings 0 (p - 100)) x s h,
  other-Fine float p x s h,
)

finish-Fine :
    {F : Type 0} (program : Program) (layout : Layout F) (s : Store F) (o : Outcome F)
    → SoftNeedsHoming s.settings
    → Fine o
    → SoftNeedsHoming (finish program layout s o).1.settings
unfolding write_global_settings
finish-Fine program layout s (refused status) h o = h
finish-Fine program layout s (changed s') h o = o

-- Whatever setting is stored with whatever value, accepted or refused: if soft limits were on only
-- together with homing before, they are so after.
pub store-SoftNeedsHoming :
    {F : Type 0} (program : Program) (layout : Layout F) (float : Float F) (p : ℕ) (x : F)
    (s : Store F)
    → SoftNeedsHoming s.settings
    → SoftNeedsHoming (settings_store_global_setting program layout float p x s).1.settings
unfolding settings_store_global_setting
store-SoftNeedsHoming program layout float p x s h =
    finish-Fine program layout s (change_setting float p x s) h (change-Fine float p x s h)
