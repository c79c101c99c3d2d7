-- ===== src/Console/Startup.antt =====
-- The startup lines: executed after a reset and after homing, printed by `$N` (grbl/system.c).
use uno_pen_plotter.Prelude.{ℕ, zero, suc, ◌+◌, Bool, ◌==◌, if◌then◌else◌}
use uno_pen_plotter.Ring.{update}
use uno_pen_plotter.Settings.Saved.{
  settings_read_startup_line, settings_read_build_info, settings_store_startup_line,
  settings_store_build_info, settings_read_coord_data,
}
use uno_pen_plotter.Console.{
  World, Parts, Report, synchronize, report, bytes_of, read_into, line_buffer_size,
}

-- `settings_read_startup_line(n, line)`: a record that cannot be read is written anew, after a wait for the
-- buffer.
unfoldable pub read_startup : {F : Type 0} → Parts F → ℕ → World F → Bool × World F
read_startup parts n w =
    let (good, bytes, store) = settings_read_startup_line parts.program n w.store in
    let w' = if good then w else synchronize parts w in
    (good, record w' { store = store; line = read_into bytes w.line })

abbrev pub status_setting_read_fail : ℕ
status_setting_read_fail = 7

abbrev pub n_startup_line : ℕ
n_startup_line = 2

unfoldable pub execute_startup_line : {F : Type 0} → Parts F → ℕ → World F → World F
execute_startup_line parts n w =
    let (good, w₁) = read_startup parts n w in
    if good
    then if w₁.line 0 == 0
      then w₁
      else (let (status, w₂) = parts.gc_execute_line w₁ in
          report (Report.execute_startup status) w₂)
    else report (Report.execute_startup status_setting_read_fail)
        (record w₁ { line = update w₁.line 0 0 })

-- The loop of `system_execute_startup`, `n` from 0 up.
unfoldable pub execute_startup_lines : {F : Type 0} → Parts F → ℕ → ℕ → World F → World F
execute_startup_lines parts zero n w = w
execute_startup_lines parts (suc more) n w =
    execute_startup_lines parts more (n + 1) (execute_startup_line parts n w)

unfoldable pub system_execute_startup : {F : Type 0} → Parts F → World F → World F
system_execute_startup parts w = execute_startup_lines parts n_startup_line 0 w

-- The loop of `$N`.
unfoldable pub print_startup_lines : {F : Type 0} → Parts F → ℕ → ℕ → World F → World F
print_startup_lines parts zero n w = w
print_startup_lines parts (suc more) n w =
    let (good, w₁) = read_startup parts n w in
    print_startup_lines parts more (n + 1) (
      report
        (if good then Report.startup_line n else Report.status_message status_setting_read_fail) w₁)

-- The whole buffer goes to the EEPROM, after a wait for the planner's.
unfoldable pub store_startup : {F : Type 0} → Parts F → ℕ → World F → World F
store_startup parts n w = record (synchronize parts w) {
  store = settings_store_startup_line parts.program n (bytes_of line_buffer_size 0 w.line) w.store;
}

unfoldable pub read_info : {F : Type 0} → Parts F → World F → World F
read_info parts w =
    let (good, bytes, store) = settings_read_build_info parts.program w.store in
    record w { store = store; line = read_into bytes w.line }

unfoldable pub store_info : {F : Type 0} → Parts F → World F → World F
store_info parts w = record w {
  store = settings_store_build_info parts.program (bytes_of line_buffer_size 0 w.line) w.store;
}

-- The loop of `report_ngc_parameters` (grbl/report.c), without the texts: it stops at the first record
-- that cannot be read, which is written anew.
unfoldable pub report_coords : {F : Type 0} → Parts F → ℕ → ℕ → World F → World F
report_coords parts zero n w = report Report.ngc_parameters w
report_coords parts (suc more) n w =
    let rest = report_coords parts more (n + 1) w in
    let (good, bytes, store) = settings_read_coord_data parts.program n w.store in
    if good
    then rest
    else report (Report.status_message status_setting_read_fail)
        (record (synchronize parts w) { store = store })

-- coord_select <= SETTING_INDEX_NCOORD
abbrev pub coord_records : ℕ
coord_records = 9

unfoldable pub report_ngc_parameters : {F : Type 0} → Parts F → World F → World F
unfolding report_coords
report_ngc_parameters parts w = report_coords parts coord_records 0 w

-- The waits before the writes of `settings_restore`, one for each coordinate record.
unfoldable pub synchronize_times : {F : Type 0} → Parts F → ℕ → World F → World F
synchronize_times parts zero w = w
synchronize_times parts (suc n) w = synchronize_times parts n (synchronize parts w)
