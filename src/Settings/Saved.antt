-- ===== src/Settings/Saved.antt =====
-- The settings, parameters, startup lines and build info as records of the EEPROM
-- (grbl/settings.c).
use uno_pen_plotter.Prelude.{
  ℕ, zero, suc, ◌+◌, ◌*◌, Bool, true, false, List, [], ◌∷◌, ◌==◌, if◌then◌else◌,
}
use uno_pen_plotter.Eeprom.{
  Program, eeprom_get_char, eeprom_put_char, memcpy_to_eeprom_with_checksum,
  memcpy_from_eeprom_with_checksum,
}
use uno_pen_plotter.Settings.{Float, Settings, Store, Call, call, Status, settings_version}
use uno_pen_plotter.Settings.Change.{Outcome, refused, changed, change_setting}

-- How the target lays out `settings_t`.
pub record Layout (F : Type 0) : Type 0 where
  pub bytes : Settings F → List ℕ
  pub from_bytes : List ℕ → Settings F
  -- sizeof(settings_t)
  pub size : ℕ

abbrev pub line_buffer_size : ℕ
line_buffer_size = 80

abbrev pub eeprom_addr_global : ℕ
eeprom_addr_global = 1

abbrev pub eeprom_addr_parameters : ℕ
eeprom_addr_parameters = 512

abbrev pub eeprom_addr_startup_block : ℕ
eeprom_addr_startup_block = 768

abbrev pub eeprom_addr_build_info : ℕ
eeprom_addr_build_info = 942

-- sizeof(float)*N_AXIS
abbrev pub coord_size : ℕ
coord_size = 12

abbrev pub startup_addr : ℕ → ℕ
startup_addr n = n * (line_buffer_size + 1) + eeprom_addr_startup_block

abbrev pub coord_addr : ℕ → ℕ
coord_addr coord_select = coord_select * (coord_size + 1) + eeprom_addr_parameters

abbrev pub zeros : ℕ → List ℕ
zeros zero = []
zeros (suc n) = 0 ∷ zeros n

-- line[0] = 0;
abbrev pub clear_first : List ℕ → List ℕ
clear_first [] = []
clear_first (c ∷ cs) = 0 ∷ cs

abbrev pub put : {F : Type 0} → Program → ℕ → ℕ → Store F → Store F
put program addr v s = record s { eeprom = eeprom_put_char program addr v s.eeprom }

abbrev pub save : {F : Type 0} → Program → ℕ → List ℕ → Store F → Store F
save program addr bytes s = record s {
  eeprom = memcpy_to_eeprom_with_checksum program addr bytes s.eeprom;
}

-- The line is the whole buffer, LINE_BUFFER_SIZE bytes.
unfoldable pub settings_store_startup_line : {F : Type 0} → Program → ℕ → List ℕ → Store F → Store F
settings_store_startup_line program n line s =
    save program (startup_addr n) line (call Call.protocol_buffer_synchronize s)

unfoldable pub settings_store_build_info : {F : Type 0} → Program → List ℕ → Store F → Store F
settings_store_build_info program line s = save program eeprom_addr_build_info line s

-- The coordinates as their bytes.
unfoldable pub settings_write_coord_data : {F : Type 0} → Program → ℕ → List ℕ → Store F → Store F
settings_write_coord_data program coord_select coord_data s =
    save program (coord_addr coord_select) coord_data (call Call.protocol_buffer_synchronize s)

unfoldable pub write_global_settings : {F : Type 0} → Program → Layout F → Store F → Store F
write_global_settings program layout s =
    save program eeprom_addr_global (layout.bytes s.settings) (put program 0 settings_version s)

-- The bits of `restore_flag`.
pub record Restore : Type 0 where
  pub defaults : Bool
  pub parameters : Bool
  pub startup_lines : Bool
  pub build_info : Bool

abbrev pub restore_all : Restore
restore_all = record { defaults = true; parameters = true; startup_lines = true; build_info = true }

-- The loop over the coordinate systems, `idx` from 0 up.
unfoldable pub restore_coords : {F : Type 0} → Program → ℕ → ℕ → Store F → Store F
restore_coords program zero idx s = s
restore_coords program (suc more) idx s =
    restore_coords program more (idx + 1)
      (settings_write_coord_data program idx (zeros coord_size) s)

-- idx <= SETTING_INDEX_NCOORD
abbrev pub coord_systems : ℕ
coord_systems = 8

unfoldable pub settings_restore :
    {F : Type 0} → Program → Layout F → Settings F → Restore → Store F → Store F
settings_restore program layout defaults restore_flag s =
    let s₁ =
      if restore_flag.defaults
      then write_global_settings program layout (record s { settings = defaults })
      else s in
    let s₂ = if restore_flag.parameters then restore_coords program coord_systems 0 s₁ else s₁ in
    let s₃ =
      if restore_flag.startup_lines
      then put program (eeprom_addr_startup_block + (line_buffer_size + 2)) 0 (
          put program (eeprom_addr_startup_block + (line_buffer_size + 1)) 0 (
            put program (eeprom_addr_startup_block + 1) 0
              (put program eeprom_addr_startup_block 0 s₂)))
      else s₂ in
    if restore_flag.build_info
    then put program (eeprom_addr_build_info + 1) 0 (put program eeprom_addr_build_info 0 s₃)
    else s₃

-- Whether the record was good, the line, and the state.
unfoldable pub settings_read_startup_line :
    {F : Type 0} → Program → ℕ → Store F → Bool × List ℕ × Store F
settings_read_startup_line program n s =
    let (line, agrees) =
      memcpy_from_eeprom_with_checksum (startup_addr n) line_buffer_size s.eeprom in
    if agrees
    then (true, line, s)
    else (false, clear_first line, settings_store_startup_line program n (clear_first line) s)

unfoldable pub settings_read_build_info : {F : Type 0} → Program → Store F → Bool × List ℕ × Store F
settings_read_build_info program s =
    let (line, agrees) =
      memcpy_from_eeprom_with_checksum eeprom_addr_build_info line_buffer_size s.eeprom in
    if agrees
    then (true, line, s)
    else (false, clear_first line, settings_store_build_info program (clear_first line) s)

unfoldable pub settings_read_coord_data :
    {F : Type 0} → Program → ℕ → Store F → Bool × List ℕ × Store F
settings_read_coord_data program coord_select s =
    let (coord_data, agrees) =
      memcpy_from_eeprom_with_checksum (coord_addr coord_select) coord_size s.eeprom in
    if agrees then (true, coord_data, s) else (
      false,
      zeros coord_size,
      settings_write_coord_data program coord_select (zeros coord_size) s,
    )

-- The bytes go to `settings` before the checksum is known.
unfoldable pub read_global_settings : {F : Type 0} → Layout F → Store F → Bool × Store F
read_global_settings layout s =
    if eeprom_get_char 0 s.eeprom == settings_version
    then (let (bytes, agrees) =
          memcpy_from_eeprom_with_checksum eeprom_addr_global layout.size s.eeprom in
        (agrees, record s { settings = layout.from_bytes bytes }))
    else (false, s)

unfoldable pub settings_init : {F : Type 0} → Program → Layout F → Settings F → Store F → Store F
settings_init program layout defaults s =
    let (good, s') = read_global_settings layout s in
    if good
    then s'
    else call Call.report_grbl_settings
        (settings_restore program layout defaults restore_all (call Call.report_read_fail s'))

abbrev pub finish : {F : Type 0} → Program → Layout F → Store F → Outcome F → Status × Store F
finish program layout s (refused status) = (status, s)
finish program layout s (changed s') = (Status.ok, write_global_settings program layout s')

unfoldable pub settings_store_global_setting :
    {F : Type 0} → Program → Layout F → Float F → ℕ → F → Store F → Status × Store F
settings_store_global_setting program layout float parameter value s =
    finish program layout s (change_setting float parameter value s)
