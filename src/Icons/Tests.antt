-- ===== src/Icons/Tests.antt =====
-- Runs of kernel/gui.c's icons, and their theorem there.
use red_panda_os.Prelude.{◌≡◌, refl, ◌⊎◌, arith, true, false, [], ◌∷◌}
use red_panda_os.Prelude.Int.{pos, negsuc, ◌+ℤ◌, ◌-ℤ◌, ltb_ℤ}
use red_panda_os.Icons.{
  Icon, Desktop, overlap, free_of, cell_is_free, grid_cell, free_row, free_cell, grid_size, put_at,
  place_icon,
}
use red_panda_os.Fs.{free_chain_from}
use red_panda_os.Fs.Ops.{fs_write, is_empty}
use red_panda_os.Strings.{strlen}
use red_panda_os.Fs.Tests.{ram_disk, ram_disk-Working, blank_disk, small, small_sb-Geometry}
use red_panda_os.Icons.Layout.{Layout, records, save_layout, load_layout}
use red_panda_os.Icons.Saved.{saved_records, save_layout-load_layout}
use red_panda_os.Icons.Clear.{IsPut, place_icon-IsPut}

abbrev new_icon : Icon
new_icon = record { name = 97 ∷ []; size = 3; x = negsuc 0; y = negsuc 0; selected = false }

-- A desktop whose first cell is taken.
abbrev desk : Desktop
desk = record {
  icons = record new_icon { x = pos 20; y = pos 10 } ∷ new_icon ∷ [];
  trash_x = pos 500;
  trash_y = pos 300;
  scr_w = pos 640;
  scr_h = pos 480;
}

second_cell : place_icon desk new_icon ≡ record new_icon { x = pos 16; y = pos 108 }
unfolding place_icon grid_size free_cell free_row cell_is_free free_of overlap grid_cell put_at ◌+ℤ◌
    ◌-ℤ◌
second_cell = refl

place_icon-IsPut_example :
    ((ltb_ℤ new_icon.x (pos 0) ≡ true) × IsPut desk (place_icon desk new_icon))
    ⊎ ((ltb_ℤ new_icon.x (pos 0) ≡ false) × (place_icon desk new_icon ≡ new_icon))
place_icon-IsPut_example = place_icon-IsPut desk new_icon

abbrev no_layout : Layout
no_layout = record { bytes = []; count = 0 }

saved_well : (save_layout ram_disk desk no_layout (small, blank_disk)).0 ≡ true
unfolding save_layout fs_write strlen is_empty free_chain_from
saved_well = refl

save_layout-load_layout_example :
    let saved = save_layout ram_disk desk no_layout (small, blank_disk) in
    let loaded = (load_layout ram_disk no_layout (saved.2, saved.3)).0 in
    records loaded.count loaded.bytes ≡ saved_records desk.icons desk.trash_x desk.trash_y
save_layout-load_layout_example =
    save_layout-load_layout ram_disk ram_disk-Working desk no_layout no_layout small blank_disk
      small_sb-Geometry (omega arith) saved_well
