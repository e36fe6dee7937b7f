-- ===== src/Draw/Apps.antt =====
-- kernel/gui.c: what the built-in windows show.
use red_panda_os.Prelude.{ℕ, ◌+◌, ◌*◌, ◌/◌, List, [], ◌∷◌, length, u32}
use red_panda_os.Prelude.Int.{ℤ, pos, ◌+ℤ◌, ◌-ℤ◌}
use red_panda_os.Prelude.Chars.{chars}
use red_panda_os.Fb.{Fb, fb_fill_rect}
use red_panda_os.Fb.Flip.{fb_flip}
use red_panda_os.Fb.Shapes.{fb_text, fb_text_scaled}
use red_panda_os.Shell.Gfx.{draw_panda}
use red_panda_os.Editor.{title_h}
use red_panda_os.Draw.{draw_all, app_str, app_int, div_ℤ, col_text, col_text_dim, col_accent}
use red_panda_os.Windows.{Window}

-- The numbers that the system monitor shows.
pub record Stats : Type 0 where
  pub pmm_free_kb : ℕ
  pub pmm_total_kb : ℕ
  pub heap_used_bytes : ℕ
  pub heap_mapped_bytes : ℕ
  pub fs_free_bytes : ℕ
  pub fs_total_bytes : ℕ
  pub fs_file_count : ℕ
  pub timer_ticks : ℕ
  pub timer_hz : ℕ

unfoldable pub display_line : ℕ → ℕ → List ℕ
unfolding app_str app_int chars
display_line w h = app_int (app_str (app_int (chars "display   ") w) (chars " x ")) h

-- `used` of `all`, between a title and a unit.
unfoldable pub share_line : List ℕ → ℕ → ℕ → List ℕ → List ℕ
unfolding app_str app_int chars
share_line title used all unit =
    app_str (app_int (app_str (app_int title used) (chars " / ")) all) unit

unfoldable pub disk_line : Stats → List ℕ
unfolding share_line app_str app_int chars
disk_line s =
    let p =
      share_line (chars "disk      ") (s.fs_free_bytes / 1024) (s.fs_total_bytes / 1024)
        (chars " KB free, ") in
    app_str (app_int p (u32 s.fs_file_count)) (chars " files")

unfoldable pub uptime_line : Stats → List ℕ
unfolding app_str app_int chars
uptime_line s = app_str (app_int (chars "uptime    ") (s.timer_ticks / s.timer_hz)) (chars " s")

module _ (font_glyph : ℕ → ℕ → ℕ) where
  unfoldable pub welcome_draw : Window → Fb → Fb
  unfolding draw_all fb_text fb_text_scaled draw_panda chars ◌+ℤ◌ ◌-ℤ◌
  welcome_draw win =
      let x = win.x +ℤ pos 24 in
      let y = win.y +ℤ pos title_h +ℤ pos 20 in
      draw_all (
        fb_text_scaled font_glyph x y (chars "Hello!") col_accent 2
        ∷ fb_text font_glyph x (y +ℤ pos 44) (chars "This desktop is drawn entirely") col_text
        ∷ fb_text font_glyph x (y +ℤ pos 62) (chars "from scratch - every pixel by") col_text
        ∷ fb_text font_glyph x (y +ℤ pos 80) (chars "our own kernel.") col_text
        ∷ fb_text font_glyph x (y +ℤ pos 110) (chars "drag   the title bar moves me") col_text_dim
        ∷ fb_text font_glyph x (y +ℤ pos 128) (chars "o o    close and minimize") col_text_dim
        ∷ draw_panda (win.x +ℤ win.w -ℤ pos 92) (win.y +ℤ win.h -ℤ pos 90) 5
        ∷ [])

  unfoldable pub sysinfo_draw : Stats → Window → Fb → Fb
  unfolding draw_all fb_text display_line share_line disk_line uptime_line chars ◌+ℤ◌
  sysinfo_draw s win fb =
      let x = win.x +ℤ pos 24 in
      let y = win.y +ℤ pos title_h +ℤ pos 18 in
      let memory =
        share_line (chars "memory    ") (s.pmm_free_kb / 1024) (s.pmm_total_kb / 1024)
          (chars " MB free") in
      let heap =
        share_line (chars "heap      ") (s.heap_used_bytes / 1024) (s.heap_mapped_bytes / 1024)
          (chars " KB used") in
      draw_all
        (fb_text font_glyph x y (display_line fb.mode.width fb.mode.height) col_text
          ∷ fb_text font_glyph x (y +ℤ pos 22) memory col_text
          ∷ fb_text font_glyph x (y +ℤ pos 44) heap col_text
          ∷ fb_text font_glyph x (y +ℤ pos 66) (disk_line s) col_text
          ∷ fb_text font_glyph x (y +ℤ pos 88) (uptime_line s) col_text
          ∷ fb_text font_glyph x (y +ℤ pos 118) (chars "all of it ours.") col_accent
          ∷ [])
        fb

  -- A line of text around the middle.
  unfoldable pub centered : ℤ → ℤ → List ℕ → ℕ → Fb → Fb
  unfolding fb_text ◌-ℤ◌
  centered cx y s rgb = fb_text font_glyph (cx -ℤ pos (length s * 8 / 2)) y s rgb

  unfoldable pub about_draw : Window → Fb → Fb
  unfolding draw_all centered fb_text_scaled draw_panda div_ℤ chars ◌+ℤ◌ ◌-ℤ◌
  about_draw win =
      let cx = win.x +ℤ div_ℤ win.w 2 in
      let y = win.y +ℤ pos title_h +ℤ pos 22 in
      let name = chars "RedPandaOS" in
      draw_all (
        draw_panda (cx -ℤ pos 32) y 4
        ∷ fb_text_scaled font_glyph (cx -ℤ pos (length name * 8)) (y +ℤ pos 70) name col_accent 2
        ∷ centered cx (y +ℤ pos 108) (chars "version 11") col_text_dim
        ∷ centered cx (y +ℤ pos 136) (chars "own bootloader, own kernel,") col_text
        ∷ centered cx (y +ℤ pos 154) (chars "own everything.") col_text
        ∷ centered cx (y +ℤ pos 182) (chars "made from scratch with <3") col_text_dim
        ∷ [])

  unfoldable pub goodbye_screen : List ℕ → Fb → Fb
  unfolding draw_all fb_fill_rect draw_panda fb_text fb_flip div_ℤ ◌+ℤ◌ ◌-ℤ◌
  goodbye_screen msg fb =
      let w = fb.mode.width in
      let h = fb.mode.height in
      draw_all
        (fb_fill_rect (pos 0) (pos 0) (pos w) (pos h) 0x0C0C12
          ∷ draw_panda (pos (w / 2) -ℤ pos 40) (pos (h / 2) -ℤ pos 100) 5
          ∷ fb_text font_glyph (div_ℤ (pos w -ℤ pos (length msg * 8)) 2) (pos (h / 2 + 10)) msg
              col_text
          ∷ fb_flip
          ∷ [])
        fb
