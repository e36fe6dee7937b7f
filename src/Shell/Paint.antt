-- ===== src/Shell/Paint.antt =====
-- kernel/shell.c: the command `paint`, on the screen of kernel/fb.c.
use red_panda_os.Prelude.{
  ℕ, zero, suc, ◌+◌, ◌/◌, ◌%◌, not, ◌&&◌, Option, none, some, List, [], ◌∷◌, ◌++◌, ◌==◌,
  if◌then◌else◌,
}
use red_panda_os.Prelude.Int.{ℤ, pos, negsuc, ◌+ℤ◌, ◌-ℤ◌, ltb_ℤ, pos_part, neg_part}
use red_panda_os.Prelude.Chars.{chars}
use red_panda_os.Fb.{Fb, fb_fill_rect}
use red_panda_os.Fb.Shapes.{fb_text}
use red_panda_os.Fb.Flip.{fb_flip, fb_flip_rect, min_ℤ, max_ℤ}
use red_panda_os.Input.{Event, ev_key, ev_mouse_move, ev_mouse_button, ev_tick}
use red_panda_os.Shell.{Machine}
use red_panda_os.Shell.Gfx.{draw_line}

-- `append_int`: what it adds to the buffer. The digits lowest first, then turned round; an `int` has
-- at most 10.
unfoldable pub int_digits : ℕ → ℕ → List ℕ
int_digits zero v = []
int_digits (suc fuel) v =
    let rest = int_digits fuel (v / 10) in
    if v / 10 == 0 then (48 + v % 10) ∷ [] else (48 + v % 10) ∷ rest

unfoldable pub turned : List ℕ → List ℕ → List ℕ
turned [] acc = acc
turned (x ∷ xs) acc = turned xs (x ∷ acc)

unfoldable pub append_int : List ℕ → ℤ → List ℕ
unfolding int_digits turned
append_int p v =
    p
    ++ ((if ltb_ℤ v (pos 0) then 45 ∷ [] else [])
        ++ turned (int_digits 10 (pos_part v + neg_part v)) [])

-- The locals of `cmd_paint`, with the screen.
pub record Canvas : Type 0 where
  pub fb : Fb
  pub last_x : ℤ
  pub last_y : ℤ
  pub left : ℕ

abbrev pub paint_bg : ℕ
paint_bg = 0x16161E

abbrev pub paint_bar : ℕ
paint_bar = 0x24242E

abbrev pub paint_ink : ℕ
paint_ink = 0xF0F0F0

-- The four lines of a stroke, and the part of the screen that they are in.
unfoldable pub stroke : ℤ → ℤ → ℤ → ℤ → Fb → Fb
unfolding draw_line fb_flip_rect min_ℤ max_ℤ
stroke ax ay bx by fb =
    let one = pos 1 in
    let f1 = draw_line ax ay bx by paint_ink fb in
    let f2 = draw_line (ax +ℤ one) ay (bx +ℤ one) by paint_ink f1 in
    let f3 = draw_line ax (ay +ℤ one) bx (by +ℤ one) paint_ink f2 in
    let f4 = draw_line (ax +ℤ one) (ay +ℤ one) (bx +ℤ one) (by +ℤ one) paint_ink f3 in
    let x0 = min_ℤ ax bx in
    let y0 = min_ℤ ay by in
    let x1 = max_ℤ ax bx in
    let y1 = max_ℤ ay by in
    fb_flip_rect (x0 -ℤ one) (y0 -ℤ one) (x1 -ℤ x0 +ℤ pos 4) (y1 -ℤ y0 +ℤ pos 4) f4

-- The text of the status bar.
unfoldable pub status_text : ℤ → ℤ → ℕ → List ℕ
unfolding append_int
status_text x y left =
    append_int (append_int [] x ++ (44 ∷ [])) y ++ (if left == 0 then [] else 32 ∷ 76 ∷ [])

unfoldable pub paint_button : Event → Canvas → Canvas
unfolding fb_fill_rect fb_flip
paint_button ev c =
    let w = pos c.fb.mode.width in
    let h = pos c.fb.mode.height in
    if ev.button == 0
    then record c { left = ev.pressed; last_x = ev.x; last_y = ev.y }
    else if (ev.button == 1) && not (ev.pressed == 0)
    then record c { fb = fb_flip (fb_fill_rect (pos 0) (pos 24) w (h -ℤ pos 24) paint_bg c.fb) }
    else c

module _ (font_glyph : ℕ → ℕ → ℕ) where
  unfoldable pub paint_move : Event → Canvas → Canvas
  unfolding stroke status_text fb_fill_rect fb_text fb_flip_rect
  paint_move ev c =
      let w = pos c.fb.mode.width in
      let drawn : Fb =
        if (not (c.left == 0) && not (ltb_ℤ c.last_x (pos 0))) && ltb_ℤ (pos 24) ev.y
        then stroke c.last_x c.last_y ev.x ev.y c.fb
        else c.fb in
      let bar = fb_fill_rect (w -ℤ pos 120) (pos 0) (pos 120) (pos 24) paint_bar drawn in
      let text =
        fb_text font_glyph (w -ℤ pos 112) (pos 4) (status_text ev.x ev.y c.left) paint_ink bar in
      record c {
        fb = fb_flip_rect (w -ℤ pos 120) (pos 0) (pos 120) (pos 24) text;
        last_x = ev.x;
        last_y = ev.y;
      }

  -- An event in the loop; `none` when it ends the loop.
  unfoldable pub paint_event : Event → Canvas → Option Canvas
  unfolding paint_button paint_move
  paint_event ev c = elim ev.type [
    | ev_key ↦ if ev.ch == 27 then none else some c
    | ev_mouse_button ↦ some (paint_button ev c)
    | ev_mouse_move ↦ some (paint_move ev c)
    | ev_tick ↦ some c
  ]

  unfoldable pub paint_start : Fb → Canvas
  unfolding fb_fill_rect fb_text fb_flip
  paint_start fb =
      let w = pos fb.mode.width in
      let h = pos fb.mode.height in
      let page = fb_fill_rect (pos 0) (pos 0) w h paint_bg fb in
      let bar = fb_fill_rect (pos 0) (pos 0) w (pos 24) paint_bar page in
      let text =
        fb_text font_glyph (pos 8) (pos 4)
          (chars "paint  -  hold left button to draw, right click clears, ESC exits") 0x9090A0
          bar in
      record { fb = fb_flip text; last_x = negsuc 0; last_y = negsuc 0; left = 0 }

module _ {S : Type 0} (m : Machine S) (font_glyph : ℕ → ℕ → ℕ) where
  -- The loop of `cmd_paint`, for at most `fuel` events; `none` while it has not ended.
  unfoldable pub paint_from : ℕ → Canvas → S → Option S
  unfolding paint_event
  paint_from zero c s = none
  paint_from (suc fuel) c s = elim (m.input_wait s) [
    | none ↦ none
    | some (ev, s1) ↦ elim (paint_event font_glyph ev (record c { fb = m.screen s1 })) [
      | none ↦ some (m.console_clear s1)
      | some c1 ↦ paint_from fuel c1 (m.set_screen c1.fb s1)
    ]
  ]

  unfoldable pub cmd_paint : ℕ → S → Option S
  unfolding paint_start paint_from
  cmd_paint fuel s =
      let c = paint_start font_glyph (m.screen s) in
      paint_from fuel c (m.input_flush (m.set_screen c.fb s))
