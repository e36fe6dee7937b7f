-- ===== src/Fb/Flip.antt =====
-- kernel/fb.c: from the backbuffer to the screen, with the mouse cursor on top. The sprite is a
-- function from positions to ARGB words.
use red_panda_os.Prelude.{
  ℕ, zero, suc, ◌+◌, ◌-◌, ◌*◌, ◌/◌, Bool, ◌&&◌, ◌||◌, Option, none, some, ltb, leb, ◌==◌,
  if◌then◌else◌, u8, u32, shr,
}
use red_panda_os.Prelude.Int.{ℤ, pos, ◌+ℤ◌, ◌-ℤ◌, pos_part, ltb_ℤ}
use red_panda_os.Fb.{
  Bytes, Mode, Fb, target, on_target, set_byte, offset, put_bgr, clip, fb_fill_rect,
}
use red_panda_os.Fb.Shapes.{blend}

-- The `memcpy` of `n` bytes at offset `at`.
unfoldable pub copy_at : ℕ → ℕ → Bytes → Bytes → Bytes
copy_at at n src dst = λ o. if leb at o && ltb o (at + n) then src o else dst o

-- One pixel of the cursor, with the bytes `bg` under it.
unfoldable pub cursor_pixel : Mode → ℕ → ℕ → Bytes → Bytes → Bytes
unfolding set_byte put_bgr blend
cursor_pixel mode at s bg dst =
    let a = shr s 24 in
    let opaque = put_bgr at s dst in
    let mixed = set_byte (at + 2) (blend (u8 (shr s 16)) a (bg (at + 2))) (
      set_byte (at + 1) (blend (u8 (shr s 8)) a (bg (at + 1)))
        (set_byte at (blend (u8 s) a (bg at)) dst)) in
    let drawn = if a == 255 then opaque else mixed in
    if a == 0 then dst else if mode.bypp == 4 then set_byte (at + 3) 0 drawn else drawn

-- `n` pixels of the cursor from `x` on, in row `y`; the sprite starts at `sx` and `sy`.
unfoldable pub cursor_row : Mode → Bytes → ℕ → ℤ → ℤ → Bytes → ℕ → ℕ → ℕ → Bytes → Bytes
unfolding cursor_pixel offset
cursor_row mode sprite cw sx sy bg zero x y dst = dst
cursor_row mode sprite cw sx sy bg (suc n) x y dst =
    let s = sprite (pos_part (pos y -ℤ sy) * cw + pos_part (pos x -ℤ sx)) in
    cursor_row mode sprite cw sx sy bg n (suc x) y (cursor_pixel mode (offset mode x y) s bg dst)

unfoldable pub cursor_rows : Mode → Bytes → ℕ → ℤ → ℤ → Bytes → ℕ → ℕ → ℕ → ℕ → Bytes → Bytes
unfolding cursor_row
cursor_rows mode sprite cw sx sy bg zero w x y dst = dst
cursor_rows mode sprite cw sx sy bg (suc n) w x y dst =
    cursor_rows mode sprite cw sx sy bg n w x (suc y) (cursor_row mode sprite cw sx sy bg w x y dst)

unfoldable pub max_ℤ : ℤ → ℤ → ℤ
max_ℤ a b = if ltb_ℤ b a then a else b

unfoldable pub min_ℤ : ℤ → ℤ → ℤ
min_ℤ a b = if ltb_ℤ a b then a else b

-- The sprite drawn over the rectangle of the screen.
unfoldable pub draw_cursor : Bytes → Bytes → ℤ → ℤ → ℤ → ℤ → Fb → Fb
unfolding cursor_rows max_ℤ min_ℤ
draw_cursor sprite back rx ry rw rh fb =
    let sx = fb.cur_x -ℤ fb.cur_hx in
    let sy = fb.cur_y -ℤ fb.cur_hy in
    let x0 = max_ℤ (max_ℤ rx sx) (pos 0) in
    let y0 = max_ℤ (max_ℤ ry sy) (pos 0) in
    let x1 = min_ℤ (min_ℤ (rx +ℤ rw) (sx +ℤ pos fb.cur_w)) (pos fb.mode.width) in
    let y1 = min_ℤ (min_ℤ (ry +ℤ rh) (sy +ℤ pos fb.cur_h)) (pos fb.mode.height) in
    record fb {
      lfb =
          cursor_rows fb.mode sprite fb.cur_w sx sy back (pos_part (y1 -ℤ y0)) (pos_part (x1 -ℤ x0))
            (pos_part x0) (pos_part y0) fb.lfb;
    }

unfoldable pub composite_cursor : ℤ → ℤ → ℤ → ℤ → Fb → Fb
unfolding draw_cursor
composite_cursor rx ry rw rh fb = elim fb.cur_sprite [
  | none ↦ fb
  | some sprite ↦ elim fb.backbuf [
    | none ↦ fb
    | some back ↦ if fb.cur_visible then draw_cursor sprite back rx ry rw rh fb else fb
  ]
]

unfoldable pub fb_buffer_size : Fb → ℕ
fb_buffer_size fb = u32 (fb.mode.pitch * fb.mode.height)

-- `bpp` is the bits per pixel; the rest of the state is as it was.
unfoldable pub fb_init : ℕ → ℕ → ℕ → ℕ → Bytes → Fb → Fb
fb_init width height bpp pitch screen fb = record fb {
  lfb = screen;
  mode = record { width = width; height = height; pitch = pitch; bypp = bpp / 8 };
}

-- `got` is the bytes that the heap gives, or `none` for the null pointer.
unfoldable pub fb_enable_backbuffer : Option Bytes → Fb → Fb
unfolding copy_at fb_buffer_size
fb_enable_backbuffer none fb = record fb { backbuf = none }
fb_enable_backbuffer (some m) fb = record fb {
  backbuf = some (copy_at 0 (fb_buffer_size fb) fb.lfb m);
}

unfoldable pub fb_snapshot : Fb → Bytes → Bytes
unfolding copy_at target fb_buffer_size
fb_snapshot fb dst = copy_at 0 (fb_buffer_size fb) (target fb) dst

unfoldable pub fb_restore : Bytes → Fb → Fb
unfolding copy_at fb_buffer_size
fb_restore src fb = elim fb.backbuf [
  | none ↦ fb
  | some m ↦ record fb { backbuf = some (copy_at 0 (fb_buffer_size fb) src m) }
]

unfoldable pub fb_flip : Fb → Fb
unfolding copy_at fb_buffer_size composite_cursor
fb_flip fb = elim fb.backbuf [
  | none ↦ fb
  | some back ↦
      composite_cursor (pos 0) (pos 0) (pos fb.mode.width) (pos fb.mode.height)
        (record fb { lfb = copy_at 0 (fb_buffer_size fb) back fb.lfb })
]

-- `n` rows from `row` on, each of `w` pixels from `x` on.
unfoldable pub flip_rows : Mode → ℕ → ℕ → ℕ → ℕ → Bytes → Bytes → Bytes
unfolding copy_at offset
flip_rows mode zero row x w back m = m
flip_rows mode (suc n) row x w back m =
    flip_rows mode n (suc row) x w back (copy_at (offset mode x row) (w * mode.bypp) back m)

-- The rectangle's rows, where it has been clipped.
unfoldable pub flip_part : ℕ × ℕ → ℕ × ℕ → Bytes → Fb → Fb
unfolding flip_rows composite_cursor
flip_part (x, w) (y, h) back fb =
    if (w == 0) || (h == 0)
    then fb
    else composite_cursor (pos x) (pos y) (pos w) (pos h)
        (record fb { lfb = flip_rows fb.mode h y x w back fb.lfb })

-- From the backbuffer, if there is one.
unfoldable pub flip_from : Option Bytes → ℕ × ℕ → ℕ × ℕ → Fb → Fb
unfolding flip_part
flip_from none xs ys fb = fb
flip_from (some back) xs ys fb = flip_part xs ys back fb

unfoldable pub fb_flip_rect : ℤ → ℤ → ℤ → ℤ → Fb → Fb
unfolding flip_from clip
fb_flip_rect x y w h fb = flip_from fb.backbuf (clip fb.mode.width x w) (clip fb.mode.height y h) fb

unfoldable pub fb_set_cursor_sprite : Bytes → ℕ → ℕ → ℤ → ℤ → Fb → Fb
fb_set_cursor_sprite argb w h hot_x hot_y fb = record fb {
  cur_sprite = some argb;
  cur_w = w;
  cur_h = h;
  cur_hx = hot_x;
  cur_hy = hot_y;
}

unfoldable pub fb_cursor_show : Bool → Fb → Fb
unfolding fb_flip_rect
fb_cursor_show visible fb =
    fb_flip_rect (fb.cur_x -ℤ fb.cur_hx) (fb.cur_y -ℤ fb.cur_hy) (pos fb.cur_w) (pos fb.cur_h)
      (record fb { cur_visible = visible })

unfoldable pub fb_cursor_move : ℤ → ℤ → Fb → Fb
unfolding fb_flip_rect
fb_cursor_move x y fb =
    let ox = fb.cur_x -ℤ fb.cur_hx in
    let oy = fb.cur_y -ℤ fb.cur_hy in
    let moved = record fb { cur_x = x; cur_y = y } in
    fb_flip_rect (x -ℤ fb.cur_hx) (y -ℤ fb.cur_hy) (pos fb.cur_w) (pos fb.cur_h)
      (fb_flip_rect ox oy (pos fb.cur_w) (pos fb.cur_h) moved)

-- `n` rows from row `y` on, each from `pixels` rows below it.
unfoldable pub scroll_rows : Mode → ℕ → ℕ → ℕ → Bytes → Bytes
scroll_rows mode zero y pixels m = m
scroll_rows mode (suc n) y pixels m =
    let at = u32 (y * mode.pitch) in
    let from = u32 ((y + pixels) * mode.pitch) in
    scroll_rows mode n (suc y) pixels (λ o.
      if leb at o && ltb o (at + u32 (mode.width * mode.bypp)) then m (from + (o - at)) else m o)

unfoldable pub fb_scroll_up : ℕ → ℕ → Fb → Fb
unfolding scroll_rows fb_fill_rect fb_flip on_target
fb_scroll_up pixels rgb fb =
    let copied = on_target (scroll_rows fb.mode (fb.mode.height - pixels) 0 pixels) fb in
    fb_flip (
      fb_fill_rect (pos 0) (pos fb.mode.height -ℤ pos pixels) (pos fb.mode.width) (pos pixels) rgb
        copied)
