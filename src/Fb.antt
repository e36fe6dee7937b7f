-- ===== src/Fb.antt =====
-- kernel/fb.c: pixels, rectangles and lines on a framebuffer. An `int` is an integer, where the sums of
-- rectangles and lines wrap at 32 bits; a buffer is a function from offsets to bytes. `Fb` is the driver's static state, where
-- drawing goes to the backbuffer once there is one. Fb/Shapes has circles, rounded rectangles and
-- text, and Fb/Flip what brings the backbuffer to the screen.
pub mod Shapes
pub mod Flip
pub mod Rows
pub mod Area
pub mod Fill
pub mod Exact
pub mod Step
pub mod Line
pub mod Sqrt
mod Tests
use red_panda_os.Prelude.{
  ℕ, zero, suc, ◌+◌, ◌-◌, ◌*◌, ◌/◌, ◌%◌, ◌^◌, ◌≤◌, ◌<◌, min, max, bit_and, bit_or, bit_xor, ◌≡◌,
  refl, sym, ap, ap₂, ◌∙◌, fun_ext, subst, ◌≢◌, ◌↔◌, ◌⊎◌, inl, inr, Bool, true, false, not, ◌&&◌,
  ◌||◌, Option, none, some, List, [], ◌∷◌, ◌++◌, map, arith, ltb, leb, ◌==◌, if◌then◌else◌, ltb→lt,
  lt→ltb, leb→le, ==_iff, tests, Bool-cases, Option-cases, length, get_elem?, get_or, set, take,
  drop, replicate, length-append, length-set, length-take, length-drop, length-replicate,
  take-append-drop, get_elem?-set_self, get_elem?-set_ne, length-map, u8, u16, u32, u64, sub32, shr,
  shl,
}
use red_panda_os.Prelude.Wrap.{int32}
use red_panda_os.Prelude.Int.{ℤ, pos, negsuc, ◌+ℤ◌, ◌-ℤ◌, ◌*ℤ◌, pos_part, neg_part, ltb_ℤ, abs}

abbrev pub Bytes : Type 0
Bytes = ℕ → ℕ

-- Of `W`, `H`, `pitch` and `bypp`, the screen's size and layout.
pub record Mode : Type 0 where
  pub width : ℕ
  pub height : ℕ
  pub pitch : ℕ
  pub bypp : ℕ

-- The state of kernel/fb.c; `target` is the backbuffer if there is one, and else the screen.
pub record Fb : Type 0 where
  pub lfb : Bytes
  pub backbuf : Option Bytes
  pub mode : Mode
  pub cur_sprite : Option Bytes
  pub cur_w : ℕ
  pub cur_h : ℕ
  pub cur_hx : ℤ
  pub cur_hy : ℤ
  pub cur_x : ℤ
  pub cur_y : ℤ
  pub cur_visible : Bool

unfoldable pub target : Fb → Bytes
target fb = elim fb.backbuf [ none ↦ fb.lfb | some m ↦ m ]

-- Drawing by `draw` on the target.
unfoldable pub on_target : (Bytes → Bytes) → Fb → Fb
on_target draw fb = elim fb.backbuf [
  | none ↦ record fb { lfb = draw fb.lfb }
  | some m ↦ record fb { backbuf = some (draw m) }
]

-- Whether two integers are equal.
abbrev pub eq_ℤ : ℤ → ℤ → Bool
eq_ℤ a b = pos_part a + neg_part b == pos_part b + neg_part a

unfoldable pub set_byte : ℕ → ℕ → Bytes → Bytes
set_byte at v m = λ o. if o == at then v else m o

-- The offset of a pixel, in `uint32_t` products.
unfoldable pub offset : Mode → ℕ → ℕ → ℕ
offset mode x y = u32 (y * mode.pitch) + u32 (x * mode.bypp)

-- Blue, green and red at `at`.
unfoldable pub put_bgr : ℕ → ℕ → Bytes → Bytes
unfolding set_byte
put_bgr at rgb m =
    set_byte (at + 2) (u8 (shr rgb 16))
      (set_byte (at + 1) (u8 (shr rgb 8)) (set_byte at (u8 rgb) m))

-- Whether a point is on the screen.
unfoldable pub on_screen : Mode → ℤ → ℤ → Bool
on_screen mode x y = not (
    ltb_ℤ x (pos 0)
    || (ltb_ℤ y (pos 0) || (not (ltb_ℤ x (pos mode.width)) || not (ltb_ℤ y (pos mode.height)))))

unfoldable pub put_pixel : Mode → ℤ → ℤ → ℕ → Bytes → Bytes
unfolding on_screen offset put_bgr set_byte
put_pixel mode x y rgb m =
    let at = offset mode (pos_part x) (pos_part y) in
    let m' = put_bgr at rgb m in
    if on_screen mode x y then if mode.bypp == 4 then set_byte (at + 3) 0 m' else m' else m

unfoldable pub fb_putpixel : ℤ → ℤ → ℕ → Fb → Fb
unfolding put_pixel on_target
fb_putpixel x y rgb fb = on_target (put_pixel fb.mode x y rgb) fb

-- One direction of the clipping: the part of `len` units from `x` on that lies below `limit`,
-- where a length that is not positive is 0.
unfoldable pub clip : ℕ → ℤ → ℤ → ℕ × ℕ
clip limit x len =
    let x' = if ltb_ℤ x (pos 0) then pos 0 else x in
    let len' = if ltb_ℤ x (pos 0) then int32 (len +ℤ x) else len in
    let len'' = if ltb_ℤ (pos limit) (int32 (x' +ℤ len')) then int32 (pos limit -ℤ x') else len' in
    (pos_part x', pos_part len'')

-- `n` pixels from offset `at` on.
unfoldable pub fill_row : ℕ → ℕ → ℕ → ℕ → Bytes → Bytes
unfolding put_bgr set_byte
fill_row zero bypp at rgb m = m
fill_row (suc n) bypp at rgb m =
    let m' = put_bgr at rgb m in
    if bypp == 4
    then fill_row n bypp (at + 4) rgb (set_byte (at + 3) (u8 (shr rgb 24)) m')
    else fill_row n bypp (at + 3) rgb m'

-- `n` rows from `row` on, each of `w` pixels from `x` on.
unfoldable pub fill_rows : Mode → ℕ → ℕ → ℕ → ℕ → ℕ → Bytes → Bytes
unfolding fill_row offset
fill_rows mode zero row x w rgb m = m
fill_rows mode (suc n) row x w rgb m =
    fill_rows mode n (suc row) x w rgb (fill_row w mode.bypp (offset mode x row) rgb m)

-- How often a loop from `start` on, below the `int` `start + n`, runs.
unfoldable pub rounds : ℕ → ℕ → ℕ
rounds start n = pos_part (int32 (pos start +ℤ pos n) -ℤ pos start)

unfoldable pub fill_rect : Mode → ℤ → ℤ → ℤ → ℤ → ℕ → Bytes → Bytes
unfolding clip fill_rows rounds
fill_rect mode x y w h rgb m =
    let (x', w') = clip mode.width x w in
    let (y', h') = clip mode.height y h in
    if (w' == 0) || (h' == 0) then m else fill_rows mode (rounds y' h') y' x' w' rgb m

unfoldable pub fb_fill_rect : ℤ → ℤ → ℤ → ℤ → ℕ → Fb → Fb
unfolding fill_rect on_target
fb_fill_rect x y w h rgb fb = on_target (fill_rect fb.mode x y w h rgb) fb

unfoldable pub fb_draw_rect : ℤ → ℤ → ℤ → ℤ → ℕ → Fb → Fb
unfolding fb_fill_rect
fb_draw_rect x y w h rgb fb = fb_fill_rect (int32 (int32 (x +ℤ w) -ℤ pos 1)) y (pos 1) h rgb (
    fb_fill_rect x y (pos 1) h rgb (
      fb_fill_rect x (int32 (int32 (y +ℤ h) -ℤ pos 1)) w (pos 1) rgb
        (fb_fill_rect x y w (pos 1) rgb fb)))

-- How far two coordinates are apart.
unfoldable pub span : ℤ → ℤ → ℤ
span a b = if ltb_ℤ a b then int32 (b -ℤ a) else int32 (a -ℤ b)

-- `x0`, `y0` and `err` of the line's loop.
pub record Pen : Type 0 where
  pub x : ℤ
  pub y : ℤ
  pub err : ℤ

-- One step towards the end: up when `up`.
unfoldable pub toward : Bool → ℤ → ℤ
toward up x = if up then int32 (x +ℤ pos 1) else int32 (x +ℤ negsuc 0)

-- The rest of a round after its pixel; `right` and `down` are the signs of `sx` and `sy`.
unfoldable pub line_step : ℤ → ℤ → Bool → Bool → Pen → Pen
unfolding toward
line_step dx dy right down p =
    let e2 = int32 (p.err *ℤ pos 2) in
    let p1 : Pen =
      if ltb_ℤ (int32 (pos 0 -ℤ dy)) e2
      then record p { x = toward right p.x; err = int32 (p.err -ℤ dy) }
      else p in
    if ltb_ℤ e2 dx then record p1 { y = toward down p1.y; err = int32 (p1.err +ℤ dx) } else p1

-- At most `fuel` rounds of the loop; `none` when it has not ended.
unfoldable pub line_loop : ℕ → ℤ → ℤ → Bool → Bool → ℤ → ℤ → ℕ → Pen → Fb → Option Fb
unfolding fb_putpixel line_step
line_loop zero dx dy right down x1 y1 rgb p fb = none
line_loop (suc n) dx dy right down x1 y1 rgb p fb =
    let fb' = fb_putpixel p.x p.y rgb fb in
    let rest = line_loop n dx dy right down x1 y1 rgb (line_step dx dy right down p) fb' in
    if eq_ℤ p.x x1 && eq_ℤ p.y y1 then some fb' else rest

-- With a round more than the points are apart in both directions together.
unfoldable pub fb_line : ℤ → ℤ → ℤ → ℤ → ℕ → Fb → Option Fb
unfolding span line_loop
fb_line x0 y0 x1 y1 rgb fb =
    let dx = span x0 x1 in
    let dy = span y0 y1 in
    line_loop (pos_part dx + pos_part dy + 1) dx dy (ltb_ℤ x0 x1) (ltb_ℤ y0 y1) x1 y1 rgb
      (record { x = x0; y = y0; err = int32 (dx -ℤ dy) }) fb
