-- ===== src/Mouse/Inv.antt =====
-- kernel/mouse.c: what holds of the mouse whatever bytes arrive.
use red_panda_os.Prelude.{
  ℕ, zero, suc, ◌≤◌, ◌<◌, bit_and, ◌≡◌, refl, ◌∙◌, inl, inr, false, ◌&&◌, ◌||◌, Option, none, some,
  List, [], ◌∷◌, arith, ◌==◌, Bool-cases, Option-cases, length, get_or, set, length-set,
}
use red_panda_os.Prelude.Int.{ℤ, pos, ◌+ℤ◌, ◌-ℤ◌, pos_part, neg_part}
use red_panda_os.Fb.{Fb, eq_ℤ, clip}
use red_panda_os.Fb.Flip.{
  fb_cursor_move, fb_flip_rect, flip_part, flip_from, flip_rows, composite_cursor, draw_cursor,
}
use red_panda_os.Mouse.{Desk, accel, clamp, moved, delta, process_packet, mouse_irq}

-- A coordinate of the screen.
abbrev pub OnScreen : ℤ → ℕ → Type 0
OnScreen v size = (neg_part v ≡ 0) × (pos_part v < size)

-- The packet has its three bytes and begins with a first byte, the cursor is on the screen.
pub record IsValid (d : Desk) : Type 0 where
  pub room : length d.mouse.packet ≡ 3
  pub in_packet : d.mouse.cycle < 3
  pub in_sync : 0 < d.mouse.cycle → (bit_and (get_or d.mouse.packet 0 0) 8 == 0) ≡ false
  pub on_x : OnScreen d.mouse.mx d.fb.mode.width
  pub on_y : OnScreen d.mouse.my d.fb.mode.height

composite_cursor-mode : (x y w h : ℤ) (fb : Fb) → (composite_cursor x y w h fb).mode ≡ fb.mode
unfolding composite_cursor draw_cursor
composite_cursor-mode x y w h fb = elim (Option-cases fb.cur_sprite) [
  | inl e ↦ rw e refl
  | inr (s, e) ↦ elim (Option-cases fb.backbuf) [
    | inl f ↦ rw (e, f) refl
    | inr (b, f) ↦ elim (Bool-cases fb.cur_visible) [
      | inl g ↦ rw (e, f, g) refl
      | inr g ↦ rw (e, f, g) refl
    ]
  ]
]

flip_part-mode : (p q : ℕ × ℕ) (back : ℕ → ℕ) (fb : Fb) → (flip_part p q back fb).mode ≡ fb.mode
unfolding flip_part
flip_part-mode (x, w) (y, h) back fb = elim (Bool-cases ((w == 0) || (h == 0))) [
  | inl e ↦ rw e refl
  | inr e ↦
      let flipped = record fb { lfb = flip_rows fb.mode h y x w back fb.lfb } in
      rw e (composite_cursor-mode (pos x) (pos y) (pos w) (pos h) flipped)
]

flip_from-mode : (o : Option (ℕ → ℕ)) (p q : ℕ × ℕ) (fb : Fb) → (flip_from o p q fb).mode ≡ fb.mode
unfolding flip_from
flip_from-mode none p q fb = refl
flip_from-mode (some back) p q fb = flip_part-mode p q back fb

fb_flip_rect-mode : (x y w h : ℤ) (fb : Fb) → (fb_flip_rect x y w h fb).mode ≡ fb.mode
unfolding fb_flip_rect
fb_flip_rect-mode x y w h fb =
    flip_from-mode fb.backbuf (clip fb.mode.width x w) (clip fb.mode.height y h) fb

fb_cursor_move-mode : (x y : ℤ) (fb : Fb) → (fb_cursor_move x y fb).mode ≡ fb.mode
unfolding fb_cursor_move
fb_cursor_move-mode x y fb =
    let moved = record fb { cur_x = x; cur_y = y } in
    let ox = fb.cur_x -ℤ fb.cur_hx in
    let oy = fb.cur_y -ℤ fb.cur_hy in
    let back = fb_flip_rect ox oy (pos fb.cur_w) (pos fb.cur_h) moved in
    fb_flip_rect-mode (x -ℤ fb.cur_hx) (y -ℤ fb.cur_hy) (pos fb.cur_w) (pos fb.cur_h) back
    ∙ fb_flip_rect-mode ox oy (pos fb.cur_w) (pos fb.cur_h) moved

clamp-OnScreen : (size : ℕ) (v : ℤ) → 0 < size → OnScreen (clamp size v) size
unfolding clamp ◌-ℤ◌
clamp-OnScreen size v h = (ground (arith, h), ground (arith, h))

cursor_x :
    (d : Desk) (x y : ℤ) (v : ℤ)
    → OnScreen v d.fb.mode.width
    → OnScreen v (fb_cursor_move x y d.fb).mode.width
cursor_x d x y v h = rw (fb_cursor_move-mode x y d.fb) h

cursor_y :
    (d : Desk) (x y : ℤ) (v : ℤ)
    → OnScreen v d.fb.mode.height
    → OnScreen v (fb_cursor_move x y d.fb).mode.height
cursor_y d x y v h = rw (fb_cursor_move-mode x y d.fb) h

put_in_sync :
    (xs : List ℕ) (i b : ℕ)
    → 1 ≤ length xs
    → (0 < i → (bit_and (get_or xs 0 0) 8 == 0) ≡ false)
    → ((i == 0) && (bit_and b 8 == 0)) ≡ false
    → (bit_and (get_or (set xs i b) 0 0) 8 == 0) ≡ false
put_in_sync [] i b h old new = absurd (omega arith)
put_in_sync (x ∷ xs) zero b h old new = new
put_in_sync (x ∷ xs) (suc i) b h old new = old (omega arith)

module _ (d : Desk) (wide : 0 < d.fb.mode.width) (high : 0 < d.fb.mode.height) where
  process_packet-IsValid : IsValid d → d.mouse.cycle ≡ 0 → IsValid (process_packet d)
  unfolding process_packet moved
  process_packet-IsValid v start =
      let m = d.mouse in
      let flags = get_or m.packet 0 0 in
      let dx = delta (get_or m.packet 1 0) flags 0x10 in
      let dy = delta (get_or m.packet 2 0) flags 0x20 in
      let m1 = moved d.fb dx dy m in
      elim (Bool-cases (bit_and flags 0xC0 == 0)) [
        | inl ok ↦ elim (Bool-cases (eq_ℤ dx (pos 0) && eq_ℤ dy (pos 0))) [
          | inl still ↦
              rw (ok, still)
                (record {
                  room = v.room;
                  in_packet = v.in_packet;
                  in_sync = v.in_sync;
                  on_x = v.on_x;
                  on_y = v.on_y;
                })
          | inr going ↦
              rw (ok, going)
                (record {
                  room = v.room;
                  in_packet = v.in_packet;
                  in_sync = v.in_sync;
                  on_x =
                      cursor_x d m1.mx m1.my m1.mx
                        (clamp-OnScreen d.fb.mode.width (m.mx +ℤ accel dx) wide);
                  on_y =
                      cursor_y d m1.mx m1.my m1.my
                        (clamp-OnScreen d.fb.mode.height (m.my -ℤ accel dy) high);
                })
        ]
        | inr overflow ↦ rw overflow v
      ]

-- On a screen that is not empty, whatever byte arrives, these stay true: the cursor is on the screen,
-- the packet is not overrun, and one that is being filled begins with a byte that has the bit of a
-- first byte.
pub mouse_irq-IsValid :
    (b : ℕ) (d : Desk)
    → 0 < d.fb.mode.width
    → 0 < d.fb.mode.height
    → IsValid d
    → IsValid (mouse_irq b d)
unfolding mouse_irq
mouse_irq-IsValid b d wide high v =
    let m = d.mouse in
    let put = record m { packet = set m.packet m.cycle b; cycle = suc m.cycle } in
    let room : length put.packet ≡ 3 = length-set m.packet m.cycle b ∙ v.room in
    elim (Bool-cases ((m.cycle == 0) && (bit_and b 8 == 0))) [
      | inl skipped ↦ rw skipped v
      | inr taken ↦ elim (Bool-cases (suc m.cycle == 3)) [
        | inl full ↦
            let whole : IsValid (record d { mouse = record put { cycle = 0 } }) = record {
              room = room;
              in_packet = omega arith;
              in_sync = λ h. absurd (omega (arith, h));
              on_x = v.on_x;
              on_y = v.on_y;
            } in
            rw (taken, full)
              (process_packet-IsValid (record d { mouse = record put { cycle = 0 } }) wide high
                whole refl)
        | inr more ↦
            rw (taken, more)
              (record {
                room = room;
                in_packet = ground (arith, v.in_packet, more);
                in_sync =
                    λ h. put_in_sync m.packet m.cycle b (omega (arith, v.room)) v.in_sync taken;
                on_x = v.on_x;
                on_y = v.on_y;
              })
      ]
    ]
