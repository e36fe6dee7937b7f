-- ===== src/Mouse.antt =====
-- kernel/mouse.c: from the bytes of the PS/2 mouse to a cursor and events. The byte that the handler
-- reads from the port is an argument; the cursor moves on kernel/fb.c's screen, and the events go to
-- kernel/input.c's queue.
pub mod Inv
pub mod Buttons
pub mod Start
mod Tests
use red_panda_os.Prelude.{
  ℕ, zero, suc, ◌+◌, ◌-◌, ◌*◌, ◌/◌, ◌%◌, ◌^◌, ◌≤◌, ◌<◌, min, max, bit_and, bit_or, bit_xor, ◌≡◌,
  refl, sym, ap, ap₂, ◌∙◌, fun_ext, subst, ◌≢◌, ◌↔◌, ◌⊎◌, inl, inr, Bool, true, false, not, ◌&&◌,
  ◌||◌, Option, none, some, List, [], ◌∷◌, ◌++◌, map, arith, ltb, leb, ◌==◌, if◌then◌else◌, ltb→lt,
  lt→ltb, leb→le, ==_iff, tests, Bool-cases, Option-cases, length, get_elem?, get_or, set, take,
  drop, replicate, length-append, length-set, length-take, length-drop, length-replicate,
  take-append-drop, get_elem?-set_self, get_elem?-set_ne, length-map, u8, u16, u32, u64, sub32, shr,
  shl,
}
use red_panda_os.Prelude.Int.{ℤ, pos, negsuc, ◌+ℤ◌, ◌-ℤ◌, ◌*ℤ◌, pos_part, neg_part, ltb_ℤ}
use red_panda_os.Fb.{Fb, eq_ℤ}
use red_panda_os.Fb.Flip.{fb_cursor_move}
use red_panda_os.Input.{EventType, ev_mouse_move, ev_mouse_button, Event, Queue, push_all}

pub record Mouse : Type 0 where
  pub packet : List ℕ
  pub cycle : ℕ
  pub mx : ℤ
  pub my : ℤ
  pub buttons : ℕ

-- The mouse with the screen and the queue that its handler changes.
pub record Desk : Type 0 where
  pub mouse : Mouse
  pub queue : Queue
  pub fb : Fb

unfoldable pub accel : ℤ → ℤ
accel d =
    let ad = if ltb_ℤ d (pos 0) then pos 0 -ℤ d else d in
    if ltb_ℤ (pos 10) ad then d *ℤ pos 3 else if ltb_ℤ (pos 5) ad then d *ℤ pos 2 else d

-- The cast to `int16_t`.
unfoldable pub int16 : ℤ → ℤ
int16 (pos n) = if ltb (u16 n) (2 ^ 15) then pos (u16 n) else pos (u16 n) -ℤ pos (2 ^ 16)
int16 (negsuc n) = if ltb (u16 n) (2 ^ 15) then negsuc (u16 n) else pos (2 ^ 16 - 1 - u16 n)

-- A coordinate kept from 0 to `size - 1`.
unfoldable pub clamp : ℕ → ℤ → ℤ
clamp size v =
    let v' = if ltb_ℤ v (pos 0) then pos 0 else v in
    let last = pos size -ℤ pos 1 in if ltb_ℤ last v' then last else v'

unfoldable pub move_event : ℤ → ℤ → Event
unfolding int16
move_event mx my = record {
  type = ev_mouse_move;
  ch = 0;
  button = 0;
  pressed = 0;
  x = int16 mx;
  y = int16 my;
}

unfoldable pub button_event : ℕ → ℕ → ℤ → ℤ → Event
unfolding int16
button_event b now mx my = record {
  type = ev_mouse_button;
  ch = 0;
  button = b;
  pressed = bit_and (shr now b) 1;
  x = int16 mx;
  y = int16 my;
}

-- The events of the buttons from `b` on, of which there are `n`, that have changed.
unfoldable pub button_events : ℕ → ℕ → ℕ → ℕ → ℤ → ℤ → List Event
unfolding button_event
button_events zero b changed now mx my = []
button_events (suc n) b changed now mx my =
    let rest = button_events n (suc b) changed now mx my in
    if bit_and changed (shl 1 b) == 0 then rest else button_event b now mx my ∷ rest

-- The position after a movement.
unfoldable pub moved : Fb → ℤ → ℤ → Mouse → Mouse
unfolding accel clamp
moved fb dx dy m = record m {
  mx = clamp fb.mode.width (m.mx +ℤ accel dx);
  my = clamp fb.mode.height (m.my -ℤ accel dy);
}

-- A byte of the packet with its sign from the flags.
unfoldable pub delta : ℕ → ℕ → ℕ → ℤ
delta byte flags mask = pos byte -ℤ pos (if bit_and flags mask == 0 then 0 else 256)

unfoldable pub process_packet : Desk → Desk
unfolding delta moved move_event button_events
process_packet d =
    let m = d.mouse in
    let flags = get_or m.packet 0 0 in
    let dx = delta (get_or m.packet 1 0) flags 0x10 in
    let dy = delta (get_or m.packet 2 0) flags 0x20 in
    let still = eq_ℤ dx (pos 0) && eq_ℤ dy (pos 0) in
    let m1 = if still then m else moved d.fb dx dy m in
    let fb1 = if still then d.fb else fb_cursor_move m1.mx m1.my d.fb in
    let q1 = if still then d.queue else push_all d.queue (move_event m1.mx m1.my ∷ []) in
    let now = bit_and flags 7 in
    let changed = bit_xor now m.buttons in
    let q2 = push_all q1 (button_events 3 0 changed now m1.mx m1.my) in
    if bit_and flags 0xC0 == 0
    then record { mouse = record m1 { buttons = now }; queue = q2; fb = fb1 }
    else d

unfoldable pub mouse_irq : ℕ → Desk → Desk
unfolding process_packet
mouse_irq b d =
    let m = d.mouse in
    let put = record m { packet = set m.packet m.cycle b; cycle = suc m.cycle } in
    let full = process_packet (record d { mouse = record put { cycle = 0 } }) in
    if (m.cycle == 0) && (bit_and b 8 == 0)
    then d
    else if suc m.cycle == 3
    then full
    else record d { mouse = put }

-- The position that `mouse_init` starts from, with the rest as it is at boot.
unfoldable pub mouse_start : Fb → Mouse
mouse_start fb = record {
  packet = 0 ∷ 0 ∷ 0 ∷ [];
  cycle = 0;
  mx = pos (fb.mode.width / 2);
  my = pos (fb.mode.height / 2);
  buttons = 0;
}
