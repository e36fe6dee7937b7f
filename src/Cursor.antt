-- ===== src/Cursor.antt =====
-- kernel/cursor.c: the sprite of the mouse cursor, a function from positions to ARGB words.
use red_panda_os.Prelude.{
  ℕ, zero, suc, ◌+◌, ◌*◌, ◌/◌, Bool, true, not, ◌||◌, List, [], ◌∷◌, ◌==◌, if◌then◌else◌, get_or,
}
use red_panda_os.Prelude.Chars.{chars}
use red_panda_os.Prelude.Int.{ℤ, pos, ◌-ℤ◌, ltb_ℤ, pos_part}
use red_panda_os.Fb.{Bytes, Fb}
use red_panda_os.Fb.Flip.{fb_set_cursor_sprite, fb_cursor_move, fb_cursor_show}

abbrev pub art_w : ℕ
art_w = 12

abbrev pub art_h : ℕ
art_h = 19

-- `ART_W + PAD`
abbrev pub spr_w : ℕ
spr_w = 14

-- `ART_H + PAD`
abbrev pub spr_h : ℕ
spr_h = 21

unfoldable pub arrow : List (List ℕ)
unfolding chars
arrow =
    chars "X..........."
    ∷ chars "XX.........."
    ∷ chars "XWX........."
    ∷ chars "XWWX........"
    ∷ chars "XWWWX......."
    ∷ chars "XWWWWX......"
    ∷ chars "XWWWWWX....."
    ∷ chars "XWWWWWWX...."
    ∷ chars "XWWWWWWWX..."
    ∷ chars "XWWWWWWWWX.."
    ∷ chars "XWWWWWXXXXX."
    ∷ chars "XWWXWWX....."
    ∷ chars "XWX.XWWX...."
    ∷ chars "XX..XWWX...."
    ∷ chars "X....XWWX..."
    ∷ chars ".....XWWX..."
    ∷ chars "......XWWX.."
    ∷ chars "......XWWX.."
    ∷ chars ".......XX..."
    ∷ []

unfoldable pub art_at : ℤ → ℤ → ℕ
unfolding arrow
art_at x y =
    let c = get_or (get_or arrow (pos_part y) []) (pos_part x) 0 in
    if ltb_ℤ x (pos 0)
      || (ltb_ℤ y (pos 0) || (not (ltb_ℤ x (pos art_w)) || not (ltb_ℤ y (pos art_h))))
    then 0
    else if c == 88
    then 0xFF000000
    else if c == 87
    then 0xFFFFFFFF
    else 0

unfoldable pub put_word : ℕ → ℕ → Bytes → Bytes
put_word at v sprite = λ o. if o == at then v else sprite o

-- The first pass: `n` pixels of row `y` from `x` on, and `n` rows.
unfoldable pub arrow_row : ℕ → ℕ → ℕ → Bytes → Bytes
unfolding put_word art_at
arrow_row zero x y sprite = sprite
arrow_row (suc n) x y sprite =
    arrow_row n (suc x) y (put_word (y * spr_w + x) (art_at (pos x) (pos y)) sprite)

unfoldable pub arrow_rows : ℕ → ℕ → Bytes → Bytes
unfolding arrow_row
arrow_rows zero y sprite = sprite
arrow_rows (suc n) y sprite = arrow_rows n (suc y) (arrow_row spr_w 0 y sprite)

abbrev pub is_set : ℕ → Bool
is_set v = not (v == 0)

-- What the second pass makes of a pixel that is `v`.
unfoldable pub shade : ℕ → ℕ → ℕ → ℕ
unfolding art_at
shade x y v =
    let art = λ (dx dy : ℕ). is_set (art_at (pos x -ℤ pos dx) (pos y -ℤ pos dy)) in
    if is_set v
    then v
    else if art 1 1 || (art 1 0 || art 0 1)
    then 0x58000000
    else if art 2 2 || (art 2 1 || art 1 2)
    then 0x28000000
    else v

unfoldable pub shadow_row : ℕ → ℕ → ℕ → Bytes → Bytes
unfolding put_word shade
shadow_row zero x y sprite = sprite
shadow_row (suc n) x y sprite =
    let at = y * spr_w + x in shadow_row n (suc x) y (put_word at (shade x y (sprite at)) sprite)

unfoldable pub shadow_rows : ℕ → ℕ → Bytes → Bytes
unfolding shadow_row
shadow_rows zero y sprite = sprite
shadow_rows (suc n) y sprite = shadow_rows n (suc y) (shadow_row spr_w 0 y sprite)

-- `sprite` after both passes.
unfoldable pub cursor_sprite : Bytes → Bytes
unfolding arrow_rows shadow_rows
cursor_sprite sprite = shadow_rows spr_h 0 (arrow_rows spr_h 0 sprite)

unfoldable pub cursor_init : Bytes → Fb → Fb
unfolding cursor_sprite fb_set_cursor_sprite fb_cursor_move fb_cursor_show
cursor_init sprite fb =
    let fb1 = fb_set_cursor_sprite (cursor_sprite sprite) spr_w spr_h (pos 0) (pos 0) fb in
    fb_cursor_show true (fb_cursor_move (pos (fb1.mode.width / 2)) (pos (fb1.mode.height / 2)) fb1)
