-- ===== src/Icons.antt =====
-- kernel/gui.c, the desktop's icons: their cells, the saved layout, and where new ones go. A cell is
-- `ICON_CELL_W` = 96 by `ICON_CELL_H` = 92 pixels, `ICON_MARGIN` is 16 and `TASKBAR_H` 36.
pub mod Place
pub mod Clear
pub mod Layout
pub mod Saved
mod Tests
use red_panda_os.Prelude.{
  ℕ, zero, suc, ◌+◌, ◌-◌, ◌*◌, ◌/◌, ◌%◌, ◌^◌, ◌≤◌, ◌<◌, min, max, bit_and, bit_or, bit_xor, ◌≡◌,
  refl, sym, ap, ap₂, ◌∙◌, fun_ext, subst, ◌≢◌, ◌↔◌, ◌⊎◌, inl, inr, Bool, true, false, not, ◌&&◌,
  ◌||◌, Option, none, some, List, [], ◌∷◌, ◌++◌, map, arith, ltb, leb, ◌==◌, if◌then◌else◌, ltb→lt,
  lt→ltb, leb→le, ==_iff, tests, Bool-cases, Option-cases, length, get_elem?, get_or, set, take,
  drop, replicate, length-append, length-set, length-take, length-drop, length-replicate,
  take-append-drop, get_elem?-set_self, get_elem?-set_ne, length-map, u8, u16, u32, u64, sub32, shr,
  shl,
}
use red_panda_os.Prelude.Int.{ℤ, pos, negsuc, ◌+ℤ◌, ◌-ℤ◌, pos_part, ltb_ℤ}
use red_panda_os.Fb.{eq_ℤ}
use red_panda_os.Strings.{strcmp}

-- `icon_t`; `x` is -1 while the icon has no place.
pub record Icon : Type 0 where
  pub name : List ℕ
  pub size : ℕ
  pub x : ℤ
  pub y : ℤ
  pub selected : Bool

-- The static state of the desktop that the icons depend on.
pub record Desktop : Type 0 where
  pub icons : List Icon
  pub trash_x : ℤ
  pub trash_y : ℤ
  pub scr_w : ℤ
  pub scr_h : ℤ

-- `layout_rec_t`
pub record LayoutRec : Type 0 where
  pub name : List ℕ
  pub x : ℤ
  pub y : ℤ

unfoldable pub bounded : ℤ → ℤ → ℤ
bounded v top = let v' = if ltb_ℤ v (pos 0) then pos 0 else v in if ltb_ℤ top v' then top else v'

unfoldable pub clamp_cell : Desktop → ℤ × ℤ → ℤ × ℤ
unfolding bounded
clamp_cell d (x, y) = (bounded x (d.scr_w -ℤ pos 96), bounded y (d.scr_h -ℤ pos 36 -ℤ pos 72))

-- Whether two cells overlap.
unfoldable pub overlap : ℤ → ℤ → ℤ → ℤ → Bool
overlap cx cy ix iy =
    ltb_ℤ cx (ix +ℤ pos 96)
    && (ltb_ℤ ix (cx +ℤ pos 96) && (ltb_ℤ cy (iy +ℤ pos 92) && ltb_ℤ iy (cy +ℤ pos 92)))

unfoldable pub free_of : ℤ → ℤ → List Icon → Bool
unfolding overlap
free_of cx cy [] = true
free_of cx cy (ic ∷ icons) =
    let rest = free_of cx cy icons in
    if ltb_ℤ ic.x (pos 0) then rest else if overlap cx cy ic.x ic.y then false else rest

unfoldable pub cell_is_free : Desktop → ℤ × ℤ → Bool
unfolding free_of overlap
cell_is_free d (cx, cy) = if overlap cx cy d.trash_x d.trash_y then false else free_of cx cy d.icons

-- The cell of a column and a row.
unfoldable pub grid_cell : ℕ → ℕ → ℤ × ℤ
grid_cell c r = (pos (16 + c * 96), pos (16 + r * 92))

-- The first free cell of column `c`, with `n` rows left from row `r` on.
unfoldable pub free_row : Desktop → ℕ → ℕ → ℕ → Option (ℤ × ℤ)
unfolding grid_cell cell_is_free
free_row d zero c r = none
free_row d (suc n) c r =
    let rest = free_row d n c (suc r) in
    if cell_is_free d (grid_cell c r) then some (grid_cell c r) else rest

-- The first free cell, with `n` columns of `rows` rows left from column `c` on.
unfoldable pub free_cell : Desktop → ℕ → ℕ → ℕ → Option (ℤ × ℤ)
unfolding free_row
free_cell d rows zero c = none
free_cell d rows (suc n) c =
    let rest = free_cell d rows n (suc c) in
    elim (free_row d rows c 0) [ some cell ↦ some cell | none ↦ rest ]

-- `rows` and `cols`, at least 1.
unfoldable pub grid_size : Desktop → ℕ × ℕ
grid_size d =
    (max 1 (pos_part (d.scr_h -ℤ pos 36 -ℤ pos 32) / 92), max 1 (pos_part (d.scr_w -ℤ pos 32) / 96))

unfoldable pub put_at : Option (ℤ × ℤ) → Icon → Icon
put_at (some (cx, cy)) ic = record ic { x = cx; y = cy }
put_at none ic = record ic { x = pos 16; y = pos 16 }

-- One icon's round of the loop.
unfoldable pub place_icon : Desktop → Icon → Icon
unfolding grid_size free_cell put_at
place_icon d ic =
    let (rows, cols) = grid_size d in
    if ltb_ℤ ic.x (pos 0) then put_at (free_cell d rows cols 0) ic else ic

-- The loop, with the icons before it and those that are left.
unfoldable pub place_from : Desktop → List Icon → List Icon → List Icon
unfolding place_icon
place_from d done [] = done
place_from d done (ic ∷ icons) =
    let now = record d { icons = done ++ (ic ∷ icons) } in
    place_from d (done ++ (place_icon now ic ∷ [])) icons

unfoldable pub place_new_icons : Desktop → Desktop
unfolding place_from
place_new_icons d = record d { icons = place_from d [] d.icons }

unfoldable pub layout_find : List ℕ → List LayoutRec → Option LayoutRec
layout_find name [] = none
layout_find name (r ∷ layout) =
    let rest = layout_find name layout in if eq_ℤ (strcmp r.name name) (pos 0) then some r else rest

unfoldable pub find_icon : List ℕ → List Icon → Option Icon
find_icon name [] = none
find_icon name (ic ∷ icons) =
    let rest = find_icon name icons in if eq_ℤ (strcmp ic.name name) (pos 0) then some ic else rest

-- The place and the selection of the icon of that name, if there was one.
unfoldable pub keep_live : Option Icon → Icon → Icon
keep_live (some old) ic = record ic { selected = old.selected; x = old.x; y = old.y }
keep_live none ic = ic

unfoldable pub saved_place : Desktop → Option LayoutRec → Icon → Icon
unfolding clamp_cell
saved_place d (some r) ic = let (x, y) = clamp_cell d (r.x, r.y) in record ic { x = x; y = y }
saved_place d none ic = ic

unfoldable pub fresh_icon : Desktop → List LayoutRec → List ℕ × ℕ → Icon
unfolding keep_live find_icon saved_place layout_find
fresh_icon d layout (name, size) =
    let blank : Icon = record {
      name = name;
      size = size;
      x = negsuc 0;
      y = negsuc 0;
      selected = false;
    } in
    let live = keep_live (find_icon name d.icons) blank in
    if ltb_ℤ live.x (pos 0) then saved_place d (layout_find name layout) live else live

-- A file that the desktop shows: not in the trash, and no system file.
unfoldable pub is_shown : List ℕ × ℕ → Bool
is_shown (name, size) = not (get_or name 0 0 == 1 || get_or name 0 0 == 2)

unfoldable pub fresh_icons : Desktop → List LayoutRec → List (List ℕ × ℕ) → List Icon
unfolding fresh_icon is_shown
fresh_icons d layout [] = []
fresh_icons d layout (file ∷ files) =
    let rest = fresh_icons d layout files in
    if is_shown file then fresh_icon d layout file ∷ rest else rest

unfoldable pub trash_place : Option LayoutRec → Desktop → Desktop
unfolding clamp_cell
trash_place (some r) d =
    let (x, y) = clamp_cell d (r.x, r.y) in record d { trash_x = x; trash_y = y }
trash_place none d = d

-- `files` is what the directory holds and `layout` what was loaded of the layout file.
unfoldable pub refresh_icons : Bool → List LayoutRec → List (List ℕ × ℕ) → Desktop → Desktop
unfolding fresh_icons trash_place layout_find place_new_icons
refresh_icons trash_dragging layout files d =
    let d1 = record d { icons = fresh_icons d layout files } in
    let d2 = trash_place (layout_find (2 ∷ 116 ∷ 114 ∷ 97 ∷ 115 ∷ 104 ∷ []) layout) d1 in
    place_new_icons (if trash_dragging then d1 else d2)

unfoldable pub clear_selection : Desktop → Desktop
clear_selection d = record d { icons = map (λ (ic : Icon). record ic { selected = false }) d.icons }

-- The last drawn icon at a point, with `i` the number of the first one of the list.
unfoldable pub icon_from : ℤ → ℤ → List Icon → ℕ → Option ℕ → Option ℕ
icon_from mx my [] i found = found
icon_from mx my (ic ∷ icons) i found =
    let hit =
      not (ltb_ℤ mx (ic.x +ℤ pos 10))
      && (ltb_ℤ mx (ic.x +ℤ pos 86) && (not (ltb_ℤ my ic.y) && ltb_ℤ my (ic.y +ℤ pos 76))) in
    icon_from mx my icons (suc i) (if hit then some i else found)

unfoldable pub icon_at : ℤ → ℤ → Desktop → Option ℕ
unfolding icon_from
icon_at mx my d = icon_from mx my d.icons 0 none

unfoldable pub over_trash : ℤ → ℤ → Desktop → Bool
over_trash mx my d =
    not (ltb_ℤ mx d.trash_x)
    && (ltb_ℤ mx (d.trash_x +ℤ pos 96)
        && (not (ltb_ℤ my d.trash_y) && ltb_ℤ my (d.trash_y +ℤ pos 92)))
