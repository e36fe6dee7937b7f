-- ===== src/Icons/Clear.antt =====
-- kernel/gui.c, the desktop's icons: where a new icon goes, in coordinates.
use red_panda_os.Prelude.{
  ℕ, ◌+◌, ◌*◌, ◌/◌, ◌<◌, max, ◌≡◌, refl, ◌⊎◌, inl, inr, true, false, List, [], ◌∷◌, arith,
  Bool-cases,
}
use red_panda_os.Prelude.Int.{ℤ, pos, ◌+ℤ◌, ◌-ℤ◌, ◌≤ℤ◌, pos_part, ltb_ℤ}
use red_panda_os.Icons.{
  Icon, Desktop, overlap, free_of, cell_is_free, grid_cell, grid_size, place_icon,
}
use red_panda_os.Icons.Place.{PutDown, place_icon-PutDown}

-- Two cells of 96 by 92 pixels that share no pixel: one is left of, right of, above or below the other.
abbrev pub Apart : ℤ → ℤ → ℤ → ℤ → Type 0
Apart cx cy ix iy =
    ((cx +ℤ pos 96 ≤ℤ ix) ⊎ (ix +ℤ pos 96 ≤ℤ cx)) ⊎ ((cy +ℤ pos 92 ≤ℤ iy) ⊎ (iy +ℤ pos 92 ≤ℤ cy))

-- Apart from every icon that has a place.
abbrev pub ClearOf : ℤ → ℤ → List Icon → Type 0
ClearOf cx cy [] = Unit {0}
ClearOf cx cy (ic ∷ icons) =
    ((ltb_ℤ ic.x (pos 0) ≡ true) ⊎ Apart cx cy ic.x ic.y) × ClearOf cx cy icons

-- A cell that neither the trash nor an icon with a place lies on.
abbrev pub Clear : Desktop → ℤ × ℤ → Type 0
Clear d (cx, cy) = Apart cx cy d.trash_x d.trash_y × ClearOf cx cy d.icons

-- The column and the row lie on the screen above the taskbar with a margin of 16 pixels, or are the
-- first ones.
abbrev pub InGrid : Desktop → ℕ → ℕ → Type 0
InGrid d c r =
    ((c ≡ 0) ⊎ (pos (c * 96 + 128) ≤ℤ d.scr_w)) × ((r ≡ 0) ⊎ (pos (r * 92 + 160) ≤ℤ d.scr_h))

abbrev pub cell_at : ℕ → ℕ → ℤ × ℤ
cell_at c r = (pos (16 + c * 96), pos (16 + r * 92))

-- A clear cell of the grid.
pub record IsClear (d : Desktop) (cell : ℤ × ℤ) : Type 0 where
  pub c : ℕ
  pub r : ℕ
  pub in_grid : InGrid d c r
  pub place : cell ≡ cell_at c r
  pub clear : Clear d cell

-- On a clear cell of the grid, or, when something lies on every cell of the grid, at the top left.
abbrev pub IsPut : Desktop → Icon → Type 0
IsPut d ic =
    IsClear d (ic.x, ic.y)
    ⊎ (((c r : ℕ) → InGrid d c r → ¬ Clear d (cell_at c r)) × ((ic.x ≡ pos 16) × (ic.y ≡ pos 16)))

overlap-Apart : (cx cy ix iy : ℤ) → overlap cx cy ix iy ≡ false → Apart cx cy ix iy
unfolding overlap
overlap-Apart cx cy ix iy h = elim (Bool-cases (ltb_ℤ cx (ix +ℤ pos 96))) [
  | inr e ↦ inl (inr (ground (arith, e)))
  | inl a ↦ elim (Bool-cases (ltb_ℤ ix (cx +ℤ pos 96))) [
    | inr e ↦ inl (inl (ground (arith, e)))
    | inl b ↦ elim (Bool-cases (ltb_ℤ cy (iy +ℤ pos 92))) [
      | inr e ↦ inr (inr (ground (arith, e)))
      | inl c ↦
          let e : ltb_ℤ iy (cy +ℤ pos 92) ≡ false = rw (a, b, c) at h in
          inr (inl (ground (arith, e)))
    ]
  ]
]

Apart-overlap : (cx cy ix iy : ℤ) → Apart cx cy ix iy → overlap cx cy ix iy ≡ false
unfolding overlap
Apart-overlap cx cy ix iy (inl (inl h)) = ground (arith, h)
Apart-overlap cx cy ix iy (inl (inr h)) = ground (arith, h)
Apart-overlap cx cy ix iy (inr (inl h)) = ground (arith, h)
Apart-overlap cx cy ix iy (inr (inr h)) = ground (arith, h)

free_of-ClearOf : (cx cy : ℤ) (icons : List Icon) → free_of cx cy icons ≡ true → ClearOf cx cy icons
unfolding free_of
free_of-ClearOf cx cy [] h = tt
free_of-ClearOf cx cy (ic ∷ icons) h = elim (Bool-cases (ltb_ℤ ic.x (pos 0))) [
  | inl e ↦ (inl e, free_of-ClearOf cx cy icons (rw e at h))
  | inr e ↦ elim (Bool-cases (overlap cx cy ic.x ic.y)) [
    | inl o ↦ let bad : false ≡ true = rw (e, o) at h in absurd (cc)
    | inr o ↦ (inr (overlap-Apart cx cy ic.x ic.y o), free_of-ClearOf cx cy icons (rw (e, o) at h))
  ]
]

ClearOf-free_of : (cx cy : ℤ) (icons : List Icon) → ClearOf cx cy icons → free_of cx cy icons ≡ true
unfolding free_of
ClearOf-free_of cx cy [] h = refl
ClearOf-free_of cx cy (ic ∷ icons) (inl e, rest) = rw e (ClearOf-free_of cx cy icons rest)
ClearOf-free_of cx cy (ic ∷ icons) (inr a, rest) =
    let o = Apart-overlap cx cy ic.x ic.y a in
    let r = ClearOf-free_of cx cy icons rest in
    elim (Bool-cases (ltb_ℤ ic.x (pos 0))) [ inl e ↦ rw e r | inr e ↦ rw (e, o) r ]

cell_is_free-Clear : (d : Desktop) (cell : ℤ × ℤ) → cell_is_free d cell ≡ true → Clear d cell
unfolding cell_is_free
cell_is_free-Clear d (cx, cy) h = elim (Bool-cases (overlap cx cy d.trash_x d.trash_y)) [
  | inl o ↦ let bad : false ≡ true = rw o at h in absurd (cc)
  | inr o ↦ (overlap-Apart cx cy d.trash_x d.trash_y o, free_of-ClearOf cx cy d.icons (rw o at h))
]

Clear-cell_is_free : (d : Desktop) (cell : ℤ × ℤ) → Clear d cell → cell_is_free d cell ≡ true
unfolding cell_is_free
Clear-cell_is_free d (cx, cy) (a, rest) =
    let o = Apart-overlap cx cy d.trash_x d.trash_y a in rw o (ClearOf-free_of cx cy d.icons rest)

in_columns :
    (w : ℤ) (c : ℕ) → c < max 1 (pos_part (w -ℤ pos 32) / 96) → (c ≡ 0) ⊎ (pos (c * 96 + 128) ≤ℤ w)
unfolding ◌-ℤ◌
in_columns w c h = ground (arith, h)

columns_in :
    (w : ℤ) (c : ℕ) → (c ≡ 0) ⊎ (pos (c * 96 + 128) ≤ℤ w) → c < max 1 (pos_part (w -ℤ pos 32) / 96)
unfolding ◌-ℤ◌
columns_in w c (inl h) = ground (arith, h)
columns_in w c (inr h) = ground (arith, h)

in_rows :
    (h : ℤ) (r : ℕ)
    → r < max 1 (pos_part (h -ℤ pos 36 -ℤ pos 32) / 92)
    → (r ≡ 0) ⊎ (pos (r * 92 + 160) ≤ℤ h)
unfolding ◌-ℤ◌
in_rows h r k = ground (arith, k)

rows_in :
    (h : ℤ) (r : ℕ)
    → (r ≡ 0) ⊎ (pos (r * 92 + 160) ≤ℤ h)
    → r < max 1 (pos_part (h -ℤ pos 36 -ℤ pos 32) / 92)
unfolding ◌-ℤ◌
rows_in h r (inl k) = ground (arith, k)
rows_in h r (inr k) = ground (arith, k)

PutDown-IsPut : (d : Desktop) (ic : Icon) → PutDown d ic → IsPut d ic
unfolding grid_size grid_cell
PutDown-IsPut d ic (inl f) = inl (record {
  c = f.c;
  r = f.r;
  in_grid = (in_columns d.scr_w f.c f.in_c, in_rows d.scr_h f.r f.in_r);
  place = f.place;
  clear = cell_is_free-Clear d (ic.x, ic.y) f.free;
})
PutDown-IsPut d ic (inr (full, corner)) = inr (
  λ c r (inside : InGrid d c r) (clear : Clear d (cell_at c r)).
      let no =
        full c r (omega arith) (columns_in d.scr_w c inside.0) (rows_in d.scr_h r inside.1) in
      let yes = Clear-cell_is_free d (cell_at c r) clear in absurd (cc (no, yes)),
  corner,
)

-- An icon without a place is put on a cell of the grid that neither the trash nor an icon with a
-- place overlaps, or, if one of them overlaps every cell of the grid, at the top left; an icon that has
-- a place keeps it. A cell is 96 by 92 pixels, and the grid has the columns and rows that lie above the
-- taskbar with a margin of 16 pixels, and at least one of each.
pub place_icon-IsPut :
    (d : Desktop) (ic : Icon)
    → ((ltb_ℤ ic.x (pos 0) ≡ true) × IsPut d (place_icon d ic))
      ⊎ ((ltb_ℤ ic.x (pos 0) ≡ false) × (place_icon d ic ≡ ic))
place_icon-IsPut d ic = elim (place_icon-PutDown d ic) [
  | inl (e, put) ↦ inl (e, PutDown-IsPut d (place_icon d ic) put)
  | inr kept ↦ inr kept
]
