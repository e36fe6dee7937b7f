-- ===== src/Fb/Area.antt =====
-- kernel/fb.c: the rows of a rectangle that lies on the screen.
use red_panda_os.Prelude.{
  ℕ, zero, suc, ◌+◌, ◌-◌, ◌*◌, ◌≤◌, ◌<◌, ◌≡◌, refl, sym, ap, ◌∙◌, ◌⊎◌, inl, inr, arith, ltb, ◌==◌,
  ltb→lt, Bool-cases,
}
use red_panda_os.Fb.{Bytes, Mode, offset, fill_row, fill_rows}
use red_panda_os.Fb.Rows.{
  IsMode, pixel_at, colour, mul_lt, mul_le, offset_lem, fill_row-outside, fill_row-same,
  fill_row-pixel,
}

module _ (mode : Mode) (v : IsMode mode) where
  row_end :
      (x w y : ℕ)
      → x + w ≤ mode.width
      → y * mode.pitch + x * mode.bypp + w * mode.bypp ≤ y * mode.pitch + mode.pitch
  row_end x w y h = omega (arith, v.stride, mul_le (x + w) mode.width mode.bypp h)

  -- A pixel of the screen lies before the next row.
  pixel_end :
      (px py row : ℕ)
      → px < mode.width
      → py < row
      → py * mode.pitch + px * mode.bypp + mode.bypp ≤ row * mode.pitch
  pixel_end px py row hx hy =
      omega (arith, v.stride, mul_lt px mode.width mode.bypp hx, mul_lt py row mode.pitch hy)

  three : 3 ≤ mode.bypp
  three = omega (arith, v.depth)

  split : (x px : ℕ) → x ≤ px → x * mode.bypp + (px - x) * mode.bypp ≡ px * mode.bypp
  split x px h =
      let e : x + (px - x) ≡ px = omega (arith, h) in omega (arith, ap (λ t. t * mode.bypp) e)

  -- A pixel that is not among `w` pixels of a row has no byte among theirs.
  apart :
      (row x w px py : ℕ)
      → x + w ≤ mode.width
      → px < mode.width
      → (py < row) ⊎ ((row < py) ⊎ ((px < x) ⊎ (x + w ≤ px)))
      → (py * mode.pitch + px * mode.bypp + 3 ≤ row * mode.pitch + x * mode.bypp)
        ⊎ (row * mode.pitch + x * mode.bypp + w * mode.bypp ≤ py * mode.pitch + px * mode.bypp)
  apart row x w px py hw hx h = elim (Bool-cases (ltb py row)) [
    | inl above ↦ inl (omega (arith, three, pixel_end px py row hx (ltb→lt py row above)))
    | inr below ↦ elim (Bool-cases (ltb row py)) [
      | inl under ↦
          inr (omega (arith, row_end x w row hw, mul_lt row py mode.pitch (ltb→lt row py under)))
      | inr b ↦
          let same : py ≡ row = ground (arith, below, b) in
          let sides : (px < x) ⊎ (x + w ≤ px) = omega (arith, same, h) in
          let rows : py * mode.pitch ≡ row * mode.pitch = ap (λ t. t * mode.pitch) same in
          elim sides [
            | inl left ↦ inl (omega (arith, three, rows, mul_lt px x mode.bypp left))
            | inr right ↦ inr (omega (arith, rows, mul_le (x + w) px mode.bypp right))
          ]
    ]
  ]

  pub fill_rows-outside :
      (n row x w rgb o : ℕ) (m : Bytes)
      → 1 ≤ w
      → x + w ≤ mode.width
      → row + n ≤ mode.height
      → (o < row * mode.pitch) ⊎ ((row + n) * mode.pitch ≤ o)
      → fill_rows mode n row x w rgb m o ≡ m o
  unfolding fill_rows
  fill_rows-outside zero row x w rgb o m one hw hn h = refl
  fill_rows-outside (suc n) row x w rgb o m one hw hn h =
      let at = offset_lem mode x row v (omega (arith, one, hw)) (omega (arith, hn)) in
      let m' = fill_row w mode.bypp (offset mode x row) rgb m in
      let next : suc row + n ≡ row + suc n = omega arith in
      let up = mul_lt row (row + suc n) mode.pitch (omega arith) in
      let rest =
        fill_rows-outside n (suc row) x w rgb o m' one hw (omega (arith, hn))
          (rw next (omega (arith, h))) in
      rest
      ∙ fill_row-outside mode.bypp v.depth w (offset mode x row) rgb o m
          (omega (arith, h, at, up, row_end x w row hw))

  pub fill_rows-same :
      (n row x w rgb px py : ℕ) (m : Bytes)
      → 1 ≤ w
      → x + w ≤ mode.width
      → row + n ≤ mode.height
      → px < mode.width
      → (py < row) ⊎ ((row + n ≤ py) ⊎ ((px < x) ⊎ (x + w ≤ px)))
      → pixel_at (fill_rows mode n row x w rgb m) (py * mode.pitch + px * mode.bypp)
        ≡ pixel_at m (py * mode.pitch + px * mode.bypp)
  unfolding fill_rows
  fill_rows-same zero row x w rgb px py m one hw hn hx h = refl
  fill_rows-same (suc n) row x w rgb px py m one hw hn hx h =
      let at = offset_lem mode x row v (omega (arith, one, hw)) (omega (arith, hn)) in
      let m' = fill_row w mode.bypp (offset mode x row) rgb m in
      let rest =
        fill_rows-same n (suc row) x w rgb px py m' one hw (omega (arith, hn)) hx
          (omega (arith, h)) in
      rest
      ∙ fill_row-same mode.bypp v.depth w (offset mode x row) rgb (py * mode.pitch + px * mode.bypp)
          m (rw at (apart row x w px py hw hx (omega (arith, h))))

  pub fill_rows-pixel :
      (n row x w rgb px py : ℕ) (m : Bytes)
      → x + w ≤ mode.width
      → row + n ≤ mode.height
      → row ≤ py
      → py < row + n
      → x ≤ px
      → px < x + w
      → pixel_at (fill_rows mode n row x w rgb m) (py * mode.pitch + px * mode.bypp) ≡ colour rgb
  unfolding fill_rows
  fill_rows-pixel zero row x w rgb px py m hw hn top bottom left right = absurd (omega arith)
  fill_rows-pixel (suc n) row x w rgb px py m hw hn top bottom left right =
      let at = offset_lem mode x row v (omega arith) (omega (arith, hn)) in
      let m' = fill_row w mode.bypp (offset mode x row) rgb m in
      elim (Bool-cases (row == py)) [
        | inl here ↦
            let e : row ≡ py = ground (arith, here) in
            let k : offset mode x row + (px - x) * mode.bypp ≡ py * mode.pitch + px * mode.bypp =
              omega (arith, at, ap (λ t. t * mode.pitch) e, split x px left) in
            let kept =
              fill_rows-same n (suc row) x w rgb px py m' (omega arith) hw (omega (arith, hn))
                (omega arith) (omega (arith, e)) in
            kept
            ∙ (ap (pixel_at m') (sym k)
                ∙ fill_row-pixel mode.bypp v.depth w (offset mode x row) rgb (px - x) m
                    (omega arith))
        | inr later ↦
            fill_rows-pixel n (suc row) x w rgb px py m' hw (omega (arith, hn))
              (ground (arith, top, later)) (omega (arith, bottom)) left right
      ]
