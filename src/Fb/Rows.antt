-- ===== src/Fb/Rows.antt =====
-- kernel/fb.c: rows of pixels, byte by byte.
use red_panda_os.Prelude.{
  ℕ, zero, suc, ◌+◌, ◌*◌, ◌^◌, ◌≤◌, ◌<◌, ◌≡◌, refl, ap, ◌∙◌, ◌⊎◌, inl, inr, arith, ◌==◌,
  if◌then◌else◌, u8, shr,
}
use red_panda_os.Fb.{Bytes, Mode, set_byte, offset, put_bgr, fill_row}

-- A screen whose pixels have three or four bytes, and whose rows fit their pitch and 32 bits.
pub record IsMode (mode : Mode) : Type 0 where
  pub depth : (mode.bypp ≡ 3) ⊎ (mode.bypp ≡ 4)
  pub stride : mode.width * mode.bypp ≤ mode.pitch
  pub size : mode.height * mode.pitch < 2 ^ 32

-- The colour at an offset, blue first.
abbrev pub pixel_at : Bytes → ℕ → ℕ × ℕ × ℕ
pixel_at m o = (m o, m (o + 1), m (o + 2))

abbrev pub colour : ℕ → ℕ × ℕ × ℕ
colour rgb = (u8 rgb, u8 (shr rgb 8), u8 (shr rgb 16))

pub pixel_eq : {a b c d e f : ℕ} → a ≡ d → b ≡ e → c ≡ f → ◌≡◌ {A = ℕ × ℕ × ℕ} (a, b, c) (d, e, f)
pixel_eq p q r = λ i. (p i, q i, r i)

pub mul_lt : (a b c : ℕ) → a < b → a * c + c ≤ b * c
mul_lt a zero c h = absurd (omega arith)
mul_lt zero (suc b) c h = omega arith
mul_lt (suc a) (suc b) c h = omega (arith, mul_lt a b c (omega (arith, h)))

pub mul_le : (a b c : ℕ) → a ≤ b → a * c ≤ b * c
mul_le zero b c h = omega arith
mul_le (suc a) zero c h = absurd (omega arith)
mul_le (suc a) (suc b) c h = omega (arith, mul_le a b c (omega (arith, h)))

-- On the screen the products of an offset do not wrap.
pub offset_lem :
    (mode : Mode) (x y : ℕ)
    → IsMode mode
    → x < mode.width
    → y < mode.height
    → offset mode x y ≡ y * mode.pitch + x * mode.bypp
unfolding offset
offset_lem mode x y v hx hy =
    omega (
      arith,
      v.stride,
      v.size,
      mul_lt y mode.height mode.pitch hy,
      mul_lt x mode.width mode.bypp hx,
    )

pub put_bgr-outside :
    (at rgb o : ℕ) (m : Bytes) → (o < at) ⊎ (at + 3 ≤ o) → put_bgr at rgb m o ≡ m o
unfolding put_bgr set_byte
put_bgr-outside at rgb o m h = ground (arith, h)

pub put_bgr-pixel : (at rgb : ℕ) (m : Bytes) → pixel_at (put_bgr at rgb m) at ≡ colour rgb
unfolding put_bgr set_byte
put_bgr-pixel at rgb m = pixel_eq (ground arith) (ground arith) (ground arith)

-- One pixel of `fill_row`.
abbrev pub fill_pixel : ℕ → ℕ → ℕ → Bytes → Bytes
fill_pixel bypp at rgb m =
    if bypp == 4 then set_byte (at + 3) (u8 (shr rgb 24)) (put_bgr at rgb m) else put_bgr at rgb m

module _ (b : ℕ) (depth : (b ≡ 3) ⊎ (b ≡ 4)) where
  fill_row-suc :
      (n at rgb : ℕ) (m : Bytes)
      → fill_row (suc n) b at rgb m ≡ fill_row n b (at + b) rgb (fill_pixel b at rgb m)
  unfolding fill_row
  fill_row-suc n at rgb m = elim depth [ inl e ↦ rw e refl | inr e ↦ rw e refl ]

  fill_pixel-outside :
      (at rgb o : ℕ) (m : Bytes) → (o < at) ⊎ (at + b ≤ o) → fill_pixel b at rgb m o ≡ m o
  unfolding set_byte put_bgr
  fill_pixel-outside at rgb o m h = ground (arith, h, depth)

  fill_pixel-pixel : (at rgb : ℕ) (m : Bytes) → pixel_at (fill_pixel b at rgb m) at ≡ colour rgb
  unfolding set_byte put_bgr
  fill_pixel-pixel at rgb m =
      pixel_eq (ground (arith, depth)) (ground (arith, depth)) (ground (arith, depth))

  pub fill_row-outside :
      (n at rgb o : ℕ) (m : Bytes) → (o < at) ⊎ (at + n * b ≤ o) → fill_row n b at rgb m o ≡ m o
  unfolding fill_row
  fill_row-outside zero at rgb o m h = refl
  fill_row-outside (suc n) at rgb o m h =
      ap (λ f. f o) (fill_row-suc n at rgb m)
      ∙ (fill_row-outside n (at + b) rgb o (fill_pixel b at rgb m) (omega (arith, h))
          ∙ fill_pixel-outside at rgb o m (omega (arith, h)))

  pub fill_row-same :
      (n at rgb o : ℕ) (m : Bytes)
      → (o + 3 ≤ at) ⊎ (at + n * b ≤ o)
      → pixel_at (fill_row n b at rgb m) o ≡ pixel_at m o
  fill_row-same n at rgb o m h =
      pixel_eq (fill_row-outside n at rgb o m (omega (arith, h)))
        (fill_row-outside n at rgb (o + 1) m (omega (arith, h)))
        (fill_row-outside n at rgb (o + 2) m (omega (arith, h)))

  pub fill_row-pixel :
      (n at rgb k : ℕ) (m : Bytes)
      → k < n
      → pixel_at (fill_row n b at rgb m) (at + k * b) ≡ colour rgb
  fill_row-pixel zero at rgb k m h = absurd (omega arith)
  fill_row-pixel (suc n) at rgb zero m h =
      let e : at + 0 * b ≡ at = omega arith in
      ap (λ f. pixel_at f (at + 0 * b)) (fill_row-suc n at rgb m)
      ∙ (fill_row-same n (at + b) rgb (at + 0 * b) (fill_pixel b at rgb m) (omega (arith, depth))
          ∙ rw e (fill_pixel-pixel at rgb m))
  fill_row-pixel (suc n) at rgb (suc k) m h =
      let e : at + suc k * b ≡ at + b + k * b = omega arith in
      ap (λ f. pixel_at f (at + suc k * b)) (fill_row-suc n at rgb m)
      ∙ (ap (pixel_at (fill_row n b (at + b) rgb (fill_pixel b at rgb m))) e
          ∙ fill_row-pixel n (at + b) rgb k (fill_pixel b at rgb m) (omega (arith, h)))
