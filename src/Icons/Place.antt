-- ===== src/Icons/Place.antt =====
-- kernel/gui.c, the desktop's icons: where an icon without a place goes.
use red_panda_os.Prelude.{
  ℕ, zero, suc, ◌+◌, ◌≤◌, ◌<◌, ◌≡◌, refl, sym, subst, ◌⊎◌, inl, inr, Bool, true, false, Option,
  none, some, arith, ◌==◌, if◌then◌else◌, Bool-cases,
}
use red_panda_os.Prelude.Int.{ℤ, pos, ltb_ℤ}
use red_panda_os.Icons.{
  Icon, Desktop, cell_is_free, grid_cell, free_row, free_cell, grid_size, put_at, place_icon,
}

-- A free cell of `rows` rows and the columns from `from` on, below `cols`.
pub record FreeCell (d : Desktop) (rows from cols : ℕ) (cell : ℤ × ℤ) : Type 0 where
  pub c : ℕ
  pub r : ℕ
  pub from_c : from ≤ c
  pub in_c : c < cols
  pub in_r : r < rows
  pub place : cell ≡ grid_cell c r
  pub free : cell_is_free d cell ≡ true

-- A free cell of the grid, or that the grid has none.
abbrev pub IsFree : Desktop → ℕ → ℕ → ℕ → Option (ℤ × ℤ) → Type 0
IsFree d rows from cols (some cell) = FreeCell d rows from cols cell
IsFree d rows from cols none =
    (c r : ℕ) → from ≤ c → c < cols → r < rows → cell_is_free d (grid_cell c r) ≡ false

-- The same in the rows from `r` on of one column.
record FreeRow (d : Desktop) (n c r : ℕ) (cell : ℤ × ℤ) : Type 0 where
  k : ℕ
  from_r : r ≤ k
  in_r : k < r + n
  place : cell ≡ grid_cell c k
  free : cell_is_free d cell ≡ true

abbrev IsFreeRow : Desktop → ℕ → ℕ → ℕ → Option (ℤ × ℤ) → Type 0
IsFreeRow d n c r (some cell) = FreeRow d n c r cell
IsFreeRow d n c r none = (k : ℕ) → r ≤ k → k < r + n → cell_is_free d (grid_cell c k) ≡ false

module _ (d : Desktop) where
  below :
      (n c r : ℕ) (o : Option (ℤ × ℤ))
      → cell_is_free d (grid_cell c r) ≡ false
      → IsFreeRow d n c (suc r) o
      → IsFreeRow d (suc n) c r o
  below n c r (some cell) full f = record {
    k = f.k;
    from_r = omega (arith, f.from_r);
    in_r = omega (arith, f.in_r);
    place = f.place;
    free = f.free;
  }
  below n c r none full later = λ k from to. elim (Bool-cases (r == k)) [
    | inl e ↦
        let q : r ≡ k = ground (arith, e) in
        subst (λ t. cell_is_free d (grid_cell c t) ≡ false) q full
    | inr e ↦ later k (ground (arith, from, e)) (omega (arith, to))
  ]

  choose :
      (P : Option (ℤ × ℤ) → Type 0) (b : Bool) (o p : Option (ℤ × ℤ))
      → (b ≡ true → P o)
      → (b ≡ false → P p)
      → P (if b then o else p)
  choose P true o p hit other = hit refl
  choose P false o p hit other = other refl

  free_row-IsFreeRow : (n c r : ℕ) → IsFreeRow d n c r (free_row d n c r)
  unfolding free_row
  free_row-IsFreeRow zero c r = λ k from to. absurd (omega (arith, from, to))
  free_row-IsFreeRow (suc n) c r =
      let rest = free_row d n c (suc r) in
      choose (IsFreeRow d (suc n) c r) (cell_is_free d (grid_cell c r)) (some (grid_cell c r)) rest
        (λ e. record { k = r; from_r = omega arith; in_r = omega arith; place = refl; free = e })
        (λ e. below n c r rest e (free_row-IsFreeRow n c (suc r)))

  beside :
      (rows c n : ℕ) (o p : Option (ℤ × ℤ))
      → IsFreeRow d rows c 0 o
      → IsFree d rows (suc c) (suc c + n) p
      → IsFree d rows c (c + suc n) (elim o [ some cell ↦ some cell | none ↦ p ])
  beside rows c n (some cell) p f later = record {
    c = c;
    r = f.k;
    from_c = omega arith;
    in_c = omega arith;
    in_r = omega (arith, f.in_r);
    place = f.place;
    free = f.free;
  }
  beside rows c n none (some cell) full f = record {
    c = f.c;
    r = f.r;
    from_c = omega (arith, f.from_c);
    in_c = omega (arith, f.in_c);
    in_r = f.in_r;
    place = f.place;
    free = f.free;
  }
  beside rows c n none none full later = λ j r from to inside. elim (Bool-cases (c == j)) [
    | inl e ↦
        let q : c ≡ j = ground (arith, e) in
        subst (λ t. cell_is_free d (grid_cell t r) ≡ false) q
          (full r (omega arith) (omega (arith, inside)))
    | inr e ↦ later j r (ground (arith, from, e)) (omega (arith, to)) inside
  ]

  free_cell-IsFree : (rows n c : ℕ) → IsFree d rows c (c + n) (free_cell d rows n c)
  unfolding free_cell
  free_cell-IsFree rows zero c = λ j r from to inside. absurd (omega (arith, from, to))
  free_cell-IsFree rows (suc n) c =
      beside rows c n (free_row d rows c 0) (free_cell d rows n (suc c))
        (free_row-IsFreeRow rows c 0) (free_cell-IsFree rows n (suc c))

-- Where an icon without a place is put: on a free cell of the grid, or, if no cell of the grid is
-- free, at the top left.
abbrev pub PutDown : Desktop → Icon → Type 0
PutDown d ic =
    FreeCell d (grid_size d).0 0 (grid_size d).1 (ic.x, ic.y)
    ⊎ (IsFree d (grid_size d).0 0 (grid_size d).1 none × ((ic.x ≡ pos 16) × (ic.y ≡ pos 16)))

put_at-PutDown :
    (d : Desktop) (ic : Icon) (o : Option (ℤ × ℤ))
    → IsFree d (grid_size d).0 0 (grid_size d).1 o
    → PutDown d (put_at o ic)
unfolding put_at
put_at-PutDown d ic (some (cx, cy)) f = inl f
put_at-PutDown d ic none f = inr (f, (refl, refl))

all_columns : (d : Desktop) (rows cols : ℕ) → IsFree d rows 0 cols (free_cell d rows cols 0)
all_columns d rows cols =
    let e : 0 + cols ≡ cols = omega arith in
    subst (λ t. IsFree d rows 0 t (free_cell d rows cols 0)) e (free_cell-IsFree d rows cols 0)

taken : (b : Bool) (x y : Icon) → b ≡ true → (if b then x else y) ≡ x
taken true x y e = refl
taken false x y e = absurd (cc)

untaken : (b : Bool) (x y : Icon) → b ≡ false → (if b then x else y) ≡ y
untaken true x y e = absurd (cc)
untaken false x y e = refl

placed : (d : Desktop) (ic : Icon) → ltb_ℤ ic.x (pos 0) ≡ true → PutDown d (place_icon d ic)
unfolding place_icon
placed d ic e =
    let (rows, cols) = grid_size d in
    let there = put_at (free_cell d rows cols 0) ic in
    subst (PutDown d) (sym (taken (ltb_ℤ ic.x (pos 0)) there ic e))
      (put_at-PutDown d ic (free_cell d rows cols 0) (all_columns d rows cols))

stays : (d : Desktop) (ic : Icon) → ltb_ℤ ic.x (pos 0) ≡ false → place_icon d ic ≡ ic
unfolding place_icon
stays d ic e =
    let (rows, cols) = grid_size d in
    untaken (ltb_ℤ ic.x (pos 0)) (put_at (free_cell d rows cols 0) ic) ic e

pub place_icon-PutDown :
    (d : Desktop) (ic : Icon)
    → ((ltb_ℤ ic.x (pos 0) ≡ true) × PutDown d (place_icon d ic))
      ⊎ ((ltb_ℤ ic.x (pos 0) ≡ false) × (place_icon d ic ≡ ic))
place_icon-PutDown d ic = elim (Bool-cases (ltb_ℤ ic.x (pos 0))) [
  | inl e ↦ inl (e, placed d ic e)
  | inr e ↦ inr (e, stays d ic e)
]
