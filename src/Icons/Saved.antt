-- ===== src/Icons/Saved.antt =====
-- kernel/gui.c, the desktop's icons: the saved places come back.
use red_panda_os.Prelude.{
  ℕ, zero, suc, ◌+◌, ◌-◌, ◌*◌, ◌/◌, ◌%◌, ◌^◌, ◌≤◌, ◌<◌, ◌≡◌, refl, ap, ◌∙◌, inl, inr, true, false,
  List, [], ◌∷◌, ◌++◌, arith, ltb, lt→ltb, Bool-cases, length, take, drop, length-append, u16,
}
use red_panda_os.Prelude.Int.{ℤ, pos, negsuc, ◌-ℤ◌}
use red_panda_os.Mouse.{int16}
use red_panda_os.Fs.{Fs, Disk, pad}
use red_panda_os.Fs.Contents.{Working}
use red_panda_os.Fs.Link.{Geometry}
use red_panda_os.Fs.Ops.{fs_read, fs_write}
use red_panda_os.Fs.RoundTrip.{fs_write-fs_read}
use red_panda_os.Icons.{Icon, Desktop, LayoutRec}
use red_panda_os.Icons.Layout.{
  layout_file, trash_record, record_size, Layout, bits16, coordinate, record_bytes, layout_bytes,
  read_coordinate, records, overwrite, layout_count, save_layout, load_layout,
}

-- The records that stand for the icons and the trash: the names in fields of 22 bytes, and the places
-- cast to 16 bits.
unfoldable pub saved_records : List Icon → ℤ → ℤ → List LayoutRec
saved_records [] tx ty = record { name = pad 22 trash_record; x = int16 tx; y = int16 ty } ∷ []
saved_records (ic ∷ icons) tx ty =
    record { name = pad 22 ic.name; x = int16 ic.x; y = int16 ic.y } ∷ saved_records icons tx ty

int16-bits16 : (v : ℤ) → int16 (pos (bits16 v)) ≡ int16 v
unfolding int16 bits16 ◌-ℤ◌
int16-bits16 (pos n) = let e : u16 (u16 n) ≡ u16 n = omega arith in rw e refl
int16-bits16 (negsuc n) =
    let m = 2 ^ 16 - 1 - u16 n in
    let e : u16 m ≡ m = omega arith in
    elim (Bool-cases (ltb (u16 n) (2 ^ 15))) [
      | inl low ↦
          let high : ltb m (2 ^ 15) ≡ false = ground (arith, low) in
          let back : pos m -ℤ pos (2 ^ 16) ≡ negsuc (u16 n) = ground (arith, low) in
          rw (e, high, low) back
      | inr high ↦ let low : ltb m (2 ^ 15) ≡ true = ground (arith, high) in rw (e, low, high) refl
    ]

bits16-bound : (v : ℤ) → bits16 v < 2 ^ 16
unfolding bits16
bits16-bound (pos n) = omega arith
bits16-bound (negsuc n) = omega arith

read_coordinate-coordinate :
    (v : ℤ) (rest : List ℕ) → read_coordinate (coordinate v ++ rest) ≡ int16 v
unfolding read_coordinate coordinate
read_coordinate-coordinate v rest =
    let e : bits16 v % 256 + 256 * (bits16 v / 256) ≡ bits16 v = omega (arith, bits16-bound v) in
    ap (λ n. int16 (pos n)) e ∙ int16-bits16 v

append_assoc : (xs ys zs : List ℕ) → (xs ++ ys) ++ zs ≡ xs ++ (ys ++ zs)
append_assoc [] ys zs = refl
append_assoc (x ∷ xs) ys zs = ap (λ t. x ∷ t) (append_assoc xs ys zs)

length-pad : (n : ℕ) (xs : List ℕ) → length (pad n xs) ≡ n
unfolding pad
length-pad zero xs = refl
length-pad (suc n) [] = ap suc (length-pad n [])
length-pad (suc n) (x ∷ xs) = ap suc (length-pad n xs)

take-front : (n : ℕ) (xs ys : List ℕ) → length xs ≡ n → take n (xs ++ ys) ≡ xs
take-front zero [] ys e = refl
take-front zero (x ∷ xs) ys e = absurd (omega (arith, e))
take-front (suc n) [] ys e = absurd (omega (arith, e))
take-front (suc n) (x ∷ xs) ys e = ap (λ t. x ∷ t) (take-front n xs ys (omega (arith, e)))

drop-front : (n : ℕ) (xs ys : List ℕ) → length xs ≡ n → drop n (xs ++ ys) ≡ ys
drop-front zero [] ys e = refl
drop-front zero (x ∷ xs) ys e = absurd (omega (arith, e))
drop-front (suc n) [] ys e = absurd (omega (arith, e))
drop-front (suc n) (x ∷ xs) ys e = drop-front n xs ys (omega (arith, e))

drop-more : (n k : ℕ) (xs ys : List ℕ) → length xs ≡ n → drop (n + k) (xs ++ ys) ≡ drop k ys
drop-more zero k [] ys e = let z : 0 + k ≡ k = omega arith in rw z refl
drop-more zero k (x ∷ xs) ys e = absurd (omega (arith, e))
drop-more (suc n) k [] ys e = absurd (omega (arith, e))
drop-more (suc n) k (x ∷ xs) ys e =
    let z : suc n + k ≡ suc (n + k) = omega arith in rw z (drop-more n k xs ys (omega (arith, e)))

two_more : (x : ℤ) (rest : List ℕ) → drop 2 (coordinate x ++ rest) ≡ rest
unfolding coordinate
two_more x rest = refl

four_more : (x y : ℤ) (rest : List ℕ) → drop 4 (coordinate x ++ (coordinate y ++ rest)) ≡ rest
unfolding coordinate
four_more x y rest = refl

-- One record, read off the front of a buffer.
records-record_bytes :
    (n : ℕ) (name : List ℕ) (x y : ℤ) (rest : List ℕ)
    → records (suc n) (record_bytes name x y ++ rest)
      ≡ record { name = pad 22 name; x = int16 x; y = int16 y } ∷ records n rest
unfolding records record_bytes
records-record_bytes n name x y rest =
    let tail = coordinate x ++ (coordinate y ++ rest) in
    let bytes : record_bytes name x y ++ rest ≡ pad 22 name ++ tail =
      append_assoc (pad 22 name) (coordinate x ++ coordinate y) rest in
    let fields = length-pad 22 name in
    let build : List ℕ → ℤ → ℤ → List ℕ → List LayoutRec =
      λ a b c d. record { name = a; x = b; y = c } ∷ records n d in
    let field = pad 22 name in
    let x' = read_coordinate (drop 22 (field ++ tail)) in
    let y' = read_coordinate (drop 24 (field ++ tail)) in
    let rest' = drop record_size (field ++ tail) in
    let ex : x' ≡ int16 x =
      ap read_coordinate (drop-front 22 field tail fields)
      ∙ read_coordinate-coordinate x (coordinate y ++ rest) in
    let ey : y' ≡ int16 y =
      ap read_coordinate (drop-more 22 2 field tail fields ∙ two_more x (coordinate y ++ rest))
      ∙ read_coordinate-coordinate y rest in
    let er : rest' ≡ rest = drop-more 22 4 field tail fields ∙ four_more x y rest in
    ap (records (suc n)) bytes
    ∙ (ap (λ a. build a x' y' rest') (take-front 22 field tail fields)
        ∙ (ap (λ b. build field b y' rest') ex
            ∙ (ap (λ c. build field (int16 x) c rest') ey
                ∙ ap (build field (int16 x) (int16 y)) er)))

records-layout_bytes :
    (icons : List Icon) (tx ty : ℤ) (rest : List ℕ)
    → records (length icons + 1) (layout_bytes icons tx ty ++ rest) ≡ saved_records icons tx ty
unfolding layout_bytes saved_records records
records-layout_bytes [] tx ty rest = records-record_bytes 0 trash_record tx ty rest
records-layout_bytes (ic ∷ icons) tx ty rest =
    let e : suc (length icons) + 1 ≡ suc (length icons + 1) = omega arith in
    rw (e, append_assoc (record_bytes ic.name ic.x ic.y) (layout_bytes icons tx ty) rest)
      (records-record_bytes (length icons + 1) ic.name ic.x ic.y (layout_bytes icons tx ty ++ rest)
        ∙ ap (λ t. record { name = pad 22 ic.name; x = int16 ic.x; y = int16 ic.y } ∷ t)
            (records-layout_bytes icons tx ty rest))

length-layout_bytes :
    (icons : List Icon) (tx ty : ℤ)
    → length (layout_bytes icons tx ty) ≡ (length icons + 1) * record_size
unfolding layout_bytes record_bytes coordinate
length-layout_bytes [] tx ty = refl
length-layout_bytes (ic ∷ icons) tx ty =
    let field = record_bytes ic.name ic.x ic.y in
    omega (
      arith,
      length-append field (layout_bytes icons tx ty),
      length-append (pad 22 ic.name) (coordinate ic.x ++ coordinate ic.y),
      length-pad 22 ic.name,
      length-layout_bytes icons tx ty,
    )

take-all : (n : ℕ) (xs : List ℕ) → length xs ≤ n → take n xs ≡ xs
take-all zero [] h = refl
take-all zero (x ∷ xs) h = absurd (omega (arith, h))
take-all (suc n) [] h = refl
take-all (suc n) (x ∷ xs) h = ap (λ t. x ∷ t) (take-all n xs (omega (arith, h)))

-- On a working disk whose regions do not overlap, a layout of at most 64 icons that was saved with
-- success is loaded again, into whatever the array held, as one record for each icon in order and one
-- for the trash: with its name in a field of 22 bytes and its place cast to 16 bits.
pub save_layout-load_layout :
    {S : Type 0} (disk : Disk S) (w : Working disk) (d : Desktop) (l l' : Layout) (fs : Fs) (s : S)
    → Geometry fs.sb
    → length d.icons ≤ 64
    → (save_layout disk d l (fs, s)).0 ≡ true
    → let saved = save_layout disk d l (fs, s) in
      let loaded = (load_layout disk l' (saved.2, saved.3)).0 in
      records loaded.count loaded.bytes ≡ saved_records d.icons d.trash_x d.trash_y
unfolding save_layout load_layout layout_count overwrite
save_layout-load_layout disk w d l l' fs s g few ok =
    let bytes = layout_bytes d.icons d.trash_x d.trash_y in
    let size = length-layout_bytes d.icons d.trash_x d.trash_y in
    let out = fs_write disk layout_file bytes (fs, s) in
    let (got, read) =
      fs_write-fs_read disk w fs s layout_file bytes 1690 g (omega (arith, size, few)) ok in
    let whole : (fs_read disk out.1 layout_file 1690 out.2).1 ≡ bytes =
      read ∙ take-all 1690 bytes (omega (arith, size, few)) in
    let small : ltb (length bytes) (2 ^ 31) ≡ true =
      lt→ltb (length bytes) (2 ^ 31) (omega (arith, size, few)) in
    let count : length bytes / record_size ≡ length d.icons + 1 = omega (arith, size) in
    rw (got, whole, small, count)
      (records-layout_bytes d.icons d.trash_x d.trash_y (drop (length bytes) l'.bytes))
