-- ===== src/Icons/Layout.antt =====
-- kernel/gui.c, the desktop's icons: the file that keeps their places, and the trash.
use red_panda_os.Prelude.{
  ℕ, zero, suc, ◌+◌, ◌-◌, ◌*◌, ◌/◌, ◌%◌, ◌^◌, Bool, not, ◌&&◌, Option, none, some, List, [], ◌∷◌,
  ◌++◌, map, ltb, ◌==◌, if◌then◌else◌, length, get_or, take, drop, u16,
}
use red_panda_os.Prelude.Int.{ℤ, pos, negsuc, ◌+ℤ◌, ltb_ℤ}
use red_panda_os.Mouse.{int16}
use red_panda_os.Fs.{Fs, Disk, pad}
use red_panda_os.Fs.Ops.{fs_dir_get, fs_read, fs_write, fs_rename}
use red_panda_os.Fb.Flip.{min_ℤ, max_ℤ}
use red_panda_os.Icons.{Icon, Desktop, LayoutRec}

-- `LAYOUT_FILE`
abbrev pub layout_file : List ℕ
layout_file = 2 ∷ 108 ∷ 97 ∷ 121 ∷ 111 ∷ 117 ∷ 116 ∷ []

-- The name of the trash's record.
abbrev pub trash_record : List ℕ
trash_record = 2 ∷ 116 ∷ 114 ∷ 97 ∷ 115 ∷ 104 ∷ []

-- `sizeof(layout_rec_t)`
abbrev pub record_size : ℕ
record_size = 26

-- The bytes of `layout`, 65 records, and `layout_n`.
pub record Layout : Type 0 where
  pub bytes : List ℕ
  pub count : ℕ

-- The two bytes of an integer that is cast to 16 bits, the low one first.
unfoldable pub bits16 : ℤ → ℕ
bits16 (pos n) = u16 n
bits16 (negsuc n) = 2 ^ 16 - 1 - u16 n

unfoldable pub coordinate : ℤ → List ℕ
unfolding bits16
coordinate v = bits16 v % 256 ∷ (bits16 v / 256 ∷ [])

-- A record of `layout` as its bytes.
unfoldable pub record_bytes : List ℕ → ℤ → ℤ → List ℕ
unfolding pad coordinate
record_bytes name x y = pad 22 name ++ (coordinate x ++ coordinate y)

-- The records of the icons, and behind them that of the trash.
unfoldable pub layout_bytes : List Icon → ℤ → ℤ → List ℕ
unfolding record_bytes
layout_bytes [] tx ty = record_bytes trash_record tx ty
layout_bytes (ic ∷ icons) tx ty = record_bytes ic.name ic.x ic.y ++ layout_bytes icons tx ty

-- A coordinate read back from its two bytes.
unfoldable pub read_coordinate : List ℕ → ℤ
unfolding int16
read_coordinate bytes = int16 (pos (get_or bytes 0 0 + 256 * get_or bytes 1 0))

-- The first `n` records in a buffer.
unfoldable pub records : ℕ → List ℕ → List LayoutRec
unfolding read_coordinate
records zero bytes = []
records (suc n) bytes =
    record {
      name = take 22 bytes;
      x = read_coordinate (drop 22 bytes);
      y = read_coordinate (drop 24 bytes);
    }
    ∷ records n (drop record_size bytes)

-- Whether the `n` bytes are written over the front of the buffer.
unfoldable pub overwrite : List ℕ → List ℕ → List ℕ
overwrite new old = new ++ drop (length new) old

-- `layout_n` from what `fs_read` returned, a size of 2^31 and more being negative.
unfoldable pub layout_count : Option ℕ → ℕ
layout_count none = 0
layout_count (some size) = if ltb size (2 ^ 31) then size / record_size else 0

-- The name in the trash: the prefix, and at most 20 bytes of the name.
unfoldable pub trash_name : List ℕ → List ℕ
trash_name name = 1 ∷ take 20 name

unfoldable pub count_trash : ℕ → ℕ → Fs → ℕ
unfolding fs_dir_get
count_trash zero i fs = 0
count_trash (suc rounds) i fs =
    let rest = count_trash rounds (suc i) fs in
    elim (fs_dir_get fs i) [
      | none ↦ rest
      | some (name, size) ↦ if get_or name 0 0 == 1 then suc rest else rest
    ]

unfoldable pub trash_file_count : Fs → ℕ
unfolding count_trash
trash_file_count fs = count_trash 64 0 fs

-- Whether the page and the label of an icon meet the band between two corners.
unfoldable pub in_band : ℤ × ℤ → ℤ × ℤ → Icon → Bool
unfolding min_ℤ max_ℤ
in_band (ax, ay) (bx, by) ic =
    let ix0 = ic.x +ℤ pos 20 in
    let iy0 = ic.y +ℤ pos 2 in
    not (ltb_ℤ (ix0 +ℤ pos 56) (min_ℤ ax bx))
    && (not (ltb_ℤ (max_ℤ ax bx) ix0)
        && (not (ltb_ℤ (iy0 +ℤ pos 66) (min_ℤ ay by)) && not (ltb_ℤ (max_ℤ ay by) iy0)))

unfoldable pub update_band_selection : ℤ × ℤ → ℤ × ℤ → Desktop → Desktop
unfolding in_band
update_band_selection anchor corner d = record d {
  icons = map (λ (ic : Icon). record ic { selected = in_band anchor corner ic }) d.icons;
}

module _ {S : Type 0} (disk : Disk S) where
  unfoldable pub save_layout : Desktop → Layout → Fs × S → Bool × Layout × Fs × S
  unfolding layout_bytes overwrite fs_write
  save_layout d l t =
      let bytes = layout_bytes d.icons d.trash_x d.trash_y in
      let (ok, fs', s') = fs_write disk layout_file bytes t in
      (ok, record { bytes = overwrite bytes l.bytes; count = length d.icons + 1 }, fs', s')

  -- The size is the file's, whatever was read of it; 1690 is the size of the array.
  unfoldable pub load_layout : Layout → Fs × S → Layout × S
  unfolding overwrite layout_count fs_read
  load_layout l (fs, s) =
      let (size, got, s') = fs_read disk fs layout_file 1690 s in
      (record { bytes = overwrite got l.bytes; count = layout_count size }, s')

  unfoldable pub trash_file : List ℕ → Fs × S → Bool × Fs × S
  unfolding trash_name fs_rename
  trash_file name t = fs_rename disk name (trash_name name) t

  unfoldable pub restore_file : List ℕ → Fs × S → Bool × Fs × S
  unfolding fs_rename
  restore_file trashed t = fs_rename disk trashed (drop 1 trashed) t
