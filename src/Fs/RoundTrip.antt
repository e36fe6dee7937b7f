-- ===== src/Fs/RoundTrip.antt =====
-- kernel/fs.c: what was written is what is read.
use red_panda_os.Prelude.{
  ℕ, zero, suc, ◌+◌, ◌-◌, ◌*◌, ◌/◌, ◌^◌, ◌≤◌, ◌<◌, min, ◌≡◌, refl, sym, ap, ◌∙◌, subst, ◌≢◌, inl,
  inr, true, false, not, ◌||◌, some, List, [], ◌∷◌, arith, Bool-cases, Option-cases, length, get_or,
  set, take, drop, length-set, u32, sub32,
}
use red_panda_os.Fs.{Sector, Fs, Disk, blank_entry, block_lba, find_from, find, block_size}
use red_panda_os.Fs.Sectors.{
  flush_fat_range, flush_dir, flush_both, flush_from, fat_sector, dir_sector,
}
use red_panda_os.Fs.Ops.{
  entry, bad_name, claim, reset, Outcome, done, full, failed, fs_read, write_from, finish, fs_write,
}
use red_panda_os.Fs.Find.{find-set}
use red_panda_os.Fs.Claim.{claim-Claimed}
use red_panda_os.Fs.Contents.{stop, Holds, Working, blocks, read_from-Holds}
use red_panda_os.Fs.Link.{Geometry, IsBlock, AllBlocks, start, get_or-set}
use red_panda_os.Fs.Write.{write_from-Written}

Holds-kept :
    (n : ℕ) (fat : ℕ → ℕ) (block block' : ℕ → Sector) (b : ℕ) (cs bytes : List ℕ)
    → ((c : ℕ) → 1 ≤ c → c ≤ n → block' c ≡ block c)
    → AllBlocks n cs
    → Holds fat block b cs bytes
    → Holds fat block' b cs bytes
unfolding Holds AllBlocks
Holds-kept n fat block block' b [] bytes same all h = h
Holds-kept n fat block block' b (c ∷ cs) bytes same all h = (
  h.0,
  h.1,
  h.2,
  same c all.0.0 all.0.1 ∙ h.3,
  Holds-kept n fat block block' (fat c) cs (drop block_size bytes) same all.1 h.4,
)

module _ {S : Type 0} (disk : Disk S) (w : Working disk) where
  flush_from-keeps :
      (sector : ℕ → Sector) (first n i lba : ℕ) (s : S)
      → ((j : ℕ) → j < i + n → u32 (first + j) ≢ lba)
      → w.view (flush_from disk sector first n i s).1 lba ≡ w.view s lba
  unfolding flush_from
  flush_from-keeps sector first zero i lba s h = refl
  flush_from-keeps sector first (suc n) i lba s h =
      let put = disk.ata_write (u32 (first + i)) (sector i) s in
      let here = w.write_keeps s (u32 (first + i)) (sector i) lba (h i (omega arith)) in
      elim (Bool-cases put.0) [
        | inr broken ↦ rw broken here
        | inl ok ↦
            rw ok
              (flush_from-keeps sector first n (suc i) lba put.1 (λ j q. h j (omega arith)) ∙ here)
      ]

  -- Writing back the FAT and the directory leaves the data blocks as they were.
  flush_both-keeps :
      (fs : Fs) (s : S) (b : ℕ)
      → Geometry fs.sb
      → IsBlock fs b
      → blocks disk w fs (flush_both disk fs s).1 b ≡ blocks disk w fs s b
  unfolding flush_both flush_fat_range flush_dir block_lba
  flush_both-keeps fs s b g hb =
      let put = flush_fat_range disk 0 fs.sb.data_blocks fs s in
      let last = u32 (fs.sb.data_blocks * 2) / block_size in
      let lba = u32 (fs.sb.data_start + sub32 b 1) in
      let far : fs.sb.data_start ≤ lba = omega (arith, g.on_disk, g.few, hb.0, hb.1) in
      let one =
        flush_from-keeps (fat_sector fs.fat) fs.sb.fat_start (suc last - 0) 0 lba s
          (λ j q e. omega (arith, e, q, far, g.few, g.fat_room, g.fat_before, g.dir_before)) in
      let two =
        flush_from-keeps (dir_sector fs.dir) fs.sb.dir_start fs.sb.dir_sectors 0 lba put.1
          (λ j q e. omega (arith, e, q, far, g.dir_before)) in
      elim (Bool-cases put.0) [
        | inr broken ↦ rw (broken, flush_both) one
        | inl ok ↦ rw (ok, flush_both) (two ∙ one)
      ]

  -- A good end of `fs_write`: the loop was done, and the blocks are as it left them.
  record Finished (i : ℕ) (r : Outcome × Fs × S) : Type 0 where
    was_done : r.0 ≡ done
    same_fs : (finish disk i r).1 ≡ r.1
    same_blocks :
        (b : ℕ) → IsBlock r.1 b → blocks disk w r.1 (finish disk i r).2 b ≡ blocks disk w r.1 r.2 b

  finish-Finished :
      (i : ℕ) (r : Outcome × Fs × S) → Geometry r.1.sb → (finish disk i r).0 ≡ true → Finished i r
  unfolding finish
  finish-Finished i (done, fs, s) g h = record {
    was_done = refl;
    same_fs = refl;
    same_blocks = λ b hb. flush_both-keeps fs s b g hb;
  }
  finish-Finished i (full, fs, s) g h = absurd (cc)
  finish-Finished i (failed, fs, s) g h = absurd (cc)

  finish-done : (i : ℕ) (r : Outcome × Fs × S) → (finish disk i r).0 ≡ true → r.0 ≡ done
  unfolding finish
  finish-done i (done, fs, s) h = refl
  finish-done i (full, fs, s) h = absurd (cc)
  finish-done i (failed, fs, s) h = absurd (cc)

  blocks-sb :
      (f f' : Fs) (t : S) (b : ℕ) → f.sb ≡ f'.sb → blocks disk w f t b ≡ blocks disk w f' t b
  unfolding block_lba
  blocks-sb f f' t b e = ap (λ sb. w.view t (u32 (sb.data_start + sub32 b 1))) e

  find-dir : (fs fs' : Fs) (name : List ℕ) → fs.dir ≡ fs'.dir → find fs name ≡ find fs' name
  unfolding find
  find-dir fs fs' name e = ap (λ es. find_from 0 es name) e

  take-min : (n : ℕ) (xs : List ℕ) → take (min (length xs) n) xs ≡ take n xs
  take-min zero xs = let e : min (length xs) 0 ≡ 0 = omega arith in rw e refl
  take-min (suc n) [] = let e : min 0 (suc n) ≡ 0 = omega arith in rw e refl
  take-min (suc n) (x ∷ xs) =
      let e : min (suc (length xs)) (suc n) ≡ suc (min (length xs) n) = omega arith in
      rw e (ap (λ ys. x ∷ ys) (take-min n xs))

  -- Reading a file whose chain holds the bytes.
  fs_read-Holds :
      (fs : Fs) (s : S) (i : ℕ) (name bytes chain : List ℕ) (maxlen : ℕ)
      → fs.mounted ≡ true
      → find fs name ≡ some i
      → (entry fs i).size ≡ length bytes
      → Holds fs.fat (blocks disk w fs s) (entry fs i).first chain bytes
      → let got = fs_read disk fs name maxlen s in
        (got.0 ≡ some (length bytes)) × (got.1 ≡ take maxlen bytes)
  unfolding fs_read
  fs_read-Holds fs s i name bytes chain maxlen m f size h =
      let n = min (entry fs i).size maxlen in
      let r =
        read_from-Holds disk w fs n n (entry fs i).first chain bytes s (omega arith)
          (omega (arith, size)) h in
      rw (m, f, fs_read) (rw r.0 (ap some size), r.1 ∙ (rw size (take-min maxlen bytes)))

  -- The whole of `fs_write` behind the claim of an entry.
  replace-Holds :
      (fs : Fs) (s : S) (i : ℕ) (name bytes : List ℕ) (maxlen : ℕ)
      → Geometry fs.sb
      → i < length fs.dir
      → fs.mounted ≡ true
      → find fs name ≡ some i
      → length bytes < 2 ^ 32
      → let out =
          finish disk i (write_from disk (length bytes) i 0 bytes (reset i (length bytes) fs, s)) in
        out.0 ≡ true
        → let got = fs_read disk out.1 name maxlen out.2 in
          (got.0 ≡ some (length bytes)) × (got.1 ≡ take maxlen bytes)
  unfolding reset entry
  replace-Holds fs s i name bytes maxlen g lt m f short ok =
      let fs1 = reset i (length bytes) fs in
      let r = write_from disk (length bytes) i 0 bytes (fs1, s) in
      let out = finish disk i r in
      let d = record (entry fs i) { first = 0; size = u32 (length bytes) } in
      let here : entry fs1 i ≡ d = get_or-set fs.dir i d lt in
      let lt1 : i < length fs1.dir = rw (length-set fs.dir i d) lt in
      let no_first : (entry fs1 i).first ≡ 0 = ap (λ e. e.first) here in
      let empty : stop (start fs1 i 0) ≡ true = rw no_first refl in
      let wr =
        write_from-Written disk w (length bytes) i 0 bytes fs1 s g lt1 (omega arith) empty
          (λ p. absurd (p refl)) (finish-done i r ok) in
      let fin = finish-Finished i r (rw wr.same_sb g) ok in
      let first = wr.dir_first refl in
      let e = record (entry fs1 i) { first = first.0 } in
      let now : entry r.1 i ≡ e =
        ap (λ es. get_or es i blank_entry) first.1 ∙ get_or-set fs1.dir i e lt1 in
      let found : find r.1 name ≡ some i =
        find-dir r.1 (record fs1 { dir = set fs1.dir i e }) name first.1
        ∙ (find-set fs1 i e name (refl, refl)
            ∙ (find-dir fs1 (record fs { dir = set fs.dir i d }) name refl
                ∙ (find-set fs i d name (refl, refl) ∙ f))) in
      let size : (entry r.1 i).size ≡ length bytes =
        ap (λ e. e.size) now ∙ (ap (λ e. e.size) here ∙ (omega arith)) in
      let same : (c : ℕ)
          → 1 ≤ c
          → c ≤ fs.sb.data_blocks
          → blocks disk w r.1 out.2 c ≡ blocks disk w fs1 r.2 c =
        λ c p q. fin.same_blocks c (p, rw wr.same_sb q) ∙ blocks-sb r.1 fs1 r.2 c wr.same_sb in
      let held =
        Holds-kept fs.sb.data_blocks r.1.fat (blocks disk w fs1 r.2) (blocks disk w r.1 out.2)
          (entry r.1 i).first wr.chain bytes same wr.chain_blocks wr.holds in
      subst
        (λ now.
          let got = fs_read disk now name maxlen out.2 in
          (got.0 ≡ some (length bytes)) × (got.1 ≡ take maxlen bytes))
        (sym fin.same_fs)
        (fs_read-Holds r.1 out.2 i name bytes wr.chain maxlen (wr.same_mounted ∙ m) found size held)

  -- On a working disk whose regions do not overlap, a text of fewer than 2^32 bytes that `fs_write`
  -- stored with success under a name is what `fs_read` returns for that name: the whole size, and
  -- the first `maxlen` bytes.
  pub fs_write-fs_read :
      (fs : Fs) (s : S) (name bytes : List ℕ) (maxlen : ℕ)
      → Geometry fs.sb
      → length bytes < 2 ^ 32
      → let out = fs_write disk name bytes (fs, s) in
        out.0 ≡ true
        → let got = fs_read disk out.1 name maxlen out.2 in
          (got.0 ≡ some (length bytes)) × (got.1 ≡ take maxlen bytes)
  unfolding fs_write
  fs_write-fs_read fs s name bytes maxlen g short ok =
      elim (Bool-cases (not fs.mounted || bad_name name)) [
        | inl bad ↦ let q : false ≡ true = rw (bad, fs_write) at ok in absurd (cc)
        | inr good ↦ elim (Option-cases (claim fs name)) [
          | inl nothing ↦ let q : false ≡ true = rw (good, nothing, fs_write) at ok in absurd (cc)
          | inr ((i, fs0), claimed) ↦
              let c = claim-Claimed fs name i fs0 (ground arith) claimed in
              let m : fs.mounted ≡ true = ground arith in
              rw (good, claimed, fs_write)
                (replace-Holds fs0 s i name bytes maxlen (rw c.same_sb g) c.in_dir
                  (c.same_mounted ∙ m) c.found short (rw (good, claimed, fs_write) at ok))
        ]
      ]
