-- ===== src/Fs/Progress.antt =====
-- kernel/fs.c: `fs_write` succeeds while there is room.
use red_panda_os.Prelude.{
  ℕ, zero, suc, ◌*◌, ◌^◌, ◌≤◌, ◌<◌, ◌≡◌, refl, sym, ap, ap₂, ◌∙◌, ◌≢◌, inl, inr, true, false, not,
  ◌||◌, List, arith, ◌==◌, Bool-cases, length, drop, length-set, length-drop, u32,
}
use red_panda_os.Fs.{Sector, Fs, Disk, block_lba, free_chain, alloc_block, pad, block_size}
use red_panda_os.Fs.Ops.{
  entry, bad_name, reset, link, is_empty, Outcome, done, full, failed, write_from, finish, fs_write,
}
use red_panda_os.Fs.Ops.{count_free, fs_free_bytes, fs_file_count}
use red_panda_os.Fs.Link.{
  Geometry, alloc_block-free, Linked, link-Linked, Linked-length, write_from-next, length-more,
}
use red_panda_os.Fs.Format.{flush_both_ok}
use red_panda_os.Fs.Claim.{claim-Claimed, claim_ok}
use red_panda_os.Fs.Space.{count_free-le, count_free-take, alloc_from-none, free_chain_from-zero}

-- The free blocks of a file system.
abbrev pub free_blocks : Fs → ℕ
free_blocks fs = count_free fs.sb.data_blocks 1 fs.fat

alloc_block-none : (fs : Fs) → Geometry fs.sb → alloc_block fs ≡ 0 → free_blocks fs ≡ 0
unfolding alloc_block
alloc_block-none fs g e =
    alloc_from-none fs.sb.data_blocks 1 fs.fat (omega arith) (omega (arith, g.few)) e

free_blocks-link :
    (fs fs' : Fs) (i prev b : ℕ)
    → Linked fs i prev b fs'
    → (prev ≢ 0 → fs.fat prev ≢ 0)
    → free_blocks fs ≤ suc (free_blocks fs')
free_blocks-link fs fs' i prev b l p =
    let n = fs.sb.data_blocks in
    let drop_one : count_free n 1 fs.fat ≤ suc (count_free n 1 fs'.fat) =
      count_free-take n 1 b fs.fat fs'.fat
        (λ j low ne z. l.others j ne (λ e. p (λ q. omega (arith, low, e, q)) (rw (sym e) z)) ∙ z) in
    let same : fs'.sb.data_blocks ≡ n = ap (λ sb. sb.data_blocks) l.same_sb in rw same drop_one

module _ {S : Type 0} (disk : Disk S)
    (ok : (lba : ℕ) (x : Sector) (t : S) → (disk.ata_write lba x t).0 ≡ true) where
  write_from-done :
      (fuel i prev : ℕ) (bytes : List ℕ) (fs : Fs) (s : S)
      → Geometry fs.sb
      → i < length fs.dir
      → length bytes ≤ fuel
      → (prev ≢ 0 → fs.fat prev ≢ 0)
      → length bytes ≤ 512 * free_blocks fs
      → (write_from disk fuel i prev bytes (fs, s)).0 ≡ done
  unfolding write_from
  write_from-done zero i prev bytes fs s g lt f p room = refl
  write_from-done (suc fuel) i prev bytes fs s g lt f p room = elim (Bool-cases (is_empty bytes)) [
    | inl e ↦ rw (e, write_from) refl
    | inr more ↦
        let b = alloc_block fs in
        let put = disk.ata_write (block_lba fs b) (pad block_size bytes) s in
        let some_left = length-more bytes more in
        elim (Bool-cases (b == 0)) [
          | inl z ↦
              let none_left = alloc_block-none fs g (ground arith) in
              absurd (omega (arith, none_left, some_left, room))
          | inr nz ↦
              let bnz : b ≢ 0 = λ e. ground arith in
              let a = alloc_block-free fs g bnz in
              let ne : prev ≢ b = λ e. p (λ z. bnz (sym e ∙ z)) (rw e a.1) in
              let l = link-Linked fs i prev b lt bnz ne in
              let fs' = link i prev b fs in
              let next =
                write_from-next disk fuel i prev bytes fs s more nz
                  (ok (block_lba fs b) (pad block_size bytes) s) in
              let ih =
                write_from-done fuel i b (drop block_size bytes) fs' put.1 (rw l.same_sb g)
                  (rw (Linked-length fs fs' i prev b l) lt)
                  (omega (arith, f, length-drop 512 bytes, some_left))
                  (λ _ e. omega (arith, l.last, e))
                  (omega
                    (arith, room, length-drop 512 bytes, free_blocks-link fs fs' i prev b l p)) in
              rw next ih
        ]
  ]

  finish_ok : (i : ℕ) (r : Outcome × Fs × S) → r.0 ≡ done → (finish disk i r).0 ≡ true
  unfolding finish
  finish_ok i (done, fs, s) e = flush_both_ok disk fs s ok
  finish_ok i (full, fs, s) e = absurd (cc)
  finish_ok i (failed, fs, s) e = absurd (cc)

  free_blocks-reset : (fs : Fs) (i n : ℕ) → free_blocks fs ≤ free_blocks (reset i n fs)
  unfolding reset free_chain
  free_blocks-reset fs i n =
      count_free-le fs.sb.data_blocks 1 fs.fat (free_chain fs.fat (entry fs i).first)
        (λ j q z. free_chain_from-zero (2 ^ 16) fs.fat (entry fs i).first j z)

  -- On a mounted disk whose writes succeed and whose regions do not overlap, `fs_write` under a good
  -- name succeeds while the directory has a free slot and the free blocks hold the text.
  pub fs_write_ok :
      (fs : Fs) (s : S) (name bytes : List ℕ)
      → Geometry fs.sb
      → fs.mounted ≡ true
      → bad_name name ≡ false
      → fs_file_count fs < length fs.dir
      → length bytes ≤ fs_free_bytes fs
      → (fs_write disk name bytes (fs, s)).0 ≡ true
  unfolding fs_write fs_file_count fs_free_bytes reset
  fs_write_ok fs s name bytes g m good slots room =
      let ((i, fs0), claimed) = claim_ok fs name (rw m at slots) in
      let c = claim-Claimed fs name i fs0 good claimed in
      let fs1 = reset i (length bytes) fs0 in
      let test : (not fs.mounted || bad_name name) ≡ false = rw (m, good) refl in
      let same : free_blocks fs0 ≡ free_blocks fs =
        ap₂ (λ sb fat. count_free sb.data_blocks 1 fat) c.same_sb c.same_fat in
      let room' : length bytes ≤ u32 (free_blocks fs * 512) = rw m at room in
      let fits : length bytes ≤ 512 * free_blocks fs1 =
        omega (arith, room', same, free_blocks-reset fs0 i (length bytes)) in
      let d = record (entry fs0 i) { first = 0; size = u32 (length bytes) } in
      let in_dir : i < length fs1.dir = rw (length-set fs0.dir i d) c.in_dir in
      rw (test, claimed, fs_write)
        (finish_ok i (write_from disk (length bytes) i 0 bytes (fs1, s)) (
          write_from-done (length bytes) i 0 bytes fs1 s (rw c.same_sb g) in_dir (omega arith)
            (λ p. absurd (p refl)) fits))
