-- ===== src/Fs/Write.antt =====
-- kernel/fs.c: the loop of `fs_write` builds a chain that holds the text.
use red_panda_os.Prelude.{
  ℕ, zero, suc, ◌+◌, ◌≤◌, ◌<◌, ◌≡◌, refl, sym, ap, ◌∙◌, fun_ext, subst, ◌≢◌, inl, inr, true, false,
  List, [], ◌∷◌, arith, ◌==◌, Bool-cases, length, get_or, set, drop, length-drop, u32, sub32,
}
use red_panda_os.Fs.{Fs, Disk, blank_entry, block_lba, alloc_block, pad, block_size}
use red_panda_os.Fs.Ops.{entry, link, is_empty, done, full, failed, write_from}
use red_panda_os.Fs.Contents.{stop, Holds, Working, blocks}
use red_panda_os.Fs.Link.{
  Geometry, IsBlock, AllBlocks, alloc_block-free, block_lba-ne, start, set-get_or, Linked,
  link-Linked, Linked-length, write_from-next, length-zero, length-more,
}

module _ {S : Type 0} (disk : Disk S) (w : Working disk) where
  -- What the loop does that ends well: a chain for the bytes hangs where `prev` ended, and what was
  -- allocated before is left as it was.
  pub record Written (fs : Fs) (s : S) (i prev : ℕ) (bytes : List ℕ) (out : Fs × S) : Type 0 where
    pub same_sb : out.0.sb ≡ fs.sb
    pub same_mounted : out.0.mounted ≡ fs.mounted
    pub chain : List ℕ
    pub chain_blocks : AllBlocks fs.sb.data_blocks chain
    pub holds : Holds out.0.fat (blocks disk w fs out.1) (start out.0 i prev) chain bytes
    pub same_fat : (j : ℕ) → fs.fat j ≢ 0 → j ≢ prev → out.0.fat j ≡ fs.fat j
    pub same_blocks :
        (j : ℕ) → IsBlock fs j → fs.fat j ≢ 0 → blocks disk w fs out.1 j ≡ blocks disk w fs s j
    pub dir_later : prev ≢ 0 → out.0.dir ≡ fs.dir
    pub dir_first :
        prev ≡ 0 → (f : ℕ) × (out.0.dir ≡ set fs.dir i (record (entry fs i) { first = f }))

  Written-nothing :
      (fs : Fs) (s : S) (i prev : ℕ) (bytes : List ℕ)
      → is_empty bytes ≡ true
      → stop (start fs i prev) ≡ true
      → Written fs s i prev bytes (fs, s)
  unfolding Holds is_empty entry AllBlocks
  Written-nothing fs s i prev [] e h = record {
    same_sb = refl;
    same_mounted = refl;
    chain = [];
    chain_blocks = tt;
    holds = (refl, h);
    same_fat = λ j p q. refl;
    same_blocks = λ j p q. refl;
    dir_later = λ _. refl;
    dir_first = λ _. ((entry fs i).first, sym (set-get_or fs.dir i));
  }
  Written-nothing fs s i prev (x ∷ xs) e h = absurd (cc)

  module _ (fs fs' : Fs) (i prev b : ℕ) (g : Geometry fs.sb) (hb : IsBlock fs b)
      (free : fs.fat b ≡ 0) (l : Linked fs i prev b fs') where
    same_lba : (t : S) (x : ℕ) → blocks disk w fs' t x ≡ blocks disk w fs t x
    unfolding block_lba
    same_lba t x = ap (λ sb. w.view t (u32 (sb.data_start + sub32 x 1))) l.same_sb

    IsBlock-kept : (j : ℕ) → IsBlock fs j → IsBlock fs' j
    IsBlock-kept j h = (h.0, rw l.same_sb h.1)

    not_fresh : (j : ℕ) → fs.fat j ≢ 0 → j ≢ b
    not_fresh j h = λ e. h (rw e free)

    last_used : fs'.fat b ≢ 0
    last_used = λ e. omega (arith, l.last, e)

    behind_prev : prev ≢ 0 → fs'.fat prev ≡ b
    behind_prev h = let more : (prev == 0) ≡ false = ground arith in rw more at l.behind

    still_used : (j : ℕ) → IsBlock fs j → fs.fat j ≢ 0 → fs'.fat j ≢ 0
    still_used j hj h = elim (Bool-cases (j == prev)) [
      | inl t ↦
          let e : j ≡ prev = ground arith in
          λ z.
            omega
              (arith, hb.0, hj.0, e, behind_prev (λ p. omega (arith, hj.0, e, p)), z, ap fs'.fat e)
      | inr t ↦
          let e : j ≢ prev = λ e. ground arith in λ z. h (sym (l.others j (not_fresh j h) e) ∙ z)
    ]

    start-kept :
        (out : Fs)
        → out.dir ≡ fs'.dir
        → (prev ≢ 0 → out.fat prev ≡ fs'.fat prev)
        → start out i prev ≡ b
    unfolding entry
    start-kept out d f = elim (Bool-cases (prev == 0)) [
      | inl z ↦ rw z (ap (λ es. (get_or es i blank_entry).first) d ∙ (rw z at l.behind))
      | inr more ↦ let p : prev ≢ 0 = λ e. ground arith in rw more (f p ∙ behind_prev p)
    ]

    Written-round :
        (s : S) (bytes : List ℕ) (out : Fs × S)
        → prev ≢ b
        → is_empty bytes ≡ false
        → let put = disk.ata_write (block_lba fs b) (pad block_size bytes) s in
          put.0 ≡ true
          → Written fs' put.1 i b (drop block_size bytes) out
          → Written fs s i prev bytes out
    unfolding Holds AllBlocks
    Written-round s bytes out ne more ok r =
        let put = disk.ata_write (block_lba fs b) (pad block_size bytes) s in
        let nz : b ≢ 0 = λ e. omega (arith, hb.0, e) in
        let test : (b == 0) ≡ false = ground arith in
        let tail : Holds out.0.fat (blocks disk w fs' out.1) (out.0.fat b) r.chain
            (drop 512 bytes) =
          rw test at r.holds in
        let kept : blocks disk w fs' out.1 ≡ blocks disk w fs out.1 = fun_ext (same_lba out.1) in
        record {
          same_sb = r.same_sb ∙ l.same_sb;
          same_mounted = r.same_mounted ∙ l.same_mounted;
          chain_blocks = (hb, rw l.same_sb at r.chain_blocks);
          chain = b ∷ r.chain;
          holds = (
            start-kept out.0 (r.dir_later nz)
                (λ p. r.same_fat prev (λ z. nz (sym (behind_prev p) ∙ z)) ne),
            ground (arith, hb.0, hb.1, g.few),
            more,
            sym (same_lba out.1 b)
                ∙ (r.same_blocks b (IsBlock-kept b hb) last_used
                    ∙ (same_lba put.1 b ∙ w.writes s (block_lba fs b) (pad block_size bytes) ok)),
            rw kept at tail,
          );
          same_fat = λ j p q.
              let here : fs'.fat j ≡ fs.fat j = l.others j (not_fresh j p) q in
              r.same_fat j (λ z. p (sym here ∙ z)) (not_fresh j p) ∙ here;
          same_blocks = λ j p q.
              sym (same_lba out.1 j)
              ∙ (r.same_blocks j (IsBlock-kept j p) (still_used j p q)
                  ∙ (same_lba put.1 j
                      ∙ w.write_keeps s (block_lba fs b) (pad block_size bytes) (block_lba fs j)
                          (block_lba-ne fs b j g hb p (λ e. not_fresh j q (sym e)))));
          dir_later = λ p. r.dir_later nz ∙ l.dir_later p;
          dir_first = λ p. (b, r.dir_later nz ∙ l.dir_first p);
        }

  pub write_from-Written :
      (fuel i prev : ℕ) (bytes : List ℕ) (fs : Fs) (s : S)
      → Geometry fs.sb
      → i < length fs.dir
      → length bytes ≤ fuel
      → stop (start fs i prev) ≡ true
      → (prev ≢ 0 → fs.fat prev ≢ 0)
      → let r = write_from disk fuel i prev bytes (fs, s) in
        r.0 ≡ done → Written fs s i prev bytes (r.1, r.2)
  unfolding write_from
  write_from-Written zero i prev bytes fs s g lt f h p d =
      Written-nothing fs s i prev bytes (length-zero bytes f) h
  write_from-Written (suc fuel) i prev bytes fs s g lt f h p d =
      elim (Bool-cases (is_empty bytes)) [
        | inl e ↦ rw (e, write_from) (Written-nothing fs s i prev bytes e h)
        | inr more ↦
            let b = alloc_block fs in
            let put = disk.ata_write (block_lba fs b) (pad block_size bytes) s in
            elim (Bool-cases (b == 0)) [
              | inl z ↦ let bad : full ≡ done = rw (more, z) at d in absurd (cc)
              | inr nz ↦ elim (Bool-cases put.0) [
                | inr broken ↦ let bad : failed ≡ done = rw (more, nz, broken) at d in absurd (cc)
                | inl ok ↦
                    let bnz : b ≢ 0 = λ e. ground arith in
                    let a = alloc_block-free fs g bnz in
                    let ne : prev ≢ b = λ e. p (λ z. bnz (sym e ∙ z)) (rw e a.1) in
                    let l = link-Linked fs i prev b lt bnz ne in
                    let next = write_from-next disk fuel i prev bytes fs s more nz ok in
                    let fs' = link i prev b fs in
                    let isb : (b == 0) ≡ false = nz in
                    let ended : stop (start fs' i b) ≡ true = rw (isb, l.last) refl in
                    let rest = write_from disk fuel i b (drop block_size bytes) (fs', put.1) in
                    let ended_well : rest.0 ≡ done = sym (ap (λ r. r.0) next) ∙ d in
                    let ih =
                      write_from-Written fuel i b (drop block_size bytes) fs' put.1 (rw l.same_sb g)
                        (rw (Linked-length fs fs' i prev b l) lt)
                        (omega (arith, f, length-drop 512 bytes, length-more bytes more)) ended
                        (λ _. last_used fs fs' i prev b g a.0 a.1 l) ended_well in
                    subst (λ r. Written fs s i prev bytes (r.1, r.2)) (sym next)
                      (Written-round fs fs' i prev b g a.0 a.1 l s bytes (rest.1, rest.2) ne more ok
                        ih)
              ]
            ]
      ]
