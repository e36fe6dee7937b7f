-- ===== src/Paging/Inv.antt =====
-- kernel/paging.c: what the processor reads off the tables, and when they are in order.
use red_panda_os.Prelude.{
  ℕ, zero, suc, ◌+◌, ◌*◌, ◌/◌, ◌%◌, ◌^◌, ◌≤◌, ◌<◌, bit_and, ◌≡◌, refl, ap, inl, inr, true, false,
  ◌&&◌, Option, none, some, arith, ◌==◌, if◌then◌else◌, Bool-cases,
}
use red_panda_os.Pmm.Bitmap.{used}
use red_panda_os.Paging.{page_mask, Vm, store, entry_of, present}
use red_panda_os.Pmm.Inv

-- The physical address that the processor finds for a virtual one.
abbrev pub translate : Vm → ℕ → Option ℕ
translate vm virt =
    let dir_entry = vm.page_dir (virt / 2 ^ 22) in
    let entry = vm.mem (bit_and dir_entry page_mask + 4 * (virt / 4096 % 1024)) in
    if present dir_entry && present entry
    then some (bit_and entry page_mask + virt % 4096)
    else none

-- A directory entry that is there names a frame in use.
pub record IsTable (vm : Vm) (d : ℕ) : Type 0 where
  pub frame : ℕ
  pub in_range : frame < 2 ^ 20
  pub held : used vm.pmm.bitmap frame ≡ 1
  pub named : vm.page_dir d ≡ entry_of (frame * 4096)

-- Each table has a frame of its own.
pub record IsValid (vm : Vm) : Type 0 where
  pub frames : Inv.IsValid vm.pmm
  pub tables : (d : ℕ) → d < 1024 → present (vm.page_dir d) ≡ true → IsTable vm d
  pub apart :
      (d e : ℕ)
      → d < 1024
      → e < 1024
      → present (vm.page_dir d) ≡ true
      → present (vm.page_dir e) ≡ true
      → vm.page_dir d ≡ vm.page_dir e
      → d ≡ e

-- The directory entries below `n` that are not there.
unfoldable pub missing : (ℕ → ℕ) → ℕ → ℕ
missing dir zero = 0
missing dir (suc n) = (if present (dir n) then 0 else 1) + missing dir n

pub missing-same :
    (dir : ℕ → ℕ) (d entry n : ℕ) → n ≤ d → missing (store d entry dir) n ≡ missing dir n
unfolding store missing
missing-same dir d entry zero h = refl
missing-same dir d entry (suc n) h =
    let other : (n == d) ≡ false = ground (arith, h) in
    rw other (
      ap (λ t. (if present (dir n) then 0 else 1) + t)
        (missing-same dir d entry n (omega (arith, h))))

-- A table that is made is one that is no longer missing.
pub missing-store :
    (dir : ℕ → ℕ) (d entry n : ℕ)
    → d < n
    → present (dir d) ≡ false
    → present entry ≡ true
    → missing (store d entry dir) n + 1 ≡ missing dir n
unfolding store missing
missing-store dir d entry zero h gone here = absurd (omega (arith, h))
missing-store dir d entry (suc n) h gone here = elim (Bool-cases (n == d)) [
  | inl e ↦
      let q : n ≡ d = ground (arith, e) in
      let lost : present (dir n) ≡ false = rw q gone in
      rw (e, here, lost) (omega (arith, missing-same dir d entry n (omega (arith, q))))
  | inr e ↦ rw e (omega (arith, missing-store dir d entry n (ground (arith, h, e)) gone here))
]

pub missing-le : (dir : ℕ → ℕ) (n d : ℕ) → d < n → present (dir d) ≡ false → 1 ≤ missing dir n
unfolding missing
missing-le dir zero d h gone = absurd (omega (arith, h))
missing-le dir (suc n) d h gone = elim (Bool-cases (n == d)) [
  | inl e ↦
      let q : n ≡ d = ground (arith, e) in
      let lost : present (dir n) ≡ false = rw q gone in rw lost (omega arith)
  | inr e ↦ omega (arith, missing-le dir n d (ground (arith, h, e)) gone)
]
