-- ===== src/Boot/Tests.antt =====
-- A disk with a kernel of one segment of 1000 bytes, which is to stand at 1 megabyte.
use mathlib.Core.Path.{subst}
use mit6_828_lab.Base.{ℕ, ◌+◌, ◌-◌, ◌%◌, ◌^◌, ◌≤◌, ◌<◌, ◌≡◌, refl, ◌==◌, if◌then◌else◌, arith}
use mit6_828_lab.Boot.{Memory, e_entry, e_phnum, enter, bootmain}
use mit6_828_lab.Boot.Loaded.{
  image, pa_of, size_of, offset_of, IsKernel, HasLoaded, bootmain-HasLoaded,
}

-- Its bytes by their position, of which the first 512 are the boot sector.
abbrev disk : ℕ → ℕ
disk i =
    if i == 512
    then 0x7f
    else (if i == 513
        then 0x45
        else (if i == 514
            then 0x4c
            else (if i == 515
                then 0x46
                else (if i == 536
                    then 0x0c
                    else (if i == 538
                        then 0x10
                        else (if i == 540
                            then 52
                            else (if i == 556
                                then 1
                                else (if i == 569
                                    then 0x10
                                    else (if i == 578
                                        then 0x10
                                        else (if i == 584
                                            then 0xe8
                                            else (if i == 585 then 0x03 else 0)))))))))))

first : (k : ℕ) → k < 1 → 0 ≡ k
first k lt = omega arith

disk-IsKernel : IsKernel disk
disk-IsKernel = record {
  magic = refl;
  in_page = omega arith;
  above = λ k lt. subst (λ n. 0x11000 ≤ pa_of disk n) (first k lt) (omega arith);
  fits =
      λ k lt. subst (λ n. pa_of disk n + size_of disk n ≤ 2 ^ 32 - 1024) (first k lt) (omega arith);
  offset_fits = λ k lt. subst (λ n. offset_of disk n < 2 ^ 32) (first k lt) (omega arith);
  aligned = λ k lt. subst (λ n. offset_of disk n % 512 ≡ pa_of disk n % 512) (first k lt) refl;
  apart = λ j k lt lt'. absurd (omega (arith, lt, lt'));
}

bootmain-HasLoaded_example :
    (mem' : Memory) × (bootmain disk (λ a. 0) ≡ enter (e_entry (image disk) 0) mem')
    × HasLoaded disk (e_phnum (image disk) 0) mem'
bootmain-HasLoaded_example = bootmain-HasLoaded disk disk-IsKernel (λ a. 0)
