-- ===== src/Boot/Loaded.antt =====
-- bootmain loads a kernel.
use mathlib.Core.Path.{subst}
use mit6_828_lab.Base.{
  ℕ, zero, suc, ◌+◌, ◌-◌, ◌*◌, ◌%◌, ◌^◌, ◌≤◌, ◌<◌, ◌≡◌, ◌⊎◌, inl, inr, refl, sym, ap, ◌∙◌, ltb,
  ◌==◌, ==_iff, if◌then◌else◌, some, List, arith, Bool-cases,
}
use mit6_828_lab.Boot.{
  sectsize, readseg, Memory, read_sectors, half, word, elfhdr, elf_magic, e_magic, e_entry, e_phoff,
  e_phnum, p_offset, p_pa, p_memsz, enter, load_segments, boot_elf, bootmain,
}
use mit6_828_lab.Boot.Copied.{readseg-copied}

module _ (disk : ℕ → ℕ) where
  -- The kernel's file, which begins at the second sector, and its program headers.
  abbrev pub image : Memory
  image i = disk (512 + i)

  abbrev pub header : ℕ → ℕ
  header k = e_phoff image 0 + k * 32

  abbrev pub pa_of : ℕ → ℕ
  pa_of k = p_pa image (header k)

  abbrev pub size_of : ℕ → ℕ
  size_of k = p_memsz image (header k)

  abbrev pub offset_of : ℕ → ℕ
  offset_of k = p_offset image (header k)

  -- The headers are in the first page. Each segment lies behind the place to which that page is read, as far into a sector as it
  -- does in the file; and no sector of a segment reaches into one before.
  pub record IsKernel : Type 0 where
    pub magic : e_magic image 0 ≡ elf_magic
    pub in_page : e_phoff image 0 + e_phnum image 0 * 32 ≤ 4096
    pub above : (k : ℕ) → k < e_phnum image 0 → 0x11000 ≤ pa_of k
    pub fits : (k : ℕ) → k < e_phnum image 0 → pa_of k + size_of k ≤ 2 ^ 32 - 1024
    pub offset_fits : (k : ℕ) → k < e_phnum image 0 → offset_of k < 2 ^ 32
    pub aligned : (k : ℕ) → k < e_phnum image 0 → offset_of k % 512 ≡ pa_of k % 512
    pub apart :
        (j k : ℕ)
        → j < k
        → k < e_phnum image 0
        → (pa_of j + size_of j ≤ pa_of k - pa_of k % 512) ⊎ (pa_of k + size_of k + 511 ≤ pa_of j)

  -- The header page and the first `k` segments are in memory.
  pub record HasLoaded (k : ℕ) (mem : Memory) : Type 0 where
    pub page : (q : ℕ) → q < 4096 → mem (elfhdr + q) ≡ image q
    pub segments : (j i : ℕ) → j < k → i < size_of j → mem (pa_of j + i) ≡ image (offset_of j + i)

  half-page :
      (mem : Memory) (k q : ℕ)
      → HasLoaded k mem
      → q + 1 < 4096
      → half mem (elfhdr + q) ≡ half image q
  half-page mem k q h lt =
      let second : mem (elfhdr + q + 1) ≡ image (q + 1) =
        ap mem (omega arith) ∙ h.page (q + 1) lt in
      rw (h.page q (omega arith), second) refl

  word-page :
      (mem : Memory) (k a q : ℕ)
      → HasLoaded k mem
      → a ≡ elfhdr + q
      → q + 3 < 4096
      → word mem a ≡ word image q
  word-page mem k a q h at lt =
      let upper : half mem (elfhdr + q + 2) ≡ half image (q + 2) =
        ap (half mem) (omega arith) ∙ half-page mem k (q + 2) h (omega arith) in
      rw (at, half-page mem k q h (omega arith), upper) refl

  load_step :
      (n ph pa size offset : ℕ) (mem : Memory) (reads : List (ℕ × ℕ))
      → p_pa mem ph ≡ pa
      → p_memsz mem ph ≡ size
      → p_offset mem ph ≡ offset
      → readseg pa size offset ≡ some reads
      → load_segments disk (suc n) ph mem
        ≡ load_segments disk n (ph + 32) (read_sectors disk reads mem)
  unfolding load_segments
  load_step n ph pa size offset mem reads at_pa at_size at_offset run =
      rw (load_segments, at_pa, at_size, at_offset, run) refl

  elf_step :
      (phoff phnum : ℕ) (mem mem' : Memory)
      → e_magic mem elfhdr ≡ elf_magic
      → e_phoff mem elfhdr ≡ phoff
      → e_phnum mem elfhdr ≡ phnum
      → phoff + phnum * 32 ≤ 4096
      → load_segments disk phnum (elfhdr + phoff) mem ≡ some mem'
      → boot_elf disk mem ≡ enter (e_entry mem' elfhdr) mem'
  unfolding boot_elf
  elf_step phoff phnum mem mem' magic at_phoff at_phnum in_page run =
      let ph : (elfhdr + phoff) % 2 ^ 32 ≡ elfhdr + phoff = omega arith in
      let rounds : (if ltb (elfhdr + phoff) ((elfhdr + phoff + 32 * phnum) % 2 ^ 32)
            then phnum
            else 0)
          ≡ phnum =
        ground arith in
      rw (boot_elf, magic, at_phoff, at_phnum, ph, rounds, run) refl

  module _ (kernel : IsKernel) where
    -- One segment more.
    next_segment :
        (k : ℕ) (mem : Memory)
        → k < e_phnum image 0
        → HasLoaded k mem
        → (reads : List (ℕ × ℕ)) × (readseg (pa_of k) (size_of k) (offset_of k) ≡ some reads)
          × HasLoaded (k + 1) (read_sectors disk reads mem)
    next_segment k mem lt h =
        let (reads, run, copied, kept) =
          readseg-copied disk (pa_of k) (size_of k) (offset_of k) mem (kernel.fits k lt)
            (kernel.offset_fits k lt) (kernel.aligned k lt) in
        let own : (i : ℕ)
            → i < size_of k
            → read_sectors disk reads mem (pa_of k + i) ≡ image (offset_of k + i) =
          λ i i_lt. copied i i_lt ∙ ap disk (omega arith) in
        (
          reads,
          run,
          record {
            page = λ q q_lt.
                kept (elfhdr + q) (inl (omega (arith, kernel.above k lt))) ∙ h.page q q_lt;
            segments = λ j i j_lt i_lt. elim (Bool-cases (j == k)) [
              | inl same ↦
                  let e : k ≡ j = sym ((==_iff j k).0 same) in
                  subst
                    (λ x.
                      (i : ℕ)
                      → i < size_of x
                      → read_sectors disk reads mem (pa_of x + i) ≡ image (offset_of x + i))
                    e own i i_lt
              | inr other ↦
                  let before : j < k = ground arith in
                  kept (pa_of j + i) (elim (kernel.apart j k before lt) [
                    | inl low ↦ inl (omega arith)
                    | inr high ↦ inr (omega arith)
                  ])
                  ∙ h.segments j i before i_lt
            ];
          },
        )

    load_segments-HasLoaded :
        (n k ph : ℕ) (mem : Memory)
        → n + k ≡ e_phnum image 0
        → ph ≡ elfhdr + header k
        → HasLoaded k mem
        → (mem' : Memory) × (load_segments disk n ph mem ≡ some mem')
          × HasLoaded (e_phnum image 0) mem'
    unfolding load_segments
    load_segments-HasLoaded zero k ph mem count at h =
        let all : k ≡ e_phnum image 0 = omega arith in
        (mem, refl, subst (λ n. HasLoaded n mem) all h)
    load_segments-HasLoaded (suc n) k ph mem count at h =
        let (reads, run, loaded) = next_segment k mem (omega arith) h in
        let pa : p_pa mem ph ≡ pa_of k =
          word-page mem k (ph + 12) (header k + 12) h (omega arith)
            (omega (arith, kernel.in_page)) in
        let size : p_memsz mem ph ≡ size_of k =
          word-page mem k (ph + 20) (header k + 20) h (omega arith)
            (omega (arith, kernel.in_page)) in
        let offset : p_offset mem ph ≡ offset_of k =
          word-page mem k (ph + 4) (header k + 4) h (omega arith) (omega (arith, kernel.in_page)) in
        let (mem', rest, all) =
          load_segments-HasLoaded n (k + 1) (ph + 32) (read_sectors disk reads mem) (omega arith)
            (omega arith) loaded in
        (
          mem',
          load_step n ph (pa_of k) (size_of k) (offset_of k) mem reads pa size offset run ∙ rest,
          all,
        )

    boot_elf-HasLoaded :
        (mem : Memory)
        → HasLoaded 0 mem
        → (mem' : Memory) × (boot_elf disk mem ≡ enter (e_entry image 0) mem')
          × HasLoaded (e_phnum image 0) mem'
    unfolding boot_elf
    boot_elf-HasLoaded mem h =
        let magic : e_magic mem elfhdr ≡ elf_magic =
          word-page mem 0 elfhdr 0 h (omega arith) (omega arith) ∙ kernel.magic in
        let phoff : e_phoff mem elfhdr ≡ e_phoff image 0 =
          word-page mem 0 (elfhdr + 28) 28 h refl (omega arith) in
        let phnum : e_phnum mem elfhdr ≡ e_phnum image 0 = half-page mem 0 44 h (omega arith) in
        let (mem', run, all) =
          load_segments-HasLoaded (e_phnum image 0) 0 (elfhdr + e_phoff image 0) mem (omega arith)
            (omega arith) h in
        let entry : e_entry mem' elfhdr ≡ e_entry image 0 =
          word-page mem' (e_phnum image 0) (elfhdr + 24) 24 all refl (omega arith) in
        (
          mem',
          elf_step (e_phoff image 0) (e_phnum image 0) mem mem' magic phoff phnum kernel.in_page run
              ∙ ap (λ e. enter e mem') entry,
          all,
        )

    main_step :
        (mem : Memory) (reads : List (ℕ × ℕ))
        → readseg elfhdr (sectsize * 8) 0 ≡ some reads
        → bootmain disk mem ≡ boot_elf disk (read_sectors disk reads mem)
    unfolding bootmain
    main_step mem reads run = rw (bootmain, run) refl

    -- bootmain on a disk with a kernel behind the boot sector: it enters the kernel at the address in its header, and the bytes of
    -- every segment, as many as the segment has in memory, are at their place, as they are in the file. The kernel is one with
    -- the magic number of ELF and its program headers in the first page of the file; each of its segments begins as far into a
    -- sector of the file as p_pa is into 512 bytes of memory, lies at or above 0x11000, behind the place of that page, ends 1024
    -- bytes or more below 4 gigabytes, and shares no sector with one before.
    pub bootmain-HasLoaded :
        (mem : Memory)
        → (mem' : Memory) × (bootmain disk mem ≡ enter (e_entry image 0) mem')
          × HasLoaded (e_phnum image 0) mem'
    unfolding bootmain
    bootmain-HasLoaded mem =
        let (reads, run, copied, kept) =
          readseg-copied disk elfhdr 4096 0 mem (omega arith) (omega arith) refl in
        let first : HasLoaded 0 (read_sectors disk reads mem) = record {
          page = λ q lt. copied q lt ∙ ap disk (omega arith);
          segments = λ j i lt i_lt. absurd (omega arith);
        } in
        let (mem', boot, all) = boot_elf-HasLoaded (read_sectors disk reads mem) first in
        (mem', main_step mem reads run ∙ boot, all)
