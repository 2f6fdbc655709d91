-- ===== src/Trap/Percpu/Loaded.antt =====
-- What the processor finds once the descriptor tables are loaded.
use mit6_828_lab.Base.{ℕ, ◌-◌, ◌*◌, ◌/◌, ◌%◌, ◌^◌, ◌<◌, ◌≡◌, refl, arith, bit_or}
use mit6_828_lab.Mmu.Macros.{kstacktop}
use mit6_828_lab.Mmu.Segments.{Segdesc, seg16, segment_high}
use mit6_828_lab.Mmu.Segments.Decode.{Reads, seg-Reads}
use mit6_828_lab.Trap.Percpu.{
  Percpu, gdt, sta_x, sta_w, sta_r, sts_t32a, sizeof_taskstate, env_init_percpu, tss_descriptor,
  trap_init_percpu,
}

-- The segment that a selector names, in the table that is loaded.
abbrev pub selected : Percpu → (selector : ℕ) → Segdesc
selected p selector = p.gdt_table (selector / 8)

-- The selector names a segment of all 4 gigabytes, and both have the level.
abbrev pub Flat : Percpu → (selector level type : ℕ) → Type 0
Flat p selector level type =
    (selector % 4 ≡ level) × Reads (selected p selector) type 0 (2 ^ 32 - 1) level

pub record IsLoaded (p : Percpu) (gdt_addr idt_addr ts_addr : ℕ) : Type 0 where
  pub table : (p.gdtr.pd_base ≡ gdt_addr) × (p.gdtr.pd_lim ≡ 6 * 8 - 1)
  pub interrupts : (p.idtr.pd_base ≡ idt_addr) × (p.idtr.pd_lim ≡ 256 * 8 - 1)
  pub no_local_table : p.ldtr ≡ 0
  pub code : Flat p p.cs 0 (bit_or sta_x sta_r)
  pub data_ds : Flat p p.ds 0 sta_w
  pub data_es : Flat p p.es 0 sta_w
  pub stack : Flat p p.ss 0 sta_w
  pub user_fs : Flat p p.fs 3 sta_w
  pub user_gs : Flat p p.gs 3 sta_w
  pub trap_stack : Flat p p.ts_ss0 0 sta_w
  pub io_map : p.ts_iomb ≡ sizeof_taskstate
  pub trap_top : p.ts_esp0 ≡ kstacktop
  pub task : Reads (selected p p.tr) sts_t32a ts_addr (sizeof_taskstate - 1) 0
  pub task_system : segment_high (selected p p.tr) / 2 ^ 12 % 2 ≡ 0

tss-Reads :
    (ts_addr : ℕ)
    → ts_addr < 2 ^ 32
    → Reads (tss_descriptor ts_addr) sts_t32a ts_addr (sizeof_taskstate - 1) 0
unfolding tss_descriptor seg16
tss-Reads ts_addr fits = record {
  base_read = omega arith;
  limit_read = ground arith;
  type_read = omega arith;
  dpl_read = omega arith;
  present = omega arith;
  fits = (omega arith, omega arith);
}

tss_system : (ts_addr : ℕ) → segment_high (tss_descriptor ts_addr) / 2 ^ 12 % 2 ≡ 0
unfolding tss_descriptor seg16
tss_system ts_addr = omega arith

pub trap_init_percpu-IsLoaded :
    (p : Percpu) (gdt_addr idt_addr ts_addr : ℕ)
    → p.gdt_table ≡ gdt
    → ts_addr < 2 ^ 32
    → IsLoaded
        (trap_init_percpu ts_addr idt_addr (env_init_percpu gdt_addr p))
        gdt_addr
        idt_addr
        ts_addr
unfolding trap_init_percpu env_init_percpu gdt tss_descriptor
trap_init_percpu-IsLoaded p gdt_addr idt_addr ts_addr linked fits = record {
  table = (refl, refl);
  interrupts = (refl, refl);
  no_local_table = refl;
  code = (
    refl,
    rw linked (
        seg-Reads (bit_or sta_x sta_r) 0 0xffff_ffff 0 (omega arith) (omega arith) (omega arith)
          (omega arith)),
  );
  data_ds = (
    refl,
    rw linked
        (seg-Reads sta_w 0 0xffff_ffff 0 (omega arith) (omega arith) (omega arith) (omega arith)),
  );
  data_es = (
    refl,
    rw linked
        (seg-Reads sta_w 0 0xffff_ffff 0 (omega arith) (omega arith) (omega arith) (omega arith)),
  );
  stack = (
    refl,
    rw linked
        (seg-Reads sta_w 0 0xffff_ffff 0 (omega arith) (omega arith) (omega arith) (omega arith)),
  );
  user_fs = (
    refl,
    rw linked
        (seg-Reads sta_w 0 0xffff_ffff 3 (omega arith) (omega arith) (omega arith) (omega arith)),
  );
  user_gs = (
    refl,
    rw linked
        (seg-Reads sta_w 0 0xffff_ffff 3 (omega arith) (omega arith) (omega arith) (omega arith)),
  );
  trap_stack = (
    refl,
    rw linked
        (seg-Reads sta_w 0 0xffff_ffff 0 (omega arith) (omega arith) (omega arith) (omega arith)),
  );
  io_map = refl;
  trap_top = refl;
  task = tss-Reads ts_addr fits;
  task_system = tss_system ts_addr;
}
