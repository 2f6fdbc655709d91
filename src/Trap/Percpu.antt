-- ===== src/Trap/Percpu.antt =====
-- The descriptor tables: gdt and env_init_percpu of kern/env.c, idt and trap_init_percpu of kern/trap.c. The registers that the
-- instructions load are part of the state; the linker's addresses of the tables are arguments.
pub mod Loaded
mod Tests
use mit6_828_lab.Base.{ℕ, ◌+◌, ◌-◌, ◌*◌, ◌/◌, ◌%◌, ◌^◌, ◌==◌, bit_or, if◌then◌else◌}
use mit6_828_lab.Mmu.Macros.{kstacktop}
use mit6_828_lab.Mmu.Segments.{Segdesc, Gatedesc, seg_null, seg, seg16}

-- GD_KT, GD_KD, GD_UT, GD_UD, GD_TSS0
abbrev pub gd_kt : ℕ
gd_kt = 0x08

abbrev pub gd_kd : ℕ
gd_kd = 0x10

abbrev pub gd_ut : ℕ
gd_ut = 0x18

abbrev pub gd_ud : ℕ
gd_ud = 0x20

abbrev pub gd_tss0 : ℕ
gd_tss0 = 0x28

-- STA_X, STA_W, STA_R, STS_T32A
abbrev pub sta_x : ℕ
sta_x = 8

abbrev pub sta_w : ℕ
sta_w = 2

abbrev pub sta_r : ℕ
sta_r = 2

abbrev pub sts_t32a : ℕ
sts_t32a = 9

-- sizeof(struct Taskstate), sizeof(gdt), sizeof(idt)
abbrev pub sizeof_taskstate : ℕ
sizeof_taskstate = 104

abbrev pub sizeof_gdt : ℕ
sizeof_gdt = 6 * 8

abbrev pub sizeof_idt : ℕ
sizeof_idt = 256 * 8

-- The table as it is linked.
unfoldable pub gdt : ℕ → Segdesc
gdt i =
    if i == gd_kt / 8
    then seg (bit_or sta_x sta_r) 0 0xffff_ffff 0
    else (if i == gd_kd / 8
        then seg sta_w 0 0xffff_ffff 0
        else (if i == gd_ut / 8
            then seg (bit_or sta_x sta_r) 0 0xffff_ffff 3
            else (if i == gd_ud / 8 then seg sta_w 0 0xffff_ffff 3 else seg_null)))

-- struct Pseudodesc
pub record Pseudodesc : Type 0 where
  pub pd_lim : ℕ
  pub pd_base : ℕ

-- The tables and the registers. Of struct Taskstate these are the fields that the kernel sets.
pub record Percpu : Type 0 where
  pub gdt_table : ℕ → Segdesc
  pub ts_esp0 : ℕ
  pub ts_ss0 : ℕ
  pub ts_iomb : ℕ
  pub gdtr : Pseudodesc
  pub idtr : Pseudodesc
  pub tr : ℕ
  pub ldtr : ℕ
  pub cs : ℕ
  pub ds : ℕ
  pub es : ℕ
  pub ss : ℕ
  pub fs : ℕ
  pub gs : ℕ

-- `gdt_addr` is the address of gdt.
unfoldable pub env_init_percpu : (gdt_addr : ℕ) → Percpu → Percpu
env_init_percpu gdt_addr p = record p {
  gdtr = record { pd_lim = sizeof_gdt - 1; pd_base = gdt_addr };
  gs = bit_or gd_ud 3;
  fs = bit_or gd_ud 3;
  es = gd_kd;
  ds = gd_kd;
  ss = gd_kd;
  cs = gd_kt;
  ldtr = 0;
}

-- The descriptor of the task state at `ts_addr`.
unfoldable pub tss_descriptor : (ts_addr : ℕ) → Segdesc
tss_descriptor ts_addr = record (seg16 sts_t32a ts_addr (sizeof_taskstate - 1) 0) { sd_s = 0 }

unfoldable pub trap_init_percpu : (ts_addr idt_addr : ℕ) → Percpu → Percpu
trap_init_percpu ts_addr idt_addr p = record p {
  ts_esp0 = kstacktop;
  ts_ss0 = gd_kd;
  ts_iomb = sizeof_taskstate;
  gdt_table = λ i. if i == gd_tss0 / 8 then tss_descriptor ts_addr else p.gdt_table i;
  tr = gd_tss0;
  idtr = record { pd_lim = sizeof_idt - 1; pd_base = idt_addr };
}
