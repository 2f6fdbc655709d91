-- ===== src/Trap/Percpu/Tests.antt =====
-- The descriptors at concrete addresses.
use mit6_828_lab.Base.{refl, arith}
use mit6_828_lab.Trap.Percpu.{Percpu, gdt, env_init_percpu, trap_init_percpu}
use mit6_828_lab.Trap.Percpu.Loaded.{IsLoaded, trap_init_percpu-IsLoaded}

-- As the boot loader leaves the registers.
abbrev booted : Percpu
booted = record {
  gdt_table = gdt;
  ts_esp0 = 0;
  ts_ss0 = 0;
  ts_iomb = 0;
  gdtr = record { pd_lim = 23; pd_base = 0x7c64 };
  idtr = record { pd_lim = 0; pd_base = 0 };
  tr = 0;
  ldtr = 0;
  cs = 8;
  ds = 16;
  es = 16;
  ss = 16;
  fs = 16;
  gs = 16;
}

trap_init_percpu-IsLoaded_example :
    IsLoaded
      (trap_init_percpu 0xf017_ea40 0xf017_e200 (env_init_percpu 0xf011_b300 booted))
      0xf011_b300
      0xf017_e200
      0xf017_ea40
trap_init_percpu-IsLoaded_example =
    trap_init_percpu-IsLoaded booted 0xf011_b300 0xf017_e200 0xf017_ea40 refl (omega arith)
