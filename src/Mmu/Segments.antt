-- ===== src/Mmu/Segments.antt =====
-- The segment and gate descriptors of inc/mmu.h. A bit-field keeps the low bits of what is stored in it; the compiler lays the
-- fields out from the lowest bit on, in two 32-bit words.
pub mod Decode
use mit6_828_lab.Base.{ℕ, ◌+◌, ◌*◌, ◌/◌, ◌%◌, ◌^◌, Bool, true, List, [], ◌∷◌, bit_or, if◌then◌else◌}

pub record Segdesc : Type 0 where
  pub sd_lim_15_0 : ℕ
  pub sd_base_15_0 : ℕ
  pub sd_base_23_16 : ℕ
  pub sd_type : ℕ
  pub sd_s : ℕ
  pub sd_dpl : ℕ
  pub sd_p : ℕ
  pub sd_lim_19_16 : ℕ
  pub sd_avl : ℕ
  pub sd_rsv1 : ℕ
  pub sd_db : ℕ
  pub sd_g : ℕ
  pub sd_base_31_24 : ℕ

abbrev pub seg_null : Segdesc
seg_null = record {
  sd_lim_15_0 = 0;
  sd_base_15_0 = 0;
  sd_base_23_16 = 0;
  sd_type = 0;
  sd_s = 0;
  sd_dpl = 0;
  sd_p = 0;
  sd_lim_19_16 = 0;
  sd_avl = 0;
  sd_rsv1 = 0;
  sd_db = 0;
  sd_g = 0;
  sd_base_31_24 = 0;
}

-- SEG(type, base, lim, dpl), the arguments 32-bit.
unfoldable pub seg : (type base lim dpl : ℕ) → Segdesc
seg type base lim dpl = record {
  sd_lim_15_0 = lim / 2 ^ 12 % 2 ^ 16;
  sd_base_15_0 = base % 2 ^ 16;
  sd_base_23_16 = base / 2 ^ 16 % 2 ^ 8;
  sd_type = type % 2 ^ 4;
  sd_s = 1;
  sd_dpl = dpl % 2 ^ 2;
  sd_p = 1;
  sd_lim_19_16 = lim / 2 ^ 28 % 2 ^ 4;
  sd_avl = 0;
  sd_rsv1 = 0;
  sd_db = 1;
  sd_g = 1;
  sd_base_31_24 = base / 2 ^ 24 % 2 ^ 8;
}

-- SEG16(type, base, lim, dpl)
unfoldable pub seg16 : (type base lim dpl : ℕ) → Segdesc
seg16 type base lim dpl = record {
  sd_lim_15_0 = lim % 2 ^ 16;
  sd_base_15_0 = base % 2 ^ 16;
  sd_base_23_16 = base / 2 ^ 16 % 2 ^ 8;
  sd_type = type % 2 ^ 4;
  sd_s = 1;
  sd_dpl = dpl % 2 ^ 2;
  sd_p = 1;
  sd_lim_19_16 = lim / 2 ^ 16 % 2 ^ 4;
  sd_avl = 0;
  sd_rsv1 = 0;
  sd_db = 1;
  sd_g = 0;
  sd_base_31_24 = base / 2 ^ 24 % 2 ^ 8;
}

-- The two words of a descriptor.
abbrev pub segment_low : Segdesc → ℕ
segment_low d = d.sd_lim_15_0 + d.sd_base_15_0 * 2 ^ 16

abbrev pub segment_high : Segdesc → ℕ
segment_high d =
    d.sd_base_23_16
    + d.sd_type * 2 ^ 8
    + d.sd_s * 2 ^ 12
    + d.sd_dpl * 2 ^ 13
    + d.sd_p * 2 ^ 15
    + d.sd_lim_19_16 * 2 ^ 16
    + d.sd_avl * 2 ^ 20
    + d.sd_rsv1 * 2 ^ 21
    + d.sd_db * 2 ^ 22
    + d.sd_g * 2 ^ 23
    + d.sd_base_31_24 * 2 ^ 24

-- The bytes of `.word w`.
abbrev pub word_bytes : ℕ → List ℕ → List ℕ
word_bytes w rest = w % 2 ^ 8 ∷ w / 2 ^ 8 % 2 ^ 8 ∷ rest

-- The assembler's SEG(type,base,lim), byte by byte.
unfoldable pub seg_bytes : (type base lim : ℕ) → List ℕ
seg_bytes type base lim = word_bytes (lim / 2 ^ 12 % 2 ^ 16) (
    word_bytes (base % 2 ^ 16) (
      base / 2 ^ 16 % 2 ^ 8
      ∷ bit_or 0x90 type
      ∷ bit_or 0xc0 (lim / 2 ^ 28 % 2 ^ 4)
      ∷ base / 2 ^ 24 % 2 ^ 8
      ∷ []))

pub record Gatedesc : Type 0 where
  pub gd_off_15_0 : ℕ
  pub gd_sel : ℕ
  pub gd_args : ℕ
  pub gd_rsv1 : ℕ
  pub gd_type : ℕ
  pub gd_s : ℕ
  pub gd_dpl : ℕ
  pub gd_p : ℕ
  pub gd_off_31_16 : ℕ

-- STS_CG32, STS_IG32, STS_TG32
abbrev pub sts_cg32 : ℕ
sts_cg32 = 0xc

abbrev pub sts_ig32 : ℕ
sts_ig32 = 0xe

abbrev pub sts_tg32 : ℕ
sts_tg32 = 0xf

-- SETGATE(gate, istrap, sel, off, dpl): every field of the gate is set.
unfoldable pub setgate : (istrap : Bool) → (sel off dpl : ℕ) → Gatedesc
setgate istrap sel off dpl = record {
  gd_off_15_0 = off % 2 ^ 32 % 2 ^ 16;
  gd_sel = sel % 2 ^ 16;
  gd_args = 0;
  gd_rsv1 = 0;
  gd_type = if istrap then sts_tg32 else sts_ig32;
  gd_s = 0;
  gd_dpl = dpl % 2 ^ 2;
  gd_p = 1;
  gd_off_31_16 = off % 2 ^ 32 / 2 ^ 16;
}

-- SETCALLGATE(gate, sel, off, dpl)
unfoldable pub setcallgate : (sel off dpl : ℕ) → Gatedesc
unfolding setgate
setcallgate sel off dpl = record (setgate true sel off dpl) { gd_type = sts_cg32 }

abbrev pub gate_low : Gatedesc → ℕ
gate_low g = g.gd_off_15_0 + g.gd_sel * 2 ^ 16

abbrev pub gate_high : Gatedesc → ℕ
gate_high g =
    g.gd_args
    + g.gd_rsv1 * 2 ^ 5
    + g.gd_type * 2 ^ 8
    + g.gd_s * 2 ^ 12
    + g.gd_dpl * 2 ^ 13
    + g.gd_p * 2 ^ 15
    + g.gd_off_31_16 * 2 ^ 16
