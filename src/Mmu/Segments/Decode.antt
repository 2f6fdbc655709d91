-- ===== src/Mmu/Segments/Decode.antt =====
-- What the processor reads from the descriptors that the macros of inc/mmu.h build.
use mit6_828_lab.Base.{
  ℕ, ◌+◌, ◌-◌, ◌*◌, ◌/◌, ◌%◌, ◌^◌, ◌<◌, ◌≡◌, refl, Bool, true, false, List, [], ◌∷◌, arith, bit_or,
  ◌==◌, if◌then◌else◌,
}
use mit6_828_lab.Base.Bits.{bit_or_disjoint}
use mit6_828_lab.Mmu.Segments.{
  Segdesc, seg, seg16, segment_low, segment_high, seg_bytes, word_bytes, setgate, gate_low,
  gate_high, sts_ig32, sts_tg32,
}

-- The fields of a segment descriptor of two words, as the processor's manual gives them. With the granularity bit the limit counts
-- pages, the last of which belongs to the segment.
abbrev pub base_of : (low high : ℕ) → ℕ
base_of low high = high / 2 ^ 24 * 2 ^ 24 + high % 2 ^ 8 * 2 ^ 16 + low / 2 ^ 16

abbrev pub raw_limit : (low high : ℕ) → ℕ
raw_limit low high = high / 2 ^ 16 % 2 ^ 4 * 2 ^ 16 + low % 2 ^ 16

abbrev pub limit_of : (low high : ℕ) → ℕ
limit_of low high =
    if high / 2 ^ 23 % 2 == 1 then raw_limit low high * 4096 + 4095 else raw_limit low high

abbrev pub type_of : (high : ℕ) → ℕ
type_of high = high / 2 ^ 8 % 2 ^ 4

abbrev pub dpl_of : (high : ℕ) → ℕ
dpl_of high = high / 2 ^ 13 % 2 ^ 2

-- What a descriptor says to the processor.
pub record Reads (d : Segdesc) (type base limit dpl : ℕ) : Type 0 where
  pub base_read : base_of (segment_low d) (segment_high d) ≡ base
  pub limit_read : limit_of (segment_low d) (segment_high d) ≡ limit
  pub type_read : type_of (segment_high d) ≡ type
  pub dpl_read : dpl_of (segment_high d) ≡ dpl
  pub present : segment_high d / 2 ^ 15 % 2 ≡ 1
  pub fits : (segment_low d < 2 ^ 32) × (segment_high d < 2 ^ 32)

module _ (type base lim dpl : ℕ) (type_fits : type < 16) (base_fits : base < 2 ^ 32)
    (dpl_fits : dpl < 4) where
  -- The processor reads from SEG(type, base, lim, dpl) the type, the base and the level that were given, and as limit the last byte
  -- of the page that `lim` lies in.
  pub seg-Reads :
      lim < 2 ^ 32 → Reads (seg type base lim dpl) type base (lim - lim % 4096 + 4095) dpl
  unfolding seg
  seg-Reads lim_fits = record {
    base_read = omega arith;
    limit_read = ground arith;
    type_read = omega arith;
    dpl_read = omega arith;
    present = omega arith;
    fits = (omega arith, omega arith);
  }

  -- SEG16 keeps a limit below a megabyte as it is.
  pub seg16-Reads : lim < 2 ^ 20 → Reads (seg16 type base lim dpl) type base lim dpl
  unfolding seg16
  seg16-Reads lim_fits = record {
    base_read = omega arith;
    limit_read = ground arith;
    type_read = omega arith;
    dpl_read = omega arith;
    present = omega arith;
    fits = (omega arith, omega arith);
  }

-- The bytes of two words, the lowest first.
abbrev pub bytes_of : (low high : ℕ) → List ℕ
bytes_of low high =
    word_bytes low (word_bytes (low / 2 ^ 16) (word_bytes high (word_bytes (high / 2 ^ 16) [])))

eight_bytes :
    {a b c d e f g h a' b' c' d' e' f' g' h' : ℕ}
    → a ≡ a'
    → b ≡ b'
    → c ≡ c'
    → d ≡ d'
    → e ≡ e'
    → f ≡ f'
    → g ≡ g'
    → h ≡ h'
    → a ∷ b ∷ c ∷ d ∷ e ∷ f ∷ g ∷ h ∷ [] ≡ a' ∷ b' ∷ c' ∷ d' ∷ e' ∷ f' ∷ g' ∷ h' ∷ []
eight_bytes p0 p1 p2 p3 p4 p5 p6 p7 = rw (p0, p1, p2, p3, p4, p5, p6, p7) refl

-- The assembler's SEG and the compiler's SEG with level 0 give the same eight bytes.
pub seg_bytes-seg :
    (type base lim : ℕ)
    → type < 16
    → base < 2 ^ 32
    → lim < 2 ^ 32
    → seg_bytes type base lim
      ≡ bytes_of (segment_low (seg type base lim 0)) (segment_high (seg type base lim 0))
unfolding seg seg_bytes
seg_bytes-seg type base lim type_fits base_fits lim_fits =
    let t : bit_or 0x90 type ≡ 0x90 + type = bit_or_disjoint 4 9 type type_fits in
    let l : bit_or 0xc0 (lim / 2 ^ 28 % 2 ^ 4) ≡ 0xc0 + lim / 2 ^ 28 % 2 ^ 4 =
      bit_or_disjoint 4 12 (lim / 2 ^ 28 % 2 ^ 4) (omega arith) in
    eight_bytes (omega arith) (omega arith) (omega arith) (omega arith) (omega arith)
      (omega (arith, t)) (omega (arith, l)) (omega arith)

-- The processor enters the handler of a gate that SETGATE built at the given selector and offset, with the given level; only an
-- interrupt gate, not a trap gate, has the type that clears the interrupt flag.
pub setgate-decode :
    (istrap : Bool) (sel off dpl : ℕ)
    → sel < 2 ^ 16
    → off < 2 ^ 32
    → dpl < 4
    → let low = gate_low (setgate istrap sel off dpl) in
      let high = gate_high (setgate istrap sel off dpl) in
      (high / 2 ^ 16 * 2 ^ 16 + low % 2 ^ 16 ≡ off)
      × (low / 2 ^ 16 ≡ sel)
      × (high / 2 ^ 8 % 2 ^ 5 ≡ (if istrap then sts_tg32 else sts_ig32))
      × (dpl_of high ≡ dpl)
      × (high / 2 ^ 15 % 2 ≡ 1)
unfolding setgate
setgate-decode true sel off dpl sel_fits off_fits dpl_fits =
    (omega arith, omega arith, omega arith, omega arith, omega arith)
setgate-decode false sel off dpl sel_fits off_fits dpl_fits =
    (omega arith, omega arith, omega arith, omega arith, omega arith)
