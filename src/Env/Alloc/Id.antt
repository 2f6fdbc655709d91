-- ===== src/Env/Alloc/Id.antt =====
-- The ids that env_alloc gives out.
use mit6_828_lab.Base.{ℕ, ◌+◌, ◌*◌, ◌/◌, ◌%◌, ◌^◌, ◌<◌, ◌≡◌, ◌≢◌, ap, ◌∙◌, arith, bit_or}
use mit6_828_lab.Base.Bits.{bit_or_disjoint}
use mit6_828_lab.Env.Alloc.{envx, generation, make_id}

-- A generation is a positive int32_t above the bits of the index, and not that of the id before.
generation_bounds :
    (id : ℕ) → (0 < generation id) × (generation id < 2 ^ 31) × (generation id % 1024 ≡ 0)
unfolding generation
generation_bounds id = ground arith

make_id-sum : (id e : ℕ) → e < 1024 → make_id id e ≡ generation id + e
unfolding make_id
make_id-sum id e h =
    let (pos, small, aligned) = generation_bounds id in
    let blocks : generation id ≡ generation id / 1024 * 2 ^ 10 = omega arith in
    ap (λ g. bit_or g e) blocks ∙ bit_or_disjoint 10 (generation id / 1024) e h ∙ omega arith

generation-ne : (id e : ℕ) → id < 2 ^ 32 → e < 1024 → generation id + e ≢ id
unfolding generation
generation-ne id e h he = ground arith

-- An environment's new id leads back to its slot, is a positive int32_t, and is not the slot's id of before.
pub make_id_fresh :
    (id e : ℕ)
    → id < 2 ^ 32
    → e < 1024
    → (envx (make_id id e) ≡ e) × (0 < make_id id e) × (make_id id e < 2 ^ 31) × (make_id id e ≢ id)
make_id_fresh id e h he =
    let sum : make_id id e ≡ generation id + e = make_id-sum id e he in
    let (pos, small, aligned) = generation_bounds id in
    (omega arith, omega arith, omega arith, λ same. generation-ne id e h he (omega arith))
