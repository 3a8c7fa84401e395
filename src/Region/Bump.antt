-- ===== src/Region/Bump.antt =====
-- Blocks of a bump region follow each other.
use cc_rpc.Base.{
  ℕ, ◌+◌, ◌*◌, ◌/◌, ◌%◌, ◌^◌, ◌≤◌, ◌<◌, ◌≡◌, refl, arith, true, false, ltb, leb, none, some,
  Bool-cases, inl, inr, if◌then◌else◌,
}
use cc_rpc.Region.{in_bump, BumpState, mg_region_alloc_bump}

-- As long as no sum wraps around, a bump allocation gives the bytes from the end of the last one on,
-- of the size asked for rounded up to a multiple of 4, exactly if they end inside the buffer, and
-- otherwise nothing, with the region unchanged.
pub mg_region_alloc_bump_lem :
    (b : BumpState) (size : ℕ)
    → b.off + size + 3 < 2 ^ 64
    → mg_region_alloc_bump b size ≡ (
        if leb (b.off + (size + 3) / 4 * 4) b.cap
        then (some (in_bump b.off), record b { off = b.off + (size + 3) / 4 * 4 })
        else (none, b))
unfolding mg_region_alloc_bump
mg_region_alloc_bump_lem b size h =
    let end = b.off + (size + 3) / 4 * 4 in
    let small : (size + 3) % 2 ^ 64 ≡ size + 3 = omega arith in
    let no_wrap : end % 2 ^ 64 ≡ end = omega arith in
    elim (Bool-cases (leb end b.cap)) [
      | inl e ↦ let room : ltb b.cap end ≡ false = ground arith in rw (small, no_wrap, room, e) refl
      | inr e ↦ let full : ltb b.cap end ≡ true = ground arith in rw (small, no_wrap, full, e) refl
    ]

-- A size whose rounding does not wrap but whose sum with the offset does is granted, at the current
-- offset, and leaves an offset below the current one, so that later blocks overlap earlier ones.
pub mg_region_alloc_bump_wraps :
    (b : BumpState) (size : ℕ)
    → b.off ≤ b.cap
    → b.off < 2 ^ 64
    → size + 3 < 2 ^ 64
    → 2 ^ 64 ≤ b.off + (size + 3) / 4 * 4
    → (after : BumpState) × (mg_region_alloc_bump b size ≡ (some (in_bump b.off), after))
      × (after.off < b.off)
unfolding mg_region_alloc_bump
mg_region_alloc_bump_wraps b size inside word small wrap =
    let same : (size + 3) % 2 ^ 64 ≡ size + 3 = omega arith in
    let back : (b.off + (size + 3) / 4 * 4) % 2 ^ 64 < b.off = omega arith in
    let e : ltb b.cap ((b.off + (size + 3) / 4 * 4) % 2 ^ 64) ≡ false = ground arith in
    (record b { off = (b.off + (size + 3) / 4 * 4) % 2 ^ 64 }, rw (same, e) refl, back)
