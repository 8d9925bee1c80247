-- ===== src/Ssh/Segments/Tiling.antt =====
-- The ranges side by side.
use rem_cmd.Prelude.{
  ℕ, zero, suc, ◌+◌, ◌*◌, ◌%◌, ◌^◌, ◌≤◌, ◌<◌, min, List, [], ◌∷◌, if◌then◌else◌, ltb, ◌≡◌, refl,
  sym, subst, arith, Bool-cases, ◌⊎◌, inl, inr,
}
use rem_cmd.Ssh.Segments.{div_ceil, stream_count, Range, ranges_from, download_segment_ranges}

-- Ranges that are not empty and follow each other without a gap.
pub data Tiles : ℕ → ℕ → List Range → Type 0 where
  no_more : {a : ℕ} → Tiles a a []
  more : {a b c : ℕ} {rs : List Range} → a < b → Tiles b c rs → Tiles a c ((a, b) ∷ rs)

next_start : (i z : ℕ) → (i + 1) * z ≡ i * z + z
next_start i z = omega arith

add_zero : (i : ℕ) → i + 0 ≡ i
add_zero i = omega arith

product_split : (i n z : ℕ) → (i + suc n) * z ≡ i * z + z + n * z
product_split i n z = grind arith

shifted : (i n z : ℕ) → (i + suc n) * z ≡ (i + 1 + n) * z
shifted i n z = grind arith

-- One round, at a start that does not wrap around.
step :
    (start z total end : ℕ) (rs : List Range)
    → start + z < 2 ^ 64
    → 0 < z
    → Tiles (min (start + z) total) end rs
    → Tiles (min start total) end (
        if ltb (start % 2 ^ 64) (min ((start % 2 ^ 64 + z) % 2 ^ 64) total)
        then (start % 2 ^ 64, min ((start % 2 ^ 64 + z) % 2 ^ 64) total) ∷ rs
        else rs)
step start z total end rs h p later =
    let same : start % 2 ^ 64 ≡ start = omega arith in
    let same_end : (start + z) % 2 ^ 64 ≡ start + z = omega arith in
    rw same (
      rw same_end (elim (Bool-cases (ltb start (min (start + z) total))) [
        | inl inside ↦ rw inside (
            subst (λ a. Tiles a end ((start, min (start + z) total) ∷ rs)) (ground (arith, inside))
              (more (ground (arith, inside)) later))
        | inr beyond ↦ rw beyond (subst (λ a. Tiles a end rs) (ground (arith, beyond)) later)
      ]))

ranges_from-Tiles :
    (n i z total : ℕ)
    → (i + n) * z < 2 ^ 64
    → 0 < z
    → Tiles (min (i * z) total) (min ((i + n) * z) total) (ranges_from n i z total)
unfolding ranges_from
ranges_from-Tiles zero i z total h p =
    subst (λ j. Tiles (min (i * z) total) (min (j * z) total) []) (sym (add_zero i)) no_more
ranges_from-Tiles (suc n) i z total h p =
    let e = product_split i n z in
    let later =
      subst (λ j. Tiles (min (i * z + z) total) (min j total) (ranges_from n (i + 1) z total))
        (sym (shifted i n z))
        (subst
          (λ j. Tiles (min j total) (min ((i + 1 + n) * z) total) (ranges_from n (i + 1) z total))
          (next_start i z)
          (ranges_from-Tiles n (i + 1) z total (omega (arith, shifted i n z)) p)) in
    step (i * z) z total (min ((i + suc n) * z) total) (ranges_from n (i + 1) z total)
      (omega (arith, e)) p later

count_cases : (total : ℕ) → (1 ≤ stream_count total) × (stream_count total ≤ 4)
count_cases total = ground arith

small : (c : ℕ) → 1 ≤ c → c ≤ 4 → (c ≡ 1) ⊎ ((c ≡ 2) ⊎ ((c ≡ 3) ⊎ (c ≡ 4)))
small zero l u = absurd (omega arith)
small (suc zero) l u = inl refl
small (suc (suc zero)) l u = inr (inl refl)
small (suc (suc (suc zero))) l u = inr (inr (inl refl))
small (suc (suc (suc (suc c)))) l u = inr (inr (inr (omega arith)))

covered : (total count : ℕ) → 1 ≤ count → count ≤ 4 → total ≤ count * div_ceil total count
covered total count l u = elim (small count l u) [
  | inl e ↦ rw e (ground arith)
  | inr (inl e) ↦ rw e (ground arith)
  | inr (inr (inl e)) ↦ rw e (ground arith)
  | inr (inr (inr e)) ↦ rw e (ground arith)
]

fits :
    (total count : ℕ)
    → 1 ≤ count
    → count ≤ 4
    → total + 4 < 2 ^ 64
    → count * div_ceil total count < 2 ^ 64
fits total count l u h = elim (small count l u) [
  | inl e ↦ rw e (ground arith)
  | inr (inl e) ↦ rw e (ground arith)
  | inr (inr (inl e)) ↦ rw e (ground arith)
  | inr (inr (inr e)) ↦ rw e (ground arith)
]

positive : (total count : ℕ) → 1 ≤ count → count ≤ 4 → 0 < total → 0 < div_ceil total count
positive total count l u h = elim (small count l u) [
  | inl e ↦ rw e (ground arith)
  | inr (inl e) ↦ rw e (ground arith)
  | inr (inr (inl e)) ↦ rw e (ground arith)
  | inr (inr (inr e)) ↦ rw e (ground arith)
]

first_start : (z total : ℕ) → min (0 * z) total ≡ 0
first_start z total = omega arith

tiles_all :
    (total count z : ℕ)
    → count * z < 2 ^ 64
    → 0 < z
    → total ≤ count * z
    → Tiles 0 total (ranges_from count 0 z total)
tiles_all total count z h p l =
    let e : (0 + count) * z ≡ count * z = omega arith in
    subst (λ a. Tiles a total (ranges_from count 0 z total)) (first_start z total)
      (subst (λ b. Tiles (min (0 * z) total) b (ranges_from count 0 z total)) (omega (arith, e))
        (ranges_from-Tiles count 0 z total (omega (arith, e)) p))

-- The ranges of a file whose size plus four is below 2^64 are not empty and follow each other
-- without a gap from 0 to its size.
pub download_segment_ranges-Tiles :
    (total : ℕ) → total + 4 < 2 ^ 64 → Tiles 0 total (download_segment_ranges total)
unfolding download_segment_ranges
download_segment_ranges-Tiles zero h = no_more
download_segment_ranges-Tiles (suc n) h =
    let total = suc n in
    let count = stream_count total in
    let (l, u) = count_cases total in
    let tiles =
      tiles_all total count (div_ceil total count) (fits total count l u h)
        (positive total count l u (omega arith)) (covered total count l u) in
    ground (arith, tiles)
