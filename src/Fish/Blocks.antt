-- ===== src/Fish/Blocks.antt =====
-- The blocks of fish/fish.c: `mp1_malloc` and `mp1_free`.
use virtual_operating_system.Prelude.{
  ℕ, zero, suc, ◌+◌, ◌≤◌, ◌<◌, ℤ, true, false, some, [], ◌∷◌, ◌≡◌, ◌≢◌, refl, ap, sym, some_eq, ◌∙◌,
  inl, inr, get_elem?, set, length, length-set, ltb, ◌==◌, Bool-cases, ==_iff, arith,
}
use virtual_operating_system.Fish.{
  Blink, Blocks, zeroed, blocks, free_block, mp1_malloc, clear_block, mp1_free,
}

-- Block `j` has the location 0, and no block from `i` up to it has.
pub record IsFirst (array : Blocks) (i j : ℕ) : Type 0 where
  pub block : Blink
  pub at : get_elem? array j ≡ some block
  pub free : block.location ≡ 0
  pub lower_used : (l : ℕ) (b : Blink) → i ≤ l → l < j → get_elem? array l ≡ some b → b.location ≢ 0

block_at : (array : Blocks) (i : ℕ) → i < length array → (b : Blink) × (get_elem? array i ≡ some b)
block_at [] i h = absurd (omega arith)
block_at (b ∷ array) zero h = (b, refl)
block_at (b ∷ array) (suc i) h = block_at array i (omega arith)

free_block_lem :
    (r : ℕ) (array : Blocks) (i k : ℕ) (b : Blink)
    → i ≤ k
    → k < i + r
    → i + r ≤ length array
    → get_elem? array k ≡ some b
    → b.location ≡ 0
    → (j : ℕ) × (free_block r array i ≡ some (some j)) × (j ≤ k) × IsFirst array i j
unfolding free_block
free_block_lem zero array i k b lo hi room at zero_there = absurd (omega arith)
free_block_lem (suc r) array i k b lo hi room at zero_there =
    let (x, here) = block_at array i (omega arith) in
    elim (Bool-cases (x.location == 0)) [
      | inl free ↦ (
        i,
        rw (here, free) refl,
        lo,
        record {
          block = x;
          at = here;
          free = (==_iff x.location 0).0 free;
          lower_used = λ l c from below. absurd (omega arith);
        },
      )
      | inr used ↦
          let later : i ≢ k = λ e. absurd (
            off used (
              ap (λ (c : Blink). c.location) (some_eq (sym here ∙ rw (← e) at at)) ∙ zero_there)) in
          let (j, run, le, first) =
            free_block_lem r array (suc i) k b (omega (arith, later)) (omega arith) (omega arith) at
              zero_there in
          (
            j,
            rw (here, used) run,
            le,
            record {
              block = first.block;
              at = first.at;
              free = first.free;
              lower_used = λ l c from below there. elim (Bool-cases (l == i)) [
                | inl e ↦
                    let same : l ≡ i = (==_iff l i).0 e in
                    let equal : x ≡ c = some_eq (sym here ∙ rw same at there) in
                    λ z. off used (ap (λ (d : Blink). d.location) equal ∙ z)
                | inr ne ↦ first.lower_used l c (ground arith) below there
              ];
            },
          )
    ]
  where
    off : {x : ℕ} → (x == 0) ≡ false → x ≡ 0 → ⊥
    off h e = ground (arith, h, e)

set_there :
    (array : Blocks) (i : ℕ) (v : Blink) → i < length array → get_elem? (set array i v) i ≡ some v
set_there [] i v h = absurd (omega arith)
set_there (b ∷ array) zero v h = refl
set_there (b ∷ array) (suc i) v h = set_there array i v (omega arith)

-- Behind an `mp1_free` of any block of the array of 2000, `mp1_malloc` does not fail, whatever size it is
-- asked for: it returns the first block with the location 0, which is not behind the one that was
-- freed.
pub mp1_free-mp1_malloc :
    (array : Blocks) (i : ℕ) (size : ℤ)
    → length array ≡ blocks
    → i < blocks
    → (array' : Blocks) × (mp1_free array i ≡ some array')
      × ((j : ℕ) × (mp1_malloc array' size ≡ some (some j)) × (j ≤ i) × IsFirst array' 0 j)
unfolding mp1_free clear_block mp1_malloc
mp1_free-mp1_malloc array i size len hi =
    let room : ltb i (length array) ≡ true = ground arith in
    (
      set array i zeroed,
      rw room refl,
      free_block_lem blocks (set array i zeroed) 0 i zeroed (omega arith) (omega arith)
          (omega (arith, length-set array i zeroed)) (set_there array i zeroed (omega arith)) refl,
    )
