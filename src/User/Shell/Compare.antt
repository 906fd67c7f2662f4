-- ===== src/User/Shell/Compare.antt =====
-- `ece391_strcmp` of syscalls/ece391support.c is an equality test.
use virtual_operating_system.Prelude.{
  ℕ, ℤ, pos, false, some, List, [], ◌∷◌, ◌++◌, ◌≡◌, refl, inl, inr, ◌==◌, Bool-cases, arith,
}
use virtual_operating_system.Prelude.Int.{sub_ℕ}
use virtual_operating_system.FileSystem.{is_zero}
use virtual_operating_system.FileSystem.Directory.{same}
use virtual_operating_system.Strings.Laws.{NoNul}
use virtual_operating_system.User.Support.{ece391_strcmp}

-- On two strings, each with a NUL behind it, `ece391_strcmp` returns a number that is 0 exactly if they
-- are the same.
pub ece391_strcmp_lem :
    (s t rest tail : List ℕ)
    → NoNul s
    → NoNul t
    → (z : ℤ) × (ece391_strcmp (s ++ (0 ∷ rest)) (t ++ (0 ∷ tail)) ≡ some z)
      × (is_zero z ≡ same s t)
unfolding ece391_strcmp
ece391_strcmp_lem [] [] rest tail zs zt = (pos 0, refl, refl)
ece391_strcmp_lem [] (y ∷ t) rest tail zs zt =
    let ne : (0 == y) ≡ false = ground (arith, zt.0) in
    (sub_ℕ 0 y, rw ne refl, ground (arith, zt.0))
ece391_strcmp_lem (x ∷ s) [] rest tail zs zt =
    let ne : (x == 0) ≡ false = ground (arith, zs.0) in
    (sub_ℕ x 0, rw ne refl, ground (arith, zs.0))
ece391_strcmp_lem (x ∷ s) (y ∷ t) rest tail zs zt = elim (Bool-cases (x == y)) [
  | inl e ↦
      let nul : (x == 0) ≡ false = ground (arith, zs.0) in
      let (z, run, equal) = ece391_strcmp_lem s t rest tail zs.1 zt.1 in
      (z, rw (e, nul) run, rw e equal)
  | inr ne ↦ (sub_ℕ x y, rw ne refl, rw ne (ground (arith, ne)))
]
