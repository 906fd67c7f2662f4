-- ===== src/User/Grep/Search.antt =====
-- The search of a line in syscalls/ece391grep.c.
use mathlib.Core.List.{append_assoc}
use virtual_operating_system.Prelude.{
  ℕ, ℤ, pos, Bool, true, false, some, List, [], ◌∷◌, ◌++◌, ◌≡◌, refl, sym, ◌∙◌, length, Bool-cases,
  inl, inr, ◌==◌, ◌&&◌, ◌||◌, arith,
}
use virtual_operating_system.Prelude.Int.{sub_ℕ}
use virtual_operating_system.FileSystem.{is_zero}
use virtual_operating_system.Strings.Laws.{NoNul, length-snoc}
use virtual_operating_system.Terminal.Lines.{get_elem?-append}
use virtual_operating_system.Process.Parse.{drop-word}
use virtual_operating_system.User.Support.{ece391_strncmp}
use virtual_operating_system.User.Grep.{search_line}

abbrev pub is_prefix : List ℕ → List ℕ → Bool
is_prefix [] t = true
is_prefix (y ∷ s) [] = false
is_prefix (y ∷ s) (x ∷ t) = x == y && is_prefix s t

-- Whether `s` stands anywhere in the line.
abbrev pub occurs : List ℕ → List ℕ → Bool
occurs s [] = false
occurs s (x ∷ t) = is_prefix s (x ∷ t) || occurs s t

ece391_strncmp_lem :
    (s t rest tail : List ℕ)
    → NoNul s
    → NoNul t
    → (z : ℤ) × (ece391_strncmp (t ++ (0 ∷ rest)) (s ++ (0 ∷ tail)) (length s) ≡ some z)
      × (is_zero z ≡ is_prefix s t)
unfolding ece391_strncmp
ece391_strncmp_lem [] t rest tail zs zt = (pos 0, refl, refl)
ece391_strncmp_lem (y ∷ s) [] rest tail zs zt =
    let ne : (0 == y) ≡ false = ground (arith, zs.0) in
    (sub_ℕ 0 y, rw ne refl, ground (arith, zs.0))
ece391_strncmp_lem (y ∷ s) (x ∷ t) rest tail zs zt = elim (Bool-cases (x == y)) [
  | inr ne ↦ (sub_ℕ x y, rw ne refl, rw ne (ground (arith, ne)))
  | inl e ↦
      let (z, run, equal) = ece391_strncmp_lem s t rest tail zs.1 zt.1 in
      elim (Bool-cases (length s == 0)) [
        | inl last ↦
            let done : (x == 0 || length s == 0) ≡ true = ground (arith, last) in
            (pos 0, rw (e, done) refl, rw e (ends s t last))
        | inr more ↦
            let go : (x == 0 || length s == 0) ≡ false = ground (arith, zt.0, more) in
            (z, rw (e, go) run, rw e equal)
      ]
]
  where
    ends : (s t : List ℕ) → (length s == 0) ≡ true → true ≡ is_prefix s t
    ends [] t h = refl
    ends (y ∷ s) t h = absurd (ground (arith, h))

-- The search of a line finds a string that is not empty exactly if it stands in the line. The line, from
-- `pre` on in the array, and the string have a NUL behind them and none inside.
pub search_line_lem :
    (text pre post : List ℕ) (y : ℕ) (s tail : List ℕ)
    → NoNul text
    → NoNul (y ∷ s)
    → search_line
        (length text)
        ((y ∷ s) ++ (0 ∷ tail))
        (pre ++ (text ++ (0 ∷ post)))
        (length (y ∷ s))
        (length pre)
      ≡ some (occurs (y ∷ s) text)
unfolding search_line
search_line_lem [] pre post y s tail zt zs = refl
search_line_lem (x ∷ text) pre post y s tail zt zs =
    let ih = search_line_lem text (pre ++ (x ∷ [])) post y s tail zt.1 zs in
    let next = rw (append_assoc pre (x ∷ []) (text ++ (0 ∷ post)), length-snoc pre x) at ih in
    let at = get_elem?-append pre (text ++ (0 ∷ post)) x in
    elim (Bool-cases (y == x)) [
      | inr ne ↦ let off : (x == y) ≡ false = ground (arith, ne) in rw (at, ne, off) next
      | inl e ↦
          let (z, run, equal) = ece391_strncmp_lem (y ∷ s) (x ∷ text) post tail zs zt in
          elim (Bool-cases (is_zero z)) [
            | inl hit ↦
                let found : is_prefix (y ∷ s) (x ∷ text) ≡ true = sym equal ∙ hit in
                rw (at, e, drop-word pre ((x ∷ text) ++ (0 ∷ post)), run, hit, found) refl
            | inr miss ↦
                let not_here : is_prefix (y ∷ s) (x ∷ text) ≡ false = sym equal ∙ miss in
                rw (at, e, drop-word pre ((x ∷ text) ++ (0 ∷ post)), run, miss, not_here) next
          ]
    ]
