-- ===== src/Process/Search.antt =====
-- The search of `execute` in student-distrib/syscall.c for a free process.
use virtual_operating_system.Prelude.{
  ℕ, zero, suc, ◌+◌, ◌≤◌, ◌<◌, false, Option, none, some, List, [], ◌∷◌, ◌≡◌, ◌≢◌, inl, inr, ap,
  ◌∙◌, sym, get_elem?, length, ◌==◌, ==_iff, Bool-cases, Option-cases, >>=-eq-some, some_eq,
  if◌then◌else◌, arith,
}
use virtual_operating_system.Process.{find_free}

-- The first free entry of the process table from `i` on is `n`.
pub record IsFirstFree (process : List ℕ) (i n : ℕ) : Type 0 where
  pub from : i ≤ n
  pub free : get_elem? process n ≡ some 0
  pub lower_used : (l : ℕ) → i ≤ l → l < n → get_elem? process l ≢ some 0

find_free-step :
    (process : List ℕ) (i n p : ℕ)
    → get_elem? process i ≡ some p
    → p ≢ 0
    → IsFirstFree process (suc i) n
    → IsFirstFree process i n
find_free-step process i n p at used h = record {
  from = omega (arith, h.from);
  free = h.free;
  lower_used = λ l lo hi e. elim (Bool-cases (l == i)) [
    | inl same ↦ used (some_eq (sym at ∙ ap (get_elem? process) (sym ((==_iff l i).0 same)) ∙ e))
    | inr off ↦ h.lower_used l (ground arith) hi e
  ];
}

-- An answer of the search is the lowest free process.
pub find_free-IsFirstFree :
    (process : List ℕ) (r i n : ℕ) → find_free process r i ≡ some (some n) → IsFirstFree process i n
unfolding find_free
find_free-IsFirstFree process zero i n h = absurd (none_ne (some_eq h))
  where
    none_ne : {k : ℕ} → ◌≡◌ {A = Option ℕ} none (some k) → ⊥
    none_ne q = cc
find_free-IsFirstFree process (suc r) i n h =
    let (p, at, q) =
      >>=-eq-some {B = Option ℕ} (get_elem? process i)
        (λ p. if p == 0 then some (some i) else find_free process r (suc i)) h in
    elim (Bool-cases (p == 0)) [
      | inl free ↦
          let e : i ≡ n = some_eq (some_eq (rw free at q)) in
          let z : p ≡ 0 = (==_iff p 0).0 free in
          record {
            from = omega (arith, e);
            free = ap (get_elem? process) (sym e) ∙ at ∙ ap some z;
            lower_used = λ l lo hi. absurd (omega (arith, e));
          }
      | inr used ↦
          find_free-step process i n p at (ground arith)
            (find_free-IsFirstFree process r (suc i) n (rw used at q))
    ]

-- With the processes from `i` to the end of the table all in use, a search that may go on behind
-- the end reads outside the table.
pub find_free_full :
    (process : List ℕ) (r i : ℕ)
    → length process < i + r
    → i ≤ length process
    → ((l p : ℕ) → i ≤ l → get_elem? process l ≡ some p → p ≢ 0)
    → find_free process r i ≡ none
unfolding find_free
find_free_full process zero i past lo used = absurd (omega arith)
find_free_full process (suc r) i past lo used = elim (Option-cases (get_elem? process i)) [
  | inl out ↦ rw out
  | inr (p, at) ↦
      let busy : (p == 0) ≡ false = ground (arith, used i p (omega arith) at) in
      let next : suc i ≤ length process = get_elem?-lt process i at in
      rw (
        at,
        busy,
        find_free_full process r (suc i) (omega arith) next (λ l q le. used l q (omega arith)),
      )
]
  where
    get_elem?-lt : {p : ℕ} (xs : List ℕ) (i : ℕ) → get_elem? xs i ≡ some p → i < length xs
    get_elem?-lt [] i h = absurd (cc)
    get_elem?-lt (x ∷ xs) zero h = omega arith
    get_elem?-lt (x ∷ xs) (suc i) h = omega (arith, get_elem?-lt xs i h)
