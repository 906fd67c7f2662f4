-- ===== src/Idt/Gates.antt =====
-- What the table set up by student-distrib/idt.c lets through.
use virtual_operating_system.Prelude.{
  ℕ, zero, suc, ◌+◌, ◌≤◌, ◌<◌, true, false, Option, some, List, [], ◌∷◌, ◌≡◌, ◌≢◌, inl, inr, refl,
  ap, ◌∙◌, ◌==◌, ==_iff, Bool-cases, if◌then◌else◌, arith, get_elem?, length,
}
use virtual_operating_system.Console.Output.{update}
use virtual_operating_system.Idt.{
  Gate, Handler, init_gate, init_gates, set_idt_entry, set_from, idt_init, idt_syscall,
  irq_handlers, exception_handlers, itr_sys, itr_irq,
}

update_ne : (idt : ℕ → Gate) (i : ℕ) (g : Gate) (v : ℕ) → v ≢ i → update idt i g v ≡ idt v
update_ne idt i g v ne = let off : (v == i) ≡ false = ground (arith, ne) in rw off

update_self : (idt : ℕ → Gate) (i : ℕ) (g : Gate) → update idt i g i ≡ g
update_self idt i g = let on : (i == i) ≡ true = ground arith in rw on

init_gates-below : (r i : ℕ) (idt : ℕ → Gate) (v : ℕ) → v < i → init_gates r i idt v ≡ idt v
unfolding init_gates
init_gates-below zero i idt v h = refl
init_gates-below (suc r) i idt v h =
    init_gates-below r (suc i) (update idt i (init_gate i (idt i))) v (omega arith)
    ∙ update_ne idt i (init_gate i (idt i)) v (omega arith)

init_gates_lem :
    (r i : ℕ) (idt : ℕ → Gate) (v : ℕ)
    → i ≤ v
    → v < i + r
    → init_gates r i idt v ≡ init_gate v (idt v)
unfolding init_gates
init_gates_lem zero i idt v lo hi = absurd (omega arith)
init_gates_lem (suc r) i idt v lo hi = elim (Bool-cases (v == i)) [
  | inl same ↦
      let e : v ≡ i = (==_iff v i).0 same in
      rw e (
        init_gates-below r (suc i) (update idt i (init_gate i (idt i))) i (omega arith)
        ∙ update_self idt i (init_gate i (idt i)))
  | inr off ↦
      let ne : v ≢ i = ground arith in
      init_gates_lem r (suc i) (update idt i (init_gate i (idt i))) v (omega arith) (omega arith)
      ∙ ap (init_gate v) (update_ne idt i (init_gate i (idt i)) v ne)
]

-- The same gate with another handler.
abbrev with_handler : Gate → Option Handler → Gate
with_handler g h = record g { handler = h }

set_idt_entry-keeps :
    (w : ℕ) (x : Handler) (idt : ℕ → Gate) (v : ℕ)
    → (h : Option Handler) × (set_idt_entry w x idt v ≡ with_handler (idt v) h)
set_idt_entry-keeps w x idt v = elim (Bool-cases (v == w)) [
  | inl same ↦
      let e : v ≡ w = (==_iff v w).0 same in
      (some x, rw e (update_self idt w (with_handler (idt w) (some x))))
  | inr off ↦ ((idt v).handler, update_ne idt w (with_handler (idt w) (some x)) v (ground arith))
]

set_from-keeps :
    (w : ℕ) (xs : List Handler) (idt : ℕ → Gate) (v : ℕ)
    → (h : Option Handler) × (set_from w xs idt v ≡ with_handler (idt v) h)
unfolding set_from
set_from-keeps w [] idt v = ((idt v).handler, refl)
set_from-keeps w (x ∷ xs) idt v =
    let (h, e) = set_from-keeps (suc w) xs (set_idt_entry w x idt) v in
    let (_, f) = set_idt_entry-keeps w x idt v in (h, e ∙ ap (λ (g : Gate). with_handler g h) f)

idt_init_gate :
    (idt : ℕ → Gate) (v : ℕ)
    → v < 256
    → (h : Option Handler) × (idt_init idt v ≡ with_handler (init_gate v (idt v)) h)
unfolding idt_init
idt_init_gate idt v hi =
    let t0 = init_gates 256 0 idt in
    let t1 = set_from 0 exception_handlers t0 in
    let t2 = set_from 0x20 irq_handlers t1 in
    let (h1, e1) = set_from-keeps 0 exception_handlers t0 v in
    let (h2, e2) = set_from-keeps 0x20 irq_handlers t1 v in
    let (h, e3) = set_idt_entry-keeps idt_syscall itr_sys t2 v in
    (
      h,
      e3
          ∙ ap (λ (g : Gate). with_handler g h)
              (e2
                ∙ ap (λ (g : Gate). with_handler g h2)
                    (e1
                      ∙ ap (λ (g : Gate). with_handler g h1)
                          (init_gates_lem 256 0 idt v (omega arith) (omega arith)))),
    )

-- Every vector of the table is present. The program may raise the vector 0x80 and no other. The
-- vectors from 32 on other than 0x80 are interrupt gates, all others trap gates.
pub idt_init_access :
    (idt : ℕ → Gate) (v : ℕ)
    → v < 256
    → ((idt_init idt v).present ≡ 1)
      × ((idt_init idt v).dpl ≡ (if v == 0x80 then 3 else 0))
      × ((v < 32 → (idt_init idt v).reserved3 ≡ 1)
          × (32 ≤ v → v ≢ 0x80 → (idt_init idt v).reserved3 ≡ 0))
idt_init_access idt v hi =
    let (h, e) = idt_init_gate idt v hi in
    rw e (refl, refl, (λ lo. ground (arith, lo), λ lo ne. ground (arith, lo, ne)))

set_from-below :
    (w : ℕ) (xs : List Handler) (idt : ℕ → Gate) (v : ℕ) → v < w → set_from w xs idt v ≡ idt v
unfolding set_from
set_from-below w [] idt v h = refl
set_from-below w (x ∷ xs) idt v h =
    set_from-below (suc w) xs (set_idt_entry w x idt) v (omega arith)
    ∙ update_ne idt w (with_handler (idt w) (some x)) v (omega arith)

set_from-at :
    (w : ℕ) (xs : List Handler) (idt : ℕ → Gate) (n : ℕ)
    → n < length xs
    → (set_from w xs idt (w + n)).handler ≡ get_elem? xs n
unfolding set_from
set_from-at w [] idt n h = absurd (omega arith)
set_from-at w (x ∷ xs) idt zero h =
    let e : w + 0 ≡ w = omega arith in
    rw e (
      ap (λ (g : Gate). g.handler)
        (set_from-below (suc w) xs (set_idt_entry w x idt) w (omega arith)
          ∙ update_self idt w (with_handler (idt w) (some x))))
set_from-at w (x ∷ xs) idt (suc n) h =
    let e : w + suc n ≡ suc w + n = omega arith in
    rw e (set_from-at (suc w) xs (set_idt_entry w x idt) n (omega arith))

-- The vector 0x20 + n is the stub of the interrupt line n.
pub idt_init_irq :
    (idt : ℕ → Gate) (n : ℕ) → n < 16 → (idt_init idt (0x20 + n)).handler ≡ some (itr_irq n)
unfolding idt_init
idt_init_irq idt n h =
    let t1 = set_from 0 exception_handlers (init_gates 256 0 idt) in
    let t2 = set_from 0x20 irq_handlers t1 in
    ap (λ (g : Gate). g.handler)
      (update_ne t2 idt_syscall (with_handler (t2 idt_syscall) (some itr_sys)) (0x20 + n)
        (omega arith))
    ∙ set_from-at 0x20 irq_handlers t1 n h
    ∙ nth n h
  where
    nth : (n : ℕ) → n < 16 → get_elem? irq_handlers n ≡ some (itr_irq n)
    nth n h = ground (arith, h)

-- The vectors below 32 lead to the stubs of the exceptions.
pub idt_init_exception :
    (idt : ℕ → Gate) (n : ℕ) → n < 32 → (idt_init idt n).handler ≡ get_elem? exception_handlers n
unfolding idt_init
idt_init_exception idt n h =
    let t0 = init_gates 256 0 idt in
    let t1 = set_from 0 exception_handlers t0 in
    let t2 = set_from 0x20 irq_handlers t1 in
    let first : n ≡ 0 + n = omega arith in
    ap (λ (g : Gate). g.handler)
      (update_ne t2 idt_syscall (with_handler (t2 idt_syscall) (some itr_sys)) n (omega arith)
        ∙ set_from-below 0x20 irq_handlers t1 n h)
    ∙ ap (λ j. (t1 j).handler) first
    ∙ set_from-at 0 exception_handlers t0 n h

-- The vector 0x80 leads to the stub of the system calls.
pub idt_init_syscall : (idt : ℕ → Gate) → (idt_init idt 0x80).handler ≡ some itr_sys
unfolding idt_init
idt_init_syscall idt =
    let t2 = set_from 0x20 irq_handlers (set_from 0 exception_handlers (init_gates 256 0 idt)) in
    ap (λ (g : Gate). g.handler)
      (update_self t2 idt_syscall (with_handler (t2 idt_syscall) (some itr_sys)))
