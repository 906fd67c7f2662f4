-- ===== src/Idt.antt =====
-- student-distrib/idt.c and `init_syscall` of student-distrib/syscall.c: the interrupt descriptor
-- table, the jump tables, and what the exception handlers do. The assembly stubs `ITR_*` are names.
pub mod Gates
pub mod Exceptions
use virtual_operating_system.Prelude.{
  ℕ, zero, suc, ◌+◌, Option, none, some, List, [], ◌∷◌, ◌++◌, set, leb, ◌==◌, if◌then◌else◌, ◌>>=◌,
}
use virtual_operating_system.Console.Output.{update, puts, clear}
use virtual_operating_system.Pic.{Pic, enable_irq}
use virtual_operating_system.Machine.{Machine}
use virtual_operating_system.Process.{Outcome, halt}

-- The exceptions, by the handlers `EXC_*`.
pub data Exception : Type 0 where
  de db nmi bp of br ud nm df cso ts np ss gp pf res1 mf ac mc xf res2 : Exception

-- What a vector may point to: a stub `ITR_*` of an exception, an interrupt line or the system
-- calls, or a C function `EXC_*`.
pub data Handler : Type 0 where
  itr : Exception → Handler
  itr_irq : ℕ → Handler
  itr_sys : Handler
  exc : Exception → Handler

-- An entry of the table. `handler` is the offset, `none` where it is zero.
pub record Gate : Type 0 where
  pub handler : Option Handler
  pub seg_selector : ℕ
  pub reserved4 : ℕ
  pub reserved3 : ℕ
  pub reserved2 : ℕ
  pub reserved1 : ℕ
  pub size : ℕ
  pub reserved0 : ℕ
  pub dpl : ℕ
  pub present : ℕ

abbrev pub kernel_cs : ℕ
kernel_cs = 0x10

abbrev pub idt_syscall : ℕ
idt_syscall = 0x80

-- The body of the first loop of `idt_init`.
abbrev pub init_gate : ℕ → Gate → Gate
init_gate i g = record {
  handler = g.handler;
  seg_selector = kernel_cs;
  reserved4 = 0;
  reserved3 = if i == idt_syscall then 1 else if leb 32 i then 0 else 1;
  reserved2 = 1;
  reserved1 = 1;
  size = 1;
  reserved0 = 0;
  dpl = if i == idt_syscall then 3 else 0;
  present = 1;
}

-- The loop with `r` rounds left, from the vector `i`.
unfoldable pub init_gates : ℕ → ℕ → (ℕ → Gate) → ℕ → Gate
init_gates zero i idt = idt
init_gates (suc r) i idt = init_gates r (suc i) (update idt i (init_gate i (idt i)))

-- `SET_IDT_ENTRY`.
abbrev pub set_idt_entry : ℕ → Handler → (ℕ → Gate) → ℕ → Gate
set_idt_entry v h idt = let g = idt v in update idt v (record g { handler = some h })

-- `SET_IDT_ENTRY` for the vectors from `v` on.
unfoldable pub set_from : ℕ → List Handler → (ℕ → Gate) → ℕ → Gate
set_from v [] idt = idt
set_from v (h ∷ hs) idt = set_from (suc v) hs (set_idt_entry v h idt)

-- The handlers of the vectors 0 to 31.
abbrev pub exception_handlers : List Handler
exception_handlers =
    itr de
    ∷ itr db
    ∷ itr nmi
    ∷ itr bp
    ∷ itr of
    ∷ itr br
    ∷ itr ud
    ∷ itr nm
    ∷ itr df
    ∷ itr cso
    ∷ itr ts
    ∷ itr np
    ∷ itr ss
    ∷ itr gp
    ∷ itr pf
    ∷ itr res1
    ∷ itr mf
    ∷ itr ac
    ∷ itr mc
    ∷ itr xf
    ∷ exc res2
    ∷ exc res2
    ∷ exc res2
    ∷ exc res2
    ∷ exc res2
    ∷ exc res2
    ∷ exc res2
    ∷ exc res2
    ∷ exc res2
    ∷ exc res2
    ∷ exc res2
    ∷ exc res2
    ∷ []

-- The handlers of the vectors 0x20 to 0x2F.
abbrev pub irq_handlers : List Handler
irq_handlers =
    itr_irq 0
    ∷ itr_irq 1
    ∷ itr_irq 2
    ∷ itr_irq 3
    ∷ itr_irq 4
    ∷ itr_irq 5
    ∷ itr_irq 6
    ∷ itr_irq 7
    ∷ itr_irq 8
    ∷ itr_irq 9
    ∷ itr_irq 10
    ∷ itr_irq 11
    ∷ itr_irq 12
    ∷ itr_irq 13
    ∷ itr_irq 14
    ∷ itr_irq 15
    ∷ []

unfoldable pub idt_init : (ℕ → Gate) → ℕ → Gate
unfolding init_gates set_from
idt_init idt =
    set_idt_entry idt_syscall itr_sys
      (set_from 0x20 irq_handlers (set_from 0 exception_handlers (init_gates 256 0 idt)))

-- The jump table of the interrupt lines and the controller that masks them.
pub record Irq (F : Type 0) : Type 0 where
  pub irq_handler_jumptable : ℕ → Option F
  pub pic : Pic

unfoldable pub add_irq : {F : Type 0} → ℕ → F → Irq F → Irq F
unfolding enable_irq
add_irq irq_num handler s = record {
  irq_handler_jumptable = update s.irq_handler_jumptable irq_num (some handler);
  pic = enable_irq irq_num s.pic;
}

-- The functions behind the system call numbers.
pub data Call : Type 0 where
  call_halt call_execute call_read call_write call_open call_close call_getargs call_vidmap : Call

-- `syscall_jumptable` by number, and the reserved process 0.
unfoldable pub init_syscall : (ℕ → Option Call) → List ℕ → (ℕ → Option Call) × List ℕ
init_syscall table process = (
  update
      (update
        (update
          (update
            (update
              (update
                (update (update (update table 0 none) 1 (some call_halt)) 2 (some call_execute)) 3
                (some call_read))
              4 (some call_write))
            5 (some call_open))
          6 (some call_close))
        7 (some call_getargs))
      8 (some call_vidmap),
  set process 0 1,
)

-- What the handler of an exception prints.
abbrev pub message : Exception → List ℕ
message de = 68 ∷ 105 ∷ 118 ∷ 105 ∷ 100 ∷ 101 ∷ 32 ∷ 69 ∷ 114 ∷ 114 ∷ 111 ∷ 114 ∷ []
message db = 82 ∷ 101 ∷ 115 ∷ 101 ∷ 114 ∷ 118 ∷ 101 ∷ 100 ∷ []
message nmi = 78 ∷ 77 ∷ 73 ∷ []
message bp = 66 ∷ 114 ∷ 101 ∷ 97 ∷ 107 ∷ 112 ∷ 111 ∷ 105 ∷ 110 ∷ 116 ∷ []
message of = 79 ∷ 118 ∷ 101 ∷ 114 ∷ 102 ∷ 108 ∷ 111 ∷ 119 ∷ []
message br =
    66 ∷ 79 ∷ 85 ∷ 78 ∷ 68 ∷ 32 ∷ 82 ∷ 97 ∷ 110 ∷ 103 ∷ 101 ∷ 32 ∷ 69 ∷ 120 ∷ 99 ∷ 101 ∷ 101 ∷ 100
    ∷ 101 ∷ 100 ∷ []
message ud =
    85 ∷ 110 ∷ 100 ∷ 101 ∷ 102 ∷ 105 ∷ 110 ∷ 101 ∷ 100 ∷ 32 ∷ 79 ∷ 112 ∷ 99 ∷ 111 ∷ 100 ∷ 101 ∷ []
message nm =
    78 ∷ 111 ∷ 32 ∷ 77 ∷ 97 ∷ 116 ∷ 104 ∷ 32 ∷ 67 ∷ 111 ∷ 112 ∷ 114 ∷ 111 ∷ 99 ∷ 101 ∷ 115 ∷ 115
    ∷ 111 ∷ 114 ∷ []
message df = 68 ∷ 111 ∷ 117 ∷ 98 ∷ 108 ∷ 101 ∷ 32 ∷ 70 ∷ 97 ∷ 117 ∷ 108 ∷ 116 ∷ []
message cso =
    67 ∷ 111 ∷ 112 ∷ 114 ∷ 111 ∷ 99 ∷ 101 ∷ 115 ∷ 115 ∷ 111 ∷ 114 ∷ 32 ∷ 83 ∷ 101 ∷ 103 ∷ 109 ∷ 101
    ∷ 110 ∷ 116 ∷ 32 ∷ 79 ∷ 118 ∷ 101 ∷ 114 ∷ 114 ∷ 117 ∷ 110 ∷ []
message ts = 73 ∷ 110 ∷ 118 ∷ 97 ∷ 108 ∷ 105 ∷ 100 ∷ 32 ∷ 84 ∷ 83 ∷ 83 ∷ []
message np =
    83 ∷ 101 ∷ 103 ∷ 109 ∷ 101 ∷ 110 ∷ 116 ∷ 32 ∷ 78 ∷ 111 ∷ 116 ∷ 32 ∷ 80 ∷ 114 ∷ 101 ∷ 115 ∷ 101
    ∷ 110 ∷ 116 ∷ []
message ss =
    83 ∷ 116 ∷ 97 ∷ 99 ∷ 107 ∷ 45 ∷ 83 ∷ 101 ∷ 103 ∷ 109 ∷ 101 ∷ 110 ∷ 116 ∷ 32 ∷ 70 ∷ 97 ∷ 117
    ∷ 108 ∷ 116 ∷ []
message gp =
    71 ∷ 101 ∷ 110 ∷ 101 ∷ 114 ∷ 97 ∷ 108 ∷ 32 ∷ 80 ∷ 114 ∷ 111 ∷ 116 ∷ 101 ∷ 99 ∷ 116 ∷ 105 ∷ 111
    ∷ 110 ∷ []
message pf = 80 ∷ 97 ∷ 103 ∷ 101 ∷ 32 ∷ 70 ∷ 97 ∷ 117 ∷ 108 ∷ 116 ∷ 10 ∷ []
message res1 = 114 ∷ 101 ∷ 115 ∷ 101 ∷ 114 ∷ 118 ∷ 101 ∷ 100 ∷ 32 ∷ 49 ∷ []
message mf = 77 ∷ 97 ∷ 116 ∷ 104 ∷ 32 ∷ 70 ∷ 97 ∷ 117 ∷ 108 ∷ 116 ∷ []
message ac =
    65 ∷ 108 ∷ 105 ∷ 103 ∷ 110 ∷ 109 ∷ 101 ∷ 110 ∷ 116 ∷ 32 ∷ 67 ∷ 104 ∷ 101 ∷ 99 ∷ 107 ∷ []
message mc = 77 ∷ 97 ∷ 99 ∷ 104 ∷ 105 ∷ 110 ∷ 101 ∷ 32 ∷ 67 ∷ 104 ∷ 101 ∷ 99 ∷ 107 ∷ []
message xf =
    70 ∷ 108 ∷ 111 ∷ 97 ∷ 116 ∷ 105 ∷ 110 ∷ 103 ∷ 45 ∷ 80 ∷ 111 ∷ 105 ∷ 110 ∷ 116 ∷ 32 ∷ 69 ∷ 120
    ∷ 99 ∷ 101 ∷ 112 ∷ 116 ∷ 105 ∷ 111 ∷ 110 ∷ []
message res2 = 114 ∷ 101 ∷ 115 ∷ 101 ∷ 114 ∷ 118 ∷ 101 ∷ 100 ∷ 32 ∷ 50 ∷ []

-- `EXC_*`. The format given to `printf` has no `%`, so `printf` prints it with `putc`.
unfoldable pub raise : Exception → Machine → Option Outcome
unfolding halt
raise e m = puts (message e) (clear m.console) >>= λ k. halt (record m { console = k }) 256
