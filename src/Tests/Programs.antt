-- ===== src/Tests/Programs.antt =====
-- Programs that are started and halted, on the sample machine.
use virtual_operating_system.Prelude.{
  ℕ, zero, suc, ◌≤◌, pos, none, some, [], ◌∷◌, ◌++◌, ◌≡◌, ◌≢◌, refl, arith, inl, set, replicate,
  get_elem?,
}
use virtual_operating_system.Console.Output.{current}
use virtual_operating_system.Strings.{strlen, strncpy, strncmp, strcpy}
use virtual_operating_system.FileSystem.{
  read_dentry_by_name, load32, names, load_bytes, read_data, data_byte,
}
use virtual_operating_system.Machine.{Machine}
use virtual_operating_system.Process.{
  Outcome, returned, entered, resumed, execute, load, halt, retire, parse, take_word, skip_spaces,
}
use virtual_operating_system.Process.Parse.{parse_lem, IsWord, line_of, take_word_overflow}
use virtual_operating_system.Process.Lifecycle.{execute_full}
use virtual_operating_system.Prelude.{sym, ap, some_eq}
use virtual_operating_system.Machine.{FileDesc, file}
use virtual_operating_system.Process.Closing.{HasOperations}
use virtual_operating_system.Tests.{free_desc}
use virtual_operating_system.Process.Halt.{Left, halt-Left}
use virtual_operating_system.Tests.{sample_machine, full_machine, value_of}

-- `" ab c\n"`.
parse_lem_example :
    parse (32 ∷ 97 ∷ 98 ∷ 32 ∷ 99 ∷ 10 ∷ []) ≡ some (line_of (97 ∷ 98 ∷ []), line_of (99 ∷ []))
parse_lem_example =
    parse_lem 1 1 97 (98 ∷ []) (99 ∷ []) [] 10 (refl, (refl, tt)) (refl, tt) (inl refl)
      (λ q. absurd (omega (arith, q))) (omega arith) (omega arith)

no_spaces : skip_spaces (replicate 130 97 ++ (0 ∷ [])) ≡ some (replicate 130 97 ++ (0 ∷ []))
unfolding skip_spaces
no_spaces = refl

letters : (n : ℕ) → IsWord (replicate n 97)
letters zero = tt
letters (suc n) = (refl, letters n)

take_word_overflow_example : take_word (replicate 130 97 ++ (0 ∷ [])) ≡ none
take_word_overflow_example =
    take_word_overflow (replicate 130 97) [] 0 (replicate 130 97 ++ (0 ∷ [])) (letters 130) refl
      (omega arith) no_spaces

abbrev run : Outcome
run = value_of (returned (pos 0) sample_machine) (execute sample_machine (some (97 ∷ 98 ∷ 0 ∷ [])))

abbrev machine_of : Outcome → Machine
machine_of (returned z m) = m
machine_of (entered e m) = m
machine_of (resumed s m) = m

run_enters : execute sample_machine (some (97 ∷ 98 ∷ 0 ∷ [])) ≡ some (entered 16 (machine_of run))
unfolding execute load strncpy read_dentry_by_name strlen load32 names load_bytes strncmp read_data
    data_byte strcpy
run_enters = refl

all_used : (l p : ℕ) → 1 ≤ l → get_elem? full_machine.process l ≡ some p → p ≢ 0
all_used l p lo h = ground (arith, h)

execute_full_example : execute full_machine (some (97 ∷ 98 ∷ 0 ∷ [])) ≡ none
execute_full_example = execute_full full_machine (97 ∷ 98 ∷ 0 ∷ []) refl all_used

sample-HasOperations : HasOperations sample_machine
sample-HasOperations zero d lo hi at used = absurd (omega arith)
sample-HasOperations (suc zero) d lo hi at used = absurd (omega arith)
sample-HasOperations (suc (suc zero)) d lo hi at used =
    (file, ap (λ (x : FileDesc). x.fops) (sym (some_eq at)))
sample-HasOperations (suc (suc (suc j))) d lo hi at used = absurd (free_rest j at used)
  where
    free_rest :
        {d : FileDesc} (j : ℕ) → get_elem? (replicate 5 free_desc) j ≡ some d → d.flags ≡ 1 → ⊥
    free_rest j at used = ground (arith, at, used)

halt-Left_example :
    (m : Machine) × (halt sample_machine 7 ≡ some (resumed 7 m))
    × Left (retire sample_machine) m
    × (m.process ≡ set sample_machine.process (current sample_machine.console).process_num 0)
halt-Left_example = halt-Left sample_machine 7 refl sample-HasOperations (omega arith) (omega arith)
