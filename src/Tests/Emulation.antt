-- ===== src/Tests/Emulation.antt =====
-- The emulated system calls on a small Linux, the pages that the kernel's tests read, and the blocks of
-- fish/fish.c.
use virtual_operating_system.Prelude.{
  ℕ, ◌+◌, ◌≤◌, pos, negsuc, none, some, List, [], ◌∷◌, ◌++◌, ◌≡◌, refl, replicate, length,
  if◌then◌else◌, ltb, arith,
}
use virtual_operating_system.Strings.Numbers.{itoa}
use virtual_operating_system.Paging.{page_init}
use virtual_operating_system.KernelTests.{
  pass, paging_video_test, paging_kernel_test, page_fault_test,
}
use virtual_operating_system.KernelTests.Pages.{paging_video_test-page_init}
use virtual_operating_system.User.Support.{ece391_itoa}
use virtual_operating_system.User.Support.Numbers.{ece391_itoa-itoa}
use virtual_operating_system.User.Grep.{search_line}
use virtual_operating_system.User.Grep.Search.{occurs, search_line_lem}
use virtual_operating_system.User.Emulate.{
  Host, Emulator, exited, exec_line, status_of, emulated_execute, emulated_getargs, emulated_read,
}
use virtual_operating_system.User.Emulate.Words.{words}
use virtual_operating_system.User.Emulate.Execute.{here, emulated_execute_lem}
use virtual_operating_system.User.Emulate.Arguments.{joined, as_strings}
use virtual_operating_system.User.Emulate.Roundtrip.{exec_line-emulated_getargs}
use virtual_operating_system.User.Emulate.Entries.{emulated_read_lem}
use virtual_operating_system.Fish.{Blocks, zeroed, mp1_malloc, mp1_free}
use virtual_operating_system.Fish.Blocks.{IsFirst, mp1_free-mp1_malloc}
use virtual_operating_system.Tests.Devices.{no_tables}

-- Each directory has the name `a` over and over, and the state counts the calls.
abbrev small_linux : Host ℕ ℕ
small_linux = record {
  spawn = λ st path args. (exited (length args), st + 1);
  open_call = λ st name. (3, st + 1);
  open_null = λ st. (pos 4, st + 1);
  opendir = λ st. (some 0, st + 1);
  readdir = λ st d. (some (97 ∷ 0 ∷ []), st + 1);
  closedir = λ st d. st + 1;
  close_fd = λ st fd. st + 1;
  read_call = λ st fd buf n. (pos 0, buf, st + 1);
  write_call = λ st fd buf n. (n, st + 1);
  close_call = λ st fd. (pos 0, st + 1);
  open_mem = λ st. (pos 5, st + 1);
  mmap = λ st fd. (some 0, st + 1);
}

abbrev emulator : Emulator ℕ ℕ
emulator = record { host = 0; dir = some 0; dir_fd = pos 4; mem_fd = negsuc 0 }

-- `ls -a`.
abbrev ls_command : List ℕ
ls_command = 108 ∷ 115 ∷ 32 ∷ 45 ∷ 97 ∷ []

emulated_execute_lem_example :
    (path : List ℕ) × (args : List (List ℕ)) × (words (some here) ls_command ≡ path ∷ args)
    × (emulated_execute small_linux emulator (ls_command ++ (0 ∷ [])) ≡ (
        if ltb 1023 5
        then some (negsuc 0, emulator)
        else (let r = small_linux.spawn 0 path (path ∷ args) in
            some (status_of r.0, record emulator { host = r.1 }))))
emulated_execute_lem_example = emulated_execute_lem small_linux emulator ls_command [] (
  (λ q. omega (arith, q)),
  (
    (λ q. omega (arith, q)),
    ((λ q. omega (arith, q)), ((λ q. omega (arith, q)), ((λ q. omega (arith, q)), tt))),
  ),
)

exec_line-emulated_getargs_example :
    (exec_line (((108 ∷ 115 ∷ []) ++ (32 ∷ joined ((45 ∷ 97 ∷ []) ∷ (98 ∷ []) ∷ []))) ++ (0 ∷ []))
      ≡ some
          (here ++ (108 ∷ 115 ∷ []), (here ++ (108 ∷ 115 ∷ [])) ∷ (45 ∷ 97 ∷ []) ∷ (98 ∷ []) ∷ []))
    × (emulated_getargs (as_strings ((45 ∷ 97 ∷ []) ∷ (98 ∷ []) ∷ [])) (replicate 8 9) (pos 8)
        ≡ some (pos 0, 45 ∷ 97 ∷ 32 ∷ 98 ∷ 0 ∷ 9 ∷ 9 ∷ 9 ∷ []))
exec_line-emulated_getargs_example =
    exec_line-emulated_getargs (108 ∷ 115 ∷ []) ((45 ∷ 97 ∷ []) ∷ (98 ∷ []) ∷ []) [] (replicate 8 9)
      8 (refl, (refl, tt)) ((refl, (refl, tt)), ((refl, tt), tt)) (omega arith) (omega arith)
      (omega arith)

emulated_read_lem_example :
    emulated_read small_linux emulator (pos 4) (replicate 33 9) (pos 3)
    ≡ some (pos 3, 97 ∷ 0 ∷ 0 ∷ replicate 30 9, record emulator { host = 1 })
emulated_read_lem_example =
    emulated_read_lem small_linux emulator (pos 4) 0 (97 ∷ []) [] (replicate 33 9) 1 3 refl refl
      ((λ q. omega (arith, q)), tt) (omega arith) (omega arith)

paging_video_test-page_init_example :
    (paging_video_test 0x401000 (page_init 0x401000 no_tables) ≡ some pass)
    × (paging_kernel_test 0x401000 (page_init 0x401000 no_tables) ≡ some pass)
    × (page_fault_test 0x401000 (page_init 0x401000 no_tables) ≡ none)
paging_video_test-page_init_example = paging_video_test-page_init 0x401000 no_tables refl

-- Every block is in use.
abbrev full : Blocks
full = replicate 2000 (record zeroed { location = 1 })

mp1_free-mp1_malloc_example :
    (array' : Blocks) × (mp1_free full 7 ≡ some array')
    × ((j : ℕ) × (mp1_malloc array' (pos 16) ≡ some (some j)) × (j ≤ 7) × IsFirst array' 0 j)
mp1_free-mp1_malloc_example = mp1_free-mp1_malloc full 7 (pos 16) refl (omega arith)

ece391_itoa-itoa_example : ece391_itoa 391 (replicate 33 0) 10 ≡ itoa 391 (replicate 33 0) 10
ece391_itoa-itoa_example = ece391_itoa-itoa 391 10 (replicate 33 0)

search_line_lem_example :
    search_line 3 (98 ∷ 99 ∷ 0 ∷ []) (9 ∷ 97 ∷ 98 ∷ 99 ∷ 0 ∷ []) 2 1
    ≡ some (occurs (98 ∷ 99 ∷ []) (97 ∷ 98 ∷ 99 ∷ []))
search_line_lem_example =
    search_line_lem (97 ∷ 98 ∷ 99 ∷ []) (9 ∷ []) [] 98 (99 ∷ []) []
      ((λ q. omega (arith, q)), ((λ q. omega (arith, q)), ((λ q. omega (arith, q)), tt)))
      ((λ q. omega (arith, q)), ((λ q. omega (arith, q)), tt))
