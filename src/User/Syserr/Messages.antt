-- ===== src/User/Syserr/Messages.antt =====
-- The strings of syscalls/ece391syserr.c.
use virtual_operating_system.Prelude.{ℕ, List, [], ◌∷◌}

-- `"read fail\n"`.
abbrev pub read_fail : List ℕ
read_fail = 114 ∷ 101 ∷ 97 ∷ 100 ∷ 32 ∷ 102 ∷ 97 ∷ 105 ∷ 108 ∷ 10 ∷ 0 ∷ []

-- `"write fail\n"`.
abbrev pub write_fail : List ℕ
write_fail = 119 ∷ 114 ∷ 105 ∷ 116 ∷ 101 ∷ 32 ∷ 102 ∷ 97 ∷ 105 ∷ 108 ∷ 10 ∷ 0 ∷ []

-- `"close fail\n"`.
abbrev pub close_fail : List ℕ
close_fail = 99 ∷ 108 ∷ 111 ∷ 115 ∷ 101 ∷ 32 ∷ 102 ∷ 97 ∷ 105 ∷ 108 ∷ 10 ∷ 0 ∷ []

-- `"err_neg_fd: FAIL\n"`.
abbrev pub neg_fd_failed : List ℕ
neg_fd_failed =
    101 ∷ 114 ∷ 114 ∷ 95 ∷ 110 ∷ 101 ∷ 103 ∷ 95 ∷ 102 ∷ 100 ∷ 58 ∷ 32 ∷ 70 ∷ 65 ∷ 73 ∷ 76 ∷ 10 ∷ 0
    ∷ []

-- `"err_neg_fd: PASS\n"`.
abbrev pub neg_fd_passed : List ℕ
neg_fd_passed =
    101 ∷ 114 ∷ 114 ∷ 95 ∷ 110 ∷ 101 ∷ 103 ∷ 95 ∷ 102 ∷ 100 ∷ 58 ∷ 32 ∷ 80 ∷ 65 ∷ 83 ∷ 83 ∷ 10 ∷ 0
    ∷ []

-- `"err_big_fd: FAIL\n"`.
abbrev pub big_fd_failed : List ℕ
big_fd_failed =
    101 ∷ 114 ∷ 114 ∷ 95 ∷ 98 ∷ 105 ∷ 103 ∷ 95 ∷ 102 ∷ 100 ∷ 58 ∷ 32 ∷ 70 ∷ 65 ∷ 73 ∷ 76 ∷ 10 ∷ 0
    ∷ []

-- `"err_big_fd: PASS\n"`.
abbrev pub big_fd_passed : List ℕ
big_fd_passed =
    101 ∷ 114 ∷ 114 ∷ 95 ∷ 98 ∷ 105 ∷ 103 ∷ 95 ∷ 102 ∷ 100 ∷ 58 ∷ 32 ∷ 80 ∷ 65 ∷ 83 ∷ 83 ∷ 10 ∷ 0
    ∷ []

-- `"err_open_lots: FAIL\n"`.
abbrev pub open_lots_failed : List ℕ
open_lots_failed =
    101 ∷ 114 ∷ 114 ∷ 95 ∷ 111 ∷ 112 ∷ 101 ∷ 110 ∷ 95 ∷ 108 ∷ 111 ∷ 116 ∷ 115 ∷ 58 ∷ 32 ∷ 70 ∷ 65
    ∷ 73 ∷ 76 ∷ 10 ∷ 0 ∷ []

-- `"err_open_lots: PASS\n"`.
abbrev pub open_lots_passed : List ℕ
open_lots_passed =
    101 ∷ 114 ∷ 114 ∷ 95 ∷ 111 ∷ 112 ∷ 101 ∷ 110 ∷ 95 ∷ 108 ∷ 111 ∷ 116 ∷ 115 ∷ 58 ∷ 32 ∷ 80 ∷ 65
    ∷ 83 ∷ 83 ∷ 10 ∷ 0 ∷ []

-- `"err_open: FAIL\n"`.
abbrev pub open_failed : List ℕ
open_failed =
    101 ∷ 114 ∷ 114 ∷ 95 ∷ 111 ∷ 112 ∷ 101 ∷ 110 ∷ 58 ∷ 32 ∷ 70 ∷ 65 ∷ 73 ∷ 76 ∷ 10 ∷ 0 ∷ []

-- `"err_open: PASS\n"`.
abbrev pub open_passed : List ℕ
open_passed =
    101 ∷ 114 ∷ 114 ∷ 95 ∷ 111 ∷ 112 ∷ 101 ∷ 110 ∷ 58 ∷ 32 ∷ 80 ∷ 65 ∷ 83 ∷ 83 ∷ 10 ∷ 0 ∷ []

-- `"err_unopened: FAIL\n"`.
abbrev pub unopened_failed : List ℕ
unopened_failed =
    101 ∷ 114 ∷ 114 ∷ 95 ∷ 117 ∷ 110 ∷ 111 ∷ 112 ∷ 101 ∷ 110 ∷ 101 ∷ 100 ∷ 58 ∷ 32 ∷ 70 ∷ 65 ∷ 73
    ∷ 76 ∷ 10 ∷ 0 ∷ []

-- `"err_unopened: PASS\n"`.
abbrev pub unopened_passed : List ℕ
unopened_passed =
    101 ∷ 114 ∷ 114 ∷ 95 ∷ 117 ∷ 110 ∷ 111 ∷ 112 ∷ 101 ∷ 110 ∷ 101 ∷ 100 ∷ 58 ∷ 32 ∷ 80 ∷ 65 ∷ 83
    ∷ 83 ∷ 10 ∷ 0 ∷ []

-- `"err_vidmap: FAIL\n"`.
abbrev pub vidmap_failed : List ℕ
vidmap_failed =
    101 ∷ 114 ∷ 114 ∷ 95 ∷ 118 ∷ 105 ∷ 100 ∷ 109 ∷ 97 ∷ 112 ∷ 58 ∷ 32 ∷ 70 ∷ 65 ∷ 73 ∷ 76 ∷ 10 ∷ 0
    ∷ []

-- `"err_vidmap: PASS\n"`.
abbrev pub vidmap_passed : List ℕ
vidmap_passed =
    101 ∷ 114 ∷ 114 ∷ 95 ∷ 118 ∷ 105 ∷ 100 ∷ 109 ∷ 97 ∷ 112 ∷ 58 ∷ 32 ∷ 80 ∷ 65 ∷ 83 ∷ 83 ∷ 10 ∷ 0
    ∷ []

-- `"err_stdin_out: FAIL\n"`.
abbrev pub stdin_out_failed : List ℕ
stdin_out_failed =
    101 ∷ 114 ∷ 114 ∷ 95 ∷ 115 ∷ 116 ∷ 100 ∷ 105 ∷ 110 ∷ 95 ∷ 111 ∷ 117 ∷ 116 ∷ 58 ∷ 32 ∷ 70 ∷ 65
    ∷ 73 ∷ 76 ∷ 10 ∷ 0 ∷ []

-- `"err_stdin_out: PASS\n"`.
abbrev pub stdin_out_passed : List ℕ
stdin_out_passed =
    101 ∷ 114 ∷ 114 ∷ 95 ∷ 115 ∷ 116 ∷ 100 ∷ 105 ∷ 110 ∷ 95 ∷ 111 ∷ 117 ∷ 116 ∷ 58 ∷ 32 ∷ 80 ∷ 65
    ∷ 83 ∷ 83 ∷ 10 ∷ 0 ∷ []

-- `"err_syscall_num: FAIL\n"`.
abbrev pub syscall_num_failed : List ℕ
syscall_num_failed =
    101 ∷ 114 ∷ 114 ∷ 95 ∷ 115 ∷ 121 ∷ 115 ∷ 99 ∷ 97 ∷ 108 ∷ 108 ∷ 95 ∷ 110 ∷ 117 ∷ 109 ∷ 58 ∷ 32
    ∷ 70 ∷ 65 ∷ 73 ∷ 76 ∷ 10 ∷ 0 ∷ []

-- `"err_syscall_num: PASS\n"`.
abbrev pub syscall_num_passed : List ℕ
syscall_num_passed =
    101 ∷ 114 ∷ 114 ∷ 95 ∷ 115 ∷ 121 ∷ 115 ∷ 99 ∷ 97 ∷ 108 ∷ 108 ∷ 95 ∷ 110 ∷ 117 ∷ 109 ∷ 58 ∷ 32
    ∷ 80 ∷ 65 ∷ 83 ∷ 83 ∷ 10 ∷ 0 ∷ []

-- `"."`.
abbrev pub dot : List ℕ
dot = 46 ∷ 0 ∷ []

-- `"helloo"`.
abbrev pub helloo : List ℕ
helloo = 104 ∷ 101 ∷ 108 ∷ 108 ∷ 111 ∷ 111 ∷ 0 ∷ []

-- `"'helloo' fail\n"`.
abbrev pub helloo_fail : List ℕ
helloo_fail = 39 ∷ 104 ∷ 101 ∷ 108 ∷ 108 ∷ 111 ∷ 111 ∷ 39 ∷ 32 ∷ 102 ∷ 97 ∷ 105 ∷ 108 ∷ 10 ∷ 0 ∷ []

-- `"shel"`.
abbrev pub shel : List ℕ
shel = 115 ∷ 104 ∷ 101 ∷ 108 ∷ 0 ∷ []

-- `"'shel' fail\n"`.
abbrev pub shel_fail : List ℕ
shel_fail = 39 ∷ 115 ∷ 104 ∷ 101 ∷ 108 ∷ 39 ∷ 32 ∷ 102 ∷ 97 ∷ 105 ∷ 108 ∷ 10 ∷ 0 ∷ []

-- `""`.
abbrev pub empty : List ℕ
empty = 0 ∷ []

-- `"empty string fail\n"`.
abbrev pub empty_fail : List ℕ
empty_fail =
    101 ∷ 109 ∷ 112 ∷ 116 ∷ 121 ∷ 32 ∷ 115 ∷ 116 ∷ 114 ∷ 105 ∷ 110 ∷ 103 ∷ 32 ∷ 102 ∷ 97 ∷ 105 ∷ 108
    ∷ 10 ∷ 0 ∷ []

-- `"close unopened or invalid fd fail\n"`.
abbrev pub close_unopened_fail : List ℕ
close_unopened_fail =
    99 ∷ 108 ∷ 111 ∷ 115 ∷ 101 ∷ 32 ∷ 117 ∷ 110 ∷ 111 ∷ 112 ∷ 101 ∷ 110 ∷ 101 ∷ 100 ∷ 32 ∷ 111 ∷ 114
    ∷ 32 ∷ 105 ∷ 110 ∷ 118 ∷ 97 ∷ 108 ∷ 105 ∷ 100 ∷ 32 ∷ 102 ∷ 100 ∷ 32 ∷ 102 ∷ 97 ∷ 105 ∷ 108 ∷ 10
    ∷ 0 ∷ []

-- `"read from unopened fd fail\n"`.
abbrev pub read_unopened_fail : List ℕ
read_unopened_fail =
    114 ∷ 101 ∷ 97 ∷ 100 ∷ 32 ∷ 102 ∷ 114 ∷ 111 ∷ 109 ∷ 32 ∷ 117 ∷ 110 ∷ 111 ∷ 112 ∷ 101 ∷ 110 ∷ 101
    ∷ 100 ∷ 32 ∷ 102 ∷ 100 ∷ 32 ∷ 102 ∷ 97 ∷ 105 ∷ 108 ∷ 10 ∷ 0 ∷ []

-- `"write to unopened fd fail\n"`.
abbrev pub write_unopened_fail : List ℕ
write_unopened_fail =
    119 ∷ 114 ∷ 105 ∷ 116 ∷ 101 ∷ 32 ∷ 116 ∷ 111 ∷ 32 ∷ 117 ∷ 110 ∷ 111 ∷ 112 ∷ 101 ∷ 110 ∷ 101
    ∷ 100 ∷ 32 ∷ 102 ∷ 100 ∷ 32 ∷ 102 ∷ 97 ∷ 105 ∷ 108 ∷ 10 ∷ 0 ∷ []

-- `"Null pointer fail\n"`.
abbrev pub null_fail : List ℕ
null_fail =
    78 ∷ 117 ∷ 108 ∷ 108 ∷ 32 ∷ 112 ∷ 111 ∷ 105 ∷ 110 ∷ 116 ∷ 101 ∷ 114 ∷ 32 ∷ 102 ∷ 97 ∷ 105 ∷ 108
    ∷ 10 ∷ 0 ∷ []

-- `"Kernel pointer fail fail\n"`.
abbrev pub kernel_fail : List ℕ
kernel_fail =
    75 ∷ 101 ∷ 114 ∷ 110 ∷ 101 ∷ 108 ∷ 32 ∷ 112 ∷ 111 ∷ 105 ∷ 110 ∷ 116 ∷ 101 ∷ 114 ∷ 32 ∷ 102 ∷ 97
    ∷ 105 ∷ 108 ∷ 32 ∷ 102 ∷ 97 ∷ 105 ∷ 108 ∷ 10 ∷ 0 ∷ []

-- `"write to stdin fail\n"`.
abbrev pub stdin_fail : List ℕ
stdin_fail =
    119 ∷ 114 ∷ 105 ∷ 116 ∷ 101 ∷ 32 ∷ 116 ∷ 111 ∷ 32 ∷ 115 ∷ 116 ∷ 100 ∷ 105 ∷ 110 ∷ 32 ∷ 102 ∷ 97
    ∷ 105 ∷ 108 ∷ 10 ∷ 0 ∷ []

-- `"read from stdout fail\n"`.
abbrev pub stdout_fail : List ℕ
stdout_fail =
    114 ∷ 101 ∷ 97 ∷ 100 ∷ 32 ∷ 102 ∷ 114 ∷ 111 ∷ 109 ∷ 32 ∷ 115 ∷ 116 ∷ 100 ∷ 111 ∷ 117 ∷ 116 ∷ 32
    ∷ 102 ∷ 97 ∷ 105 ∷ 108 ∷ 10 ∷ 0 ∷ []

-- `"syscall 0 fail\n"`.
abbrev pub zero_call_fail : List ℕ
zero_call_fail =
    115 ∷ 121 ∷ 115 ∷ 99 ∷ 97 ∷ 108 ∷ 108 ∷ 32 ∷ 48 ∷ 32 ∷ 102 ∷ 97 ∷ 105 ∷ 108 ∷ 10 ∷ 0 ∷ []

-- `"big num syscall fail\n"`.
abbrev pub big_call_fail : List ℕ
big_call_fail =
    98 ∷ 105 ∷ 103 ∷ 32 ∷ 110 ∷ 117 ∷ 109 ∷ 32 ∷ 115 ∷ 121 ∷ 115 ∷ 99 ∷ 97 ∷ 108 ∷ 108 ∷ 32 ∷ 102
    ∷ 97 ∷ 105 ∷ 108 ∷ 10 ∷ 0 ∷ []

-- `"neg num syscall fail\n"`.
abbrev pub neg_call_fail : List ℕ
neg_call_fail =
    110 ∷ 101 ∷ 103 ∷ 32 ∷ 110 ∷ 117 ∷ 109 ∷ 32 ∷ 115 ∷ 121 ∷ 115 ∷ 99 ∷ 97 ∷ 108 ∷ 108 ∷ 32 ∷ 102
    ∷ 97 ∷ 105 ∷ 108 ∷ 10 ∷ 0 ∷ []

-- `"Choose from tests 1-8. 0 to run all: "`.
abbrev pub choose : List ℕ
choose =
    67 ∷ 104 ∷ 111 ∷ 111 ∷ 115 ∷ 101 ∷ 32 ∷ 102 ∷ 114 ∷ 111 ∷ 109 ∷ 32 ∷ 116 ∷ 101 ∷ 115 ∷ 116 ∷ 115
    ∷ 32 ∷ 49 ∷ 45 ∷ 56 ∷ 46 ∷ 32 ∷ 48 ∷ 32 ∷ 116 ∷ 111 ∷ 32 ∷ 114 ∷ 117 ∷ 110 ∷ 32 ∷ 97 ∷ 108 ∷ 108
    ∷ 58 ∷ 32 ∷ 0 ∷ []

-- `"Can't read test #\n"`.
abbrev pub cannot_read : List ℕ
cannot_read =
    67 ∷ 97 ∷ 110 ∷ 39 ∷ 116 ∷ 32 ∷ 114 ∷ 101 ∷ 97 ∷ 100 ∷ 32 ∷ 116 ∷ 101 ∷ 115 ∷ 116 ∷ 32 ∷ 35 ∷ 10
    ∷ 0 ∷ []

-- `"\nOverall Tests: FAIL\n"`.
abbrev pub overall_failed : List ℕ
overall_failed =
    10 ∷ 79 ∷ 118 ∷ 101 ∷ 114 ∷ 97 ∷ 108 ∷ 108 ∷ 32 ∷ 84 ∷ 101 ∷ 115 ∷ 116 ∷ 115 ∷ 58 ∷ 32 ∷ 70 ∷ 65
    ∷ 73 ∷ 76 ∷ 10 ∷ 0 ∷ []

-- `"\nOverall Tests: PASS\n"`.
abbrev pub overall_passed : List ℕ
overall_passed =
    10 ∷ 79 ∷ 118 ∷ 101 ∷ 114 ∷ 97 ∷ 108 ∷ 108 ∷ 32 ∷ 84 ∷ 101 ∷ 115 ∷ 116 ∷ 115 ∷ 58 ∷ 32 ∷ 80 ∷ 65
    ∷ 83 ∷ 83 ∷ 10 ∷ 0 ∷ []

-- `"Invalid test number. Choose from tests 1-8 or 0"`.
abbrev pub invalid_number : List ℕ
invalid_number =
    73 ∷ 110 ∷ 118 ∷ 97 ∷ 108 ∷ 105 ∷ 100 ∷ 32 ∷ 116 ∷ 101 ∷ 115 ∷ 116 ∷ 32 ∷ 110 ∷ 117 ∷ 109 ∷ 98
    ∷ 101 ∷ 114 ∷ 46 ∷ 32 ∷ 67 ∷ 104 ∷ 111 ∷ 111 ∷ 115 ∷ 101 ∷ 32 ∷ 102 ∷ 114 ∷ 111 ∷ 109 ∷ 32 ∷ 116
    ∷ 101 ∷ 115 ∷ 116 ∷ 115 ∷ 32 ∷ 49 ∷ 45 ∷ 56 ∷ 32 ∷ 111 ∷ 114 ∷ 32 ∷ 48 ∷ 0 ∷ []
