-- ===== src/Tests/Clock.antt =====
-- An image with the file `rtc`, and the animation on it.
use virtual_operating_system.Prelude.{ℕ, ◌==◌, if◌then◌else◌}
use virtual_operating_system.FileSystem.{FileSystem}
use virtual_operating_system.Machine.{Machine}
use virtual_operating_system.Tests.User.{fresh_machine}

abbrev clock_image : ℕ → ℕ
clock_image a =
    if a == 0
    then 1
    else if a == 4
    then 1
    else if a == 64
    then 114
    else if a == 65
    then 116
    else if a == 66
    then 99
    else 0

abbrev clock_disk : FileSystem
clock_disk = record { mem = clock_image; filesystem_start = 0; dir_index = 0 }

abbrev clock_machine : Machine
clock_machine = record fresh_machine { fs = clock_disk }
