-- ===== src/Tests/Listing.antt =====
-- `ls` on the image of two entries.
use virtual_operating_system.Prelude.{
  ℕ, zero, suc, ◌<◌, some, [], ◌∷◌, ◌≡◌, refl, map, replicate, length, arith, inl, inr,
}
use virtual_operating_system.Console.Output.{puts}
use virtual_operating_system.Console.Total.{NoBackspace}
use virtual_operating_system.FileSystem.{dir_count, load32, load_bytes, file_type}
use virtual_operating_system.FileSystem.Directory.{
  IsDirectory, HasNul, entry_at, entry_name, find_entry, entries,
}
use virtual_operating_system.Strings.Laws.{Bytes}
use virtual_operating_system.Machine.{Machine}
use virtual_operating_system.User.Kernel.{kernel}
use virtual_operating_system.User.Ls.{ls}
use virtual_operating_system.User.Ls.Prints.{listing}
use virtual_operating_system.User.Ls.Reading.{CanBeListed}
use virtual_operating_system.User.Ls.Entries.{ls-puts}
use virtual_operating_system.Tests.{Bytes-test, term_desc, free_desc}
use virtual_operating_system.Tests.Screens.{sample-CursorsValid}
use virtual_operating_system.Tests.Starts.{boot_disk}
use virtual_operating_system.Tests.User.{fresh_machine, no_child, no_call}

two_entries : (i : ℕ) → i < dir_count boot_disk → i < 2
unfolding load32
two_entries i h = h

boot_stops : (i : ℕ) → i < 2 → HasNul (entry_at boot_disk i)
unfolding load_bytes
boot_stops zero h = inr (inl refl)
boot_stops (suc zero) h = inr (inr (inr (inr (inr (inl refl)))))
boot_stops (suc (suc i)) h = absurd (omega arith)

entry-Bytes : (i : ℕ) → i < 2 → Bytes (entry_at boot_disk i)
unfolding load_bytes
entry-Bytes zero h = Bytes-test (entry_at boot_disk 0) refl
entry-Bytes (suc zero) h = Bytes-test (entry_at boot_disk 1) refl
entry-Bytes (suc (suc i)) h = absurd (omega arith)

boot-IsDirectory : IsDirectory boot_disk
boot-IsDirectory = record {
  stops = λ i h. boot_stops i (two_entries i h);
  bytes = λ i h. entry-Bytes i (two_entries i h);
}

shown :
    (i : ℕ)
    → i < 2
    → (0 < length (entry_name (entry_at boot_disk i)))
      × NoBackspace (entry_name (entry_at boot_disk i))
unfolding load_bytes
shown zero h = (omega arith, ground arith)
shown (suc zero) h = (omega arith, ground arith)
shown (suc (suc i)) h = absurd (omega arith)

boot-CanBeListed : CanBeListed boot_disk
boot-CanBeListed i h = shown i (two_entries i h)

dot_found : find_entry (46 ∷ []) (entries boot_disk) ≡ some (entry_at boot_disk 0)
unfolding load32 load_bytes
dot_found = refl

dot_is_directory : file_type (entry_at boot_disk 0) ≡ 1
unfolding load_bytes
dot_is_directory = refl

few : dir_count boot_disk < 3
unfolding load32
few = omega arith

abbrev listing_machine : Machine
listing_machine = record fresh_machine { fs = boot_disk }

ls-puts_example :
    (m' : Machine) × (ls (kernel no_child no_call 0x9000) 3 listing_machine (replicate 33 0)
      ≡ some (0, m'))
    × (puts (listing (map entry_name (entries boot_disk))) listing_machine.console
        ≡ some m'.console)
ls-puts_example =
    ls-puts no_child no_call 0x9000 3 listing_machine (replicate 33 0) free_desc
      (entry_at boot_disk 0) refl refl refl refl (term_desc, refl, refl) sample-CursorsValid
      boot-IsDirectory boot-CanBeListed dot_found dot_is_directory few
