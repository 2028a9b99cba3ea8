-- ===== src/FatTable/Examples.antt =====
-- A disk of zeros, and a table whose entry 5 is 6 and whose entries 2 and 3 are in use.
use sysu_os.Base.{◌≡◌, ◌==◌, ◌+◌, ◌%◌, refl, true, if◌then◌else◌, arith}
use sysu_os.FatTable.{Device, Table, Buffer, flush_fat_table, read_fat_table}
use sysu_os.FatTable.Packed.{packed, fat_area}
use sysu_os.FatTable.Flush.{flush_fat_table-packed}
use sysu_os.FatTable.Read.{read_fat_table-packed}

abbrev zeros : Buffer
zeros o = 0

abbrev disk : Device
disk = record { sectors = λ s o. (s + o) % 256; answers = λ s. true }

abbrev used : Table
used m = if m == 5 then 6 else if m == 2 then 3 else if m == 3 then 4095 else 0

flush_fat_table-packed_example :
    ((flush_fat_table 9 1 used disk zeros).0 ≡ true)
    × (packed (fat_area (flush_fat_table 9 1 used disk zeros).1 1) 5 ≡ 6)
flush_fat_table-packed_example =
    flush_fat_table-packed 9 1 used disk zeros 5 (λ s. refl) (λ o. omega arith) (λ m. ground arith)

read_fat_table-packed_example :
    ((read_fat_table 512 9 1 disk zeros used).0 ≡ true)
    × ((read_fat_table 512 9 1 disk zeros used).1 300 ≡ packed (fat_area disk 1) 1068)
read_fat_table-packed_example =
    read_fat_table-packed 1 disk 300 (λ s. refl) (λ s o. omega arith) 9 used zeros
      (λ o. omega arith) refl (omega arith)
