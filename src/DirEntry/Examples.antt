-- ===== src/DirEntry/Examples.antt =====
-- An entry for a file, and what becomes of a name that is too long.
use sysu_os.Base.{◌≡◌, refl, true, false, arith, [], ◌∷◌, Text}
use sysu_os.DirEntry.{
  SfnEntry, NormalizedEntry, EntryBuf, free, valid, load_sfn, store_sfn, read, write, read_name,
  write_name, last_dot, read_chars, store_chars, to_upper, to_lower,
}
use sysu_os.DirEntry.RoundTrip.{IsShort, read-write}

-- "a.b.c"
abbrev letters : Text
letters = b'a' ∷ b'.' ∷ b'b' ∷ b'.' ∷ b'c' ∷ []

abbrev file : NormalizedEntry
file = record {
  name = letters;
  start_cluster = 300;
  attr = 32;
  create_time_tenths = 0;
  create_time = 1;
  create_date = 40000;
  last_access_date = 3;
  write_time = 4;
  write_date = 5;
  file_size = 70000;
}

file-IsShort : IsShort file (b'a' ∷ b'.' ∷ b'b' ∷ []) (b'c' ∷ [])
file-IsShort = record {
  name = refl;
  base_bytes = ground arith;
  ext_bytes = ground arith;
  base_fits = omega arith;
  ext_fits = omega arith;
  one_dot = ground arith;
  no_dot = λ e. cc;
  of_directory = λ e. cc;
  not_long = omega arith;
  not_deleted = omega arith;
  start_cluster = omega arith;
  create_time = omega arith;
  create_date = omega arith;
  last_access_date = omega arith;
  write_time = omega arith;
  write_date = omega arith;
  file_size = omega arith;
}

abbrev old : SfnEntry
old = load_sfn (λ o. 7) 0

abbrev fresh : EntryBuf
fresh = record { entry = file; status = free }

read-write_example :
    read fresh (
      load_sfn
        (store_sfn (λ o. 7) 64 (write (record { entry = file; status = free }) old false).0)
        64)
    ≡ (true, record { entry = file; status = valid })
read-write_example =
    read-write file (b'a' ∷ b'.' ∷ b'b' ∷ []) (b'c' ∷ []) file-IsShort (λ o. 7) 64 free fresh old
      refl

-- A file with a name of nine letters keeps the first eight.
long_name :
    read_name
      (write
        (record {
          entry = record file {
            name = b'a' ∷ b'b' ∷ b'c' ∷ b'd' ∷ b'e' ∷ b'f' ∷ b'g' ∷ b'h' ∷ b'i' ∷ [];
          };
          status = free;
        })
        old
        false).0
    ≡ b'a' ∷ b'b' ∷ b'c' ∷ b'd' ∷ b'e' ∷ b'f' ∷ b'g' ∷ b'h' ∷ []
unfolding write read_name write_name last_dot read_chars store_chars to_upper to_lower
long_name = refl
