-- ===== src/DirEntry.antt =====
-- src/kernel/fileSys/fat12_entry.cpp: `read` and `write` of `fat12_entry_buf`, which turn the 32 bytes
-- of an entry of a directory into one with a text for its name and back. A `char` array that holds a
-- name is the list of its bytes before the NUL; the bytes of a directory are those of FatTable. `tail`
-- is 0 between two calls and the checksum is not used.
pub mod Names
pub mod Layout
pub mod RoundTrip
pub mod Places
mod Examples
use sysu_os.Base.{
  ℕ, zero, suc, ◌+◌, ◌-◌, ◌*◌, ◌/◌, ◌%◌, ◌^◌, ◌==◌, ltb, leb, min, Bool, true, false, not, ◌&&◌,
  if◌then◌else◌, Option, none, some, List, [], ◌∷◌, ◌++◌, Text, get_or, drop,
}
use sysu_os.FatTable.{Buffer, put}

unfoldable pub to_lower : ℕ → ℕ
to_lower c = if leb b'A' c && leb c b'Z' then c + 32 else c

unfoldable pub to_upper : ℕ → ℕ
to_upper c = if leb b'a' c && leb c b'z' then c - 32 else c

-- `fat12_sfn_entry`
pub record SfnEntry : Type 0 where
  pub name : Buffer
  pub ext : Buffer
  pub attr : ℕ
  pub nt_reserved : ℕ
  pub create_time_tenths : ℕ
  pub create_time : ℕ
  pub create_date : ℕ
  pub last_access_date : ℕ
  pub first_cluster_high : ℕ
  pub write_time : ℕ
  pub write_date : ℕ
  pub first_cluster_low : ℕ
  pub file_size : ℕ

-- `fat12_normalized_entry`
pub record NormalizedEntry : Type 0 where
  pub name : Text
  pub start_cluster : ℕ
  pub attr : ℕ
  pub create_time_tenths : ℕ
  pub create_time : ℕ
  pub create_date : ℕ
  pub last_access_date : ℕ
  pub write_time : ℕ
  pub write_date : ℕ
  pub file_size : ℕ

pub data Status : Type 0 where
  free delete valid skip_lfn skip_sfn write_done end_of_dir : Status

-- `fat12_entry_buf`
pub record EntryBuf : Type 0 where
  pub entry : NormalizedEntry
  pub status : Status

abbrev pub word : Buffer → ℕ → ℕ
word b p = b p + 256 * b (p + 1)

-- the packed structure at an address, low byte first
abbrev pub load_sfn : Buffer → ℕ → SfnEntry
load_sfn b p = record {
  name = λ i. b (p + i);
  ext = λ i. b (p + (8 + i));
  attr = b (p + 11);
  nt_reserved = b (p + 12);
  create_time_tenths = b (p + 13);
  create_time = word b (p + 14);
  create_date = word b (p + 16);
  last_access_date = word b (p + 18);
  first_cluster_high = word b (p + 20);
  write_time = word b (p + 22);
  write_date = word b (p + 24);
  first_cluster_low = word b (p + 26);
  file_size = word b (p + 28) + 65536 * word b (p + 30);
}

abbrev pub low : ℕ → ℕ
low v = v % 256

abbrev pub high : ℕ → ℕ
high v = v / 256 % 256

-- the bytes of the structure behind the name
abbrev pub tail_bytes : SfnEntry → List ℕ
tail_bytes e =
    e.attr
    ∷ e.nt_reserved
    ∷ e.create_time_tenths
    ∷ low e.create_time
    ∷ high e.create_time
    ∷ low e.create_date
    ∷ high e.create_date
    ∷ low e.last_access_date
    ∷ high e.last_access_date
    ∷ low e.first_cluster_high
    ∷ high e.first_cluster_high
    ∷ low e.write_time
    ∷ high e.write_time
    ∷ low e.write_date
    ∷ high e.write_date
    ∷ low e.first_cluster_low
    ∷ high e.first_cluster_low
    ∷ low e.file_size
    ∷ high e.file_size
    ∷ low (e.file_size / 65536)
    ∷ high (e.file_size / 65536)
    ∷ []

pub sfn_byte : SfnEntry → ℕ → ℕ
sfn_byte e i =
    if ltb i 8
    then e.name i
    else if ltb i 11
    then e.ext (i - 8)
    else get_or (tail_bytes e) (i - 11) 0

abbrev pub store_sfn : Buffer → ℕ → SfnEntry → Buffer
store_sfn b p e o = if leb p o && ltb o (p + 32) then sfn_byte e (o - p) else b o

abbrev pub is_directory : ℕ → Bool
is_directory attr = attr / 16 % 2 == 1

abbrev pub is_volume : ℕ → Bool
is_volume attr = attr / 8 % 2 == 1

abbrev pub is_skip_lfn : Status → Bool
is_skip_lfn skip_lfn = true
is_skip_lfn _ = false

-- the loops of `read` over `name` and `ext`: what they put in the name
pub read_chars : ℕ → Buffer → ℕ → Text
read_chars zero b i = []
read_chars (suc n) b i =
    let rest = read_chars n b (suc i) in if b i == b' ' then [] else to_lower (b i) ∷ rest

pub read_name : SfnEntry → Text
read_name e =
    let base = read_chars 8 e.name 0 in
    if is_directory e.attr
    then base
    else if e.ext 0 == b' '
    then base
    else base ++ b'.' ∷ read_chars 3 e.ext 0

abbrev pub normalize : SfnEntry → NormalizedEntry
normalize e = record {
  name = read_name e;
  start_cluster = e.first_cluster_low;
  attr = e.attr;
  create_time_tenths = e.create_time_tenths;
  create_time = e.create_time;
  create_date = e.create_date;
  last_access_date = e.last_access_date;
  write_time = e.write_time;
  write_date = e.write_date;
  file_size = e.file_size;
}

pub read : EntryBuf → SfnEntry → Bool × EntryBuf
read b e =
    if e.attr == 0x0f
    then (false, record b { status = skip_lfn })
    else if e.name 0 == 0
    then (false, record b { status = end_of_dir })
    else if e.name 0 == 0xe5
    then (false, record b { status = delete })
    else if is_skip_lfn b.status
    then (false, record b { status = skip_sfn })
    else (true, record { entry = normalize e; status = valid })

-- a loop of `write` that stores a part of the name in capitals, to the NUL at most
pub store_chars : ℕ → Text → ℕ → Buffer → Buffer
store_chars zero src i out = out
store_chars (suc n) [] i out = out
store_chars (suc n) (c ∷ src) i out =
    let rest = store_chars n src (suc i) (put out i (to_upper c)) in if c == 0 then out else rest

-- `dot_idx`; -1 is `none`
pub last_dot : ℕ → Text → ℕ → Option ℕ → Option ℕ
last_dot zero src i dot = dot
last_dot (suc n) [] i dot = dot
last_dot (suc n) (c ∷ src) i dot =
    let rest = last_dot n src (suc i) (if c == b'.' then some i else dot) in
    if c == 0 then dot else rest

abbrev pub blank : Buffer
blank i = b' '

abbrev pub max_filename : ℕ
max_filename = 256

-- `name` and `ext` of a file by the place of its last dot; before it is no NUL
abbrev pub split_name : Text → Option ℕ → Buffer × Buffer
split_name name none = (store_chars 8 name 0 blank, blank)
split_name name (some dot) =
    (store_chars (min 8 dot) name 0 blank, store_chars 3 (drop (dot + 1) name) 0 blank)

pub write_name : NormalizedEntry → Buffer × Buffer
write_name e =
    if is_directory e.attr
    then (store_chars 8 e.name 0 blank, blank)
    else split_name e.name (last_dot max_filename e.name 0 none)

-- `write`; with `set_delete` the rest of the old entry stays
pub write : EntryBuf → SfnEntry → Bool → SfnEntry × EntryBuf
write b old set_delete =
    let e = b.entry in
    let (name, ext) = write_name e in
    if set_delete then (record old { name = put old.name 0 0xe5 }, b) else (
      record {
        name = name;
        ext = ext;
        attr = e.attr;
        nt_reserved = 0;
        create_time_tenths = e.create_time_tenths;
        create_time = e.create_time;
        create_date = e.create_date;
        last_access_date = e.last_access_date;
        first_cluster_high = 0;
        write_time = e.write_time;
        write_date = e.write_date;
        first_cluster_low = e.start_cluster;
        file_size = e.file_size;
      },
      record b { status = write_done },
    )
