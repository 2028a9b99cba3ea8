-- ===== src/RootDir/Slots.antt =====
-- What is read at a place of the sector where an entry of the table was stored.
use sysu_os.Base.{
  ℕ, ◌+◌, ◌<◌, ◌==◌, ltb, leb, ◌≡◌, refl, ◌∙◌, Bool, true, false, ◌&&◌, if◌then◌else◌, Bool-cases,
  inl, inr, Text, get_or,
}
use sysu_os.FatTable.{Buffer}
use sysu_os.DirEntry.{
  NormalizedEntry, EntryBuf, free, valid, delete, end_of_dir, load_sfn, is_skip_lfn, read,
}
use sysu_os.DirEntry.Places.{read-cong, read-zeros, read-deleted}
use sysu_os.DirEntry.RoundTrip.{IsShort, read-write}
use sysu_os.RootDir.{store_entry}

-- an entry that ends the directory, or one that is deleted
abbrev pub is_empty : NormalizedEntry → Bool
is_empty e = get_or e.name 0 0 == 0

abbrev pub is_deleted : NormalizedEntry → Bool
is_deleted e = get_or e.name 0 0 == 0xe5

-- what `read` makes of a stored entry
abbrev pub read_back : NormalizedEntry → EntryBuf → Bool × EntryBuf
read_back e b =
    if is_empty e
    then (false, record b { status = end_of_dir })
    else if is_deleted e
    then (false, record b { status = delete })
    else (true, record { entry = e; status = valid })

-- The place `p` of a buffer holds an entry.
abbrev pub IsSlot : NormalizedEntry → Buffer → ℕ → Type 0
IsSlot e buf p =
    (b : EntryBuf) → is_skip_lfn b.status ≡ false → read b (load_sfn buf p) ≡ read_back e b

-- an entry that is read again as it is
abbrev pub IsStorable : NormalizedEntry → Type 0
IsStorable e =
    is_empty e ≡ false → is_deleted e ≡ false → (base : Text) × (ext : Text) × IsShort e base ext

-- An entry of zeros ends the directory.
pub zeros-IsSlot :
    (e : NormalizedEntry) (buf : Buffer) (p : ℕ)
    → is_empty e ≡ true
    → ((o : ℕ) → o < 32 → buf (p + o) ≡ 0)
    → IsSlot e buf p
zeros-IsSlot e buf p ends zeros b open_run = rw ends (read-zeros buf p b zeros)

pub store_entry-IsSlot :
    (e : NormalizedEntry) (buf : Buffer) (p : ℕ)
    → IsStorable e
    → ((o : ℕ) → o < 32 → buf (p + o) ≡ 0)
    → IsSlot e (store_entry e buf p) p
unfolding store_entry
store_entry-IsSlot e buf p storable zeros b open_run = elim (Bool-cases (is_empty e)) [
  | inl ends ↦ rw ends (read-zeros buf p b zeros)
  | inr more ↦ elim (Bool-cases (is_deleted e)) [
    | inl gone ↦ rw (more, gone) (read-deleted buf p b zeros (record { entry = e; status = free }))
    | inr live ↦
        let (base, ext, short) = storable more live in
        rw (more, live) (read-write e base ext short buf p free b (load_sfn buf p) open_run)
  ]
]

-- A place with the same bytes holds the same entry.
pub IsSlot-cong :
    (e : NormalizedEntry) (buf buf' : Buffer) (p : ℕ)
    → ((o : ℕ) → o < 32 → buf' (p + o) ≡ buf (p + o))
    → IsSlot e buf p
    → IsSlot e buf' p
IsSlot-cong e buf buf' p same slot b open_run = read-cong buf' buf p b same ∙ slot b open_run

-- The other bytes are not written.
pub store_entry_outside :
    (e : NormalizedEntry) (buf : Buffer) (p o : ℕ)
    → (leb p o && ltb o (p + 32)) ≡ false
    → store_entry e buf p o ≡ buf o
unfolding store_entry
store_entry_outside e buf p o outside = elim (Bool-cases (is_empty e)) [
  | inl ends ↦ rw ends refl
  | inr more ↦ rw (more, outside) refl
]
