-- ===== src/RootDir/Examples.antt =====
-- A root directory of one sector with a file, a deleted entry and another file.
use sysu_os.Base.{
  ℕ, zero, suc, ◌*◌, ◌<◌, ◌≤◌, ◌==◌, ◌≡◌, refl, true, arith, if◌then◌else◌, [], ◌∷◌, get_or,
}
use sysu_os.FatTable.{Device}
use sysu_os.DirEntry.{NormalizedEntry}
use sysu_os.DirEntry.RoundTrip.{IsShort}
use sysu_os.RootDir.{RootDir, empty_entry, flush_root_dir, init_root_dir}
use sysu_os.RootDir.Slots.{IsStorable}
use sysu_os.RootDir.Load.{live_entries, init_root_dir-flush_root_dir}

abbrev named : ℕ → ℕ → NormalizedEntry
named c cluster = record empty_entry { name = c ∷ []; start_cluster = cluster; attr = 32 }

abbrev root : RootDir
root = record {
  root_dir = λ k.
      if k == 0
      then named b'a' 5
      else if k == 1
      then named 0xe5 6
      else if k == 2
      then named b'b' 7
      else empty_entry;
  root_entries = 16;
  root_start_sector = 19;
  root_sector_count = 1;
  root_dir_dirty = true;
}

named-IsShort :
    (c cluster : ℕ) → 97 ≤ c → c < 128 → cluster < 4096 → IsShort (named c cluster) (c ∷ []) []
named-IsShort c cluster letter small real = record {
  name = refl;
  base_bytes = ground (arith, letter, small);
  ext_bytes = tt;
  base_fits = omega arith;
  ext_fits = omega arith;
  one_dot = tt;
  no_dot = λ e file. ground (arith, letter);
  of_directory = λ e. refl;
  not_long = omega arith;
  not_deleted = omega (arith, small);
  start_cluster = omega arith;
  create_time = omega arith;
  create_date = omega arith;
  last_access_date = omega arith;
  write_time = omega arith;
  write_date = omega arith;
  file_size = omega arith;
}

root-IsStorable : (k : ℕ) → k < 16 → IsStorable (root.root_dir k)
root-IsStorable zero less more live =
    (b'a' ∷ [], [], named-IsShort b'a' 5 (omega arith) (omega arith) (omega arith))
root-IsStorable (suc zero) less more live = absurd (ground (arith, live))
root-IsStorable (suc (suc zero)) less more live =
    (b'b' ∷ [], [], named-IsShort b'b' 7 (omega arith) (omega arith) (omega arith))
root-IsStorable (suc (suc (suc k))) less more live =
    let e : root.root_dir (suc (suc (suc k))) ≡ empty_entry = ground arith in absurd (cc (e, more))

abbrev zeros : Device
zeros = record { sectors = λ lba o. 0; answers = λ lba. true }

init_root_dir-flush_root_dir_example :
    (init_root_dir root (flush_root_dir root zeros).0.1 (λ o. 7)).root_dir 1
    ≡ get_or (live_entries (16 * 1) 0 root) 1 empty_entry
init_root_dir-flush_root_dir_example =
    init_root_dir-flush_root_dir root zeros (λ o. 7) root-IsStorable (λ t less. refl) 1

-- The deleted entry is skipped.
second_entry : get_or (live_entries 16 0 root) 1 empty_entry ≡ named b'b' 7
unfolding live_entries
second_entry = refl
