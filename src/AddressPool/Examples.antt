-- ===== src/AddressPool/Examples.antt =====
-- A pool of ten pages above 3 GB, of which 0, 1 and 4 are in use.
use sysu_os.Base.{◌==◌, refl, true, false, arith, if◌then◌else◌}
use sysu_os.AddressPool.{VAddressPool, allocate}
use sysu_os.AddressPool.Pages.{IsPool}
use sysu_os.AddressPool.Flags.{IsGranted, allocate-IsGranted, IsRestored, release-allocate_pages}

abbrev pool : VAddressPool
pool = record {
  length = 10;
  resources = record { length = 10; bitmap = λ p. if p == 0 then 0b0001_0011 else 0 };
  start_address = 0xc000_0000;
  end_address = 0xc000_9fff;
  privileges = λ k. 0;
  is_static = false;
  static_privilege = 3;
}

pool-IsPool : IsPool pool
pool-IsPool = record {
  bytes = λ p. ground arith;
  pages = refl;
  aligned = refl;
  end = refl;
  fits = omega arith;
}

allocate-IsGranted_example : IsGranted pool 3 3 (allocate pool 3 3 true)
allocate-IsGranted_example = allocate-IsGranted pool pool-IsPool 3 3 (omega arith) true

release-allocate_pages_example : IsRestored pool 3 (allocate pool 3 3 false)
release-allocate_pages_example =
    release-allocate_pages pool 3 3 false pool-IsPool (omega arith) refl
