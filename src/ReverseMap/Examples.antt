-- ===== src/ReverseMap/Examples.antt =====
-- A reverse map of 8 entries, where the entries 3 and 2 map a page, at the addresses 48 and 32.
use sysu_os.Base.{refl, [], ◌∷◌, arith, if◌then◌else◌, ◌==◌, ◌*◌}
use sysu_os.Bitmap.{get, bit_test}
use sysu_os.ReverseMap.{RMapManager, PageInfo, attach, detach}
use sysu_os.ReverseMap.Listed.{IsListed, IsReverseMap}
use sysu_os.ReverseMap.Attach.{IsAttached, attach-IsAttached}
use sysu_os.ReverseMap.Detach.{IsDetached, detach-IsDetached}

abbrev map : RMapManager
map = record {
  entries =
      λ i. record { pte_paddr = 16 * i; pte_vaddr = 0; next = if i == 3 then 2 else 0; owner = 7 };
  bitmap = record { length = 8; bitmap = λ o. 13 };
  length = 8;
}

abbrev page : PageInfo
page = record { ref = 2; flags = 0; extra = 3 }

map-IsReverseMap : IsReverseMap map
unfolding get bit_test
map-IsReverseMap = record { bytes = λ o. omega arith; size = refl; reserved = refl }

page-IsListed : IsListed map page (3 ∷ 2 ∷ [])
unfolding get bit_test
page-IsListed = record {
  chain = (refl, omega arith, (refl, omega arith, refl));
  distinct = (refl, (refl, tt));
  in_use = (omega arith, refl, (omega arith, refl, tt));
  counted = refl;
}

attach-IsAttached_example : IsAttached map page (3 ∷ 2 ∷ []) 160 5 9 (attach map page 160 5 9)
attach-IsAttached_example =
    attach-IsAttached map map-IsReverseMap page (3 ∷ 2 ∷ []) page-IsListed 160 5 9 (omega arith)

detach-IsDetached_example : IsDetached (3 ∷ []) 2 [] (detach 4 map page 32 7)
detach-IsDetached_example =
    detach-IsDetached 4 map page 32 7 (3 ∷ []) 2 [] map-IsReverseMap page-IsListed refl refl
      (omega arith)
