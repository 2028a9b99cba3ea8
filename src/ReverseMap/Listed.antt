-- ===== src/ReverseMap/Listed.antt =====
-- What the reverse map holds for a page: the list of indices that starts at `extra`.
use sysu_os.Base.{
  ℕ, ◌<◌, ◌==◌, ◌≡◌, ◌≢◌, refl, ap, ◌∙◌, true, false, List, [], ◌∷◌, arith, length, ==→eq,
  Bool-cases, inl, inr,
}
use sysu_os.Bitmap.{get}
use sysu_os.Bitmap.Bits.{
  IsBytes, get-set, initialize_lem, length-initialize, length-set, set-IsBytes,
}
use sysu_os.Bitmap
use sysu_os.LinkedList.Chain.{has, Distinct}
use sysu_os.ReverseMap.{initialize, RMapManager, RMapEntry, PageInfo}

-- `next` leads from the index `i` through `xs` to the end
abbrev pub Chain : (ℕ → RMapEntry) → ℕ → List ℕ → Type 0
Chain e i [] = i ≡ 0
Chain e i (x ∷ xs) = (i ≡ x) × (x ≢ 0) × Chain e (e x).next xs

-- the indices are in range and marked as used
abbrev pub InUse : RMapManager → List ℕ → Type 0
InUse r [] = Unit {0}
InUse r (x ∷ xs) = (x < r.length) × (get r.bitmap x ≡ true) × InUse r xs

-- the page is mapped by the entries `xs`
pub record IsListed (r : RMapManager) (p : PageInfo) (xs : List ℕ) : Type 0 where
  pub chain : Chain r.entries p.extra xs
  pub distinct : Distinct xs
  pub in_use : InUse r xs
  pub counted : p.ref ≡ length xs

pub Chain-frame :
    (e e' : ℕ → RMapEntry) (i : ℕ) (xs : List ℕ)
    → ((x : ℕ) → has x xs ≡ true → (e' x).next ≡ (e x).next)
    → Chain e i xs
    → Chain e' i xs
Chain-frame e e' i [] same c = c
Chain-frame e e' i (x ∷ xs) same c = (
  c.0,
  c.1,
  rw (same x (ground arith)) (Chain-frame e e' (e x).next xs (λ y h. same y (ground arith)) c.2),
)

pub InUse-frame :
    (r r' : RMapManager) (xs : List ℕ)
    → r'.length ≡ r.length
    → ((x : ℕ) → has x xs ≡ true → get r'.bitmap x ≡ get r.bitmap x)
    → InUse r xs
    → InUse r' xs
InUse-frame r r' [] size same u = tt
InUse-frame r r' (x ∷ xs) size same u = (
  rw size u.0,
  same x (ground arith) ∙ u.1,
  InUse-frame r r' xs size (λ y h. same y (ground arith)) u.2,
)

-- an index that is not in use is in no list
pub has-InUse :
    (r : RMapManager) (xs : List ℕ) (i : ℕ) → InUse r xs → get r.bitmap i ≡ false → has i xs ≡ false
has-InUse r [] i u h = refl
has-InUse r (x ∷ xs) i u h = elim (Bool-cases (i == x)) [
  | inl e ↦ absurd (ground (arith, ap (get r.bitmap) (==→eq i x e)))
  | inr apart ↦ rw apart (has-InUse r xs i u.2 h)
]

-- The reverse map is well formed: index 0 is never handed out.
pub record IsReverseMap (r : RMapManager) : Type 0 where
  pub bytes : IsBytes r.bitmap.bitmap
  pub size : r.bitmap.length ≡ r.length
  pub reserved : get r.bitmap 0 ≡ true

-- A reverse map that `initialize` has set up is well formed, and of its indices only 0 is taken.
pub initialize-IsReverseMap :
    (length : ℕ) (entries : ℕ → RMapEntry) (memory : Bitmap.Memory) (j : ℕ)
    → IsBytes memory
    → j < length
    → IsReverseMap (initialize length entries memory)
      × (get (initialize length entries memory).bitmap j ≡ (j == 0))
unfolding initialize
initialize-IsReverseMap length entries memory j bytes inside =
    let blank = Bitmap.initialize memory length in
    let law = initialize_lem memory length in
    (
      record {
        bytes = set-IsBytes blank 0 true (law.2 bytes);
        size = length-set blank 0 true ∙ length-initialize memory length;
        reserved = get-set blank 0 0 true (law.2 bytes);
      },
      ground (arith, get-set blank 0 j true (law.2 bytes), law.0 j inside),
    )
