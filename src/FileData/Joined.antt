-- ===== src/FileData/Joined.antt =====
-- What a part of a read that leaves its bytes in the buffer gives with the rest of the read.
use sysu_os.Base.{
  ℕ, ◌+◌, ◌-◌, ◌<◌, ◌≤◌, ltb, leb, ◌≡◌, refl, sym, ap, ◌∙◌, Bool, true, false, ◌&&◌, if◌then◌else◌,
  Bool-cases, inl, inr, arith,
}
use sysu_os.FatTable.{Buffer}
use sysu_os.ClusterCache.{FileSystem}
use sysu_os.ClusterCache.View.{IsCache, Holds}
use sysu_os.ClusterCache.Release.{IsFailing}
use sysu_os.FileData.{
  Copied, missing, stopped, copied, Reading, returned, refused, spent, halted, continue,
  continue_first,
}
use sysu_os.FileData.Copy.{IsFree, IsNext, IsCopied}

-- every cluster of the data area has its contents
abbrev pub HoldsAll : (ℕ → Buffer) → FileSystem → Type 0
HoldsAll contents fs = (c : ℕ) → 2 ≤ c → Holds fs c (contents c)

-- `size` bytes of a file are read to a place, and the count is that of its end
abbrev pub IsReadTo : FileSystem → ℕ → ℕ → Buffer → Buffer → Reading → Type 0
IsReadTo fs at size byte out (returned n out' fs') =
    (n ≡ at + size)
    × IsNext fs fs'
    × ((o : ℕ) → out' o ≡ (if leb at o && ltb o (at + size) then byte (o - at) else out o))
IsReadTo fs at size byte out refused = ⊥
IsReadTo fs at size byte out spent = ⊥
IsReadTo fs at size byte out halted = IsFailing fs.device

joined_bytes :
    (at chunk size : ℕ) (first rest byte out : Buffer)
    → chunk ≤ size
    → ((k : ℕ) → k < chunk → byte k ≡ first k)
    → ((k : ℕ) → chunk ≤ k → k < size → byte k ≡ rest (k - chunk))
    → (o v : ℕ) → v ≡ (if leb at o && ltb o (at + chunk) then first (o - at) else out o)
    → (if leb (at + chunk) o && ltb o (at + chunk + (size - chunk))
        then rest (o - (at + chunk))
        else v)
      ≡ (if leb at o && ltb o (at + size) then byte (o - at) else out o)
joined_bytes at chunk size first rest byte out fits low high o v copy =
    elim (Bool-cases (leb (at + chunk) o && ltb o (at + chunk + (size - chunk)))) [
      | inl behind ↦
          let inside : (leb at o && ltb o (at + size)) ≡ true = ground (arith, behind) in
          let place : o - at - chunk ≡ o - (at + chunk) = omega arith in
          let far : chunk ≤ o - at = ground (arith, behind) in
          let near : o - at < size = ground (arith, behind) in
          rw (behind, inside) (sym (high (o - at) far near ∙ ap rest place))
      | inr before ↦
          rw (before, copy)
            (elim (Bool-cases (leb at o && ltb o (at + chunk))) [
              | inl here ↦
                  let inside : (leb at o && ltb o (at + size)) ≡ true = ground (arith, here) in
                  let near : o - at < chunk = ground (arith, here) in
                  rw (here, inside) (sym (low (o - at) near))
              | inr away ↦
                  let outside : (leb at o && ltb o (at + size)) ≡ false =
                    ground (arith, away, before) in
                  rw (away, outside) refl
            ])
    ]

-- A part of `chunk` bytes is followed by the rest.
pub joined-IsReadTo :
    (fs fs' : FileSystem) (at chunk size : ℕ) (first rest byte out out' : Buffer)
    → IsNext fs fs'
    → chunk ≤ size
    → ((o : ℕ) → out' o ≡ (if leb at o && ltb o (at + chunk) then first (o - at) else out o))
    → ((k : ℕ) → k < chunk → byte k ≡ first k)
    → ((k : ℕ) → chunk ≤ k → k < size → byte k ≡ rest (k - chunk))
    → (r : Reading) → IsReadTo fs' (at + chunk) (size - chunk) rest out' r
    → IsReadTo fs at size byte out r
joined-IsReadTo fs fs' at chunk size first rest byte out out' next fits copy low high refused r_is =
    r_is
joined-IsReadTo fs fs' at chunk size first rest byte out out' next fits copy low high spent r_is =
    r_is
joined-IsReadTo fs fs' at chunk size first rest byte out out' next fits copy low high halted
      (lba, bad) =
    let (cache, free, kept, shape) = next in (lba, sym (ap (λ (a : ℕ → Bool). a lba) shape.1) ∙ bad)
joined-IsReadTo fs fs' at chunk size first rest byte out out' next fits copy low high
      (returned n out'' fs'') (count, next', copy') =
    let (cache, free, kept, shape) = next in
    let (cache', free', kept', shape') = next' in
    (
      omega arith,
      (
        cache',
        free',
        (λ c f real h. kept' c f real (kept c f real h)),
        (shape'.0 ∙ shape.0, shape'.1 ∙ shape.1),
      ),
      λ o.
          copy' o
          ∙ joined_bytes at chunk size first rest byte out fits low high o (out' o) (copy o),
    )

pub nothing-IsReadTo :
    (fs : FileSystem) (at size : ℕ) (byte out : Buffer)
    → IsCache fs
    → IsFree fs
    → size ≡ 0
    → IsReadTo fs at size byte out (returned at out fs)
nothing-IsReadTo fs at size byte out cache free none_left = (
  omega arith,
  (cache, free, (λ c f real h. h), (refl, refl)),
  λ o.
      let empty : (leb at o && ltb o (at + size)) ≡ false = ground (arith, none_left) in
      rw empty refl,
)

pub continue-IsReadTo :
    (fs : FileSystem) (at chunk size : ℕ) (f byte out : Buffer) (go : Buffer → FileSystem → Reading)
    (c : Copied)
    → IsCopied fs at 0 chunk f out c
    → ((out' : Buffer) (fs' : FileSystem)
        → IsNext fs fs'
        → ((o : ℕ) → out' o ≡ (if leb at o && ltb o (at + chunk) then f (0 + (o - at)) else out o))
        → IsReadTo fs at size byte out (go out' fs'))
    → IsReadTo fs at size byte out (continue go at out c)
continue-IsReadTo fs at chunk size f byte out go (missing fs') none_got step = absurd none_got
continue-IsReadTo fs at chunk size f byte out go stopped bad step = bad
continue-IsReadTo fs at chunk size f byte out go (copied out' fs') (next, copy) step =
    step out' fs' next copy

pub first-IsReadTo :
    (fs : FileSystem) (from chunk size : ℕ) (f byte out : Buffer)
    (go : Buffer → FileSystem → Reading) (c : Copied)
    → IsCopied fs 0 from chunk f out c
    → ((out' : Buffer) (fs' : FileSystem)
        → IsNext fs fs'
        → ((o : ℕ) → out' o ≡ (if leb 0 o && ltb o (0 + chunk) then f (from + (o - 0)) else out o))
        → IsReadTo fs 0 size byte out (go out' fs'))
    → IsReadTo fs 0 size byte out (continue_first go c)
first-IsReadTo fs from chunk size f byte out go (missing fs') none_got step = absurd none_got
first-IsReadTo fs from chunk size f byte out go stopped bad step = bad
first-IsReadTo fs from chunk size f byte out go (copied out' fs') (next, copy) step =
    step out' fs' next copy
