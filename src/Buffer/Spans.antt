-- ===== src/Buffer/Spans.antt =====
-- Regions of a byte vector: reading one after writing another.
use second_gear.Common.{
  ℕ, ◌+◌, ◌-◌, ◌≤◌, ◌≡◌, ap, ◌∙◌, List, ◌++◌, arith, length, take, drop, length-append, length-take,
  length-drop, take_all, drop-take, take-append_le, drop-append_le, take-append_add,
  drop-append_add,
}
use second_gear.Buffer.{slice, copy_to}

pub length-slice : (bs : List ℕ) (i j : ℕ) → j ≤ length bs → length (slice bs i j) ≡ j - i
length-slice bs i j h = omega (arith, length-take (j - i) (drop i bs), length-drop i bs)

pub length-copy_to :
    (bs : List ℕ) (i : ℕ) (src : List ℕ)
    → i + length src ≤ length bs
    → length (copy_to bs i src) ≡ length bs
length-copy_to bs i src h = omega (
  arith,
  length-append (take i bs) (src ++ drop (i + length src) bs),
  length-append src (drop (i + length src) bs),
  length-take i bs,
  length-drop (i + length src) bs,
)

-- What is in front of the written region and ends where it begins, with the region.
pub slice-copy_to_after :
    (bs : List ℕ) (i j : ℕ) (src : List ℕ)
    → i ≤ j
    → j ≤ length bs
    → slice (copy_to bs j src) i (j + length src) ≡ slice bs i j ++ src
slice-copy_to_after bs i j src le h =
    ap (take (j + length src - i))
      (drop-append_le i (take j bs) rest short ∙ ap (λ l. l ++ rest) (drop-take i j bs))
    ∙ take-append_add (j + length src - i) (length src) (slice bs i j) rest
        (omega (arith, length-slice bs i j h))
    ∙ ap (◌++◌ (slice bs i j))
        (take-append_le (length src) src _ (omega arith) ∙ take_all (length src) src (omega arith))
  where
    rest : List ℕ
    rest = src ++ drop (j + length src) bs

    short : i ≤ length (take j bs)
    short = omega (arith, length-take j bs)

-- The written region itself.
pub slice-copy_to_self :
    (bs : List ℕ) (i : ℕ) (src : List ℕ)
    → i ≤ length bs
    → slice (copy_to bs i src) i (i + length src) ≡ src
slice-copy_to_self bs i src h =
    slice-copy_to_after bs i i src (omega arith) h
    ∙ ap (λ k. take k (drop i bs) ++ src) {x = i - i} {y = 0} (omega arith)

-- The written region, with what follows it.
pub slice-copy_to_before :
    (bs : List ℕ) (i j : ℕ) (src : List ℕ)
    → i + length src ≤ j
    → i ≤ length bs
    → slice (copy_to bs i src) i j ≡ src ++ slice bs (i + length src) j
slice-copy_to_before bs i j src le h =
    ap (take (j - i)) (drop-append_add i 0 (take i bs) rest (omega (arith, length-take i bs)))
    ∙ take-append_add (j - i) (j - (i + length src)) src (drop (i + length src) bs) (omega arith)
  where
    rest : List ℕ
    rest = src ++ drop (i + length src) bs

-- `resize` to at least `j` bytes keeps what ends at `j`.
pub slice-resize :
    (bs zs : List ℕ) (i j n : ℕ)
    → i ≤ j
    → j ≤ length bs
    → length bs ≤ n
    → slice (take n bs ++ zs) i j ≡ slice bs i j
slice-resize bs zs i j n le h g =
    ap (λ l. take (j - i) (drop i (l ++ zs))) (take_all n bs g)
    ∙ ap (take (j - i)) (drop-append_le i bs zs (omega arith))
    ∙ take-append_le (j - i) (drop i bs) zs (omega (arith, length-drop i bs))
