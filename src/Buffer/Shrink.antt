-- ===== src/Buffer/Shrink.antt =====
-- `shrink`, which copies the readable bytes to a new vector and keeps the old indices.
use second_gear.Common.{
  ℕ, zero, suc, ap₂, take-replicate, ◌+◌, ◌-◌, ◌≤◌, ◌≡◌, ◌↔◌, sym, ap, ◌∙◌, ◌++◌, ok, arith, length,
  take, drop, replicate, le→ltb, length-drop, length-replicate, take-append_add, drop-append_add,
  drop-append_le, take-append_le, take_all, min,
}
use second_gear.Buffer.{
  Buffer, cheap_prepend, max_size, copy_to, readable_bytes, shrink, add_size, writable_bytes,
}
use second_gear.Buffer.Spans.{length-slice, length-copy_to}
use second_gear.Buffer.Valid.{IsValid, contents, peeked-contents}

drop-replicate : (m n : ℕ) → drop m (replicate {A = ℕ} n 0) ≡ replicate (n - m) 0
drop-replicate zero n = ap (λ k. replicate k 0) {x = n} (omega arith)
drop-replicate (suc m) zero = ap (λ k. replicate k 0) {x = 0} {y = 0 - suc m} (omega arith)
drop-replicate (suc m) (suc n) =
    drop-replicate m n ∙ ap (λ k. replicate k 0) {x = n - m} (omega arith)

abbrev shrunk : Buffer → ℕ → Buffer
shrunk b reserve = record b {
  bytes =
      copy_to (replicate (cheap_prepend + length (contents b) + reserve) 0) cheap_prepend
        (contents b);
}

module _ (b : Buffer) (reserve : ℕ) (v : IsValid b)
    (fits : cheap_prepend + length (contents b) + reserve ≤ max_size) where
  shrink-eq : shrink b reserve ≡ ok (shrunk b reserve)
  unfolding shrink
  shrink-eq = rw (size, le→ltb max_size _ fits, peeked-contents v)
    where
      size :
          add_size (add_size cheap_prepend (readable_bytes b)) reserve
          ≡ cheap_prepend + length (contents b) + reserve
      size = omega (arith, length-slice b.bytes b.reader_index b.writer_index v.in_vector)

  bytes-shrunk :
      (shrunk b reserve).bytes ≡ replicate cheap_prepend 0 ++ (contents b ++ replicate reserve 0)
  bytes-shrunk =
      ap₂ ◌++◌
        (take-replicate cheap_prepend (cheap_prepend + length (contents b) + reserve) 0
          ∙ ap (λ k. replicate k 0)
              {x = min cheap_prepend (cheap_prepend + length (contents b) + reserve)}
              {y = cheap_prepend} (omega arith))
        (ap (◌++◌ (contents b)) (
          drop-replicate (cheap_prepend + length (contents b))
            (cheap_prepend + length (contents b) + reserve)
          ∙ ap (λ k. replicate k 0)
              {x = cheap_prepend
                + length (contents b)
                + reserve
                - (cheap_prepend + length (contents b))}
              {y = reserve} (omega arith)))

  length-shrunk : length (shrunk b reserve).bytes ≡ cheap_prepend + length (contents b) + reserve
  length-shrunk =
      length-copy_to (replicate (cheap_prepend + length (contents b) + reserve) 0) cheap_prepend
        (contents b) (omega (arith, count))
      ∙ count
    where
      count :
          length (replicate {A = ℕ} (cheap_prepend + length (contents b) + reserve) 0)
          ≡ cheap_prepend + length (contents b) + reserve
      count = length-replicate (cheap_prepend + length (contents b) + reserve) 0

  count : length (contents b) ≡ b.writer_index - b.reader_index
  count = length-slice b.bytes b.reader_index b.writer_index v.in_vector

  contents-shrunk :
      (k : ℕ)
      → b.reader_index ≡ cheap_prepend + k
      → contents (shrunk b reserve)
        ≡ take (length (contents b)) (drop k (contents b ++ replicate reserve 0))
  contents-shrunk k e =
      ap (λ l. take (b.writer_index - b.reader_index) (drop b.reader_index l)) bytes-shrunk
      ∙ ap (take (b.writer_index - b.reader_index)) (
          drop-append_add b.reader_index k (replicate cheap_prepend 0)
            (contents b ++ replicate reserve 0) e)
      ∙ ap (λ n. take n (drop k (contents b ++ replicate reserve 0))) (sym count)

  -- With the reader where the constructor puts it, and a new vector within the maximum, `shrink` of a
  -- valid buffer succeeds, keeps it valid with the same contents, and leaves room for exactly
  -- `reserve` bytes.
  shrink_unread :
      b.reader_index ≡ cheap_prepend
      → (s : Buffer) × (shrink b reserve ≡ ok s)
        × IsValid s
        × (contents s ≡ contents b)
        × (writable_bytes s ≡ reserve)
  shrink_unread e = (
    shrunk b reserve,
    shrink-eq,
    omega (arith, length-shrunk, count),
    contents-shrunk 0 (omega arith)
        ∙ take-append_le (length (contents b)) (contents b) (replicate reserve 0) (omega arith)
        ∙ take_all (length (contents b)) (contents b) (omega arith),
    omega (arith, length-shrunk, count),
  )

  -- With the reader `k` bytes further on, `k` at most the number of readable bytes, and a new vector
  -- within the maximum, `shrink` of a valid buffer succeeds but drops the first `k` readable bytes,
  -- and makes `k` zero bytes readable in their place, or as many as the reserve has. The result is
  -- valid exactly when `k` is at most the reserve.
  pub shrink_read :
      (k : ℕ)
      → b.reader_index ≡ cheap_prepend + k
      → k ≤ length (contents b)
      → (s : Buffer) × (shrink b reserve ≡ ok s)
        × (contents s ≡ drop k (contents b) ++ replicate (min k reserve) 0)
        × (IsValid s ↔ (k ≤ reserve))
  shrink_read k e low = (
    shrunk b reserve,
    shrink-eq,
    contents-shrunk k e
        ∙ ap (take (length (contents b))) (drop-append_le k (contents b) (replicate reserve 0) low)
        ∙ take-append_add (length (contents b)) k (drop k (contents b)) (replicate reserve 0)
            (omega (arith, length-drop k (contents b)))
        ∙ ap (◌++◌ (drop k (contents b))) (take-replicate k reserve 0),
    (
      λ w. omega (arith, w.in_vector, length-shrunk, count),
      λ h. omega (arith, length-shrunk, count),
    ),
  )
