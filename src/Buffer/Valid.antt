-- ===== src/Buffer/Valid.antt =====
-- The representation invariant of a buffer, and the bytes that it holds.
use second_gear.Common.{
  ℕ, ◌+◌, ◌-◌, ◌≤◌, ◌≡◌, refl, ap, List, ok, arith, length, take, drop, replicate,
}
use second_gear.Buffer.{
  Buffer, cheap_prepend, initial_size, max_size, slice, readable_bytes, writable_bytes,
  prependable_bytes, peeked, create, retrieve_all,
}
use second_gear.Buffer.Spans.{length-slice}

-- `readerIndex <= writerIndex <= size` of the class comment. Only `prepend` moves the reader below
-- `kCheapPrepend`, and nothing moves the writer there.
pub record IsValid (b : Buffer) : Type 0 where
  pub ordered : b.reader_index ≤ b.writer_index
  pub in_vector : b.writer_index ≤ length b.bytes
  pub cheap : cheap_prepend ≤ b.writer_index
  pub bounded : length b.bytes ≤ max_size

-- The readable bytes: what a client may see of a buffer.
abbrev pub contents : Buffer → List ℕ
contents b = slice b.bytes b.reader_index b.writer_index

-- The three sizes do not wrap, and add up to the vector's.
pub sizes_lem :
    {b : Buffer}
    → IsValid b
    → (readable_bytes b ≡ length (contents b))
      × (prependable_bytes b + readable_bytes b + writable_bytes b ≡ length b.bytes)
sizes_lem {b} v =
    (omega (arith, length-slice b.bytes b.reader_index b.writer_index v.in_vector), omega arith)

pub readable_bytes-eq :
    {b : Buffer} → IsValid b → readable_bytes b ≡ b.writer_index - b.reader_index
readable_bytes-eq v = omega arith

pub peeked-contents : {b : Buffer} → IsValid b → peeked b ≡ contents b
unfolding peeked
peeked-contents {b} v = ap (λ k. take k (drop b.reader_index b.bytes)) (readable_bytes-eq v)

abbrev pub fresh : Buffer
fresh = record {
  bytes = replicate (cheap_prepend + initial_size) 0;
  reader_index = cheap_prepend;
  writer_index = cheap_prepend;
}

pub fresh-IsValid : IsValid fresh
fresh-IsValid = omega arith

-- No assertion of the constructor fails.
pub create-eq : create ≡ ok fresh
unfolding create
create-eq = refl

pub retrieve_all-IsValid : {b : Buffer} → IsValid b → IsValid (retrieve_all b)
unfolding retrieve_all
retrieve_all-IsValid v = omega arith
