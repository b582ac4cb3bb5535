-- ===== src/Buffer/Write.antt =====
-- The operations that make room and add bytes.
use second_gear.Common.{
  ℕ, ◌+◌, ◌-◌, ◌%◌, ◌^◌, ◌≤◌, ◌<◌, ◌≡◌, refl, sym, ap, ◌∙◌, ◌⊎◌, inl, inr, List, ◌++◌, Result, ok,
  err, length_error, arith, length, take, replicate, ltb, leb, length-append, length-replicate,
  length-take, Bool-cases, lt→ltb, le→ltb, le→leb, ltb→lt, assert, ◌>>=◌,
}
use second_gear.Buffer.{
  Buffer, cheap_prepend, max_size, slice, copy_to, writable_bytes, prependable_bytes, add_size,
  compact, grow, make_space, ensure_writable_bytes, append, has_written,
}
use second_gear.Common.{if◌then◌else◌, ◌>>◌}
use second_gear.Buffer.Spans.{
  length-slice, length-copy_to, slice-copy_to_after, slice-copy_to_self, slice-resize,
}
use second_gear.Buffer.Valid.{IsValid, contents}

-- `s` is `b` with room for `len` bytes: the same contents, and no further in the vector.
pub record Spacious (b : Buffer) (len : ℕ) (s : Buffer) : Type 0 where
  pub valid : IsValid s
  pub room : s.writer_index + len ≤ length s.bytes
  pub same : contents s ≡ contents b
  pub lower : s.writer_index ≤ b.writer_index

abbrev grown : Buffer → ℕ → Buffer
grown b len = record b {
  bytes =
      take (b.writer_index + len) b.bytes ++ replicate (b.writer_index + len - length b.bytes) 0;
}

length-grown :
    (b : Buffer) (len : ℕ)
    → length b.bytes ≤ b.writer_index + len
    → length (grown b len).bytes ≡ b.writer_index + len
length-grown b len h = omega (
  arith,
  length-append (take (b.writer_index + len) b.bytes)
      (replicate (b.writer_index + len - length b.bytes) 0),
  length-replicate {0} {A = ℕ} (b.writer_index + len - length b.bytes) 0,
  length-take (b.writer_index + len) b.bytes,
)

grown-Spacious :
    (b : Buffer) (len : ℕ)
    → IsValid b
    → length b.bytes ≤ b.writer_index + len
    → b.writer_index + len ≤ max_size
    → Spacious b len (grown b len)
grown-Spacious b len v h fits = record {
  valid = omega (arith, length-grown b len h);
  room = omega (arith, length-grown b len h);
  same =
      slice-resize b.bytes (replicate (b.writer_index + len - length b.bytes) 0) b.reader_index
        b.writer_index (b.writer_index + len) v.ordered v.in_vector h;
  lower = omega arith;
}

grow-eq : (b : Buffer) (len : ℕ) → b.writer_index + len ≤ max_size → grow b len ≡ ok (grown b len)
unfolding grow
grow-eq b len fits = rw (no_wrap, le→ltb max_size (b.writer_index + len) fits)
  where
    no_wrap : (b.writer_index + len) % 2 ^ 64 ≡ b.writer_index + len
    no_wrap = omega arith

grow-eq_err :
    (b : Buffer) (len : ℕ)
    → len ≤ max_size
    → IsValid b
    → max_size < b.writer_index + len
    → grow b len ≡ err length_error
unfolding grow
grow-eq_err b len small v over = rw (no_wrap, lt→ltb max_size (b.writer_index + len) over)
  where
    no_wrap : (b.writer_index + len) % 2 ^ 64 ≡ b.writer_index + len
    no_wrap = omega arith

abbrev compacted : Buffer → Buffer
compacted b = record {
  bytes = copy_to b.bytes cheap_prepend (contents b);
  reader_index = cheap_prepend;
  writer_index = cheap_prepend + (b.writer_index - b.reader_index);
}

compacted-Spacious :
    (b : Buffer) (len : ℕ)
    → IsValid b
    → b.writer_index + len + cheap_prepend ≤ length b.bytes + b.reader_index
    → cheap_prepend < b.reader_index
    → Spacious b len (compacted b)
compacted-Spacious b len v h low = record {
  valid = omega (arith, size, count);
  room = omega (arith, size, count);
  same =
      ap (slice (compacted b).bytes cheap_prepend) (sym (ap (◌+◌ cheap_prepend) count))
      ∙ slice-copy_to_self b.bytes cheap_prepend (contents b) (omega arith);
  lower = omega arith;
}
  where
    count : length (contents b) ≡ b.writer_index - b.reader_index
    count = length-slice b.bytes b.reader_index b.writer_index v.in_vector

    size : length (compacted b).bytes ≡ length b.bytes
    size = length-copy_to b.bytes cheap_prepend (contents b) (omega (arith, count))

compact-eq :
    (b : Buffer) → IsValid b → cheap_prepend < b.reader_index → compact b ≡ ok (compacted b)
unfolding compact
compact-eq b v low = ground arith

-- What an operation that makes room for `len` bytes does: it succeeds, or the vector would have to
-- grow beyond its maximum.
abbrev pub Makes : Buffer → ℕ → Result Buffer → Type 0
Makes b len r =
    ((s : Buffer) × (r ≡ ok s) × Spacious b len s)
    ⊎ ((r ≡ err length_error) × (max_size < b.writer_index + len))

grow-Makes :
    (b : Buffer) (len : ℕ)
    → IsValid b
    → len ≤ max_size
    → length b.bytes ≤ b.writer_index + len
    → Makes b len (grow b len)
grow-Makes b len v small h = elim (Bool-cases (ltb max_size (b.writer_index + len))) [
  | inl over ↦ inr (grow-eq_err b len small v (ltb→lt _ _ over), ltb→lt _ _ over)
  | inr fits ↦
      inl (grown b len, grow-eq b len (ground arith), grown-Spacious b len v h (ground arith))
]

make_space-Makes :
    (b : Buffer) (len : ℕ)
    → IsValid b
    → len ≤ max_size
    → writable_bytes b < len
    → Makes b len (make_space b len)
unfolding make_space
make_space-Makes b len v small full =
    elim (Bool-cases
      (ltb (add_size (writable_bytes b) (prependable_bytes b)) (add_size len cheap_prepend))) [
        | inl more ↦ rw more (grow-Makes b len v small (omega arith))
        | inr enough ↦ rw enough (
            inl (
              compacted b,
              compact-eq b v (ground arith),
              compacted-Spacious b len v (ground arith) (ground arith),
            ))
      ]

-- The last assertion of `ensureWritableBytes` holds.
checked-Makes :
    (b : Buffer) (len : ℕ) (r : Result Buffer)
    → Makes b len r
    → Makes b len (r >>= λ s. assert (leb len (writable_bytes s)) >> ok s)
checked-Makes b len r (inl (s, e, sp)) =
    inl (s, rw (e, le→leb len (writable_bytes s) (omega arith)), sp)
checked-Makes b len r (inr (e, over)) = inr (rw e, over)

pub room-Spacious : (b : Buffer) (len : ℕ) → IsValid b → len ≤ writable_bytes b → Spacious b len b
room-Spacious b len v h = record { valid = v; room = omega arith; same = refl; lower = omega arith }

-- `ensureWritableBytes` of a valid buffer, for any `len` up to the maximum of a vector: no assertion
-- fails. Either the result is valid, has room for `len` bytes, the same contents, and a writer no
-- further in the vector; or it throws `length_error`, and the writer and `len` exceed the maximum.
ensure_writable_bytes-Makes :
    (b : Buffer) (len : ℕ) → IsValid b → len ≤ max_size → Makes b len (ensure_writable_bytes b len)
unfolding ensure_writable_bytes
ensure_writable_bytes-Makes b len v small = checked-Makes b len _ chosen
  where
    chosen : Makes b len (if ltb (writable_bytes b) len then make_space b len else ok b)
    chosen = elim (Bool-cases (ltb (writable_bytes b) len)) [
      | inl full ↦ rw full (make_space-Makes b len v small (ltb→lt _ _ full))
      | inr room ↦ rw room (inl (b, refl, room-Spacious b len v (ground arith)))
    ]

-- What `append` does of `str`: the bytes come behind those that are there, or the vector would have
-- to grow beyond its maximum.
abbrev pub Appends : Buffer → List ℕ → Result Buffer → Type 0
Appends b str r =
    ((s : Buffer) × (r ≡ ok s)
      × IsValid s
      × (contents s ≡ contents b ++ str)
      × (s.writer_index ≤ b.writer_index + length str))
    ⊎ ((r ≡ err length_error) × (max_size < b.writer_index + length str))

pub filled-Appends :
    (b s : Buffer) (str : List ℕ)
    → Spacious b (length str) s
    → let t = record s {
      bytes = copy_to s.bytes s.writer_index str;
      writer_index = s.writer_index + length str;
    } in
      IsValid t × (contents t ≡ contents b ++ str)
filled-Appends b s str sp = (
  omega (arith, length-copy_to s.bytes s.writer_index str sp.room),
  slice-copy_to_after s.bytes s.reader_index s.writer_index str sp.valid.ordered sp.valid.in_vector
      ∙ ap (λ l. l ++ str) sp.same,
)

pub has_written-eq :
    (b : Buffer) (len : ℕ)
    → b.writer_index + len ≤ max_size
    → has_written b len ≡ record b { writer_index = b.writer_index + len }
unfolding has_written
has_written-eq b len h = ground arith

-- `append` to a valid buffer, of any string up to the maximum of a vector: no assertion fails. Either
-- the result is valid and holds the old contents and then the string, with the writer no further on
-- than the string is long; or it throws `length_error`, and the writer and the length of the string
-- exceed the maximum.
pub append-Appends :
    (b : Buffer) (str : List ℕ) → IsValid b → length str ≤ max_size → Appends b str (append b str)
unfolding append
append-Appends b str v small = elim (ensure_writable_bytes-Makes b (length str) v small) [
  | inr (e, over) ↦ inr (rw e, over)
  | inl (s, e, sp) ↦ inl (
    record s {
      bytes = copy_to s.bytes s.writer_index str;
      writer_index = s.writer_index + length str;
    },
    rw e (ap ok (has_written-eq _ (length str) (omega arith))),
    (filled-Appends b s str sp).0,
    (filled-Appends b s str sp).1,
    omega arith,
  )
]
