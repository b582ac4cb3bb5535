-- ===== src/Buffer/Read.antt =====
-- The operations that take bytes away, put bytes in front, or fill the buffer from a descriptor.
use second_gear.Common.{
  ℕ, ◌+◌, ◌-◌, ◌%◌, ◌^◌, ◌≤◌, ◌<◌, ◌≡◌, refl, sym, ap, ◌∙◌, ◌⊎◌, inl, inr, List, [], ◌++◌,
  append_assoc, Result, ok, err, assertion, length_error, arith, length, take, drop, leb, none,
  some, drop-drop, drop-take, take-append-drop, take_all, length-take, length-drop, Bool-cases,
  le→leb, leb→le, ◌>>=◌, false,
}
use second_gear.Common.Int.{pos, negsuc}
use second_gear.Buffer.{
  Buffer, failed, max_size, slice, copy_to, readable_bytes, writable_bytes, prependable_bytes,
  retrieve, retrieve_until, retrieve_all, retrieve_as_string, append, prepend, got, ReadFd, read_fd,
  extra_size,
}
use second_gear.Buffer.Spans.{length-slice, length-copy_to, slice-copy_to_before}
use second_gear.Buffer.Valid.{IsValid, contents, peeked-contents, retrieve_all-IsValid}
use second_gear.Buffer.Write.{
  room-Spacious, Appends, append-Appends, filled-Appends, has_written-eq,
}

-- What an operation that takes `len` bytes away does: it drops them, or its assertion fails.
abbrev pub Drops : Buffer → ℕ → Result Buffer → Type 0
Drops b len r =
    ((s : Buffer) × (r ≡ ok s)
      × IsValid s
      × (contents s ≡ drop len (contents b))
      × (len ≤ length (contents b))
      × (s.writer_index ≡ b.writer_index))
    ⊎ ((r ≡ err assertion) × (length (contents b) < len))

advanced_contents :
    (b : Buffer) (len : ℕ)
    → contents (record b { reader_index = b.reader_index + len }) ≡ drop len (contents b)
advanced_contents b len =
    ap (λ k. take k (drop (b.reader_index + len) b.bytes))
      {x = b.writer_index - (b.reader_index + len)} {y = b.writer_index - b.reader_index - len}
      (omega arith)
    ∙ ap (take (b.writer_index - b.reader_index - len)) (sym (drop-drop len b.reader_index b.bytes))
    ∙ sym (drop-take len (b.writer_index - b.reader_index) (drop b.reader_index b.bytes))

-- `retrieve` of a valid buffer either drops the first `len` readable bytes and leaves it valid, when
-- there are so many, or fails its assertion, when there are fewer.
pub retrieve-Drops : (b : Buffer) (len : ℕ) → IsValid b → Drops b len (retrieve b len)
unfolding retrieve
retrieve-Drops b len v = elim (Bool-cases (leb len (readable_bytes b))) [
  | inl h ↦ inl (
    record b { reader_index = b.reader_index + len },
    ground arith,
    ground arith,
    advanced_contents b len,
    omega (arith, count, leb→le len (readable_bytes b) h),
    refl,
  )
  | inr h ↦ inr (rw h, ground (arith, count))
]
  where
    count : length (contents b) ≡ b.writer_index - b.reader_index
    count = length-slice b.bytes b.reader_index b.writer_index v.in_vector

abbrev DropsUntil : Buffer → ℕ → Result Buffer → Type 0
DropsUntil b end r =
    ((s : Buffer) × (r ≡ ok s)
      × IsValid s
      × (contents s ≡ slice b.bytes end b.writer_index)
      × (b.reader_index ≤ end)
      × (end ≤ b.writer_index))
    ⊎ ((r ≡ err assertion) × ((end < b.reader_index) ⊎ (b.writer_index < end)))

retrieve_until-eq :
    (b : Buffer) (end : ℕ)
    → IsValid b
    → b.reader_index ≤ end
    → end ≤ b.writer_index
    → retrieve_until b end ≡ ok (record b { reader_index = end })
unfolding retrieve_until retrieve
retrieve_until-eq b end v low high = ground arith

-- `retrieveUntil` of a valid buffer either leaves what is readable from `end` on, when `end` lies
-- between the reader and the writer, or fails an assertion, when it does not.
retrieve_until-DropsUntil :
    (b : Buffer) (end : ℕ) → IsValid b → DropsUntil b end (retrieve_until b end)
unfolding retrieve_until
retrieve_until-DropsUntil b end v = elim (Bool-cases (leb b.reader_index end)) [
  | inr low ↦ inr (rw low, inl (ground arith))
  | inl low ↦ elim (Bool-cases (leb end b.writer_index)) [
    | inr high ↦ inr (rw (low, high), inr (ground arith))
    | inl high ↦ inl (
      record b { reader_index = end },
      retrieve_until-eq b end v (leb→le _ _ low) (leb→le _ _ high),
      ground arith,
      refl,
      leb→le _ _ low,
      leb→le _ _ high,
    )
  ]
]

-- `retrieveAsString` of a valid buffer returns every readable byte in order, and leaves the buffer
-- valid and empty.
retrieve_as_string_lem :
    (b : Buffer)
    → IsValid b
    → let (str, s) = retrieve_as_string b in (str ≡ contents b) × IsValid s × (contents s ≡ [])
unfolding retrieve_as_string retrieve_all
retrieve_as_string_lem b v = (peeked-contents v, retrieve_all-IsValid v, refl)

abbrev Prepends : Buffer → List ℕ → Result Buffer → Type 0
Prepends b str r =
    ((s : Buffer) × (r ≡ ok s)
      × IsValid s
      × (contents s ≡ str ++ contents b)
      × (s.writer_index ≡ b.writer_index))
    ⊎ ((r ≡ err assertion) × (prependable_bytes b < length str))

abbrev prepended : Buffer → List ℕ → Buffer
prepended b str = record b {
  bytes = copy_to b.bytes (b.reader_index - length str) str;
  reader_index = b.reader_index - length str;
}

prepended_lem :
    (b : Buffer) (str : List ℕ)
    → IsValid b
    → length str ≤ b.reader_index
    → IsValid (prepended b str) × (contents (prepended b str) ≡ str ++ contents b)
prepended_lem b str v h = (
  omega (arith, length-copy_to b.bytes (b.reader_index - length str) str (omega arith)),
  slice-copy_to_before b.bytes (b.reader_index - length str) b.writer_index str (omega arith)
        (omega arith)
      ∙ ap (λ k. str ++ slice b.bytes k b.writer_index)
          {x = b.reader_index - length str + length str} {y = b.reader_index} (omega arith),
)

prepend-eq :
    (b : Buffer) (str : List ℕ)
    → IsValid b
    → length str ≤ b.reader_index
    → prepend b str ≡ ok (prepended b str)
unfolding prepend
prepend-eq b str v h = rw (le→leb (length str) b.reader_index h, start)
  where
    start : (b.reader_index + 2 ^ 64 - length str) % 2 ^ 64 ≡ b.reader_index - length str
    start = omega arith

-- `prepend` to a valid buffer either puts the string in front of the contents and leaves the buffer
-- valid, or fails its assertion, when the string is longer than the prependable space.
prepend-Prepends : (b : Buffer) (str : List ℕ) → IsValid b → Prepends b str (prepend b str)
unfolding prepend
prepend-Prepends b str v = elim (Bool-cases (leb (length str) b.reader_index)) [
  | inl h ↦ inl (
    prepended b str,
    prepend-eq b str v (leb→le _ _ h),
    (prepended_lem b str v (leb→le _ _ h)).0,
    (prepended_lem b str v (leb→le _ _ h)).1,
    refl,
  )
  | inr h ↦ inr (rw h, ground arith)
]

-- What `readFd` does of the bytes that the system call read: they come behind those that are
-- there, `n` counts them and `*savedErrno` is not written; or the vector is too small.
abbrev pub Reads : Buffer → List ℕ → Result ReadFd → Type 0
Reads b str r =
    ((s : Buffer) × (r ≡ ok (record { buffer = s; n = pos (length str); saved_errno = none }))
      × IsValid s
      × (contents s ≡ contents b ++ str)
      × (s.writer_index ≤ b.writer_index + length str))
    ⊎ ((r ≡ err length_error) × (max_size < b.writer_index + length str))

fits-Reads :
    (b : Buffer) (str : List ℕ)
    → IsValid b
    → length str ≤ writable_bytes b
    → Reads b str (read_fd b (got str))
unfolding read_fd
fits-Reads b str v h = inl (
  record b {
    bytes = copy_to b.bytes b.writer_index str;
    writer_index = b.writer_index + length str;
  },
  rw (take_all (writable_bytes b) str h, le→leb (length str) (writable_bytes b) h)
      (ap (λ s. ok (record { buffer = s; n = pos (length str); saved_errno = none }))
        (has_written-eq _ (length str) (omega arith))),
  (filled-Appends b b str (room-Spacious b (length str) v h)).0,
  (filled-Appends b b str (room-Spacious b (length str) v h)).1,
  omega arith,
)

module _ (b : Buffer) (str : List ℕ) (v : IsValid b) (h : writable_bytes b < length str)
    (small : length str ≤ writable_bytes b + extra_size) where
  abbrev front : List ℕ
  front = take (writable_bytes b) str

  abbrev rest : List ℕ
  rest = drop (writable_bytes b) str

  -- The buffer when its vector is full, before `append` of the rest.
  abbrev full : Buffer
  full = record b {
    bytes = copy_to b.bytes b.writer_index front;
    writer_index = b.writer_index + length front;
  }

  length-front : length front ≡ length b.bytes - b.writer_index
  length-front = omega (arith, length-take (writable_bytes b) str)

  length-rest : b.writer_index + length front + length rest ≡ b.writer_index + length str
  length-rest = omega (arith, length-front, length-drop (writable_bytes b) str)

  full_lem : IsValid full × (contents full ≡ contents b ++ front)
  full_lem =
      filled-Appends b b front (room-Spacious b (length front) v (omega (arith, length-front)))

  length-full : length full.bytes ≡ b.writer_index + length front
  length-full =
      length-copy_to b.bytes b.writer_index front (omega (arith, length-front))
      ∙ omega (arith, length-front)

  appended-Reads :
      (r : Result Buffer)
      → Appends full rest r
      → Reads b str
          (r >>= λ s. ok (record { buffer = s; n = pos (length str); saved_errno = none }))
  appended-Reads r (inl (s, e, valid, content, low)) = inl (
    s,
    rw e,
    valid,
    content
        ∙ ap (λ l. l ++ rest) full_lem.1
        ∙ append_assoc (contents b) front rest
        ∙ ap (◌++◌ (contents b)) (take-append-drop (writable_bytes b) str),
    omega (arith, length-rest),
  )
  appended-Reads r (inr (e, over)) = inr (rw e, omega (arith, length-rest))

  spills-Reads : Reads b str (read_fd b (got str))
  unfolding read_fd
  spills-Reads =
      rw (more, length-full)
        (appended-Reads (append full rest)
          (append-Appends full rest full_lem.0 (omega (arith, length-rest, length-front))))
    where
      more : leb (length str) (writable_bytes b) ≡ false
      more = ground arith

-- `readFd` of a valid buffer, when `readv` has read no more than the two regions that it was given
-- hold: no assertion fails. Either the bytes read come behind the contents in order, whether or not
-- they spilled into the extra region, `n` is their number, `*savedErrno` is not written and the buffer
-- is valid; or it throws `length_error`, and the writer and `n` exceed the maximum of a vector.
pub read_fd-Reads :
    (b : Buffer) (str : List ℕ)
    → IsValid b
    → length str ≤ writable_bytes b + extra_size
    → Reads b str (read_fd b (got str))
read_fd-Reads b str v small = elim (Bool-cases (leb (length str) (writable_bytes b))) [
  | inl fits ↦ fits-Reads b str v (leb→le _ _ fits)
  | inr more ↦ spills-Reads b str v (ground arith) small
]

-- A failed read leaves the buffer as it is, with -1 and the error.
pub read_fd-failed :
    (b : Buffer) (errno : ℕ)
    → read_fd b (failed errno) ≡ ok (record { buffer = b; n = negsuc 0; saved_errno = some errno })
unfolding read_fd
read_fd-failed b errno = refl
