-- ===== src/Buffer.antt =====
-- Buffer.h and Buffer.cpp: the byte buffer of a connection, prependable | readable | writable.
-- A `char*` into the vector is its index; `size_t` arithmetic wraps at 2 ^ 64; `std::vector` throws
-- `std::length_error` above `max_size`. What `readv` did is an argument of `read_fd`.
mod Spans
pub mod Valid
pub mod Write
pub mod Read
pub mod Fifo
pub mod Shrink
mod Tests
use second_gear.Common.{
  ℕ, ◌+◌, ◌-◌, ◌%◌, ◌^◌, Bool, List, ◌++◌, Option, none, some, Result, ok, err, length_error, ◌>>=◌,
  ◌>>◌, assert, ltb, leb, ◌==◌, if◌then◌else◌, length, take, drop, replicate,
}
use second_gear.Common.Int.{ℤ, pos, negsuc}

pub record Buffer : Type 0 where
  pub bytes : List ℕ  -- buffer_
  pub reader_index : ℕ
  pub writer_index : ℕ

abbrev pub cheap_prepend : ℕ
cheap_prepend = 8

abbrev pub initial_size : ℕ
initial_size = 1024

-- `size_t` addition and subtraction
abbrev pub add_size : ℕ → ℕ → ℕ
add_size a b = (a + b) % 2 ^ 64

abbrev pub sub_size : ℕ → ℕ → ℕ
sub_size a b = (a + 2 ^ 64 - b) % 2 ^ 64

-- `std::vector<char>::max_size()`, and that of `std::string`
abbrev pub max_size : ℕ
max_size = 2 ^ 63 - 1

-- `[bs + i, bs + j)`
abbrev pub slice : List ℕ → ℕ → ℕ → List ℕ
slice bs i j = take (j - i) (drop i bs)

-- `std::copy` of `src` to `bs + i`
abbrev pub copy_to : List ℕ → ℕ → List ℕ → List ℕ
copy_to bs i src = take i bs ++ (src ++ drop (i + length src) bs)

-- `std::vector(n)`
abbrev pub new_vector : ℕ → Result (List ℕ)
new_vector n = if ltb max_size n then err length_error else ok (replicate n 0)

-- `std::vector::resize`
abbrev pub resize : List ℕ → ℕ → Result (List ℕ)
resize bs n =
    if ltb max_size n then err length_error else ok (take n bs ++ replicate (n - length bs) 0)

abbrev pub readable_bytes : Buffer → ℕ
readable_bytes b = sub_size b.writer_index b.reader_index

abbrev pub writable_bytes : Buffer → ℕ
writable_bytes b = sub_size (length b.bytes) b.writer_index

abbrev pub prependable_bytes : Buffer → ℕ
prependable_bytes b = b.reader_index

-- The indices that `peek()` and `beginWrite()` point to.
abbrev pub peek : Buffer → ℕ
peek b = b.reader_index

abbrev pub begin_write : Buffer → ℕ
begin_write b = b.writer_index

-- `Buffer()`, with the assertions of its body.
pub create : Result Buffer
create = do
  bs ← new_vector (cheap_prepend + initial_size)
  let b : Buffer = record { bytes = bs; reader_index = cheap_prepend; writer_index = cheap_prepend }
  assert (readable_bytes b == 0)
  assert (writable_bytes b == initial_size)
  assert (prependable_bytes b == cheap_prepend)
  ok b

pub swap : Buffer → Buffer → Buffer × Buffer
swap lhs rhs = (
  record { bytes = rhs.bytes; reader_index = rhs.reader_index; writer_index = rhs.writer_index },
  record { bytes = lhs.bytes; reader_index = lhs.reader_index; writer_index = lhs.writer_index },
)

pub retrieve : Buffer → ℕ → Result Buffer
retrieve b len = do
  assert (leb len (readable_bytes b))
  ok (record b { reader_index = add_size b.reader_index len })

pub retrieve_until : Buffer → ℕ → Result Buffer
retrieve_until b end = do
  assert (leb (peek b) end)
  assert (leb end (begin_write b))
  retrieve b (sub_size end (peek b))

unfoldable pub retrieve_all : Buffer → Buffer
retrieve_all b = record b { reader_index = cheap_prepend; writer_index = cheap_prepend }

-- `std::string(peek(), readableBytes())`
pub peeked : Buffer → List ℕ
peeked b = take (readable_bytes b) (drop (peek b) b.bytes)

pub retrieve_as_string : Buffer → List ℕ × Buffer
retrieve_as_string b = (peeked b, retrieve_all b)

pub has_written : Buffer → ℕ → Buffer
has_written b len = record b { writer_index = add_size b.writer_index len }

-- Move the readable bytes to the front. `std::copy` reads ahead of where it writes, since the
-- assertion puts `kCheapPrepend` below `readerIndex_`.
compact : Buffer → Result Buffer
compact b = do
  assert (ltb cheap_prepend b.reader_index)
  let readable = readable_bytes b
  let moved : Buffer = record {
    bytes = copy_to b.bytes cheap_prepend (slice b.bytes b.reader_index b.writer_index);
    reader_index = cheap_prepend;
    writer_index = add_size cheap_prepend readable;
  }
  assert (readable == readable_bytes moved)
  ok moved

grow : Buffer → ℕ → Result Buffer
grow b len = do bs ← resize b.bytes (add_size b.writer_index len); ok (record b { bytes = bs })

pub make_space : Buffer → ℕ → Result Buffer
make_space b len =
    if ltb (add_size (writable_bytes b) (prependable_bytes b)) (add_size len cheap_prepend)
    then grow b len
    else compact b

pub ensure_writable_bytes : Buffer → ℕ → Result Buffer
ensure_writable_bytes b len = do
  spacious ← if ltb (writable_bytes b) len then make_space b len else ok b
  assert (leb len (writable_bytes spacious))
  ok spacious

pub append : Buffer → List ℕ → Result Buffer
append b str = do
  spacious ← ensure_writable_bytes b (length str)
  let filled = record spacious { bytes = copy_to spacious.bytes (begin_write spacious) str }
  ok (has_written filled (length str))

pub prepend : Buffer → List ℕ → Result Buffer
prepend b str = do
  assert (leb (length str) (prependable_bytes b))
  let start = sub_size b.reader_index (length str)
  ok (record b { bytes = copy_to b.bytes start str; reader_index = start })

-- As in the source, the indices stay as they are.
pub shrink : Buffer → ℕ → Result Buffer
shrink b reserve = do
  buf ← new_vector (add_size (add_size cheap_prepend (readable_bytes b)) reserve)
  ok (record b { bytes = copy_to buf cheap_prepend (peeked b) })

-- What a system call that reads returns: -1 with `errno`, or the bytes that it read.
pub data ReadResult : Type 0 where
  failed : (errno : ℕ) → ReadResult
  got : List ℕ → ReadResult

abbrev pub extra_size : ℕ
extra_size = 65536

-- What `Buffer::readFd` leaves: the buffer, `n`, and `*savedErrno` if it was written.
pub record ReadFd : Type 0 where
  pub buffer : Buffer
  pub n : ℤ
  pub saved_errno : Option ℕ

-- `readv` fills the writable part first and `extrabuf` with the rest.
pub read_fd : Buffer → ReadResult → Result ReadFd
read_fd b (failed errno) = ok (record { buffer = b; n = negsuc 0; saved_errno = some errno })
read_fd b (got str) = do
  let writable = writable_bytes b
  let filled = record b { bytes = copy_to b.bytes (begin_write b) (take writable str) }
  read ←
      if leb (length str) writable
      then ok (has_written filled (length str))
      else append (record filled { writer_index = length filled.bytes }) (drop writable str)
  ok (record { buffer = read; n = pos (length str); saved_errno = none })
