-- ===== src/Buffer/Tests.antt =====
-- Runs of the buffer, and the theorems at concrete buffers.
use second_gear.Common.{List, ◌+◌, ◌≤◌, ◌≡◌, ◌↔◌, refl, [], ◌∷◌, ok, err, assertion, arith, length}
use second_gear.Buffer.{
  Buffer, append, ensure_writable_bytes, retrieve, retrieve_as_string, make_space, compact, grow,
  has_written, peeked, retrieve_all, read_fd, got, shrink,
}
use second_gear.Buffer.Valid.{IsValid, contents, sizes_lem}
use second_gear.Buffer.Write.{Appends, append-Appends}
use second_gear.Buffer.Read.{Reads, read_fd-Reads}
use second_gear.Buffer.Fifo.{
  Op, puts, fills, drops, takes, done, text, fault, step, Fits, run, spec_run, run_refines,
}
use second_gear.Buffer.Shrink.{shrink_read}

-- Twelve bytes, of which 5, 6 and 7 are readable; one has been read.
abbrev used : Buffer
used = record {
  bytes = 0 ∷ 0 ∷ 0 ∷ 0 ∷ 0 ∷ 0 ∷ 0 ∷ 0 ∷ 4 ∷ 5 ∷ 6 ∷ 7 ∷ [];
  reader_index = 9;
  writer_index = 12;
}

used-IsValid : IsValid used
used-IsValid = omega arith

abbrev unread : Buffer
unread = record used { reader_index = 8 }

unread-IsValid : IsValid unread
unread-IsValid = omega arith

contents-used : contents used ≡ 5 ∷ 6 ∷ 7 ∷ []
contents-used = refl

-- One byte fits after the readable bytes have moved to the front.
append-used :
    append used (8 ∷ [])
    ≡ ok (record {
      bytes = 0 ∷ 0 ∷ 0 ∷ 0 ∷ 0 ∷ 0 ∷ 0 ∷ 0 ∷ 5 ∷ 6 ∷ 7 ∷ 8 ∷ [];
      reader_index = 8;
      writer_index = 12;
    })
unfolding append ensure_writable_bytes make_space compact has_written
append-used = refl

retrieve_too_much : retrieve used 4 ≡ err assertion
unfolding retrieve
retrieve_too_much = refl

run-used :
    run used (puts (8 ∷ 9 ∷ []) ∷ drops 2 ∷ takes ∷ drops 1 ∷ [])
    ≡ done ∷ done ∷ text (7 ∷ 8 ∷ 9 ∷ []) ∷ fault assertion ∷ []
unfolding run step append ensure_writable_bytes make_space grow has_written retrieve
    retrieve_as_string peeked retrieve_all
run-used = refl

append-Appends_example : Appends used (8 ∷ 9 ∷ []) (append used (8 ∷ 9 ∷ []))
append-Appends_example = append-Appends used (8 ∷ 9 ∷ []) used-IsValid (omega arith)

read_fd-Reads_example : Reads used (8 ∷ 9 ∷ []) (read_fd used (got (8 ∷ 9 ∷ [])))
read_fd-Reads_example = read_fd-Reads used (8 ∷ 9 ∷ []) used-IsValid (omega arith)

abbrev used_ops : List Op
used_ops = puts (8 ∷ []) ∷ fills (9 ∷ []) ∷ drops 4 ∷ takes ∷ []

used_ops-Fits : Fits used used_ops
unfolding Fits step append ensure_writable_bytes make_space compact grow has_written read_fd
    retrieve retrieve_as_string peeked retrieve_all
used_ops-Fits = (omega arith, ((omega arith, omega arith), (tt, (tt, tt))))

run_refines_example : run used used_ops ≡ spec_run (5 ∷ 6 ∷ 7 ∷ []) used_ops
run_refines_example = run_refines used used_ops used-IsValid used_ops-Fits

-- The 5 is lost, and a byte that nobody wrote is readable.
shrink_read_example :
    (s : Buffer) × (shrink used 4 ≡ ok s) × (contents s ≡ 6 ∷ 7 ∷ 0 ∷ []) × (IsValid s ↔ (1 ≤ 4))
shrink_read_example = shrink_read used 4 used-IsValid (omega arith) 1 refl (omega arith)

sizes_lem_example : (3 ≡ length (contents used)) × (9 + 3 + 0 ≡ length used.bytes)
sizes_lem_example = sizes_lem used-IsValid
