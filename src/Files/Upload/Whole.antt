-- ===== src/Files/Upload/Whole.antt =====
-- service.go, `Upload`: what an upload that ends without an error has read.
use vibe_terminal.Base.{ℕ, ◌+◌, ◌≡◌, ◌⊎◌, Bool, true, false, Option, some, length}
use vibe_terminal.Files.{Progress, Op, done}
use vibe_terminal.Files.Upload.{
  ReaderEnd, at_end, cut_short, Reader, ReadEnd, full, eof, unexpected_eof, read_error,
}

-- The errors of `io.ReadFull` that end the loop.
abbrev ends_loop : ReadEnd → Bool
ends_loop full = false
ends_loop eof = true
ends_loop unexpected_eof = true
ends_loop read_error = false

-- The reader's own error is `io.EOF` or `io.ErrUnexpectedEOF`.
abbrev pub Ends : ReaderEnd → Type 0
Ends ending = (ending ≡ at_end) ⊎ (ending ≡ cut_short)

-- What a loop has read that ends without an error: everything, to the end of the reader.
abbrev HasRead : Reader → ℕ → ℕ → Type 0
HasRead rd offset total = (total ≡ offset + length rd.left) × Ends rd.ending

-- What follows a chunk: the next round, or the end of the reader.
abbrev Follows : ReadEnd → ℕ → (ℕ → Progress → Option (Op ℕ × Progress)) → ℕ → Progress → Type 0
Follows end offset next total q =
    ((p : Progress) × (next offset p ≡ some (done total, q)))
    ⊎ ((ends_loop end ≡ true) × (total ≡ offset))
