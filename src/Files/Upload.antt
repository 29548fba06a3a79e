-- ===== src/Files/Upload.antt =====
-- server/internal/files/service.go: `Upload`.
pub mod Whole
use vibe_terminal.Base.{
  ℕ, zero, suc, ◌+◌, String, Bool, true, false, not, Option, none, some, List, [], eqb, leb, length,
  take, if◌then◌else◌,
}
use vibe_terminal.Protocol.{
  Envelope, type_fs_write_open, type_fs_write_opened, type_fs_write_chunk, type_fs_write_ack,
  type_fs_write_close, type_fs_write_result,
}
use vibe_terminal.Files.{Outside, Progress, Op, done, failed, io_error, error_of, round_trip}
use vibe_terminal.Files.Messages.{
  FsRequest, fs_write_open, fs_write_chunk, fs_write_close, FsWriteOpened, FsWriteAck,
  FsWriteResult,
}
use vibe_terminal.Files.Transfers.{Codec, ask_agent, operate}
use vibe_terminal.Files.Download.{drop}

-- The error that a reader gives when it has no more bytes: `io.EOF`, `io.ErrUnexpectedEOF`, as the
-- body of a request that was cut short does, or another.
pub data ReaderEnd : Type 0 where
  at_end cut_short broken : ReaderEnd

-- The reader: the bytes that it still gives, and its error after them.
pub record Reader : Type 0 where
  pub left : List ℕ
  pub ending : ReaderEnd

-- The error of `io.ReadFull`: none, `io.EOF`, `io.ErrUnexpectedEOF`, or another.
pub data ReadEnd : Type 0 where
  full eof unexpected_eof read_error : ReadEnd

-- The error of a buffer that is not full; `io.EOF` is passed on only when nothing was read.
unfoldable pub read_end : Bool → ReaderEnd → ReadEnd
read_end nothing_read at_end = if nothing_read then eof else unexpected_eof
read_end nothing_read cut_short = unexpected_eof
read_end nothing_read broken = read_error

-- `io.ReadFull` into a buffer of n bytes
unfoldable pub read_full : ℕ → Reader → List ℕ × Reader × ReadEnd
unfolding drop read_end
read_full n rd =
    if leb n (length rd.left)
    then (take n rd.left, record rd { left = drop n rd.left }, full)
    else (rd.left, record rd { left = [] }, read_end (eqb (length rd.left) 0) rd.ending)

module _ (o : Outside) (codec : Codec) (device_id : String) where
  -- After a chunk, and the acknowledgement of it.
  unfoldable pub after_chunk :
      ReadEnd → ℕ → (ℕ → Progress → Option (Op ℕ × Progress)) → Progress → Option (Op ℕ × Progress)
  after_chunk full offset next p = next offset p
  after_chunk eof offset next p = some (done offset, p)
  after_chunk unexpected_eof offset next p = some (done offset, p)
  after_chunk read_error offset next p = some (io_error, p)

  unfoldable pub after_ack :
      ReadEnd
      → ℕ
      → (ℕ → Progress → Option (Op ℕ × Progress))
      → Op FsWriteAck × Progress
      → Option (Op ℕ × Progress)
  unfolding after_chunk
  after_ack end offset next (failed e, p) = some (failed e, p)
  after_ack end offset next (io_error, p) = some (io_error, p)
  after_ack end offset next (done ack, p) = after_chunk end offset next p

  -- A round of the loop, on what was read.
  unfoldable pub send_chunk :
      String
      → ℕ
      → List ℕ
      → ReadEnd
      → (ℕ → Progress → Option (Op ℕ × Progress))
      → Progress
      → Option (Op ℕ × Progress)
  unfolding after_ack ask_agent
  send_chunk upload_id offset chunk end next p =
      if eqb (length chunk) 0
      then after_chunk end offset next p
      else after_ack end (offset + length chunk) next (
          ask_agent o codec device_id codec.write_ack type_fs_write_chunk type_fs_write_ack
            (fs_write_chunk
              (record { upload_id = upload_id; offset = offset; contents = codec.encode chunk }))
            p)

  -- The loop of `Upload`, which ends with the number of bytes that were sent.
  unfoldable pub upload_loop : ℕ → String → Reader → ℕ → Progress → Option (Op ℕ × Progress)
  unfolding send_chunk read_full
  upload_loop zero upload_id rd offset p = none
  upload_loop (suc fuel) upload_id rd offset p =
      let (chunk, rest, end) = read_full p.service.chunk_size rd in
      send_chunk upload_id offset chunk end (upload_loop fuel upload_id rest) p

  unfoldable pub end_upload : Op FsWriteResult × Progress → Op Unit × Progress
  end_upload (failed e, p) = (failed e, p)
  end_upload (io_error, p) = (io_error, p)
  end_upload (done result, p) = (done tt, p)

  -- After the loop: a body that is too short or too long is end_upload with the size that was announced,
  -- so that the agent refuses it. `truncated` is `fmt.Sprintf` of the two sizes.
  unfoldable pub finish_upload :
      (ℕ → ℕ → String) → String → ℕ → Option (Op ℕ × Progress) → Option (Op Unit × Progress)
  unfolding end_upload ask_agent
  finish_upload truncated upload_id size none = none
  finish_upload truncated upload_id size (some (failed e, p)) = some (failed e, p)
  finish_upload truncated upload_id size (some (io_error, p)) = some (io_error, p)
  finish_upload truncated upload_id size (some (done offset, p)) =
      let request = fs_write_close (record { upload_id = upload_id; total_size = size }) in
      if not (eqb offset size)
      then some (
        error_of "invalid_request" (truncated offset size),
        (round_trip o device_id type_fs_write_close request p).1,
      )
      else some (
          end_upload (
            ask_agent o codec device_id codec.write_result type_fs_write_close type_fs_write_result
              request p))

  unfoldable pub after_open :
      (ℕ → ℕ → String)
      → ℕ
      → String
      → ℕ
      → Reader
      → Op FsWriteOpened × Progress
      → Option (Op Unit × Progress)
  unfolding finish_upload upload_loop
  after_open truncated fuel upload_id size rd (failed e, p) = some (failed e, p)
  after_open truncated fuel upload_id size rd (io_error, p) = some (io_error, p)
  after_open truncated fuel upload_id size rd (done opened, p) =
      finish_upload truncated upload_id size (upload_loop fuel upload_id rd 0 p)

  -- The body of `Upload`, which draws an identifier for the upload.
  unfoldable pub upload_held :
      (ℕ → ℕ → String) → ℕ → String → ℕ → Bool → Reader → Progress → Option (Op Unit × Progress)
  unfolding after_open ask_agent
  upload_held truncated fuel path size overwrite rd p =
      let upload_id = o.new_id p.requests in
      after_open truncated fuel upload_id size rd (
        ask_agent o codec device_id codec.write_opened type_fs_write_open type_fs_write_opened
          (fs_write_open
            (record { upload_id = upload_id; path = path; size = size; overwrite = overwrite }))
          (record p { requests = suc p.requests }))

  unfoldable pub upload :
      (ℕ → ℕ → String) → ℕ → String → ℕ → Bool → Reader → Progress → Option (Op Unit × Progress)
  unfolding operate upload_held
  upload truncated fuel path size overwrite rd =
      operate o codec device_id (upload_held truncated fuel path size overwrite rd)
