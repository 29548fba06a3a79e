-- ===== src/Files/Transfers.antt =====
-- server/internal/files/service.go: `List`, `Download` and `Upload`.
use vibe_terminal.Base.{
  ℕ, zero, suc, ◌+◌, ℤ, String, Bool, true, false, not, Option, none, some, List, ◌++◌, eqb, length,
  if◌then◌else◌,
}
use vibe_terminal.Protocol.{
  Envelope, type_fs_list, type_fs_list_result, type_fs_read, type_fs_read_result,
}
use vibe_terminal.Files.{
  Service, Outside, Progress, Op, done, failed, io_error, error_of, acquire, release, round_trip,
  decode_result, check_device,
}
use vibe_terminal.Files.Messages.{
  FsRequest, fs_list, fs_read, FsListResult, FsReadResult, FsWriteOpened, FsWriteAck, FsWriteResult,
}

-- `json.Unmarshal` for the results, and `base64.StdEncoding`; a byte is a number.
pub record Codec : Type 0 where
  pub list_result : String → Option FsListResult
  pub read_result : String → Option FsReadResult
  pub write_opened : String → Option FsWriteOpened
  pub write_ack : String → Option FsWriteAck
  pub write_result : String → Option FsWriteResult
  pub encode : List ℕ → String
  pub decode : String → Option (List ℕ)

module _ (o : Outside) (codec : Codec) (device_id : String) where
  -- A round trip and the decoding of its answer.
  abbrev pub decode_reply :
      {A : Type 0} → (String → Option A) → String → Op Envelope × Progress → Op A × Progress
  decode_reply unmarshal want (done env, p) = (decode_result o unmarshal want env, p)
  decode_reply unmarshal want (failed e, p) = (failed e, p)
  decode_reply unmarshal want (io_error, p) = (io_error, p)

  unfoldable pub ask_agent :
      {A : Type 0} → (String → Option A) → String → String → FsRequest → Progress → Op A × Progress
  ask_agent unmarshal message_type want request p =
      decode_reply unmarshal want (round_trip o device_id message_type request p)

  -- `checkDevice`, `acquire`, the body, and the deferred `release`. None is an operation that still
  -- runs when the fuel of its loop ends.
  unfoldable pub held : {A : Type 0} → Option (Op A × Progress) → Option (Op A × Progress)
  held none = none
  held (some (result, p)) = some (result, record p { service = release device_id p.service })

  unfoldable pub acquired :
      {A : Type 0}
      → (Progress → Option (Op A × Progress))
      → Progress
      → Option Service
      → Option (Op A × Progress)
  unfolding held
  acquired body p none = some (error_of "busy" "too many concurrent file operations", p)
  acquired body p (some service) = held (body (record p { service = service }))

  unfoldable pub operate :
      {A : Type 0} → (Progress → Option (Op A × Progress)) → Progress → Option (Op A × Progress)
  unfolding acquired
  operate body p =
      if not (check_device o device_id)
      then some (error_of "agent_unsupported" "agent does not support file operations", p)
      else acquired body p (acquire device_id p.service)

  unfoldable pub list_files : String → Progress → Option (Op FsListResult × Progress)
  unfolding operate ask_agent
  list_files path = operate (λ p. some (
      ask_agent codec.list_result type_fs_list type_fs_list_result
        (fs_list (record { path = path })) p))

  -- The loop of `Download`. `writes n` is whether `Write` succeeds after n bytes.
  unfoldable pub after_write :
      Bool
      → (ℕ → Progress → Option (Op Unit × Progress))
      → Progress
      → Option (ℕ × Progress)
      → Option (Op Unit × Progress)
  after_write eof next p none = some (io_error, p)
  after_write true next p (some (offset, q)) = some (done tt, q)
  after_write false next p (some (offset, q)) = next offset q

  unfoldable pub write_data : (ℕ → Bool) → ℕ → List ℕ → Progress → Option (ℕ × Progress)
  write_data writes offset chunk p =
      if eqb (length chunk) 0
      then some (offset, p)
      else if writes offset
      then some (offset + length chunk, record p { bytes = p.bytes ++ chunk })
      else none

  unfoldable pub after_decode :
      (ℕ → Bool)
      → ℕ
      → Bool
      → (ℕ → Progress → Option (Op Unit × Progress))
      → Progress
      → Option (List ℕ)
      → Option (Op Unit × Progress)
  unfolding after_write write_data
  after_decode writes offset eof next p none =
      some (error_of "agent_error" "invalid chunk encoding", p)
  after_decode writes offset eof next p (some chunk) =
      after_write eof next p (write_data writes offset chunk p)

  -- `onSize`, on the first round
  unfoldable pub note_size : ℕ → ℤ → Progress → Progress
  note_size offset size p = if eqb offset 0 then record p { size = some size } else p

  unfoldable pub after_read :
      (ℕ → Bool)
      → ℕ
      → (ℕ → Progress → Option (Op Unit × Progress))
      → Op FsReadResult × Progress
      → Option (Op Unit × Progress)
  unfolding after_decode note_size
  after_read writes offset next (failed e, p) = some (failed e, p)
  after_read writes offset next (io_error, p) = some (io_error, p)
  after_read writes offset next (done result, p) =
      after_decode writes offset result.eof next (note_size offset result.file_size p)
        (codec.decode result.contents)

  unfoldable pub download_loop :
      ℕ → (ℕ → Bool) → String → ℕ → Progress → Option (Op Unit × Progress)
  unfolding after_read ask_agent
  download_loop zero writes path offset p = none
  download_loop (suc fuel) writes path offset p =
      after_read writes offset (download_loop fuel writes path) (
        ask_agent codec.read_result type_fs_read type_fs_read_result
          (fs_read (record { path = path; offset = offset; length = p.service.chunk_size })) p)

  unfoldable pub download : ℕ → (ℕ → Bool) → String → Progress → Option (Op Unit × Progress)
  unfolding operate download_loop
  download fuel writes path = operate (download_loop fuel writes path 0)
