-- ===== src/Files/Endless.antt =====
-- service.go, `Download`, from an agent that sends nothing and never says that the file has ended.
use vibe_terminal.Base.{
  ℕ, zero, suc, ◌<◌, String, ◌≡◌, refl, ◌∙◌, Bool, true, false, none, some, [], arith,
}
use vibe_terminal.GoMap.{insert}
use vibe_terminal.Protocol.{type_fs_read, type_fs_read_result}
use vibe_terminal.Files.{Service, Outside, Progress, acquire, active_of, check_device}
use vibe_terminal.Files.Messages.{fs_read, FsReadResult}
use vibe_terminal.Files.Transfers.{Codec, ask_agent, download_loop, download}
use vibe_terminal.Files.Download.{IsReading, read_reply, after_read_lem}

module _ {o : Outside} {codec : Codec} {device_id path : String} {r : FsReadResult}
    (agent : IsReading o codec device_id path (λ offset n. r)) (writes : ℕ → Bool)
    (accepts : (n : ℕ) → writes n ≡ true) (unfinished : r.eof ≡ false)
    (empty : codec.decode r.contents ≡ some []) where
  loop_endless :
      (fuel offset : ℕ) (p : Progress)
      → download_loop o codec device_id fuel writes path offset p ≡ none
  unfolding download_loop
  loop_endless zero offset p = refl
  loop_endless (suc fuel) offset p =
      let n = p.service.chunk_size in
      let reply =
        ask_agent o codec device_id codec.read_result type_fs_read type_fs_read_result
          (fs_read (record { path = path; offset = offset; length = n })) p in
      let next = download_loop o codec device_id fuel writes path in
      let (e, bytes, size, same) = read_reply agent offset n p in
      after_read_lem o codec device_id writes accepts offset next r [] reply e empty
      ∙ rw unfinished (loop_endless fuel _ _)

  -- If every answer of the agent is an empty chunk that is not the last, a download that has its slot
  -- never ends: however many rounds it makes, it still runs, and holds the slot.
  pub download_endless :
      (fuel : ℕ) (p : Progress)
      → check_device o device_id ≡ true
      → active_of device_id p.service < p.service.max_per_device
      → download o codec device_id fuel writes path p ≡ none
  unfolding download acquire
  download_endless fuel p able free =
      let s : Service = record p.service {
        active = insert device_id (suc (active_of device_id p.service)) p.service.active;
      } in
      let granted : acquire device_id p.service ≡ some s = ground (arith, free) in
      rw (able, granted, loop_endless fuel 0 (record p { service = s })) refl
