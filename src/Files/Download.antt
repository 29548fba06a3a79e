-- ===== src/Files/Download.antt =====
-- service.go, `Download`, from an agent that reads the file as it is asked to.
use vibe_terminal.Base.{
  ℕ, zero, suc, ◌+◌, ◌-◌, ◌≤◌, ◌<◌, ℤ, pos, String, ◌≡◌, refl, sym, ap, subst, ◌∙◌, Bool, true,
  Option, some, List, [], ◌∷◌, ◌++◌, arith, eqb, leb, length, take, if◌then◌else◌, inl, inr,
  Bool-cases,
}
use mathlib.Core.List.{append-nil, append_assoc}
use vibe_terminal.Protocol.{type_fs_read, type_fs_read_result}
use vibe_terminal.Files.{
  Service, Outside, answer, Progress, Op, done, round_trip, decode_result, acquire, release,
  active_of, check_device,
}
use vibe_terminal.GoMap.{insert}
use vibe_terminal.Files.Messages.{FsRequest, fs_read, FsReadResult}
use vibe_terminal.Files.Transfers.{
  Codec, ask_agent, after_read, after_write, after_decode, note_size, write_data, download_loop,
  download,
}

-- `xs[n:]`
unfoldable pub drop : {A : Type 0} → ℕ → List A → List A
drop zero xs = xs
drop (suc n) [] = []
drop (suc n) (x ∷ xs) = drop n xs

take_nil : (k : ℕ) → take {A = ℕ} k [] ≡ []
take_nil zero = refl
take_nil (suc k) = refl

take-drop : (k n : ℕ) (xs : List ℕ) → take k (drop n xs) ++ drop (n + k) xs ≡ drop n xs
unfolding drop
take-drop zero zero xs = refl
take-drop (suc k) zero [] = let e : 0 + suc k ≡ suc k = omega arith in rw e refl
take-drop (suc k) zero (x ∷ xs) =
    let e : 0 + suc k ≡ suc k = omega arith in
    let f : 0 + k ≡ k = omega arith in
    rw e (ap (◌∷◌ x) (subst (λ n. take k xs ++ drop n xs ≡ xs) f (take-drop k zero xs)))
take-drop k (suc n) [] = let e : suc n + k ≡ suc (n + k) = omega arith in rw (e, take_nil k) refl
take-drop k (suc n) (x ∷ xs) =
    let e : suc n + k ≡ suc (n + k) = omega arith in rw e (take-drop k n xs)

-- What the agent reads of a file, `n` bytes from an offset.
unfoldable pub read_at : Codec → List ℕ → ℕ → ℕ → FsReadResult
read_at codec file offset n = record {
  contents = codec.encode (take n (drop offset file));
  eof = leb (length file) (offset + n);
  file_size = pos (length file);
}

-- The device is connected, and its agent answers each request to read the file with `read` of the
-- offset and the length.
pub record IsReading (o : Outside) (codec : Codec) (device_id path : String)
    (read : ℕ → ℕ → FsReadResult) : Type 0 where
  pub payload : ℕ → ℕ → String
  pub connected :
      (type id : String) (request : FsRequest) → o.sends device_id type id request ≡ true
  pub answers :
      (i offset n : ℕ)
      → o.respond i (fs_read (record { path = path; offset = offset; length = n }))
        ≡ answer type_fs_read_result (payload offset n)
  pub reads : (offset n : ℕ) → codec.read_result (payload offset n) ≡ some (read offset n)

-- The agent reads what is in the file, in a text that decodes to it.
pub record IsServing (o : Outside) (codec : Codec) (device_id path : String) (file : List ℕ)
    : Type 0 where
  pub reading : IsReading o codec device_id path (read_at codec file)
  pub decodes : (bytes : List ℕ) → codec.decode (codec.encode bytes) ≡ some bytes

length-take-drop :
    (k n : ℕ) (xs : List ℕ)
    → n ≤ length xs
    → length (take k (drop n xs)) ≡ (if leb (length xs) (n + k) then length xs - n else k)
unfolding drop
length-take-drop zero zero [] h = refl
length-take-drop zero zero (x ∷ xs) h = ground arith
length-take-drop (suc k) zero [] h = ground arith
length-take-drop (suc k) zero (x ∷ xs) h = ground (arith, length-take-drop k zero xs)
length-take-drop k (suc n) [] h = absurd (omega arith)
length-take-drop k (suc n) (x ∷ xs) h = ground (arith, length-take-drop k n xs)

drop_end : (xs : List ℕ) (n : ℕ) → length xs ≤ n → drop n xs ≡ []
unfolding drop
drop_end [] zero h = refl
drop_end [] (suc n) h = refl
drop_end (x ∷ xs) zero h = absurd (omega arith)
drop_end (x ∷ xs) (suc n) h = drop_end xs n (omega arith)

module _ {o : Outside} {codec : Codec} {device_id path : String} {read : ℕ → ℕ → FsReadResult}
    (agent : IsReading o codec device_id path read) where
  -- A round trip brings what the agent reads, and leaves what was given so far.
  pub read_reply :
      (offset n : ℕ) (p : Progress)
      → let reply =
          ask_agent o codec device_id codec.read_result type_fs_read type_fs_read_result
            (fs_read (record { path = path; offset = offset; length = n }))
            p in
        (reply.0 ≡ done (read offset n))
        × (reply.1.bytes ≡ p.bytes)
        × (reply.1.size ≡ p.size)
        × (reply.1.service.chunk_size ≡ p.service.chunk_size)
  unfolding ask_agent round_trip decode_result
  read_reply offset n p =
      let c =
        agent.connected type_fs_read (o.new_id p.requests)
          (fs_read (record { path = path; offset = offset; length = n })) in
      ground (arith, c, agent.answers p.requests offset n, agent.reads offset n)

module _ (o : Outside) (codec : Codec) (device_id : String) (writes : ℕ → Bool)
    (accepts : (n : ℕ) → writes n ≡ true) where
  write_data_lem :
      (offset : ℕ) (chunk : List ℕ) (p : Progress)
      → write_data o codec device_id writes offset chunk p
        ≡ some (offset + length chunk, record p { bytes = p.bytes ++ chunk })
  unfolding write_data
  write_data_lem offset [] p =
      let e : offset + 0 ≡ offset = omega arith in
      rw e (ap (λ b. some (offset, record p { bytes = b })) (sym (append-nil p.bytes)))
  write_data_lem offset (x ∷ chunk) p = ground (arith, accepts offset)

  -- What one round of the loop comes to.
  pub after_read_lem :
      (offset : ℕ) (next : ℕ → Progress → Option (Op Unit × Progress)) (r : FsReadResult)
      (chunk : List ℕ) (reply : Op FsReadResult × Progress)
      → reply.0 ≡ done r
      → codec.decode r.contents ≡ some chunk
      → after_read o codec device_id writes offset next reply ≡ (
          let p = note_size o codec device_id offset r.file_size reply.1 in
          let q = record p { bytes = p.bytes ++ chunk } in
          if r.eof then some (done tt, q) else next (offset + length chunk) q)
  unfolding after_read after_decode after_write
  after_read_lem offset next r chunk reply e d =
      let p = note_size o codec device_id offset r.file_size reply.1 in
      let w = write_data_lem offset chunk p in rw (e, d, w) (ground arith)

module _ {o : Outside} {codec : Codec} {device_id path : String} {file : List ℕ}
    (agent : IsServing o codec device_id path file) (writes : ℕ → Bool)
    (accepts : (n : ℕ) → writes n ≡ true) where
  note_size_lem :
      (offset : ℕ) (size : ℤ) (p : Progress)
      → let noted = note_size o codec device_id offset size p in
        (noted.bytes ≡ p.bytes)
        × (noted.service ≡ p.service)
        × (noted.size ≡ (if eqb offset 0 then some size else p.size))
  unfolding note_size
  note_size_lem offset size p = ground arith

  -- How a download ends that has still to give what follows an offset.
  abbrev IsGiven : ℕ → Progress → Option (Op Unit × Progress) → Type 0
  IsGiven offset p result =
      (q : Progress) × (result ≡ some (done tt, q))
      × (q.bytes ≡ p.bytes ++ drop offset file)
      × (q.size ≡ (if eqb offset 0 then some (pos (length file)) else p.size))

  download_loop_lem :
      (fuel offset : ℕ) (p : Progress)
      → 1 ≤ p.service.chunk_size
      → offset ≤ length file
      → length file - offset < fuel
      → IsGiven offset p (download_loop o codec device_id fuel writes path offset p)
  unfolding download_loop read_at
  download_loop_lem zero offset p h b f = absurd (omega arith)
  download_loop_lem (suc fuel) offset p h b f =
      let n = p.service.chunk_size in
      let reply =
        ask_agent o codec device_id codec.read_result type_fs_read type_fs_read_result
          (fs_read (record { path = path; offset = offset; length = n })) p in
      let r = read_at codec file offset n in
      let chunk = take n (drop offset file) in
      let next = download_loop o codec device_id fuel writes path in
      let (e, bytes, size, same) = read_reply agent.reading offset n p in
      let round =
        after_read_lem o codec device_id writes accepts offset next r chunk reply e
          (agent.decodes chunk) in
      let noted = note_size o codec device_id offset r.file_size reply.1 in
      let (kept_bytes, kept_service, new_size) = note_size_lem offset r.file_size reply.1 in
      let q : Progress = record noted { bytes = noted.bytes ++ chunk } in
      let q_bytes : q.bytes ≡ p.bytes ++ chunk = ap (λ x. x ++ chunk) (kept_bytes ∙ bytes) in
      let q_chunk : q.service.chunk_size ≡ n =
        ap (λ (x : Service). x.chunk_size) kept_service ∙ same in
      let len_chunk = length-take-drop n offset file b in
      let whole = take-drop n offset file in
      elim (Bool-cases (leb (length file) (offset + n))) [
        | inl last ↦
            let all : chunk ≡ drop offset file =
              sym (append-nil chunk)
              ∙ ap (◌++◌ chunk) (sym (drop_end file (offset + n) (ground (arith, last))))
              ∙ whole in
            (
              q,
              round ∙ rw last refl,
              q_bytes ∙ ap (◌++◌ p.bytes) all,
              ground (arith, new_size, size),
            )
        | inr more ↦
            let moved : length chunk ≡ n = ground (arith, len_chunk, more) in
            let inside : offset + n < length file = ground (arith, more) in
            let (q', again, bytes', size') =
              download_loop_lem fuel (offset + length chunk) q (ground (arith, q_chunk))
                (omega (arith, moved, inside)) (omega (arith, moved, inside, h, f)) in
            (
              q',
              round ∙ rw more refl ∙ again,
              bytes'
                  ∙ ap (λ x. x ++ drop (offset + length chunk) file) q_bytes
                  ∙ append_assoc p.bytes chunk (drop (offset + length chunk) file)
                  ∙ ap (λ k. p.bytes ++ (chunk ++ drop (offset + k) file)) moved
                  ∙ ap (◌++◌ p.bytes) whole,
              ground (arith, size', new_size, size, moved),
            )
      ]

  -- From an agent that reads the file as it is asked to, a device with a free slot and a writer that
  -- takes everything, a download ends without an error, having given the size of the file and
  -- written exactly its bytes. One round more than there are bytes is enough.
  pub download_complete :
      (fuel : ℕ) (p : Progress)
      → check_device o device_id ≡ true
      → active_of device_id p.service < p.service.max_per_device
      → 1 ≤ p.service.chunk_size
      → length file < fuel
      → (q : Progress) × (download o codec device_id fuel writes path p ≡ some (done tt, q))
        × (q.bytes ≡ p.bytes ++ file)
        × (q.size ≡ some (pos (length file)))
  unfolding download acquire drop
  download_complete fuel p able free positive enough =
      let s : Service = record p.service {
        active = insert device_id (suc (active_of device_id p.service)) p.service.active;
      } in
      let granted : acquire device_id p.service ≡ some s = ground (arith, free) in
      let (q, e, bytes, size) =
        download_loop_lem fuel 0 (record p { service = s }) positive (omega arith)
          (omega (arith, enough)) in
      (record q { service = release device_id q.service }, rw (able, granted, e) refl, bytes, size)
