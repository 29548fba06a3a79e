-- ===== src/Tests/Files.antt =====
-- service.go, with an agent that serves a file of five bytes in chunks of two.
use vibe_terminal.Base.{
  ℕ, suc, zero, ◌+◌, ◌≡◌, ◌∙◌, refl, String, true, false, Option, none, some, List, [], ◌∷◌, pos,
  leb, length, take, arith, if◌then◌else◌, eqb,
}
use Prim.Native.Char.{code}
use vibe_terminal.GoMap.{lookup}
use vibe_terminal.Files.{
  new_service, Outside, Outcome, answer, timed_out, Progress, Op, done, active_of, check_device,
}
use vibe_terminal.Files.Messages.{
  FsRequest, fs_list, fs_read, fs_write_open, fs_write_chunk, fs_write_close, FsReadResult,
}
use vibe_terminal.Files.Slots.{begin, end, run_slots, AreCounted, run_slots-new_service}
use vibe_terminal.Files.Transfers.{Codec, download}
use vibe_terminal.Files.Download.{drop, read_at, IsReading, IsServing, download_complete}
use vibe_terminal.Files.Endless.{download_endless}
use vibe_terminal.Files.Upload.{Reader, cut_short, upload}

run_slots_example :
    AreCounted (run_slots (begin "d1" ∷ begin "d1" ∷ end "d1" ∷ []) (new_service, []))
run_slots_example = run_slots-new_service (begin "d1" ∷ begin "d1" ∷ end "d1" ∷ [])

-- A text with as many letters as a number, for each number.
unfoldable letters : ℕ → String → String
letters zero s = String.◌∷◌ "." s
letters (suc n) s = String.◌∷◌ "i" (letters n s)

unfoldable encode : List ℕ → String
unfolding letters
encode [] = ""
encode (b ∷ bs) = letters b (encode bs)

-- The number of letters so far is kept.
unfoldable decode_from : ℕ → String → Option (List ℕ)
decode_from n String.[] = some []
decode_from n (String.◌∷◌ c s) =
    let more = decode_from (suc n) s in
    let rest = decode_from 0 s in
    if eqb (code c) 105 then more else elim rest [ none ↦ none | some bs ↦ some (n ∷ bs) ]

abbrev put : ℕ → Option (List ℕ) → Option (List ℕ)
put n none = none
put n (some bs) = some (n ∷ bs)

decode_letters :
    (k n : ℕ) (s : String) → decode_from k (letters n s) ≡ put (k + n) (decode_from 0 s)
unfolding decode_from letters
decode_letters k zero s = let e : k + 0 ≡ k = omega arith in rw e (ground arith)
decode_letters k (suc n) s =
    let e : k + suc n ≡ suc k + n = omega arith in rw e (decode_letters (suc k) n s)

decode_nil : decode_from 0 "" ≡ some []
unfolding decode_from
decode_nil = refl

decode-encode : (bs : List ℕ) → decode_from 0 (encode bs) ≡ some bs
unfolding encode
decode-encode [] = decode_nil
decode-encode (b ∷ bs) =
    let e : 0 + b ≡ b = omega arith in
    decode_letters 0 b (encode bs) ∙ rw (decode-encode bs, e) refl

abbrev file : List ℕ
file = 1 ∷ 2 ∷ 3 ∷ 4 ∷ 5 ∷ []

abbrev served : Option (List ℕ) → Option FsReadResult
served (some (offset ∷ n ∷ [])) = some (record {
  contents = encode (take n (drop offset file));
  eof = leb (length file) (offset + n);
  file_size = pos (length file);
})
served _ = none

abbrev codec : Codec
codec = record {
  list_result = λ s. none;
  read_result = λ s. served (decode_from 0 s);
  write_opened = λ s. some (record { upload_id = "up" });
  write_ack = λ s. some (record { upload_id = "up"; offset = pos 0 });
  write_result = λ s. some (record { upload_id = "up" });
  encode = encode;
  decode = decode_from 0;
}

abbrev respond : ℕ → FsRequest → Outcome
respond i (fs_list r) = timed_out
respond i (fs_read r) = answer "fs_read_result" (encode (r.offset ∷ r.length ∷ []))
respond i (fs_write_open r) = answer "fs_write_opened" ""
respond i (fs_write_chunk r) = answer "fs_write_ack" ""
respond i (fs_write_close r) = answer "fs_write_result" ""

abbrev outside : Outside
outside = record {
  is_capable = λ d c. true;
  sends = λ d t i r. true;
  new_id = λ n. "id";
  respond = respond;
  fs_error = λ s. none;
  unexpected_reply = λ s. s;
}

reads :
    (offset n : ℕ)
    → codec.read_result (encode (offset ∷ n ∷ [])) ≡ some (read_at codec file offset n)
unfolding read_at
reads offset n = rw (decode-encode (offset ∷ n ∷ [])) refl

agent : IsServing outside codec "d1" "/f" file
agent = record {
  reading = record {
    payload = λ offset n. encode (offset ∷ n ∷ []);
    connected = λ t i r. refl;
    answers = λ i offset n. refl;
    reads = reads;
  };
  decodes = decode-encode;
}

abbrev progress : Progress
progress = record {
  service = record { chunk_size = 2; max_per_device = 4; pending = []; active = [] };
  requests = 0;
  size = none;
  bytes = [];
}

download_complete_example :
    (q : Progress) × (download outside codec "d1" 6 (λ n. true) "/f" progress ≡ some (done tt, q))
    × (q.bytes ≡ file)
    × (q.size ≡ some (pos 5))
unfolding active_of lookup check_device
download_complete_example =
    download_complete agent (λ n. true) (λ n. refl) 6 progress refl (omega arith) (omega arith)
      (omega arith)

-- A reader that fails with `io.ErrUnexpectedEOF` after the bytes that were announced.
abbrev body : Reader
body = record { left = 7 ∷ 8 ∷ 9 ∷ []; ending = cut_short }

abbrev uploaded : Option (Op Unit × Progress)
uploaded = upload outside codec "d1" (λ m n. "truncated") 4 "/g" 3 false body progress

-- An agent that answers with an empty chunk for ever.
abbrev nothing : FsReadResult
nothing = record { contents = ""; eof = false; file_size = pos 5 }

abbrev lazy_codec : Codec
lazy_codec = record codec { read_result = λ s. some nothing }

lazy_agent : IsReading outside lazy_codec "d1" "/f" (λ offset n. nothing)
lazy_agent = record {
  payload = λ offset n. encode (offset ∷ n ∷ []);
  connected = λ t i r. refl;
  answers = λ i offset n. refl;
  reads = λ offset n. refl;
}

download_endless_example : download outside lazy_codec "d1" 1000 (λ n. true) "/f" progress ≡ none
unfolding active_of lookup check_device
download_endless_example =
    download_endless lazy_agent (λ n. true) (λ n. refl) refl decode_nil 1000 progress refl
      (omega arith)
