-- ===== src/Files/Messages.antt =====
-- server/internal/protocol/messages.go: the messages about files.
use vibe_terminal.Base.{ℕ, ℤ, String, Bool, List}

pub record FsList : Type 0 where
  pub path : String

pub record FsEntry : Type 0 where
  pub name : String
  pub is_dir : Bool
  pub size : ℤ
  pub mode : ℕ
  pub modified_at : ℤ

pub record FsListResult : Type 0 where
  pub path : String
  pub entries : List FsEntry

pub record FsRead : Type 0 where
  pub path : String
  pub offset : ℕ
  pub length : ℕ

pub record FsReadResult : Type 0 where
  pub contents : String
  pub eof : Bool
  pub file_size : ℤ

pub record FsWriteOpen : Type 0 where
  pub upload_id : String
  pub path : String
  pub size : ℕ
  pub overwrite : Bool

pub record FsWriteOpened : Type 0 where
  pub upload_id : String

pub record FsWriteChunk : Type 0 where
  pub upload_id : String
  pub offset : ℕ
  pub contents : String

pub record FsWriteAck : Type 0 where
  pub upload_id : String
  pub offset : ℤ

pub record FsWriteClose : Type 0 where
  pub upload_id : String
  pub total_size : ℕ

pub record FsWriteResult : Type 0 where
  pub upload_id : String

pub record FsError : Type 0 where
  pub code : String
  pub message : String

-- A payload that the service sends.
pub data FsRequest : Type 0 where
  fs_list : FsList → FsRequest
  fs_read : FsRead → FsRequest
  fs_write_open : FsWriteOpen → FsRequest
  fs_write_chunk : FsWriteChunk → FsRequest
  fs_write_close : FsWriteClose → FsRequest
