-- ===== src/Upload/Types.antt =====
-- The data of file_uploader.go: `fileUpload`, and what it reads of a request.
use verm.Prelude.{Bool, Option, Bytes, codes}
use verm.Stream.{Stream}

-- `fileUpload`. `temp_name` and `content` are the temporary file and what is written to it, `input`
-- is the stream that the hasher reads.
pub record FileUpload : Type 0 where
  pub replicating : Bool
  pub root : Bytes
  pub path : Bytes
  pub location : Bytes
  pub content_type : Bytes
  pub extension : Bytes
  pub encoding : Bytes
  pub input : Stream
  pub temp_name : Bytes
  pub content : Bytes

-- What `UploadFile` reads of a request; `form_file` is the part of a multipart form, with its
-- Content-Type header.
pub record Request : Type 0 where
  pub path : Bytes
  pub content_type : Bytes
  pub content_encoding : Bytes
  pub body : Stream
  pub form_file : Option (Bytes × Stream)

-- A call of `targets.EnqueueFile`.
pub record Job : Type 0 where
  pub location : Bytes
  pub replicating : Bool

abbrev pub gz : Bytes
gz = codes ".gz"
