-- ===== src/Upload/Examples.antt =====
-- Uploads to a small store, and the theorems at these.
use verm.Prelude.{
  ◌+◌, Bool, true, false, Option, none, some, [], ◌∷◌, ◌++◌, Bytes, codes, ◌≡◌, refl, arith, split,
  last_index, take, drop, contains_byte, has_prefix, has_suffix, trim_suffix, bytes_eq,
}
use verm.Storage.{Storage, file, find, add, remove, Keeps}
use verm.Stream.{
  whole, encoding_decoder, encoding_suffix, same_contents, same_contents_loop, compare_round,
  read_full,
}
use verm.Errors.{Error, ok, err, wrong_location}
use verm.Upload.WriteOnce.{upload_file-Keeps}
use verm.Upload.ContentAddressed.{IsContentAddressed, upload_file-IsContentAddressed}
use verm.Upload.Integrity.{IsVerified, upload_file-IsVerified}
use verm.Upload.Total.{upload_file_total}
use verm.Upload.Failure.{upload_file_leaves_temp}
use verm.Upload.Types.{FileUpload}
use verm.Upload.Opening.Input.{IsOf}
use verm.Upload.Opening.{
  file_uploader, split_location, or_default, open_at, make_temp, open_input, strip_and_decode,
  decode_written, decode_for_hasher, strip_encoding, choose_input, media_type_or_default, unpack,
  assemble,
}
use verm.Upload.Finish.{
  finish, finish_at, place, concluded, conclude, first_location, attempt_loop, carry_on,
  attempt_once, after_look, try_link, after_link, settle, filename_of, link, same_uploaded_file,
  same_decoded_contents, same_decoded, next_location, job_of,
}
use verm.Upload.Finish.Within.{Reply}
use verm.UrlPath.{clean}
use verm.Prelude.Decimal.{itoa}
use verm.Upload.{upload_file, close, copy_and_finish, after_open}
use verm.Upload.HashName.{encode_hash}
use verm.Upload.Types.{Request}
use verm.Upload.Samples.{host, host-IsHost, zeros, zeros_bytes, gunzip, longest, padding}
use verm.Upload.HashName.{encode_hash}
use verm.Upload.HashName.Shape.{IsHashName, encode_hash-IsHashName}
use verm.Upload.HashName.Injective.{encode_hash_inj}

-- No content type has an extension.
abbrev pub types : Bytes → Bytes
types t = []

abbrev pub post : Request
post = record {
  path = codes "/docs/";
  content_type = codes "text/plain";
  content_encoding = [];
  body = whole (codes "hello");
  form_file = none;
}

abbrev pub stored_name : Bytes
stored_name = codes "/docs/Ao/AAAAAAAAAAAAAAAAAAAAAAAAAAAAAAAAAAAAAAAAA"

-- Opens all that an upload computes with, for the tests below.
upload_here : Request → Bool → Storage → Option Reply
unfolding upload_file file_uploader split_location or_default open_at make_temp open_input
    strip_and_decode decode_for_hasher decode_written strip_encoding choose_input
    media_type_or_default unpack assemble encoding_decoder encoding_suffix same_contents
    same_contents_loop compare_round read_full close copy_and_finish after_open finish finish_at
    place concluded conclude first_location attempt_loop carry_on attempt_once after_look try_link
    after_link settle filename_of link same_uploaded_file same_decoded_contents same_decoded
    next_location job_of encode_hash add remove find clean split last_index take drop contains_byte
    has_prefix has_suffix bytes_eq gunzip longest padding itoa trim_suffix
upload_here req rep s = upload_file host types 4 (codes "/var") req rep s

-- The upload of five bytes gets the name of their hash, and is queued for replication.
pub posts :
    upload_file host types 4 (codes "/var") post false []
    ≡ some (
      ok (stored_name, true),
      (codes "/var" ++ stored_name, file (codes "hello")) ∷ [],
      record { location = stored_name; replicating = false } ∷ [],
    )
unfolding upload_here
posts = refl

abbrev pub stored : Storage
stored = (codes "/var" ++ stored_name, file (codes "hello")) ∷ []

-- A second upload of the same bytes stores nothing and queues nothing.
posts_again :
    upload_file host types 4 (codes "/var") post false stored
    ≡ some (ok (stored_name, false), stored, [])
unfolding upload_here
posts_again = refl

abbrev pub collided : Storage
collided = (codes "/var" ++ stored_name, file (codes "jello")) ∷ []

-- Other bytes under the same name stay, and the upload gets a suffix.
pub posts_collided :
    upload_file host types 5 (codes "/var") post false collided
    ≡ some (
      ok (stored_name ++ codes "_2", true),
      (codes "/var" ++ (stored_name ++ codes "_2"), file (codes "hello")) ∷ collided,
      record { location = stored_name ++ codes "_2"; replicating = false } ∷ [],
    )
unfolding upload_here
posts_collided = refl

-- A PUT of a compressed file to the name of its contents.
abbrev pub put_gzip : Request
put_gzip = record {
  path = stored_name ++ codes ".txt";
  content_type = codes "application/octet-stream";
  content_encoding = codes "gzip";
  body = whole (31 ∷ codes "hello");
  form_file = none;
}

pub puts :
    upload_file host types 4 (codes "/var") put_gzip true []
    ≡ some (
      ok (stored_name ++ codes ".txt", true),
      (codes "/var" ++ (stored_name ++ codes ".txt.gz"), file (31 ∷ codes "hello")) ∷ [],
      record { location = stored_name ++ codes ".txt"; replicating = true } ∷ [],
    )
unfolding upload_here
puts = refl

-- A POST of the same file, compressed.
abbrev pub post_gzip : Request
post_gzip = record post { content_encoding = codes "gzip"; body = whole (31 ∷ codes "hello") }

abbrev pub stored_gzip : Storage
stored_gzip = (codes "/var" ++ (stored_name ++ codes ".gz"), file (31 ∷ codes "hello")) ∷ []

pub posts_gzip :
    upload_file host types 4 (codes "/var") post_gzip false []
    ≡ some (
      ok (stored_name, true),
      stored_gzip,
      record { location = stored_name; replicating = false } ∷ [],
    )
unfolding upload_here
posts_gzip = refl

-- A PUT of a file that is not compressed.
abbrev pub put_plain : Request
put_plain = record put_gzip {
  path = stored_name;
  content_encoding = [];
  body = whole (codes "hello");
}

pub puts_plain :
    upload_file host types 4 (codes "/var") put_plain true []
    ≡ some
        (ok (stored_name, true), stored, record { location = stored_name; replicating = true } ∷ [])
unfolding upload_here
puts_plain = refl

-- A PUT of other contents to that name is refused.
puts_wrong :
    upload_file host types 4
      (codes "/var")
      (record put_gzip { body = whole (31 ∷ codes "hello!") })
      true
      []
    ≡ some (err (wrong_location (stored_name ++ codes ".txt")), [], [])
unfolding upload_here
puts_wrong = refl

upload_file-Keeps_example :
    Keeps collided ((codes "/var" ++ (stored_name ++ codes "_2"), file (codes "hello")) ∷ collided)
upload_file-Keeps_example =
    upload_file-Keeps host-IsHost types 5 (codes "/var") post false collided _ _ _ posts_collided

upload_file-IsContentAddressed_example :
    (up : FileUpload) × (up.root ≡ codes "/var")
    × (up.replicating ≡ true)
    × IsOf host types put_gzip true up
    × IsContentAddressed host types up
        (stored_name ++ codes ".txt")
        ((codes "/var" ++ (stored_name ++ codes ".txt.gz"), file (31 ∷ codes "hello")) ∷ [])
    × (true ≡ true
        → find
            (codes "/var" ++ ((stored_name ++ codes ".txt") ++ encoding_suffix up.encoding))
            ((codes "/var" ++ (stored_name ++ codes ".txt.gz"), file (31 ∷ codes "hello")) ∷ [])
          ≡ some (file up.content))
    × (record { location = stored_name ++ codes ".txt"; replicating = true } ∷ []
        ≡ job_of host up (stored_name ++ codes ".txt") ∷ [])
upload_file-IsContentAddressed_example =
    upload_file-IsContentAddressed host-IsHost types 4 (codes "/var") put_gzip true [] _ true _ _
      puts

upload_file-IsVerified_example : IsVerified host types put_gzip
upload_file-IsVerified_example =
    upload_file-IsVerified host types 4 (codes "/var") put_gzip [] _ true _ _ puts

upload_file_total_example :
    (r : Reply) × (upload_file host types 5 (codes "/var") post false collided ≡ some r)
upload_file_total_example =
    upload_file_total host-IsHost (λ p n s e. e) 5 types (codes "/var") post false collided
      (omega arith)

abbrev bad_encoding : Request
bad_encoding = record post { content_encoding = codes "br" }

upload_file_leaves_temp_example :
    (e : Error) × (s' : Storage) × (upload_file host types 4 (codes "/var") bad_encoding false []
      ≡ some (err e, s', []))
    × (find (host.temp_name (codes "/var" ++ or_default (clean bad_encoding.path)) []) s'
        ≡ some (file []))
unfolding bytes_eq
upload_file_leaves_temp_example =
    upload_file_leaves_temp host types 4 (codes "/var") bad_encoding [] (refl, refl) refl refl

encode_hash-IsHashName_run :
    (dir : Bytes) × (dst : Bytes) × (encode_hash (zeros 5) ≡ some (dir, dst)) × IsHashName dir dst
encode_hash-IsHashName_run = encode_hash-IsHashName (zeros 5) refl (zeros_bytes 5)

encode_hash_inj_example : zeros 5 ≡ zeros (256 + 5)
encode_hash_inj_example =
    let t = encode_hash-IsHashName (zeros 5) refl (zeros_bytes 5) in
    encode_hash_inj (zeros 5) (zeros (256 + 5)) t.0 t.1 (zeros_bytes 5) (zeros_bytes (256 + 5)) t.2
      t.2
