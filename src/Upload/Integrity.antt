-- ===== src/Upload/Integrity.antt =====
-- A PUT is a checksum: it is accepted only at a path that names its contents.
use verm.Prelude.{ℕ, Bool, true, false, some, List, ◌++◌, Bytes, ◌≡◌, ap, sym, ◌∙◌, Lacks}
use verm.Errors.{ok}
use verm.Storage.{Storage}
use verm.Stream.{Stream, encoding_decoder}
use verm.Host.{Host}
use verm.UrlPath.{clean}
use verm.Upload.{upload_file}
use verm.Upload.HashName.{encode_hash}
use verm.Upload.Types.{Request, Job}
use verm.Upload.Opening.{choose_input, strip_encoding, unpack}
use verm.Upload.Opening.Opened.{split_location_ok}
use verm.Upload.Success.{upload_file_ok, first_location_ok}

-- The path of the request is a directory, the name for the hash of the decoded body, and an ending
-- without a slash.
pub record IsVerified (h : Host) (types : Bytes → Bytes) (req : Request) : Type 0 where
  pub input : Stream × Bytes
  pub tee : Stream
  pub encoding : Bytes
  pub decoded : Stream
  pub contents : Stream
  pub prefix : Bytes
  pub dir : Bytes
  pub dst : Bytes
  pub tail : Bytes
  pub chosen : choose_input h types req ≡ ok input
  pub stripped :
      strip_encoding h types (types input.1) req.content_encoding input.0 ≡ ok (tee, encoding)
  pub decodes : encoding_decoder h.gunzip encoding tee ≡ ok decoded
  pub unpacks : unpack h types (types input.1) decoded ≡ ok contents
  pub complete : contents.fails ≡ false
  pub named : encode_hash (h.sha256 contents.bytes) ≡ some (dir, dst)
  pub path_eq : clean req.path ≡ (prefix ++ (dir ++ dst)) ++ tail
  pub tail_name : Lacks b'/' tail

module _ (h : Host) (types : Bytes → Bytes) (fuel : ℕ) (root : Bytes) (req : Request) (s : Storage)
    (l : Bytes) (new : Bool) (s' : Storage) (jobs : List Job) where
  -- A PUT that succeeds has a path of the form directory, hash name, and an ending without a slash,
  -- where the hash is that of the decoded contents of its own body, read to the end without an error: contents that do
  -- not match their name are never stored.
  pub upload_file-IsVerified :
      upload_file h types fuel root req true s ≡ some (ok (l, new), s', jobs)
      → IsVerified h types req
  upload_file-IsVerified e =
      let r = upload_file_ok h types fuel root req true s l new s' jobs e in
      let input = r.opened.input in
      let (same, nonempty) = split_location_ok (clean req.path) _ r.opened.path r.opened.split_eq in
      let first = first_location_ok h r.up _ r.run.first r.run.located in
      let (given, lacks) = first.given nonempty in
      let ext : r.up.extension ≡ types input.chosen.1 =
        input.extension_eq ∙ ap types input.type_eq in
      record {
        input = input.chosen;
        tee = input.tee;
        encoding = r.up.encoding;
        decoded = input.decoded;
        contents = r.up.input;
        prefix = r.up.path;
        dir = r.run.dir;
        dst = r.run.dst;
        tail = first.tail;
        chosen = input.choose_eq;
        stripped = rw ext at input.strip_eq;
        decodes = input.decodes;
        unpacks = rw ext at input.unpacks;
        complete = r.read;
        named = r.run.named;
        path_eq = sym same ∙ sym given ∙ first.first_eq;
        tail_name = lacks;
      }
