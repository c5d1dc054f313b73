-- ===== src/Upload/Success.antt =====
-- What a successful upload has stored: a file named after the hash of its contents.
use verm.Prelude.{
  ℕ, Bool, true, false, Option, none, some, List, [], ◌++◌, Bytes, ◌≡◌, ◌≢◌, refl, ◌∙◌, Bool-cases,
  inl, inr, arith, if◌then◌else◌, bytes_eq, bytes_eq_iff, length, drop, Lacks, has_prefix,
  has_prefix→append, contains_byte→Lacks,
}
use verm.Errors.{Result, ok, err, read_failed, write_failed}
use verm.Storage.{Storage, file, add, remove}
use verm.Host.{Host}
use verm.Upload.{close, copy_and_finish, after_open, upload_file}
use verm.Upload.Types.{FileUpload, Request, Job}
use verm.Upload.Finish.{finish, first_location}
use verm.Upload.Finish.Inversion.{Run, finish_ok}
use verm.Upload.Finish.Within.{Reply}
use verm.Upload.Opening.{file_uploader}
use verm.Upload.Opening.Opened.{IsOpened, file_uploader_ok}

-- The first location begins with the name of the content; for a PUT it is the path of the request,
-- and what follows the name in it holds no slash.
pub record IsFirst (up : FileUpload) (stem first : Bytes) : Type 0 where
  pub tail : Bytes
  pub first_eq : first ≡ stem ++ tail
  pub lacks : Lacks b'/' up.extension → Lacks b'/' tail
  pub given : up.location ≢ [] → (first ≡ up.location) × Lacks b'/' tail

pub first_location_ok :
    (h : Host) (up : FileUpload) (stem first : Bytes)
    → first_location h up stem ≡ ok first
    → IsFirst up stem first
unfolding first_location
first_location_ok h up stem first e = elim (Bool-cases (bytes_eq up.location [])) [
  | inl p ↦ record {
    tail = up.extension;
    first_eq = ground arith;
    lacks = λ h. h;
    given = λ q. absurd (q ((bytes_eq_iff up.location []).0 p));
  }
  | inr p ↦ elim (Bool-cases (has_prefix up.location stem)) [
    | inl q ↦ record {
      tail = drop (length stem) up.location;
      first_eq = ground (arith, has_prefix→append up.location stem q);
      lacks = λ h. contains_byte→Lacks (drop (length stem) up.location) b'/' (ground arith);
      given = λ _.
          (ground arith, contains_byte→Lacks (drop (length stem) up.location) b'/' (ground arith));
    }
    | inr q ↦ absurd (ground arith)
  ]
]

-- The run of a successful upload.
pub record UploadRun (h : Host) (types : Bytes → Bytes) (fuel : ℕ) (root : Bytes) (req : Request)
    (rep : Bool) (s : Storage) (l : Bytes) (new : Bool) (s' : Storage) (jobs : List Job)
    : Type 0 where
  pub up : FileUpload
  pub opened_files : Storage
  pub finished : Storage
  pub opened : IsOpened h types root req rep s up opened_files
  pub read : up.input.fails ≡ false
  pub run :
      Run h fuel up
        (add up.temp_name (file up.content) (remove up.temp_name opened_files))
        l
        new
        finished
        jobs
  pub files : s' ≡ remove up.temp_name finished

module _ (h : Host) (types : Bytes → Bytes) (fuel : ℕ) (root : Bytes) (req : Request) (rep : Bool)
    (s : Storage) (l : Bytes) (new : Bool) (s' : Storage) (jobs : List Job) where
  abbrev success : Option Reply
  success = some (ok (l, new), s', jobs)

  after_open_ok :
      (r : Result FileUpload) (u : Storage)
      → file_uploader h types root req rep s ≡ (r, u)
      → after_open h types fuel r u ≡ success
      → UploadRun h types fuel root req rep s l new s' jobs
  unfolding after_open copy_and_finish
  after_open_ok (err e) u q p = ground arith
  after_open_ok (ok up) u q p = branch up.input.fails (h.write_fails up.temp_name) refl p
    where
      written : Storage
      written = add up.temp_name (file up.content) (remove up.temp_name u)

      closed_reply :
          (r : Result (Bytes × Bool)) (v : Storage) (js : List Job)
          → close up (some (r, v, js)) ≡ success
          → ◌≡◌ {A = Option Reply} (some (r, v, js)) (some (ok (l, new), v, jobs))
      closed_reply r v js p = unfold close in ground arith

      closed_files :
          (r : Result (Bytes × Bool)) (v : Storage) (js : List Job)
          → close up (some (r, v, js)) ≡ success
          → s' ≡ remove up.temp_name v
      closed_files r v js p = unfold close in ground arith

      closed :
          (o : Option Reply)
          → finish h fuel up written ≡ o
          → up.input.fails ≡ false
          → close up o ≡ success
          → UploadRun h types fuel root req rep s l new s' jobs
      closed none e f p = unfold close in cc
      closed (some (r, v, js)) e f p = record {
        up = up;
        opened_files = u;
        finished = v;
        opened = file_uploader_ok h types root req rep s up u q;
        read = f;
        run = finish_ok h fuel up written l new v jobs (e ∙ closed_reply r v js p);
        files = closed_files r v js p;
      }

      branch :
          (b c : Bool)
          → up.input.fails ≡ b
          → close up (
              if b
              then some (err read_failed, u, [])
              else if c
              then some (err write_failed, u, [])
              else finish h fuel up written)
            ≡ success
          → UploadRun h types fuel root req rep s l new s' jobs
      branch true c f p = unfold close in ground arith
      branch false true f p = unfold close in ground arith
      branch false false f p = closed _ refl f p

  pub upload_file_ok :
      upload_file h types fuel root req rep s ≡ success
      → UploadRun h types fuel root req rep s l new s' jobs
  unfolding upload_file
  upload_file_ok e = after_open_ok _ _ refl e
