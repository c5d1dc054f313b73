-- ===== src/Upload/Finish/Within.antt =====
-- `Finish` keeps every file but its temporary one, whatever it returns.
use verm.Prelude.{
  ℕ, Bool, true, false, Option, none, some, List, ◌++◌, Bytes, ◌≡◌, refl, Bool-cases, inl, inr,
  bytes_eq,
}
use verm.Errors.{Result, ok, err}
use verm.Storage.{Node, Storage, find, remove, Keeps}
use verm.Storage.Laws.{find-remove}
use verm.Host.{Host, IsHost}
use verm.Upload.Types.{FileUpload, Job}
use verm.Upload.Finish.{attempt_loop, conclude, concluded, place, finish_at, finish}
use verm.Upload.Finish.WriteOnce.{attempt_loop-Keeps}

-- Every file of the one but the file at `t` is in the other.
abbrev pub KeepsBut : Bytes → Storage → Storage → Type 0
KeepsBut t s u =
    (p : Bytes) (n : Node) → bytes_eq t p ≡ false → find p s ≡ some n → find p u ≡ some n

pub KeepsBut-remove : (t : Bytes) (s u : Storage) → KeepsBut t s u → KeepsBut t s (remove t u)
KeepsBut-remove t s u k p n ne e = rw (find-remove, ne) (k p n ne e)

KeepsBut-of_Keeps : (t : Bytes) (s u : Storage) → Keeps s u → KeepsBut t s u
KeepsBut-of_Keeps t s u k p n ne e = k p n e

abbrev pub Reply : Type 0
Reply = Result (Bytes × Bool) × Storage × List Job

-- What an outcome says of the files.
abbrev pub Within : Bytes → Storage → Option Reply → Type 0
Within t s none = Unit
Within t s (some (r, u, jobs)) = KeepsBut t s u

module _ {h : Host} (w : IsHost h) where
  module _ (fuel : ℕ) (up : FileUpload) (s : Storage) where
    conclude-Within :
        (r : Result (Bytes × Bool)) (u : Storage)
        → Keeps s u
        → Within up.temp_name s (some (conclude h up r u))
    unfolding conclude
    conclude-Within (err e) u k = KeepsBut-of_Keeps up.temp_name s u k
    conclude-Within (ok (l, true)) u k =
        KeepsBut-remove up.temp_name s u (KeepsBut-of_Keeps up.temp_name s u k)
    conclude-Within (ok (l, false)) u k =
        KeepsBut-remove up.temp_name s u (KeepsBut-of_Keeps up.temp_name s u k)

    concluded-Within :
        (stem l : Bytes) (o : Option (Result (Bytes × Bool) × Storage))
        → attempt_loop h up stem fuel 1 l s ≡ o
        → Within up.temp_name s (concluded h up o)
    unfolding concluded
    concluded-Within stem l none e = tt
    concluded-Within stem l (some (r, u)) e =
        conclude-Within r u (attempt_loop-Keeps w up stem fuel 1 l s u r e)

    place-Within :
        (stem : Bytes) (r : Result Bytes) → Within up.temp_name s (place h fuel up stem s r)
    unfolding place
    place-Within stem (err e) = λ p n ne q. q
    place-Within stem (ok l) = concluded-Within stem l _ refl

    finish_at-Within :
        (o : Option (Bytes × Bytes)) → Within up.temp_name s (finish_at h fuel up s o)
    unfolding finish_at
    finish_at-Within none = tt
    finish_at-Within (some (dir, dst)) =
        elim (Bool-cases (h.mkdir_fails (up.root ++ (up.path ++ dir)))) [
          | inl e ↦ rw e (λ p n ne q. q)
          | inr e ↦ rw e (place-Within _ _)
        ]

    -- `Finish` keeps every file but the temporary one, whatever it returns.
    pub finish-Within : Within up.temp_name s (finish h fuel up s)
    unfolding finish
    finish-Within = finish_at-Within _
