-- ===== src/Upload/Location.antt =====
-- The location that a POST returns is a clean path below the directory of the request.
use verm.Prelude.{
  ℕ, ◌≤◌, Bool, false, some, List, [], ◌∷◌, ◌++◌, Bytes, ◌≡◌, ◌≢◌, refl, ap, sym, ◌∙◌, subst,
  Bool-cases, inl, inr, arith, append-nil, append_assoc, codes, All, All-append, Lacks, length, leb,
  length-append,
}
use verm.Errors.{ok, ok_inj}
use verm.Storage.{Storage}
use verm.Host.{Host, IsHost}
use verm.UrlPath.{clean, render, slash}
use verm.UrlPath.Clean.{
  IsNormal, IsClean, clean-IsClean, letter-IsNormal, render-append, render-IsClean, IsClean-cases,
}
use verm.Upload.{upload_file}
use verm.Upload.Types.{Request, Job}
use verm.Upload.HashName.Shape.{IsHashName, IsFirstChar, IsNameChar}
use verm.Upload.Opening.{or_default, split_location}
use verm.Upload.Success.{upload_file_ok}
use verm.Upload.ContentAddressed.{stored, shape}

default-IsNormal : IsNormal (codes "default")
default-IsNormal = letter-IsNormal b'd' (codes "efault") (omega arith) (omega arith) (ground arith)

-- The directory of an upload is a chain of proper names.
or_default-IsNormal :
    (q : Bytes)
    → IsClean q
    → (parts : List Bytes) × (or_default q ≡ render parts) × All IsNormal parts
unfolding or_default render
or_default-IsNormal q h = elim (Bool-cases (leb (length q) 1)) [
  | inl e ↦ (codes "default" ∷ [], rw e refl, (default-IsNormal, tt))
  | inr e ↦ elim (IsClean-cases h) [
    | inl p ↦ absurd (ground (arith, p))
    | inr (c, cs, p, n) ↦ (c ∷ cs, rw e p, n)
  ]
]

first_plain : (c : ℕ) → IsFirstChar c → (c ≢ b'.') × (c ≢ b'/')
first_plain c h = (ground arith, ground arith)

name_plain : (c : ℕ) → IsNameChar c → c ≢ b'/'
name_plain c h = ground arith

names_plain : (s : Bytes) → All IsNameChar s → Lacks b'/' s
names_plain [] h = tt
names_plain (c ∷ s) h = (name_plain c h.0, names_plain s h.1)

-- The names below the directory.
located-IsClean :
    (parts : List Bytes) (dir dst tail : Bytes)
    → All IsNormal parts
    → IsHashName dir dst
    → Lacks b'/' tail
    → IsClean ((render parts ++ (dir ++ dst)) ++ tail)
located-IsClean parts dir dst tail n h lacks =
    let (dot, slash) = first_plain h.x h.x_first in
    let (dot', slash') = first_plain h.z h.z_first in
    let names : All IsNormal ((h.x ∷ h.y ∷ []) ∷ (h.z ∷ (h.rest ++ tail)) ∷ []) = (
      letter-IsNormal h.x (h.y ∷ []) dot slash (name_plain h.y h.y_char, tt),
      (
        letter-IsNormal h.z (h.rest ++ tail) dot' slash'
            (All-append (λ b. b ≢ b'/') h.rest tail (names_plain h.rest h.rest_chars) lacks),
        tt,
      ),
    ) in
    subst IsClean path_eq (chained parts n names)
  where
    chained :
        (xs : List Bytes)
        → All IsNormal xs
        → All IsNormal ((h.x ∷ h.y ∷ []) ∷ (h.z ∷ (h.rest ++ tail)) ∷ [])
        → IsClean (render (xs ++ (h.x ∷ h.y ∷ []) ∷ (h.z ∷ (h.rest ++ tail)) ∷ []))
    chained [] n k = render-IsClean _ _ k
    chained (c ∷ cs) n k = render-IsClean c _ (n.0, All-append IsNormal cs _ n.1 k)

    path_eq :
        render (parts ++ (h.x ∷ h.y ∷ []) ∷ (h.z ∷ (h.rest ++ tail)) ∷ [])
        ≡ (render parts ++ (dir ++ dst)) ++ tail
    path_eq =
        render-append parts _
        ∙ ap (λ s. render parts ++ s) names_eq
        ∙ sym (append_assoc (render parts) (dir ++ dst) tail)
      where
        names_eq : render ((h.x ∷ h.y ∷ []) ∷ (h.z ∷ (h.rest ++ tail)) ∷ []) ≡ (dir ++ dst) ++ tail
        names_eq = unfold render in rw (h.dir_eq, h.dst_eq, append-nil) refl

located_long :
    (path dir dst tail : Bytes) → IsHashName dir dst → 40 ≤ length ((path ++ (dir ++ dst)) ++ tail)
located_long path dir dst tail h =
    rw (length-append, length-append, length-append, h.dst_eq) (ground (arith, h.rest_length))

-- The location is clean, and has at least 40 characters, if no extension has a slash.
pub record IsLocation (l : Bytes) : Type 0 where
  pub is_clean : IsClean l
  pub long : 40 ≤ length l

module _ {h : Host} (w : IsHost h) (types : Bytes → Bytes) (fuel : ℕ) (root : Bytes) (req : Request)
    (s : Storage) (l : Bytes) (new : Bool) (s' : Storage) (jobs : List Job) where
  pub upload_file-IsLocation :
      (p : Bytes)
      → req.path ≡ b'/' ∷ p
      → ((t : Bytes) → Lacks b'/' (types t))
      → upload_file h types fuel root req false s ≡ some (ok (l, new), s', jobs)
      → IsLocation l
  unfolding split_location
  upload_file-IsLocation p rooted lacks e =
      let r = upload_file_ok h types fuel root req false s l new s' jobs e in
      let st = stored w types fuel root req false s l new s' jobs r in
      let name = shape w types fuel root req false s l new s' jobs r in
      let (parts, parts_eq, normal) =
        or_default-IsNormal (clean req.path)
          (subst (λ q. IsClean (clean q)) (sym rooted) (clean-IsClean p)) in
      let path_eq : r.up.path ≡ render parts =
        r.opened.input.path_eq
        ∙ ap or_default (sym (ap (λ (x : Bytes × Bytes). x.1) (ok_inj r.opened.split_eq)))
        ∙ parts_eq in
      let tail_lacks =
        st.tail_lacks (subst (Lacks b'/') (sym r.opened.input.extension_eq) (lacks _)) in
      let l_eq = st.location_eq in
      record {
        is_clean =
            subst IsClean
              (ap (λ q. (q ++ (r.run.dir ++ r.run.dst)) ++ st.tail) (sym path_eq) ∙ sym l_eq)
              (located-IsClean parts r.run.dir r.run.dst st.tail normal name tail_lacks);
        long =
            subst (λ q. 40 ≤ length q) (sym l_eq)
              (located_long r.up.path r.run.dir r.run.dst st.tail name);
      }
