-- ===== src/Server/Read/Signed.antt =====
-- Whether the signatures that a list shows are those that a download wants.
use xiaoya_qwen.Prelude.{
  ℕ, List, [], ◌∷◌, ◌++◌, Bytes, Bool, true, false, ◌&&◌, not, Option, none, some, In, All-append,
  Lacks, map, ◌≡◌, ◌≢◌, refl, sym, ap, ◌∙◌, subst, arith, Bool-cases, inl, inr, codes, beq_iff,
}
use xiaoya_qwen.Go.Strings.{trim_suffix}
use xiaoya_qwen.Go.Path.{IsName, join_paths, join_paths-name, absolute}
use xiaoya_qwen.Utils.Path.{fix_and_clean_path}
use xiaoya_qwen.Utils.Path.Clean.{
  names, names-AllNames, names-Lacks, names-absolute, fix_and_clean_path-absolute,
}
use xiaoya_qwen.Utils.Path.JoinBase.{join_base_path-some}
use xiaoya_qwen.Model.User.{User, join_path}
use xiaoya_qwen.Model.Meta.{Meta}
use xiaoya_qwen.Model.Objects.{Obj}
use xiaoya_qwen.Server.Check.{need_sign, is_encrypt}
use xiaoya_qwen.Server.Page.{PageReq, validate, pagination}
use xiaoya_qwen.Server.Manage.{NearestMeta, nearest}
use xiaoya_qwen.Server.Manage.Confined.{IsPlain}
use xiaoya_qwen.Server.Down.{check_sign, down_signed}
use xiaoya_qwen.Server.Read.Permitted.{at_path-Sees}
use xiaoya_qwen.Server.Read.{
  Reads, Shown, shows, refused, panics, ListReq, FsListResp, ObjResp, sign_obj, to_obj_resp,
  to_objs_resp, paged, list_objs, list_at, at_path, at_joined, fs_list,
}

-- A plain name below a joined path is spelled as FixAndCleanPath spells it.
child-clean :
    (base req d n : Bytes)
    → d ≡ absolute (names base ++ names req)
    → IsPlain n
    → fix_and_clean_path (join_paths d n) ≡ join_paths d n
child-clean base req d n e h =
    let ps = names base ++ names req in
    let hp =
      All-append IsName (names base) (names req) (names-AllNames base) (names-AllNames req) in
    let lp =
      All-append (Lacks b'\\') (names base) (names req) (names-Lacks base) (names-Lacks req) in
    rw (e, join_paths-name ps n hp h.name)
      (fix_and_clean_path-absolute (absolute (ps ++ n ∷ []))
        ∙ ap absolute (
            names-absolute (ps ++ n ∷ []) (All-append IsName ps (n ∷ []) hp (h.name, tt))
              (All-append (Lacks b'\\') ps (n ∷ []) lp (h.no_backslash, tt))))

-- A download wants a signature at a path only if the list above it shows one, where the meta is not at the path itself.
need_sign-covered :
    (sign_all : Bool) (meta : Option Meta) (d p : Bytes)
    → ((m : Meta) → meta ≡ some m → m.path ≢ p)
    → need_sign sign_all meta p ≡ true
    → (not (is_encrypt meta d) && not sign_all) ≡ false
unfolding need_sign is_encrypt
need_sign-covered true meta d p other h = ground arith
need_sign-covered false none d p other h = cc
need_sign-covered false (some m) d p other h = ground (arith, other m refl, beq_iff p m.path)

map-In : {A B : Type 0} → (f : A → B) (xs : List A) (b : B) → In b (map f xs) → (a : A) × (b ≡ f a)
map-In f [] b i = elim i [ ]
map-In f (x ∷ xs) b (inl e) = (x, e)
map-In f (x ∷ xs) b (inr i) = map-In f xs b i

content_of : Shown FsListResp → List ObjResp
content_of (shows r) = r.content
content_of (refused code) = []
content_of panics = []

module _ (e : Reads) (user : User) (r : FsListResp) (o : ObjResp) where
  -- An object that is shown is one of the directory.
  abbrev Entry : Bytes → Option Meta → Type 0
  Entry d meta = (x : Obj) × (o ≡ to_obj_resp e d (is_encrypt meta d) x)

  paged-Entry :
      (d : Bytes) (meta : Option Meta) (page : Option (ℕ × List Obj))
      → paged e user d meta page ≡ shows r
      → In o r.content
      → Entry d meta
  unfolding paged to_objs_resp content_of
  paged-Entry d meta none h i = cc
  paged-Entry d meta (some (total, objs)) h i =
      map-In (to_obj_resp e d (is_encrypt meta d)) objs o
        (subst (λ (c : List ObjResp). In o c) (sym (ap content_of h)) i)

  list_objs-Entry :
      (d : Bytes) (meta : Option Meta) (req : PageReq) (objs : Option (List Obj))
      → list_objs e user d meta req objs ≡ shows r
      → In o r.content
      → Entry d meta
  unfolding list_objs
  list_objs-Entry d meta req none h i = cc
  list_objs-Entry d meta req (some objs) h i = paged-Entry d meta (pagination objs req) h i

  list_at-Entry :
      (req : ListReq) (d : Bytes) (meta : Option Meta)
      → list_at e user req d meta ≡ shows r
      → In o r.content
      → Entry d meta
  unfolding list_at
  list_at-Entry req d meta h i =
      list_objs-Entry d meta (validate req.page_req) (e.list meta d req.refresh) (ground arith) i

  module _ (verify : Bytes → Bytes → Bool) where
    -- The signature of an entry that is no directory.
    sign_obj-Passes :
        (d : Bytes) (meta : Option Meta) (x : Obj) (found : NearestMeta)
        → ((p : Bytes) → verify p (trim_suffix (e.sign p) (codes "/")) ≡ true)
        → x.is_dir ≡ false
        → found ≡ nearest meta
        → ((m : Meta) → meta ≡ some m → m.path ≢ join_paths d x.name)
        → check_sign e.sign_all verify found
            (join_paths d x.name)
            (sign_obj e x d (is_encrypt meta d))
          ≡ record { path = join_paths d x.name; written = none; aborted = false }
    unfolding check_sign sign_obj
    sign_obj-Passes d meta x found right file same other =
        rw (same, file)
          (elim (Bool-cases (need_sign e.sign_all meta (join_paths d x.name))) [
            | inl n ↦
                let c = need_sign-covered e.sign_all meta d (join_paths d x.name) other n in
                rw (n, c, right (join_paths d x.name)) refl
            | inr n ↦ rw n refl
          ])

    -- The request that a link to the entry makes passes Down.
    abbrev pub Passes : Bytes → Type 0
    Passes d =
        down_signed e.sign_all verify e.metas (join_paths d o.name) o.sign
        ≡ record { path = join_paths d o.name; written = none; aborted = false }

    entry-Passes :
        (d : Bytes) (meta : Option Meta)
        → ((p : Bytes) → verify p (trim_suffix (e.sign p) (codes "/")) ≡ true)
        → Entry d meta
        → o.is_dir ≡ false
        → fix_and_clean_path (join_paths d o.name) ≡ join_paths d o.name
        → e.metas (join_paths d o.name) ≡ nearest meta
        → ((m : Meta) → meta ≡ some m → m.path ≢ join_paths d o.name)
        → Passes d
    unfolding down_signed to_obj_resp
    entry-Passes d meta right (x, same) file spelled found other =
        let name : o.name ≡ x.name = ap (λ (y : ObjResp). y.name) same in
        let sign : o.sign ≡ sign_obj e x d (is_encrypt meta d) =
          ap (λ (y : ObjResp). y.sign) same in
        rw (spelled, name, sign)
          (sign_obj-Passes d meta x (e.metas (join_paths d x.name)) right
            (sym (ap (λ (y : ObjResp). y.is_dir) same) ∙ file)
            (ap (λ n. e.metas (join_paths d n)) (sym name) ∙ found)
            (λ m h q. other m h (q ∙ ap (join_paths d) (sym name))))

    listed-Entry :
        (req : ListReq) (d : Bytes) (meta : Option Meta)
        → fs_list e user (some req) ≡ shows r
        → In o r.content
        → join_path user req.path ≡ some d
        → e.metas d ≡ nearest meta
        → Entry d meta
    unfolding fs_list at_joined
    listed-Entry req d meta shown i joined near =
        let at : at_path e user d req.password (list_at e user req d) ≡ shows r =
          sym (ap (at_joined e user req.password (list_at e user req)) joined) ∙ shown in
        let (meta', (m, _), got) = at_path-Sees e user d req.password (list_at e user req d) r at in
        let same : meta' ≡ meta = cc in
        list_at-Entry req d meta (ap (list_at e user req d) (sym same) ∙ got) i

    -- If a signature is right for the data that was signed, then what FsList shows as a file, with
    -- a plain name and no meta of its own, the nearest one being that of the directory, is let
    -- through by the middleware of the downloads with the signature that the list gives for it,
    -- whether it needs one or not.
    pub listed-Passes :
        (req : ListReq) (d : Bytes) (meta : Option Meta)
        → ((p : Bytes) → verify p (trim_suffix (e.sign p) (codes "/")) ≡ true)
        → fs_list e user (some req) ≡ shows r
        → In o r.content
        → o.is_dir ≡ false
        → IsPlain o.name
        → join_path user req.path ≡ some d
        → e.metas d ≡ nearest meta
        → e.metas (join_paths d o.name) ≡ nearest meta
        → ((m : Meta) → meta ≡ some m → m.path ≢ join_paths d o.name)
        → Passes d
    unfolding join_path
    listed-Passes req d meta right shown i file plain joined near found other =
        entry-Passes d meta right (listed-Entry req d meta shown i joined near) file
          (child-clean user.base_path req.path d o.name
            (join_base_path-some user.base_path req.path d joined) plain)
          found other
