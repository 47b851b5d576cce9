-- ===== src/Server/Read/Contents.antt =====
-- What the answers of the handlers that read are made of.
use xiaoya_qwen.Prelude.{
  ℕ, List, [], ◌∷◌, Bytes, Bool, true, false, Option, none, some, length, In, ◌≡◌, ◌≢◌, refl, sym,
  ap, ◌∙◌, subst, inl, inr, arith,
}
use xiaoya_qwen.Go.Strings.{trim_suffix, has_prefix}
use xiaoya_qwen.Go.Path
use xiaoya_qwen.Go.Path.{dir}
use xiaoya_qwen.Model.User.{User}
use xiaoya_qwen.Model.Meta.{Meta}
use xiaoya_qwen.Model.Objects.{Obj}
use xiaoya_qwen.Server.Check.{is_encrypt}
use xiaoya_qwen.Server.Page.{PageReq, validate, pagination}
use xiaoya_qwen.Server.Page.Members.{pagination-In, pagination-total}
use xiaoya_qwen.Server.Read.{
  Reads, Shown, shows, refused, panics, ListReq, FsListResp, DirResp, ObjResp, to_obj_resp,
  to_objs_resp, paged, list_objs, list_at,
}
use xiaoya_qwen.Server.Read.Get.{FsGetResp}

-- An entry has the name, the size, the kind and the time of an object.
pub record IsOf (x : Obj) (r : ObjResp) : Type 0 where
  pub name : r.name ≡ x.name
  pub size : r.size ≡ x.size
  pub is_dir : r.is_dir ≡ x.is_dir
  pub modified : r.modified ≡ x.mod_time

-- A file that filterRelated keeps: its name is another, and begins with that of the object without its extension.
unfoldable pub IsRelated : Obj → Obj → Type 0
IsRelated obj x =
    (x.name ≢ obj.name) × (has_prefix x.name (trim_suffix obj.name (Path.ext obj.name)) ≡ true)

module _ (e : Reads) where
  -- What fs.List answers for a path, its size, and entries of objects of it.
  pub Lists : Bytes → Option Meta → Bool → FsListResp → Type 0
  Lists path meta refresh r =
      (objs : List Obj) × (e.list meta path refresh ≡ some objs)
      × (r.total ≡ length objs)
      × ((o : ObjResp) → In o r.content → (x : Obj) × In x objs × IsOf x o)

  -- What fs.Get answers for a path; the related files are files of the directory above it, as
  -- fs.List answers them with the same meta.
  unfoldable pub Gets : Bytes → Option Meta → FsGetResp → Type 0
  Gets path meta r =
      (obj : Obj) × (e.get path ≡ some obj)
      × IsOf obj r.obj
      × ((o : ObjResp)
          → In o r.related
          → (objs : List Obj) × (e.list meta (dir path) false ≡ some objs)
            × (x : Obj) × In x objs
            × IsRelated obj x
            × IsOf x o)

  -- What fs.List answers for a path, and the folders of it.
  unfoldable pub Folders : Bytes → Option Meta → List DirResp → Type 0
  Folders path meta ds =
      (objs : List Obj) × (e.list meta path false ≡ some objs)
      × ((d : DirResp)
          → In d ds
          → (x : Obj) × In x objs
            × (x.is_dir ≡ true)
            × (d.name ≡ x.name)
            × (d.modified ≡ x.mod_time))

  pub to_objs_resp-IsOf :
      (objs : List Obj) (parent : Bytes) (encrypt : Bool) (o : ObjResp)
      → In o (to_objs_resp e objs parent encrypt)
      → (x : Obj) × In x objs × IsOf x o
  unfolding to_objs_resp to_obj_resp
  to_objs_resp-IsOf [] parent encrypt o i = elim i [ ]
  to_objs_resp-IsOf (x ∷ xs) parent encrypt o (inl same) = (
    x,
    inl refl,
    record {
      name = ap (λ (y : ObjResp). y.name) same;
      size = ap (λ (y : ObjResp). y.size) same;
      is_dir = ap (λ (y : ObjResp). y.is_dir) same;
      modified = ap (λ (y : ObjResp). y.modified) same;
    },
  )
  to_objs_resp-IsOf (x ∷ xs) parent encrypt o (inr i) =
      let (y, j, of) = to_objs_resp-IsOf xs parent encrypt o i in (y, inr j, of)

  total_of : Shown FsListResp → ℕ
  total_of (shows r) = r.total
  total_of (refused code) = 0
  total_of panics = 0

  content_of : Shown FsListResp → List ObjResp
  content_of (shows r) = r.content
  content_of (refused code) = []
  content_of panics = []

  paged-Lists :
      (user : User) (path : Bytes) (meta : Option Meta) (req : PageReq) (objs : List Obj)
      (r : FsListResp) (page : Option (ℕ × List Obj))
      → pagination objs req ≡ page
      → paged e user path meta page ≡ shows r
      → (r.total ≡ length objs)
        × ((o : ObjResp) → In o r.content → (x : Obj) × In x objs × IsOf x o)
  unfolding paged total_of content_of
  paged-Lists user path meta req objs r none p h = absurd (cc)
  paged-Lists user path meta req objs r (some (total, shown)) p h = (
    sym (ap total_of h) ∙ pagination-total objs shown req total p,
    (λ o i.
        let (x, j, of) =
          to_objs_resp-IsOf shown path (is_encrypt meta path) o
            (subst (λ (c : List ObjResp). In o c) (sym (ap content_of h)) i) in
        (x, pagination-In x objs shown req total p j, of)),
  )

  list_objs-Lists :
      (user : User) (path : Bytes) (meta : Option Meta) (req : PageReq) (refresh : Bool)
      (r : FsListResp) (found : Option (List Obj))
      → e.list meta path refresh ≡ found
      → list_objs e user path meta req found ≡ shows r
      → Lists path meta refresh r
  unfolding list_objs Lists
  list_objs-Lists user path meta req refresh r none l h = absurd (cc)
  list_objs-Lists user path meta req refresh r (some objs) l h =
      let (total, content) = paged-Lists user path meta req objs r (pagination objs req) refl h in
      (objs, l, total, content)

  pub list_at-Lists :
      (user : User) (req : ListReq) (path : Bytes) (meta : Option Meta) (r : FsListResp)
      → list_at e user req path meta ≡ shows r
      → Lists path meta req.refresh r
  unfolding list_at
  list_at-Lists user req path meta r h =
      list_objs-Lists user path meta (validate req.page_req) req.refresh r
        (e.list meta path req.refresh) refl (ground arith)
