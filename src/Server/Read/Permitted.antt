-- ===== src/Server/Read/Permitted.antt =====
-- Who is shown what by the handlers that read.
use xiaoya_qwen.Prelude.{
  List, Bytes, Bool, true, false, ◌||◌, not, Option, none, some, ◌≡◌, refl, ◌⊎◌, inl, inr, arith,
  Bool-cases,
}
use xiaoya_qwen.Utils.Path.{is_sub_path}
use xiaoya_qwen.Utils.Path.JoinBase.{join_base_path-is_sub_path}
use xiaoya_qwen.Model.User.{User, can_write, is_admin, join_path}
use xiaoya_qwen.Model.Meta.{Meta}
use xiaoya_qwen.Server.Check.{can_access, meta_can_write}
use xiaoya_qwen.Server.Manage.{NearestMeta, nearest, meta_error}
use xiaoya_qwen.Server.Read.{
  Reads, Shown, shows, ListReq, DirReq, FsListResp, DirResp, accessed, with_meta, at_path,
  at_joined, list_at, fs_list, dirs_at, fs_dirs,
}
use xiaoya_qwen.Server.Read.Contents.{Lists, Gets, Folders, list_at-Lists}
use xiaoya_qwen.Server.Read.Found.{get_at-Gets, other_at-some, dirs_at-Folders}
use xiaoya_qwen.Server.Read.Get.{FsGetReq, FsGetResp, get_at, fs_get, other_at, fs_other}

-- A request to one of the handlers, and what it may be answered with.
pub data Asked : Type 0 where
  asks_list : ListReq → Asked
  asks_get : FsGetReq → Asked
  asks_other : FsGetReq → Asked
  asks_dirs : DirReq → Asked

abbrev pub Answer : Asked → Type 0
Answer (asks_list req) = FsListResp
Answer (asks_get req) = FsGetResp
Answer (asks_other req) = Bytes
Answer (asks_dirs req) = List DirResp

module _ (e : Reads) (user : User) where
  unfoldable pub answer : (asked : Asked) → Shown (Answer asked)
  answer (asks_list req) = fs_list e user (some req)
  answer (asks_get req) = fs_get e user (some req)
  answer (asks_other req) = fs_other e user (some req)
  answer (asks_dirs req) = fs_dirs e user (some req)

  -- The user may see a path with a password, by its nearest meta, whose lookup succeeded.
  abbrev pub Sees : Bytes → Bytes → Option Meta → Type 0
  Sees password path meta =
      (e.metas path ≡ nearest meta) × (can_access e.regexp user meta path password ≡ some true)

  -- The user may see a path with a password, and something holds of the path and its nearest meta.
  abbrev pub SeesAt : Bytes → Bytes → (Option Meta → Type 0) → Type 0
  SeesAt password path P = (meta : Option Meta) × Sees password path meta × P meta

  -- A path below the user's base path that the user may see.
  abbrev pub Below : Bytes → (Bytes → Option Meta → Type 0) → Type 0
  Below password P =
      (path : Bytes) × (is_sub_path user.base_path path ≡ true) × SeesAt password path (P path)

  accessed-shows :
      {A : Type 0}
      → (access : Option Bool) (rest : Shown A) (a : A) → accessed e access rest ≡ shows a
      → (access ≡ some true) × (rest ≡ shows a)
  unfolding accessed
  accessed-shows none rest a h = cc
  accessed-shows (some false) rest a h = cc
  accessed-shows (some true) rest a h = (refl, h)

  with_meta-Sees :
      {A : Type 0}
      → (path password : Bytes) (rest : Option Meta → Shown A) (a : A) (found : NearestMeta)
      → e.metas path ≡ found
      → with_meta e user path password rest found ≡ shows a
      → SeesAt password path (λ meta. rest meta ≡ shows a)
  unfolding with_meta
  with_meta-Sees path password rest a meta_error m h = cc
  with_meta-Sees path password rest a (nearest meta) m h =
      let (access, r) =
        accessed-shows (can_access e.regexp user meta path password) (rest meta) a h in
      (meta, (m, access), r)

  pub at_path-Sees :
      {A : Type 0}
      → (path password : Bytes) (rest : Option Meta → Shown A) (a : A)
      → at_path e user path password rest ≡ shows a
      → SeesAt password path (λ meta. rest meta ≡ shows a)
  unfolding at_path
  at_path-Sees path password rest a h = with_meta-Sees path password rest a (e.metas path) refl h

  at_joined-Below :
      {A : Type 0}
      → (raw password : Bytes) (rest : Bytes → Option Meta → Shown A) (a : A)
        (joined : Option Bytes)
      → join_path user raw ≡ joined
      → at_joined e user password rest joined ≡ shows a
      → Below password (λ path meta. rest path meta ≡ shows a)
  unfolding at_joined join_path
  at_joined-Below raw password rest a none j h = cc
  at_joined-Below raw password rest a (some path) j h = (
    path,
    (join_base_path-is_sub_path user.base_path raw path j).0,
    at_path-Sees path password (rest path) a h,
  )

  -- A list that is refreshed is one that the user may write.
  list_at-refresh :
      (req : ListReq) (path : Bytes) (meta : Option Meta) (r : FsListResp)
      → list_at e user req path meta ≡ shows r
      → (not req.refresh || (can_write user || meta_can_write meta path)) ≡ true
  unfolding list_at
  list_at-refresh req path meta r h = ground arith

  Below-map :
      {P R : Bytes → Option Meta → Type 0} (password : Bytes)
      → ((path : Bytes) (meta : Option Meta) → P path meta → R path meta)
      → Below password P
      → Below password R
  Below-map password f (path, sub, (meta, sees, p)) = (path, sub, (meta, sees, f path meta p))

  dirs-Below :
      (req : DirReq) (ds : List DirResp)
      → fs_dirs e user (some req) ≡ shows ds
      → ((req.force_root ≡ true)
          × (is_admin user ≡ true)
          × SeesAt req.password req.path (λ meta. Folders e req.path meta ds))
        ⊎ Below req.password (λ path meta. Folders e path meta ds)
  unfolding fs_dirs
  dirs-Below req ds h = elim (Bool-cases req.force_root) [
    | inl root ↦ elim (Bool-cases (is_admin user)) [
      | inl admin ↦
          let (meta, sees, shown) =
            at_path-Sees req.path req.password (dirs_at e req.path) ds (ground arith) in
          inl (root, admin, (meta, sees, dirs_at-Folders e req.path meta ds shown))
      | inr nobody ↦ absurd (ground arith)
    ]
    | inr other ↦ inr (
        Below-map req.password (λ path meta. dirs_at-Folders e path meta ds)
          (at_joined-Below req.path req.password (dirs_at e) ds (join_path user req.path) refl
            (ground arith)))
  ]

  -- What a handler that shows `a` has shown, and to whom.
  abbrev pub Permits : (asked : Asked) → Answer asked → Type 0
  Permits (asks_list req) r = Below req.password (λ path meta.
      Lists e path meta req.refresh r
      × ((not req.refresh || (can_write user || meta_can_write meta path)) ≡ true))
  Permits (asks_get req) r = Below req.password (λ path meta. Gets e path meta r)
  Permits (asks_other req) r = Below req.password (λ path meta. e.other path ≡ some r)
  Permits (asks_dirs req) ds =
      ((req.force_root ≡ true)
        × (is_admin user ≡ true)
        × SeesAt req.password req.path (λ meta. Folders e req.path meta ds))
      ⊎ Below req.password (λ path meta. Folders e path meta ds)

  -- If FsList, FsGet, FsOther or FsDirs shows something, then there is a path below the user's
  -- base path, which the user may see with the password of the request, by its nearest meta,
  -- whose lookup succeeded, and of this path it is: the entries of FsList are objects that
  -- fs.List answers for it, and the total is their number; the object of FsGet is what fs.Get
  -- answers for it; the text of FsOther is what fs.Other answers for it; and the folders of
  -- FsDirs are folders that fs.List answers for it. For FsDirs the path may also be that of the
  -- request itself, which the user may see likewise, if the user is an admin who asks for the
  -- root. A list that FsList has refreshed is one that the user may write, or everybody by the
  -- meta. The related files of FsGet are not of this path: they are objects that fs.List answers
  -- for the directory above it, with the meta of the path, which the user need not be allowed to
  -- see, each with another name that begins with the object's name without its extension.
  pub reads-Permits : (asked : Asked) (a : Answer asked) → answer asked ≡ shows a → Permits asked a
  unfolding answer fs_list fs_get fs_other
  reads-Permits (asks_list req) r h =
      let (path, sub, (meta, sees, got)) =
        at_joined-Below req.path req.password (list_at e user req) r (join_path user req.path) refl
          h in
      let lists = list_at-Lists e user req path meta r got in
      (path, sub, (meta, sees, (lists, list_at-refresh req path meta r got)))
  reads-Permits (asks_get req) r h =
      Below-map req.password (λ path meta. get_at-Gets e path meta r)
        (at_joined-Below req.path req.password (get_at e) r (join_path user req.path) refl h)
  reads-Permits (asks_other req) r h =
      Below-map req.password (λ path meta. other_at-some e path meta r)
        (at_joined-Below req.path req.password (other_at e) r (join_path user req.path) refl h)
  reads-Permits (asks_dirs req) ds h = dirs-Below req ds h
