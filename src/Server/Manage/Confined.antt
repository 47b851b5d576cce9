-- ===== src/Server/Manage/Confined.antt =====
-- Which paths the handlers of server/handles/fsmanage.go touch.
use xiaoya_qwen.Prelude.{
  ℕ, ◌+◌, List, [], ◌∷◌, ◌++◌, Bytes, Bool, true, Option, none, some, length, All, All-append,
  Lacks, ◌≡◌, refl, sym, ap, ◌∙◌, arith, inl, inr, append_assoc, Bool-cases, ◌⊎◌,
}
use xiaoya_qwen.Go.Path.{IsName, join_paths, join_paths-name}
use xiaoya_qwen.Utils.Path.{is_sub_path, join_base_path}
use xiaoya_qwen.Utils.Path.Clean.{names, names-AllNames, names-Lacks, names-absolute}
use xiaoya_qwen.Utils.Path.SubPath.{is_sub_path_iff}
use xiaoya_qwen.Utils.Path.JoinBase.{join_base_path-some, join_base_path-is_sub_path, names-join}
use xiaoya_qwen.Model.User.{User, can_remove, can_move, can_copy, join_path}
use xiaoya_qwen.Server.Manage.{
  FsCall, make_dir, move, copy, rename, remove, Answers, Reply, for_names, RemoveReq, MoveCopyReq,
  fs_remove, fs_move, fs_copy, transfer, remove_in, lazy_cache,
}

-- A call stays below a base path.
abbrev pub Within : Bytes → FsCall → Type 0
Within base (make_dir p) = is_sub_path base p ≡ true
Within base (move s d l) = (is_sub_path base s ≡ true) × (is_sub_path base d ≡ true)
Within base (copy s d l) = (is_sub_path base s ≡ true) × (is_sub_path base d ≡ true)
Within base (rename p n) = is_sub_path base p ≡ true
Within base (remove p) = is_sub_path base p ≡ true

-- A name of a request that is a single path element, also where backslashes are read as slashes.
pub record IsPlain (n : Bytes) : Type 0 where
  pub name : IsName n
  pub no_backslash : Lacks b'\\' n

-- The loop makes only calls of its body.
for_names-All :
    (P : FsCall → Type 0) (answers : Answers) (call : Bytes → ℕ → FsCall) (ns : List Bytes)
    (made : List FsCall) (tasks : ℕ)
    → All (λ n. (left : ℕ) → P (call n left)) ns
    → All P made
    → All P (for_names answers call ns made tasks).calls
unfolding for_names
for_names-All P answers call [] made tasks h m = m
for_names-All P answers call (n ∷ ns) made tasks h m =
    let this = All-append P made (call n (length ns) ∷ []) m (h.0 (length ns), tt) in
    ground (
      arith,
      this,
      for_names-All P answers call ns (made ++ call n (length ns) ∷ []) tasks h.1 this,
      for_names-All P answers call ns (made ++ call n (length ns) ∷ []) (tasks + 1) h.1 this,
    )

-- A plain name below a directory that JoinBasePath let through.
child-names :
    (base req d n : Bytes)
    → join_base_path base req ≡ some d
    → IsPlain n
    → names (join_paths d n) ≡ names d ++ n ∷ []
child-names base req d n e h =
    let ps = names base ++ names req in
    let hp =
      All-append IsName (names base) (names req) (names-AllNames base) (names-AllNames req) in
    let lp =
      All-append (Lacks b'\\') (names base) (names req) (names-Lacks base) (names-Lacks req) in
    rw (join_base_path-some base req d e) (
      ap names (join_paths-name ps n hp h.name)
      ∙ names-absolute (ps ++ n ∷ []) (All-append IsName ps (n ∷ []) hp (h.name, tt))
          (All-append (Lacks b'\\') ps (n ∷ []) lp (h.no_backslash, tt))
      ∙ ap (λ r. r ++ n ∷ []) (sym (names-join base req)))

child-within :
    (base req d n : Bytes)
    → join_base_path base req ≡ some d
    → IsPlain n
    → is_sub_path base (join_paths d n) ≡ true
child-within base req d n e h =
    let (sub, q) = join_base_path-is_sub_path base req d e in
    (is_sub_path_iff base (join_paths d n)).1 (
      names req ++ n ∷ [],
      child-names base req d n e h
          ∙ ap (λ r. r ++ n ∷ []) q
          ∙ append_assoc (names base) (names req) (n ∷ []),
    )

-- The loops of the handlers, once the directories are joined.
transfer-Within :
    (answers : Answers) (call : Bytes → Bytes → Bool → FsCall) (base src dst : Bytes)
    (ns : List Bytes) (o p : Option Bytes)
    → ((s d : Bytes) (l : Bool)
        → is_sub_path base s ≡ true
        → is_sub_path base d ≡ true
        → Within base (call s d l))
    → join_base_path base src ≡ o
    → join_base_path base dst ≡ p
    → All IsPlain ns
    → All (Within base) (transfer answers call ns o p).calls
unfolding transfer
transfer-Within answers call base src dst ns none p w e f h = tt
transfer-Within answers call base src dst ns (some s) none w e f h = tt
transfer-Within answers call base src dst ns (some s) (some d) w e f h =
    for_names-All (Within base) answers _ ns [] 0 (each ns h) tt
  where
    each :
        (ms : List Bytes)
        → All IsPlain ms
        → All (λ n. (left : ℕ) → Within base (call (join_paths s n) d (lazy_cache left))) ms
    each [] h = tt
    each (m ∷ ms) h = (
      λ left.
          w (join_paths s m) d (lazy_cache left) (child-within base src s m e h.0)
            (join_base_path-is_sub_path base dst d f).0,
      each ms h.1,
    )

remove_in-Within :
    (answers : Answers) (base req : Bytes) (ns : List Bytes) (o : Option Bytes)
    → join_base_path base req ≡ o
    → All IsPlain ns
    → All (Within base) (remove_in answers ns o).calls
unfolding remove_in
remove_in-Within answers base req ns none e h = tt
remove_in-Within answers base req ns (some d) e h =
    for_names-All (Within base) answers _ ns [] 0 (each ns h) tt
  where
    each :
        (ms : List Bytes)
        → All IsPlain ms
        → All (λ n. (left : ℕ) → is_sub_path base (join_paths d n) ≡ true) ms
    each [] h = tt
    each (m ∷ ms) h = (λ left. child-within base req d m e h.0, each ms h.1)

-- Removing with plain names.
fs_remove-Within :
    (answers : Answers) (user : User) (req : RemoveReq)
    → All IsPlain req.names
    → ((can_remove user ≡ true)
        × All (Within user.base_path) (fs_remove answers user (some req)).calls)
      ⊎ ((fs_remove answers user (some req)).calls ≡ [])
unfolding fs_remove
fs_remove-Within answers user req h = elim (Bool-cases (can_remove user)) [
  | inl can ↦ inl (
    can,
    ground (
      arith,
      remove_in-Within answers user.base_path req.dir req.names (join_path user req.dir)
          (unfold join_path in refl) h,
    ),
  )
  | inr cannot ↦ inr (ground arith)
]

-- Moving with plain names.
fs_move-Within :
    (answers : Answers) (user : User) (req : MoveCopyReq)
    → All IsPlain req.names
    → ((can_move user ≡ true) × All (Within user.base_path) (fs_move answers user (some req)).calls)
      ⊎ ((fs_move answers user (some req)).calls ≡ [])
unfolding fs_move
fs_move-Within answers user req h = elim (Bool-cases (can_move user)) [
  | inl can ↦ inl (
    can,
    ground (
      arith,
      transfer-Within answers move user.base_path req.src_dir req.dst_dir req.names
          (join_path user req.src_dir) (join_path user req.dst_dir) (λ s d l a b. (a, b))
          (unfold join_path in refl) (unfold join_path in refl) h,
    ),
  )
  | inr cannot ↦ inr (ground arith)
]

-- Copying with plain names.
fs_copy-Within :
    (answers : Answers) (user : User) (req : MoveCopyReq)
    → All IsPlain req.names
    → ((can_copy user ≡ true) × All (Within user.base_path) (fs_copy answers user (some req)).calls)
      ⊎ ((fs_copy answers user (some req)).calls ≡ [])
unfolding fs_copy
fs_copy-Within answers user req h = elim (Bool-cases (can_copy user)) [
  | inl can ↦ inl (
    can,
    ground (
      arith,
      transfer-Within answers copy user.base_path req.src_dir req.dst_dir req.names
          (join_path user req.src_dir) (join_path user req.dst_dir) (λ s d l a b. (a, b))
          (unfold join_path in refl) (unfold join_path in refl) h,
    ),
  )
  | inr cannot ↦ inr (ground arith)
]

-- What a handler of moves or copies does, which needs a permission.
abbrev pub Confines : Bool → Bytes → Reply → Type 0
Confines can base reply = ((can ≡ true) × All (Within base) reply.calls) ⊎ (reply.calls ≡ [])

-- If the names of the requests are plain, FsRemove either deletes nothing or the user may remove, and
-- every path that it deletes lies below the user's base path; FsMove either moves nothing or the
-- user may move, and the source and the target of every move lie below it; and so FsCopy with
-- copies.
pub changes-Within :
    (answers : Answers) (user : User) (removal : RemoveReq) (req : MoveCopyReq)
    → All IsPlain removal.names
    → All IsPlain req.names
    → Confines (can_remove user) user.base_path (fs_remove answers user (some removal))
      × Confines (can_move user) user.base_path (fs_move answers user (some req))
      × Confines (can_copy user) user.base_path (fs_copy answers user (some req))
changes-Within answers user removal req hr h = (
  fs_remove-Within answers user removal hr,
  fs_move-Within answers user req h,
  fs_copy-Within answers user req h,
)
