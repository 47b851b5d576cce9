-- ===== src/Op/Files/Read.antt =====
-- Get, GetUnwrap, List, Link and Other of internal/op/fs.go. The hooks that List calls in a goroutine of their own are
-- left out, and singleflight.Do runs its function.
pub mod Returns
pub mod Again
use xiaoya_qwen.Prelude.{
  ℕ, zero, suc, List, [], ◌∷◌, ◌++◌, Bytes, Bool, true, false, ◌&&◌, not, Option, none, some, beq,
  codes, if◌then◌else◌, length, map,
}
use xiaoya_qwen.Prelude.Int.{pos}
use xiaoya_qwen.Go.Path.{slash, join_paths, split_path}
use xiaoya_qwen.Utils.Path.{fix_and_clean_path, path_equal}
use xiaoya_qwen.Model.Objects.{Obj, Listed}
use xiaoya_qwen.Model.Objects.Sorting.{sort_files, extract_folder}
use xiaoya_qwen.Op.Files.Monad.{
  M, pure, fail, attempt, ◌>>=◌, ◌>>◌, Answer, ok, err, FsError, storage_not_init, object_not_found,
  not_folder, not_file, no_root,
}
use xiaoya_qwen.Op.Files.Env.{Env, Fs, RootKind, root_id, root_path, rooter, not_rooted}
use xiaoya_qwen.Op.Files.Listing.{key}

abbrev pub work : Bytes
work = codes "work"

abbrev pub root_name : Bytes
root_name = codes "root"

module _ (e : Env) where
  open e use {storage, remote, lists, links}

  abbrev pub Op : Type 0 → Type 0
  Op A = M (Fs e) A

  -- A call of the driver.
  abbrev pub called : {A : Type 0} → Fs e → Answer A × remote.World → Option (Answer A × Fs e)
  called s (a, w) = some (a, record s { world = w })

  abbrev pub call : {A : Type 0} → (remote.World → Answer A × remote.World) → Op A
  call f s = called s (f s.world)

  -- storage.Config().CheckStatus && storage.GetStorage().Status != WORK
  unfoldable pub is_not_init : Bool
  is_not_init = storage.config.check_status && not (beq storage.storage.status work)

  abbrev pub wrap_obj_name : Obj → Listed
  wrap_obj_name o = record { obj = o; name = e.map_name o.name }

  -- the loop "set path" of List, for one object
  unfoldable pub set_path : Obj → Obj → Obj
  set_path dir o =
      if remote.sets_path && beq o.path [] && not (beq dir.path [])
      then record o { path = join_paths dir.path o.name }
      else o

  -- what List makes of the driver's listing
  unfoldable pub arrange : Obj → List Obj → List Listed
  unfolding set_path
  arrange dir files =
      let wrapped = map (λ o. wrap_obj_name (set_path dir o)) files in
      let sorted =
        if storage.config.local_sort
        then sort_files e.sorter storage.storage.sort.order_by storage.storage.sort.order_direction
            wrapped
        else wrapped in
      extract_folder e.sorter storage.storage.sort.extract_folder sorted

  unfoldable pub keep : Bytes → List Listed → Fs e → Fs e
  keep k [] s = record s { list_cache = lists.del s.list_cache k }
  keep k (o ∷ os) s = record s { list_cache = lists.set s.list_cache k (o ∷ os) }

  unfoldable pub list_dir : Bytes → Obj → Op (List Listed)
  unfolding arrange keep
  list_dir path dir = if not dir.is_dir then fail not_folder else do
    objs ← call (remote.list dir)
    let files = arrange dir objs
    λ s. some (ok files, if storage.config.no_cache then s else keep (key storage path) files s)

  -- List behind its check of the cache
  unfoldable pub list_cached : (Bytes → Op Obj) → Bytes → Option (List Listed) → Op (List Listed)
  unfolding list_dir
  list_cached get_unwrap path (some files) = pure files
  list_cached get_unwrap path none = do dir ← get_unwrap path; list_dir path dir

  -- List, with GetUnwrap as an argument
  unfoldable pub list_with : (Bytes → Op Obj) → Bool → Bytes → Op (List Listed)
  unfolding list_cached is_not_init
  list_with get_unwrap refresh path s =
      if is_not_init
      then fail storage_not_init s
      else let path = fix_and_clean_path path in
        list_cached get_unwrap path
          (if refresh then none else lists.get s.list_cache (key storage path)) s

  -- what GetRoot of the driver returned without an error
  unfoldable pub root_found : Option Obj → Op Listed
  root_found none = fail no_root
  root_found (some o) = pure (record { obj = o; name = root_name })

  -- the root folder in Get
  unfoldable pub root_of : RootKind → Op Listed
  unfolding root_found
  root_of (root_id id) = pure (record {
    obj = record {
      size = pos 0;
      name = root_name;
      mod_time = storage.storage.modified;
      is_dir = true;
      id = id;
      path = [];
    };
    name = root_name;
  })
  root_of (root_path path) = pure (record {
    obj = record {
      size = pos 0;
      name = root_name;
      mod_time = storage.storage.modified;
      is_dir = true;
      id = [];
      path = path;
    };
    name = root_name;
  })
  root_of rooter = do found ← call remote.get_root; root_found found
  root_of not_rooted = fail no_root

  -- the loop over the parent's listing in Get
  unfoldable pub find_file : List Listed → Bytes → Op Listed
  find_file [] name = fail object_not_found
  find_file (f ∷ fs) name = let rest = find_file fs name in if beq f.name name then pure f else rest

  -- Get without the driver's Getter, with List as an argument
  unfoldable pub get_listed : (Bytes → Op (List Listed)) → Bytes → Op Listed
  unfolding root_of find_file
  get_listed list path =
      if path_equal path slash
      then root_of remote.root_kind
      else let (dir, name) = split_path path in do files ← list dir; find_file files name

  -- Get, with what the driver's Getter answered
  unfoldable pub get_answered : (Bytes → Op (List Listed)) → Bytes → Answer Obj → Op Listed
  unfolding get_listed
  get_answered list path (ok o) = pure (wrap_obj_name o)
  get_answered list path (err x) = get_listed list path

  unfoldable pub get_direct :
      Option (Bytes → remote.World → Answer Obj × remote.World)
      → (Bytes → Op (List Listed))
      → Bytes
      → Op Listed
  unfolding get_answered
  get_direct none list path = get_listed list path
  get_direct (some g) list path = do got ← attempt (call (g path)); get_answered list path got

  -- Get; each round of the recursion goes to the parent directory
  unfoldable pub get_loop : ℕ → Bytes → Op Listed
  unfolding get_direct list_with
  get_loop zero path = λ s. none
  get_loop (suc fuel) path =
      get_direct remote.get (list_with (λ p. do o ← get_loop fuel p; pure o.obj) false)
        (fix_and_clean_path path)

  -- a path has fewer names than bytes
  unfoldable pub get : Bytes → Op Listed
  get path = get_loop (suc (length (fix_and_clean_path path))) path

  unfoldable pub get_unwrap : Bytes → Op Obj
  get_unwrap path = do o ← get path; pure o.obj

  unfoldable pub list : Bytes → Bool → Op (List Listed)
  list path refresh = list_with get_unwrap refresh path

  -- Link behind its check of the cache
  unfoldable pub link_cached : Bytes → Bytes → Obj → Option remote.Link → Op (remote.Link × Obj)
  link_cached k ip file (some l) = pure (l, file)
  link_cached k ip file none = do
    l ← call (remote.link file ip)
    λ s. some (
      ok (l, file),
      if remote.expires l then record s { link_cache = links.set s.link_cache k l } else s,
    )

  unfoldable pub link : Bytes → Bytes → Op (remote.Link × Obj)
  unfolding link_cached is_not_init
  link path ip = if is_not_init then fail storage_not_init else do
    file ← get_unwrap path
    if file.is_dir then fail not_file else (λ s.
        let k = key storage path ++ b':' ∷ ip in link_cached k ip file (links.get s.link_cache k) s)
