-- ===== src/Op/Files/Read/Returns.antt =====
-- The recursion of Get and List: each round looks into the directory above.
use xiaoya_qwen.Prelude.{
  ℕ, zero, suc, ◌<◌, List, [], ◌∷◌, Bytes, Bool, false, not, beq, Bool-cases, inl, inr, Option,
  none, some, ◌≡◌, refl, ap, length, arith,
}
use xiaoya_qwen.Go.Path.{slash, split_path}
use xiaoya_qwen.Utils.Path.{fix_and_clean_path, path_equal}
use xiaoya_qwen.Utils.Path.Clean.{names, names-fix, fix_and_clean_path-absolute}
use xiaoya_qwen.Utils.Path.Parent.{parent_names, length-absolute}
use xiaoya_qwen.Model.Objects.{Obj, Listed}
use xiaoya_qwen.Op.Files.Monad.{
  Answer, ok, err, attempt, pure, ◌>>=◌, storage_not_init, not_folder, object_not_found, not_file,
  no_root,
}
use xiaoya_qwen.Op.Files.Monad.Returns.{
  Total, Total-pure, Total-fail, Total-attempt, Total-bind, Total-if, Returns-if,
}
use xiaoya_qwen.Op.Files.Env.{Env, RootKind, root_id, root_path, rooter, not_rooted}
use xiaoya_qwen.Op.Files.Read.{
  Op, call, is_not_init, list_dir, list_cached, list_with, root_found, root_of, find_file,
  get_listed, get_answered, get_direct, get_loop, get, get_unwrap, list, link_cached, link,
}

module _ (e : Env) where
  open e use {remote, storage, lists, links}

  pub Total-call : {A : Type 0} (f : remote.World → Answer A × remote.World) → Total (call e f)
  Total-call f s = ((_, _), refl)

  list_dir-Total : (path : Bytes) (dir : Obj) → Total (list_dir e path dir)
  unfolding list_dir
  list_dir-Total path dir = Total-if (not dir.is_dir) _ _ (Total-fail not_folder) (
      Total-bind (call e (remote.list dir)) _ (Total-call (remote.list dir))
        (λ objs s. ((_, _), refl)))

  list_cached-Total :
      (unwrap : Bytes → Op e Obj) (path : Bytes) (found : Option (List Listed))
      → Total (unwrap path)
      → Total (list_cached e unwrap path found)
  unfolding list_cached
  list_cached-Total unwrap path (some files) t = Total-pure files
  list_cached-Total unwrap path none t = Total-bind (unwrap path) _ t (list_dir-Total path)

  list_with-Total :
      (unwrap : Bytes → Op e Obj) (refresh : Bool) (path : Bytes)
      → Total (unwrap (fix_and_clean_path path))
      → Total (list_with e unwrap refresh path)
  unfolding list_with
  list_with-Total unwrap refresh path t s =
      Returns-if (is_not_init e) _ _ (Total-fail storage_not_init s)
        (list_cached-Total unwrap (fix_and_clean_path path) _ t s)

  root_found-Total : (found : Option Obj) → Total (root_found e found)
  unfolding root_found
  root_found-Total none = Total-fail no_root
  root_found-Total (some o) = Total-pure _

  root_of-Total : (kind : RootKind) → Total (root_of e kind)
  unfolding root_of
  root_of-Total (root_id id) = Total-pure _
  root_of-Total (root_path path) = Total-pure _
  root_of-Total rooter =
      Total-bind (call e remote.get_root) _ (Total-call remote.get_root) root_found-Total
  root_of-Total not_rooted = Total-fail no_root

  find_file-Total : (files : List Listed) (name : Bytes) → Total (find_file e files name)
  unfolding find_file
  find_file-Total [] name = Total-fail object_not_found
  find_file-Total (f ∷ fs) name =
      Total-if (beq f.name name) _ _ (Total-pure f) (find_file-Total fs name)

  get_listed-Total :
      (files : Bytes → Op e (List Listed)) (path : Bytes)
      → (path_equal path slash ≡ false → Total (files (split_path path).0))
      → Total (get_listed e files path)
  unfolding get_listed
  get_listed-Total files path t = elim (Bool-cases (path_equal path slash)) [
    | inl h ↦ rw h (root_of-Total remote.root_kind)
    | inr h ↦ rw h (
        Total-bind (files (split_path path).0) _ (t h)
          (λ fs. find_file-Total fs (split_path path).1))
  ]

  get_answered-Total :
      (files : Bytes → Op e (List Listed)) (path : Bytes) (got : Answer Obj)
      → Total (get_listed e files path)
      → Total (get_answered e files path got)
  unfolding get_answered
  get_answered-Total files path (ok o) t = Total-pure _
  get_answered-Total files path (err x) t = t

  get_direct-Total :
      (getter : Option (Bytes → remote.World → Answer Obj × remote.World))
      (files : Bytes → Op e (List Listed)) (path : Bytes)
      → Total (get_listed e files path)
      → Total (get_direct e getter files path)
  unfolding get_direct
  get_direct-Total none files path t = t
  get_direct-Total (some g) files path t =
      Total-bind (attempt (call e (g path))) _ (Total-attempt _ (Total-call (g path)))
        (λ got. get_answered-Total files path got t)

  unwrap-Total : (m : Op e Listed) → Total m → Total (m >>= λ o. pure o.obj)
  unwrap-Total m t = Total-bind m _ t (λ o. Total-pure o.obj)

  get_loop-Total :
      (fuel : ℕ) (path : Bytes) → length (names path) < fuel → Total (get_loop e fuel path)
  unfolding get_loop
  get_loop-Total zero path f = elim f [ ]
  get_loop-Total (suc fuel) path f =
      let unwrap : Bytes → Op e Obj = λ p. get_loop e fuel p >>= λ o. pure o.obj in
      let parent = (split_path (fix_and_clean_path path)).0 in
      get_direct-Total remote.get (list_with e unwrap false) (fix_and_clean_path path) (
        get_listed-Total (list_with e unwrap false) (fix_and_clean_path path) (λ h.
          list_with-Total unwrap false parent (
            unwrap-Total (get_loop e fuel (fix_and_clean_path parent)) (
              get_loop-Total fuel (fix_and_clean_path parent)
                (omega (arith, ap length (names-fix parent), parent_names path h))))))

  pub get-Total : (path : Bytes) → Total (get e path)
  unfolding get
  get-Total path =
      get_loop-Total (suc (length (fix_and_clean_path path))) path
        (omega (arith, ap length (fix_and_clean_path-absolute path), length-absolute (names path)))

  pub get_unwrap-Total : (path : Bytes) → Total (get_unwrap e path)
  unfolding get_unwrap
  get_unwrap-Total path = unwrap-Total (get e path) (get-Total path)

  pub list-Total : (path : Bytes) (refresh : Bool) → Total (list e path refresh)
  unfolding list
  list-Total path refresh =
      list_with-Total (get_unwrap e) refresh path (get_unwrap-Total (fix_and_clean_path path))

  link_cached-Total :
      (k ip : Bytes) (file : Obj) (found : Option remote.Link)
      → Total (link_cached e k ip file found)
  unfolding link_cached
  link_cached-Total k ip file (some l) = Total-pure (l, file)
  link_cached-Total k ip file none =
      Total-bind (call e (remote.link file ip)) _ (Total-call (remote.link file ip))
        (λ l s. ((_, _), refl))

  pub link-Total : (path ip : Bytes) → Total (link e path ip)
  unfolding link
  link-Total path ip = Total-if (is_not_init e) _ _ (Total-fail storage_not_init) (
      Total-bind (get_unwrap e path) _ (get_unwrap-Total path) (λ file.
        Total-if file.is_dir _ _ (Total-fail not_file) (λ s. link_cached-Total _ ip file _ s)))
