-- ===== src/Op/Files/Write/Returns.antt =====
-- The recursion of MakeDir: each round goes to the directory above, up to the root.
use xiaoya_qwen.Prelude.{
  ℕ, zero, suc, ◌<◌, List, Bytes, Bool, true, false, Bool-cases, inl, inr, Option, none, some, ◌≡◌,
  ◌≢◌, refl, ap, length, arith,
}
use xiaoya_qwen.Go.Path.{slash, split_path}
use xiaoya_qwen.Utils.Path.{fix_and_clean_path, path_equal}
use xiaoya_qwen.Utils.Path.Clean.{names, fix_and_clean_path-absolute, fix_and_clean_path_idem}
use xiaoya_qwen.Utils.Path.Parent.{parent_names, length-absolute}
use xiaoya_qwen.Model.Objects.{Obj, Listed}
use xiaoya_qwen.Op.Files.Monad.{
  Answer, ok, err, attempt, attempted, pure, next, storage_not_init, object_not_found, not_folder,
  not_file, no_root, other_error, not_implement, file_exists,
}
use xiaoya_qwen.Op.Files.Monad.Returns.{
  Total, Total-pure, Total-fail, Total-attempt, Total-bind, Total-if, bind-Returns,
}
use xiaoya_qwen.Op.Files.Env.{Env, Fs, RootKind, root_id, root_path, rooter, not_rooted}
use xiaoya_qwen.Op.Files.Read.{
  Op, call, is_not_init, root_found, root_of, get_listed, get_answered, get_direct, get_loop, get,
  get_unwrap,
}
use xiaoya_qwen.Op.Files.Read.Returns.{Total-call, get_unwrap-Total}
use xiaoya_qwen.Op.Files.Write.{
  is_object_not_found, make_dir_in, make_dir_under, make_dir_checked, make_dir_loop, make_dir,
}

-- Whether an outcome is that there is no such object.
abbrev pub IsMissing : {A S : Type 0} → Option (Answer A × S) → Type 0
IsMissing {S} o = (s : S) × (o ≡ some (err object_not_found, s))

module _ (e : Env) where
  open e use {remote}

  -- GetRoot of the driver does not say that there is no root.
  unfoldable pub HasRoot : Type 0
  HasRoot = (w : remote.World) → (remote.get_root w).0 ≢ err object_not_found

  root_found-IsMissing :
      (found : Answer (Option Obj)) (s : Fs e)
      → found ≢ err object_not_found
      → ¬ IsMissing (next (some (found, s)) (root_found e))
  unfolding root_found
  root_found-IsMissing (ok none) s h (s', q) = cc
  root_found-IsMissing (ok (some o)) s h (s', q) = cc
  root_found-IsMissing (err x) s h (s', q) = h (cc)

  root_of-IsMissing : (kind : RootKind) (s : Fs e) → HasRoot → ¬ IsMissing (root_of e kind s)
  unfolding root_of HasRoot
  root_of-IsMissing (root_id id) s h (s', q) = cc
  root_of-IsMissing (root_path path) s h (s', q) = cc
  root_of-IsMissing rooter s h q = root_found-IsMissing (remote.get_root s.world).0 _ (h s.world) q
  root_of-IsMissing not_rooted s h (s', q) = cc

  get_listed-IsMissing :
      (files : Bytes → Op e (List Listed)) (path : Bytes) (s : Fs e)
      → HasRoot
      → path_equal path slash ≡ true
      → ¬ IsMissing (get_listed e files path s)
  unfolding get_listed
  get_listed-IsMissing files path s h r q = root_of-IsMissing remote.root_kind s h (rw r at q)

  get_answered-IsMissing :
      (files : Bytes → Op e (List Listed)) (path : Bytes) (s : Fs e) (got : Answer Obj)
      → HasRoot
      → path_equal path slash ≡ true
      → ¬ IsMissing (get_answered e files path got s)
  unfolding get_answered
  get_answered-IsMissing files path s (ok o) h r (s', q) = cc
  get_answered-IsMissing files path s (err x) h r q = get_listed-IsMissing files path s h r q

  get_direct-IsMissing :
      (getter : Option (Bytes → remote.World → Answer Obj × remote.World))
      (files : Bytes → Op e (List Listed)) (path : Bytes) (s : Fs e)
      → HasRoot
      → path_equal path slash ≡ true
      → ¬ IsMissing (get_direct e getter files path s)
  unfolding get_direct
  get_direct-IsMissing none files path s h r q = get_listed-IsMissing files path s h r q
  get_direct-IsMissing (some g) files path s h r q =
      get_answered-IsMissing files path _ (g path s.world).0 h r q

  unwrap-IsMissing :
      (o : Option (Answer Listed × Fs e)) → IsMissing (next o (λ l. pure l.obj)) → IsMissing o
  unwrap-IsMissing none (s, q) = cc
  unwrap-IsMissing (some (ok l, t)) (s, q) = cc
  unwrap-IsMissing (some (err x, t)) (s, q) = (s, cc)

  -- There is always a root.
  root-IsMissing :
      (path : Bytes) (s : Fs e)
      → HasRoot
      → path_equal (fix_and_clean_path path) slash ≡ true
      → ¬ IsMissing (get_unwrap e path s)
  unfolding get_unwrap get get_loop
  root-IsMissing path s h r q =
      get_direct-IsMissing remote.get _ (fix_and_clean_path path) s h r (unwrap-IsMissing _ q)

  make_dir_in-Total :
      (make : Option (Obj → Bytes → remote.World → Answer (Option Obj) × remote.World))
      (parent_path dir_name : Bytes) (lazy : Bool) (parent : Obj)
      → Total (make_dir_in e make parent_path dir_name lazy parent)
  unfolding make_dir_in
  make_dir_in-Total none parent_path dir_name lazy parent = Total-fail not_implement
  make_dir_in-Total (some make) parent_path dir_name lazy parent =
      Total-bind (call e (make parent dir_name)) _ (Total-call e (make parent dir_name))
        (λ new s. ((_, _), refl))

  make_dir_under-Total :
      (up : Bytes → Op e (Unit {0})) (parts : Bytes × Bytes) (lazy : Bool)
      → Total (up parts.0)
      → Total (make_dir_under e up parts lazy)
  unfolding make_dir_under
  make_dir_under-Total up (parent_path, dir_name) lazy t = Total-bind (up parent_path) _ t (λ u.
      Total-bind (get_unwrap e parent_path) _ (get_unwrap-Total e parent_path)
        (λ parent. make_dir_in-Total remote.make_dir parent_path dir_name lazy parent))

  make_dir_checked-Total :
      (up : Bytes → Op e (Unit {0})) (path : Bytes) (lazy : Bool) (f : Answer Obj)
      → (f ≡ err object_not_found → Total (up (split_path path).0))
      → Total (make_dir_checked e up path lazy f)
  unfolding make_dir_checked is_object_not_found
  make_dir_checked-Total up path lazy (ok f) t =
      Total-if f.is_dir _ _ (Total-pure tt) (Total-fail file_exists)
  make_dir_checked-Total up path lazy (err object_not_found) t =
      make_dir_under-Total up (split_path path) lazy (t refl)
  make_dir_checked-Total up path lazy (err storage_not_init) t = Total-fail storage_not_init
  make_dir_checked-Total up path lazy (err not_folder) t = Total-fail not_folder
  make_dir_checked-Total up path lazy (err not_file) t = Total-fail not_file
  make_dir_checked-Total up path lazy (err not_implement) t = Total-fail not_implement
  make_dir_checked-Total up path lazy (err file_exists) t = Total-fail file_exists
  make_dir_checked-Total up path lazy (err no_root) t = Total-fail no_root
  make_dir_checked-Total up path lazy (err other_error) t = Total-fail other_error

  attempted-IsMissing :
      (o : Option (Answer Obj × Fs e)) (s : Fs e)
      → attempted o ≡ some (ok (err object_not_found), s)
      → IsMissing o
  attempted-IsMissing none s q = cc
  attempted-IsMissing (some (a, t)) s q = (t, cc)

  make_dir_loop-Total :
      HasRoot
      → (fuel : ℕ) (path : Bytes) (lazy : Bool) → length (names path) < fuel
      → Total (make_dir_loop e fuel path lazy)
  unfolding make_dir_loop
  make_dir_loop-Total h zero path lazy f = elim f [ ]
  make_dir_loop-Total h (suc fuel) path lazy f =
      let fixed = fix_and_clean_path path in
      Total-if (is_not_init e) _ _ (Total-fail storage_not_init) (λ s.
        bind-Returns (attempt (get_unwrap e fixed)) _ s
          (Total-attempt (get_unwrap e fixed) (get_unwrap-Total e fixed) s)
          (λ a s' q.
            make_dir_checked-Total (λ p. make_dir_loop e fuel p false) fixed lazy a
              (λ missing. elim (Bool-cases (path_equal fixed slash)) [
                | inl r ↦
                    elim (root-IsMissing fixed s h (rw (fix_and_clean_path_idem path) r)
                      (attempted-IsMissing _ s' (rw missing at q))) [ ]
                | inr r ↦
                    make_dir_loop-Total h fuel (split_path fixed).0 false
                      (omega (arith, parent_names path r))
              ])
              s'))

  pub make_dir-Total : HasRoot → (path : Bytes) (lazy : Bool) → Total (make_dir e path lazy)
  unfolding make_dir
  make_dir-Total h path lazy =
      make_dir_loop-Total h (suc (length (fix_and_clean_path path))) path lazy
        (omega (arith, ap length (fix_and_clean_path-absolute path), length-absolute (names path)))
