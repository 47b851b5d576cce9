-- ===== src/Fs/Hides.antt =====
-- What list of internal/fs shows of a directory.
use xiaoya_qwen.Prelude.{
  List, [], ◌∷◌, ◌++◌, Bytes, Bool, true, false, Option, none, some, ◌≡◌, refl, sym, ap, ◌∙◌, subst,
  ◌⊎◌, inl, inr, ◌≢◌,
}
use xiaoya_qwen.Model.User.{User}
use xiaoya_qwen.Model.Meta.{Meta}
use xiaoya_qwen.Model.Objects.{Obj, ObjMerge, new_obj_merge, merge}
use xiaoya_qwen.Model.Objects.Merge.{IsKept, merge-IsKept, init_hide_reg-set}
use xiaoya_qwen.Op.Files.Monad.{Answer, ok, err}
use xiaoya_qwen.Op.Storages.{
  StoragesMap, BalanceMap, Found, found, no_storage, not_found, get_storage_and_actual_path,
}
use xiaoya_qwen.Op.Virtual.{get_storage_virtual_files_by_path}
use xiaoya_qwen.Server.Check.{whether_hide}
use xiaoya_qwen.Fs.{Storages, done, values, merged, hiding, listed, virtual_only, list_found, list}

module _ (o : Storages) (compile : Bytes → Option (Bytes → Bool)) where
  open o use {State}

  -- A listing of the objects of the storage and the virtual files, through the expressions that hide.
  pub Shows : Option ObjMerge → List Obj → List Obj → List Obj → Type 0
  Shows om stored virtual_files objs =
      (regs : List (Bytes → Bool)) × (om ≡ some (record { regs = regs; set = [] }))
      × IsKept regs (stored ++ virtual_files) objs

  -- A storage that answered, or something else to show.
  Backed : Bool → List Obj → Type 0
  Backed answers virtual_files = (answers ≡ true) ⊎ (virtual_files ≢ [])

  is_answer : Answer (List Obj) → Bool
  is_answer (ok stored) = true
  is_answer (err x) = false

  objects : Answer (List Obj) → List Obj
  objects (ok stored) = stored
  objects (err x) = []

  -- What op.List answers for the place of a path, if a storage is mounted there: whether it
  -- lists the directory, and the objects that it lists, none if it does not.
  pub answers_at : Found → Bool → State → Bool
  answers_at (found d p) refresh s = is_answer (o.list d p refresh s).0
  answers_at no_storage refresh s = false
  answers_at (not_found p) refresh s = false

  pub stored_at : Found → Bool → State → List Obj
  stored_at (found d p) refresh s = objects (o.list d p refresh s).0
  stored_at no_storage refresh s = []
  stored_at (not_found p) refresh s = []

  merged-Shows :
      (om : Option ObjMerge) (stored virtual_files objs : List Obj)
      → ((x : ObjMerge) → om ≡ some x → x.set ≡ [])
      → merged o compile om stored virtual_files ≡ done objs
      → Shows om stored virtual_files objs
  unfolding merged Shows
  merged-Shows none stored vs objs h e = cc
  merged-Shows (some om) stored vs objs h e =
      let empty : om.set ≡ [] = h om refl in
      let fresh : ObjMerge = record { regs = om.regs; set = [] } in
      let with_set : List Bytes → ObjMerge = λ t. record { regs = om.regs; set = t } in
      let same : om ≡ fresh = ap with_set empty in
      let out : (merge fresh stored vs).0 ≡ objs =
        ap (λ x. (merge x stored vs).0) (sym same) ∙ cc in
      (
        om.regs,
        ap some same,
        subst (IsKept om.regs (stored ++ vs)) out (merge-IsKept om.regs stored vs),
      )

  hiding-set :
      (b : Bool) (meta : Option Meta) (x : ObjMerge) → hiding o compile b meta ≡ some x → x.set ≡ []
  unfolding hiding
  hiding-set true (some meta) x e = init_hide_reg-set compile new_obj_merge x meta.hide e
  hiding-set true none x e = cc
  hiding-set false meta x e = cc

  listed-Shows :
      (answer : Answer (List Obj)) (virtual_files objs : List Obj) (om : Option ObjMerge)
      → ((x : ObjMerge) → om ≡ some x → x.set ≡ [])
      → listed o compile answer virtual_files om ≡ done objs
      → Backed (is_answer answer) virtual_files × Shows om (objects answer) virtual_files objs
  unfolding listed Backed is_answer objects
  listed-Shows (ok stored) vs objs om h e = (inl refl, merged-Shows om stored vs objs h e)
  listed-Shows (err x) [] objs om h e = cc
  listed-Shows (err x) (v ∷ vs) objs om h e = (inr (λ q. cc), merged-Shows om [] (v ∷ vs) objs h e)

  virtual_only-Shows :
      (virtual_files objs : List Obj) (om : Option ObjMerge)
      → ((x : ObjMerge) → om ≡ some x → x.set ≡ [])
      → virtual_only o compile virtual_files om ≡ done objs
      → Backed false virtual_files × Shows om [] virtual_files objs
  unfolding virtual_only Backed
  virtual_only-Shows [] objs om h e = cc
  virtual_only-Shows (v ∷ vs) objs om h e = (inr (λ q. cc), merged-Shows om [] (v ∷ vs) objs h e)

  list_found-Shows :
      (place : Found) (virtual_files objs : List Obj) (om : Option ObjMerge) (refresh : Bool)
      (s : State)
      → ((x : ObjMerge) → om ≡ some x → x.set ≡ [])
      → (list_found o compile place virtual_files om refresh s).0 ≡ done objs
      → ((answers_at place refresh s ≡ true) ⊎ (virtual_files ≢ []))
        × Shows om (stored_at place refresh s) virtual_files objs
  unfolding list_found answers_at stored_at Backed
  list_found-Shows (found d p) vs objs om refresh s h e =
      listed-Shows (o.list d p refresh s).0 vs objs om h e
  list_found-Shows no_storage vs objs om refresh s h e = virtual_only-Shows vs objs om h e
  list_found-Shows (not_found p) vs objs om refresh s h e = virtual_only-Shows vs objs om h e

  -- If list of internal/fs returns a listing, then the storage of the path has answered or there
  -- are virtual files, the lines of the meta's Hide compile if the meta hides from the user, and
  -- the listing merges the objects that the storage answered, none if it answered an error or no
  -- storage is mounted there, with the virtual files of the path: no name stands twice in it, no
  -- name in it matches a line, and every name of those objects and of the virtual files that
  -- matches none stands in it; a meta that does not hide has no lines here.
  pub list-Shows :
      (m : StoragesMap) (user : User) (meta : Option Meta) (path : Bytes) (refresh : Bool)
      (b : BalanceMap) (s : State) (objs : List Obj)
      → (list o compile m user meta path refresh b s).0 ≡ done objs
      → ((answers_at (get_storage_and_actual_path m path b).0 refresh s ≡ true)
          ⊎ (get_storage_virtual_files_by_path (values m) path ≢ []))
        × Shows
            (hiding o compile (whether_hide user meta path) meta)
            (stored_at (get_storage_and_actual_path m path b).0 refresh s)
            (get_storage_virtual_files_by_path (values m) path)
            objs
  unfolding list
  list-Shows m user meta path refresh b s objs e =
      list_found-Shows (get_storage_and_actual_path m path b).0
        (get_storage_virtual_files_by_path (values m) path) objs _ refresh s
        (λ x q. hiding-set (whether_hide user meta path) meta x q) e
