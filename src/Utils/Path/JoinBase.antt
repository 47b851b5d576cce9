-- ===== src/Utils/Path/JoinBase.antt =====
-- JoinBasePath and the base path of a user.
use xiaoya_qwen.Prelude.{
  ◌++◌, true, false, ◌≡◌, Bytes, All-append, Lacks, ◌∙◌, ap, none, some, Bool-cases, inl, inr,
}
use xiaoya_qwen.Go.Path.{absolute, IsName, join_paths-absolute}
use xiaoya_qwen.Utils.Path.{is_sub_path, join_base_path, is_relative}
use xiaoya_qwen.Utils.Path.Clean.{
  names, names-AllNames, names-Lacks, names-absolute, fix_and_clean_path-absolute,
}
use xiaoya_qwen.Utils.Path.SubPath.{is_sub_path_iff}

-- A request that is not relative goes through the base's names, and then through its own.
pub join_base_path_lem :
    (base req : Bytes)
    → is_relative req ≡ false
    → join_base_path base req ≡ some (absolute (names base ++ names req))
unfolding join_base_path
join_base_path_lem base req h =
    rw (h, fix_and_clean_path-absolute base, fix_and_clean_path-absolute req)
      (ap some
        (join_paths-absolute (names base) (names req) (names-AllNames base) (names-AllNames req)))

pub names-join :
    (base req : Bytes) → names (absolute (names base ++ names req)) ≡ names base ++ names req
names-join base req =
    names-absolute (names base ++ names req)
      (All-append IsName (names base) (names req) (names-AllNames base) (names-AllNames req))
      (All-append (Lacks b'\\') (names base) (names req) (names-Lacks base) (names-Lacks req))

refused : (base req : Bytes) → is_relative req ≡ true → join_base_path base req ≡ none
unfolding join_base_path
refused base req h = rw h

pub join_base_path-some :
    (base req r : Bytes) → join_base_path base req ≡ some r → r ≡ absolute (names base ++ names req)
join_base_path-some base req r h = elim (Bool-cases (is_relative req)) [
  | inl e ↦ cc (refused base req e, h)
  | inr e ↦ cc (join_base_path_lem base req e, h)
]

-- Whatever a user asks for, a path that JoinBasePath lets through lies under the base path, and
-- it is the base path followed by the names of the request.
pub join_base_path-is_sub_path :
    (base req r : Bytes)
    → join_base_path base req ≡ some r
    → (is_sub_path base r ≡ true) × (names r ≡ names base ++ names req)
join_base_path-is_sub_path base req r h =
    let e = join_base_path-some base req r h in
    let n : names r ≡ names base ++ names req = ap names e ∙ names-join base req in
    ((is_sub_path_iff base r).1 (names req, n), n)
