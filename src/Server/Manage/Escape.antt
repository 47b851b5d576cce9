-- ===== src/Server/Manage/Escape.antt =====
-- Names in the requests of server/handles/fsmanage.go that are no path elements.
use xiaoya_qwen.Prelude.{
  List, [], ◌∷◌, ◌++◌, Bytes, true, false, some, All, All-append, All-In, In-append_right, Lacks,
  ◌≡◌, ◌≢◌, refl, sym, ap, ◌∙◌, arith, inl, inr, append_assoc, append-nil, beq, Bool-cases,
}
use xiaoya_qwen.Go.Strings.{split, replace_all, has_suffix, has_prefix, contains, index}
use xiaoya_qwen.Go.Path.{
  resolve, step, dot_dot, absolute, elements, AllNames, IsName, join_paths, join_paths-rooted,
  elements-absolute, elements-append_name, elements-append_up,
}
use xiaoya_qwen.Utils.Path.{is_sub_path, is_relative}
use xiaoya_qwen.Utils.Path.Clean.{names, names-AllNames, names-Lacks, names-absolute}
use xiaoya_qwen.Utils.Path.SubPath.{is_sub_path_iff}
use xiaoya_qwen.Utils.Path.JoinBase.{join_base_path_lem}
use xiaoya_qwen.Model.User.{User, can_remove, join_path}
use xiaoya_qwen.Server.Manage.{remove, Answers, for_names, RemoveReq, fs_remove}
use xiaoya_qwen.Server.Manage.Confined.{IsPlain}

-- The name of a sibling, reached through the parent directory.
abbrev pub sibling : Bytes → Bytes
sibling n = dot_dot ++ b'/' ∷ n

join-sibling :
    (ps : List Bytes) (p n : Bytes)
    → AllNames (ps ++ p ∷ [])
    → IsName p
    → IsName n
    → join_paths (absolute (ps ++ p ∷ [])) (sibling n) ≡ absolute (ps ++ n ∷ [])
join-sibling ps p n hp h hn =
    join_paths-rooted (ps ++ p ∷ []) (sibling n)
    ∙ ap (λ r. absolute (elements r))
        (sym (append_assoc (absolute (ps ++ p ∷ [])) (b'/' ∷ dot_dot) (b'/' ∷ n)))
    ∙ ap absolute (
        elements-append_name (absolute (ps ++ p ∷ []) ++ b'/' ∷ dot_dot) n hn
        ∙ ap (λ r. r ++ n ∷ [])
            (elements-append_up (absolute (ps ++ p ∷ [])) p ps h
              (elements-absolute (ps ++ p ∷ []) hp)))

last-differs : (ps t : List Bytes) (p n : Bytes) → ps ++ n ∷ [] ≡ (ps ++ p ∷ []) ++ t → n ≡ p
last-differs [] t p n e = cc
last-differs (q ∷ ps) t p n e = last-differs ps t p n (cc)

All-left : (P : Bytes → Type 0) (xs ys : List Bytes) → All P (xs ++ ys) → All P xs
All-left P [] ys h = tt
All-left P (x ∷ xs) ys h = (h.0, All-left P xs ys h.1)

root_is_not_relative : is_relative (b'/' ∷ []) ≡ false
unfolding is_relative beq has_suffix has_prefix contains index
root_is_not_relative = refl

names-root : names (b'/' ∷ []) ≡ []
unfolding names elements resolve step split beq replace_all
names-root = refl

abbrev pub remove_sibling : Bytes → RemoveReq
remove_sibling n = record { dir = b'/' ∷ []; names = sibling n ∷ [] }

outside :
    (base n p : Bytes) (ps : List Bytes)
    → names base ≡ ps ++ p ∷ []
    → IsPlain n
    → n ≢ p
    → is_sub_path base (absolute (ps ++ n ∷ [])) ≡ false
outside base n p ps e h ne = elim (Bool-cases (is_sub_path base (absolute (ps ++ n ∷ [])))) [
  | inr out ↦ out
  | inl sub ↦
      let (t, q) = (is_sub_path_iff base (absolute (ps ++ n ∷ []))).0 sub in
      absurd (ne (last-differs ps t p n (sym named ∙ q ∙ ap (λ r. r ++ t) e)))
]
  where
    named : names (absolute (ps ++ n ∷ [])) ≡ ps ++ n ∷ []
    named =
        names-absolute (ps ++ n ∷ [])
          (All-append IsName ps (n ∷ [])
            (All-left IsName ps (p ∷ []) (rw e at (names-AllNames base))) (h.name, tt))
          (All-append (Lacks b'\\') ps (n ∷ [])
            (All-left (Lacks b'\\') ps (p ∷ []) (rw e at (names-Lacks base))) (h.no_backslash, tt))

joined : (user : User) → join_path user (b'/' ∷ []) ≡ some (absolute (names user.base_path))
unfolding join_path
joined user =
    join_base_path_lem user.base_path (b'/' ∷ []) root_is_not_relative
    ∙ ap (λ r. some (absolute r))
        (ap (λ r. names user.base_path ++ r) names-root ∙ append-nil (names user.base_path))

-- A user who may remove files and whose base path ends in some name can remove, by the name
-- "../n" in the root of the base path, the sibling `n` of the base path, which lies outside it.
pub fs_remove-escapes :
    (answers : Answers) (user : User) (n p : Bytes) (ps : List Bytes)
    → can_remove user ≡ true
    → names user.base_path ≡ ps ++ p ∷ []
    → IsPlain n
    → n ≢ p
    → ((fs_remove answers user (some (remove_sibling n))).calls
        ≡ remove (absolute (ps ++ n ∷ [])) ∷ [])
      × (is_sub_path user.base_path (absolute (ps ++ n ∷ [])) ≡ false)
unfolding fs_remove for_names
fs_remove-escapes answers user n p ps can e h ne = (
  rw (can, joined user, e)
      (ground (
        arith,
        join-sibling ps p n (rw e at (names-AllNames user.base_path))
            (All-In IsName (ps ++ p ∷ []) p (rw e at (names-AllNames user.base_path))
              (In-append_right p ps (p ∷ []) (inl refl)))
            h.name,
      )),
  outside user.base_path n p ps e h ne,
)
