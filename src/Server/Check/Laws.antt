-- ===== src/Server/Check/Laws.antt =====
-- Who may see what: the checks against their meaning.
use xiaoya_qwen.Prelude.{
  List, [], ◌∷◌, Bytes, Bool, true, false, ◌&&◌, some, beq, beq_iff, if◌then◌else◌, ◌≡◌, ◌≢◌, ◌↔◌,
  ◌⊎◌, inl, inr, arith, Bool-cases, &&_iff,
}
use xiaoya_qwen.Go.Strings.{split}
use xiaoya_qwen.Go.Path.{dir, base, Begins}
use xiaoya_qwen.Utils.Path.{path_equal, is_sub_path}
use xiaoya_qwen.Utils.Path.Clean.{names, path_equal_iff}
use xiaoya_qwen.Utils.Path.SubPath.{is_sub_path_iff}
use xiaoya_qwen.Model.User.{User, can_see_hides, can_access_without_password}
use xiaoya_qwen.Model.Meta.{Meta}
use xiaoya_qwen.Server.Check.{
  Regexp, is_apply, hide_loop, is_hiding, is_hidden, check_password, can_access,
}

-- A meta applies to the path that it is attached to and, if it says so, to the paths below it.
pub is_apply_iff :
    (meta_path req_path : Bytes) (apply_sub : Bool)
    → (is_apply meta_path req_path apply_sub ≡ true) ↔ (
        (names meta_path ≡ names req_path)
        ⊎ (Begins (names meta_path) (names req_path) × (apply_sub ≡ true)))
unfolding is_apply
is_apply_iff meta_path req_path apply_sub = (
  λ h. elim (Bool-cases (path_equal meta_path req_path)) [
    | inl e ↦ inl ((path_equal_iff meta_path req_path).0 e)
    | inr e ↦
        let (sub, on) = (&&_iff (is_sub_path meta_path req_path) apply_sub).0 (rw e at h) in
        inr ((is_sub_path_iff meta_path req_path).0 sub, on)
  ],
  λ h. elim h [
    | inl e ↦ rw ((path_equal_iff meta_path req_path).1 e)
    | inr (sub, on) ↦ applied ((is_sub_path_iff meta_path req_path).1 sub) on
  ],
)
  where
    applied :
        is_sub_path meta_path req_path ≡ true
        → apply_sub ≡ true
        → (if path_equal meta_path req_path
            then true
            else is_sub_path meta_path req_path && apply_sub)
          ≡ true
    applied sub on = ground arith

-- The password of a meta protects a path: a user without the permission to pass.
abbrev pub Protects : User → Meta → Bytes → Type 0
Protects user meta req_path =
    (can_access_without_password user ≡ false)
    × (meta.password ≢ [])
    × ((names meta.path ≡ names req_path) ⊎ (meta.p_sub ≡ true))

checked :
    (user : User) (meta : Meta) (req_path password : Bytes)
    → Protects user meta req_path
    → check_password user (some meta) req_path password ≡ true
    → password ≡ meta.password
unfolding check_password
checked user meta req_path password (u, n, s) h = ground (
  arith,
  beq_iff meta.password [],
  beq_iff meta.password password,
  path_equal_iff meta.path req_path,
)

-- Where a password protects the path, access is granted only with that password.
can_access-Protects :
    (regexp : Regexp) (user : User) (meta : Meta) (req_path password : Bytes)
    → Protects user meta req_path
    → can_access regexp user (some meta) req_path password ≡ some true
    → password ≡ meta.password
unfolding can_access
can_access-Protects regexp user meta req_path password p h =
    checked user meta req_path password p (ground arith)

-- One of the expressions matches, and those above it compile.
abbrev pub Hits : Regexp → Bytes → List Bytes → Type 0
Hits regexp name [] = ⊥
Hits regexp name (hide ∷ hides) =
    (re : Bytes → Bool) × (regexp hide ≡ some re) × ((re name ≡ true) ⊎ Hits regexp name hides)

hide_loop-Hits :
    (regexp : Regexp) (name : Bytes) (hides : List Bytes)
    → Hits regexp name hides
    → hide_loop regexp name hides ≡ some true
unfolding hide_loop
hide_loop-Hits regexp name [] h = absurd h
hide_loop-Hits regexp name (hide ∷ hides) (re, e, inl m) = ground arith
hide_loop-Hits regexp name (hide ∷ hides) (re, e, inr m) =
    ground (arith, hide_loop-Hits regexp name hides m)

hidden :
    (regexp : Regexp) (user : User) (meta : Meta) (req_path : Bytes)
    → can_see_hides user ≡ false
    → is_apply meta.path (dir req_path) meta.h_sub ≡ true
    → Hits regexp (base req_path) (split b'\n' meta.hide)
    → meta.hide ≢ []
    → is_hidden regexp user (some meta) req_path ≡ some true
unfolding is_hidden is_hiding
hidden regexp user meta req_path u a h n =
    ground
      (arith, beq_iff meta.hide [], hide_loop-Hits regexp (base req_path) (split b'\n' meta.hide) h)

-- A meta hides a path from a user: by a line of Hide that matches its name, the lines above compiling.
abbrev pub Hides : Regexp → User → Meta → Bytes → Type 0
Hides regexp user meta req_path =
    (can_see_hides user ≡ false)
    × (is_apply meta.path (dir req_path) meta.h_sub ≡ true)
    × Hits regexp (base req_path) (split b'\n' meta.hide)
    × (meta.hide ≢ [])

-- A hidden name is not accessible, with whatever password.
can_access-Hides :
    (regexp : Regexp) (user : User) (meta : Meta) (req_path password : Bytes)
    → Hides regexp user meta req_path
    → can_access regexp user (some meta) req_path password ≡ some false
unfolding can_access
can_access-Hides regexp user meta req_path password (u, a, h, n) =
    ground (arith, hidden regexp user meta req_path u a h n)

-- If CanAccess grants access to a path, then the password is that of the meta, or the meta does not
-- protect the path from the user, and no line of the meta's Hide, the lines above it compiling,
-- hides the path from the user.
pub can_access-granted :
    (regexp : Regexp) (user : User) (meta : Meta) (req_path password : Bytes)
    → can_access regexp user (some meta) req_path password ≡ some true
    → ((password ≡ meta.password) ⊎ (¬ Protects user meta req_path))
      × (¬ Hides regexp user meta req_path)
can_access-granted regexp user meta req_path password h = (
  elim (Bool-cases (beq password meta.password)) [
    | inl e ↦ inl ((beq_iff password meta.password).0 e)
    | inr e ↦ inr (λ p.
        let right = can_access-Protects regexp user meta req_path password p h in
        cc (e, (beq_iff password meta.password).1 right))
  ],
  λ hides. cc (h, can_access-Hides regexp user meta req_path password hides),
)
