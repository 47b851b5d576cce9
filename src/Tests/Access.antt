-- ===== src/Tests/Access.antt =====
-- What a guest without permissions may see, and what a user may change.
use xiaoya_qwen.Prelude.{
  none, Bytes, if◌then◌else◌, if◌then◌else◌, ℕ, [], ◌∷◌, ◌++◌, true, false, some, ◌≡◌, refl, ◌⊎◌,
  beq, beq-ne, codes, arith,
}
use xiaoya_qwen.Prelude.Int.{pos}
use xiaoya_qwen.Go.Strings.{split, replace_all}
use xiaoya_qwen.Go.Path.{dir, base, absolute, elements, resolve, step}
use xiaoya_qwen.Utils.Path.{is_sub_path, path_equal, fix_and_clean_path, path_add_separator_suffix}
use xiaoya_qwen.Utils.Path.Clean.{names}
use xiaoya_qwen.Model.User.{
  User, validate_password, can_webdav_read, can_webdav_manage, can_see_hides,
  can_access_without_password, can_remove, can_move, can_copy, is_admin, has_bit,
}
use xiaoya_qwen.Model.Meta.{Meta}
use xiaoya_qwen.Server.Check.{Regexp, is_apply, is_hiding, hide_loop, check_password, can_access}
use xiaoya_qwen.Server.WebdavAuth.{Request, Admits, admits, aborts, webdav_auth, webdav_auth-Admits}
use xiaoya_qwen.Utils.Slice.{slice_contains}
use xiaoya_qwen.Server.Check.Laws.{Protects, Hides, can_access-granted}
use xiaoya_qwen.Server.Auth.{Accounts, auth, user_set, auth-user_set}
use xiaoya_qwen.Server.Manage.{
  remove, Answers, done, RemoveReq, MoveCopyReq, fs_remove, fs_move, fs_copy,
}
use xiaoya_qwen.Server.Manage.Confined.{IsPlain, Confines, changes-Within}
use xiaoya_qwen.Server.Manage.Escape.{remove_sibling, fs_remove-escapes}

abbrev pub somebody : ℕ → User
somebody p = record {
  id = 2;
  username = codes "u";
  password = codes "p";
  base_path = codes "/home/u";
  role = pos 0;
  disabled = false;
  permission = p;
  otp_secret = [];
  sso_id = [];
}

abbrev pub locked : Meta
locked = record {
  id = 1;
  path = codes "/a";
  password = codes "pw";
  p_sub = true;
  write = false;
  w_sub = false;
  hide = codes "x";
  h_sub = true;
  readme = [];
  r_sub = false;
}

-- An expression that matches the texts equal to it.
abbrev pub literally : Regexp
literally e = some (beq e)

abbrev always : Answers
always made call = done

opened : Unit {0}
unfolding is_admin has_bit can_see_hides can_access_without_password can_remove can_move can_access
    is_apply path_equal is_sub_path fix_and_clean_path path_add_separator_suffix beq dir base split
    names replace_all elements resolve step is_hiding hide_loop check_password
opened = tt

granted : can_access literally (somebody 0) (some locked) (codes "/a/b") (codes "pw") ≡ some true
unfolding opened
granted = refl

can_access-granted_example :
    ((codes "pw" ≡ locked.password) ⊎ (¬ Protects (somebody 0) locked (codes "/a/b")))
    × (¬ Hides literally (somebody 0) locked (codes "/a/b"))
can_access-granted_example =
    can_access-granted literally (somebody 0) locked (codes "/a/b") (codes "pw") granted

pub letter-IsPlain : IsPlain (codes "f")
letter-IsPlain = record {
  name = record {
    not_empty = λ e. cc;
    not_dot = beq-ne (codes "f") (codes ".") (unfold beq in refl);
    not_dot_dot = beq-ne (codes "f") (codes "..") (unfold beq in refl);
    no_slash = ((omega arith), tt);
  };
  no_backslash = ((omega arith), tt);
}

abbrev removal : RemoveReq
removal = record { dir = codes "/d"; names = codes "f" ∷ [] }

abbrev transferral : MoveCopyReq
transferral = record { src_dir = codes "/d"; dst_dir = codes "/e"; names = codes "f" ∷ [] }

changes-Within_example :
    Confines
      (can_remove (somebody 160))
      (codes "/home/u")
      (fs_remove always (somebody 160) (some removal))
    × Confines
        (can_move (somebody 160))
        (codes "/home/u")
        (fs_move always (somebody 160) (some transferral))
    × Confines
        (can_copy (somebody 160))
        (codes "/home/u")
        (fs_copy always (somebody 160) (some transferral))
changes-Within_example =
    changes-Within always (somebody 160) removal transferral (letter-IsPlain, tt)
      (letter-IsPlain, tt)

may_remove : can_remove (somebody 128) ≡ true
unfolding opened
may_remove = refl

home_names : names (codes "/home/u") ≡ (codes "home" ∷ []) ++ codes "u" ∷ []
unfolding opened
home_names = refl

fs_remove-escapes_example :
    ((fs_remove always (somebody 128) (some (remove_sibling (codes "f")))).calls
      ≡ remove (absolute ((codes "home" ∷ []) ++ codes "f" ∷ [])) ∷ [])
    × (is_sub_path (codes "/home/u") (absolute ((codes "home" ∷ []) ++ codes "f" ∷ [])) ≡ false)
fs_remove-escapes_example =
    fs_remove-escapes always (somebody 128) (codes "f") (codes "u") (codes "home" ∷ []) may_remove
      home_names letter-IsPlain (beq-ne (codes "f") (codes "u") (unfold beq in refl))

-- One user, who is the guest and has a token; there is no administrator.
abbrev accounts : Accounts
accounts = record {
  token = codes "secret";
  get_admin = none;
  get_guest = some (somebody 0);
  parse_token = λ t. some t;
  get_user_by_name = λ n. if beq n (codes "u") then some (somebody 8) else none;
}

logged_in : auth accounts (codes "u") ≡ user_set (somebody 8)
unfolding auth beq
logged_in = refl

auth-user_set_example :
    ((codes "u" ≡ accounts.token) × (accounts.get_admin ≡ some (somebody 8)))
    ⊎ (((codes "u" ≡ [])
          × (accounts.get_guest ≡ some (somebody 8))
          × ((somebody 8).disabled ≡ false))
        ⊎ ((name : Bytes) × (accounts.parse_token (codes "u") ≡ some name)
            × (accounts.get_user_by_name name ≡ some (somebody 8))
            × ((somebody 8).disabled ≡ false)))
auth-user_set_example = auth-user_set accounts (codes "u") (somebody 8) logged_in

abbrev reading : Request
reading = record { basic_auth = some (codes "u", codes "p"); method = codes "GET" }

-- The bit 8 lets a user read by WebDAV, the bit 9 manage.
reading_admitted :
    webdav_auth none (λ n. some (somebody 256)) reading ≡ admits (some (somebody 256))
unfolding webdav_auth validate_password can_webdav_read can_webdav_manage has_bit slice_contains beq
    is_admin
reading_admitted = refl

put_aborted :
    webdav_auth none (λ n. some (somebody 256)) (record reading { method = codes "PUT" })
    ≡ aborts 403
unfolding webdav_auth validate_password can_webdav_read can_webdav_manage has_bit slice_contains beq
    is_admin
put_aborted = refl

webdav_auth-Admits_example : Admits none (λ n. some (somebody 256)) reading (some (somebody 256))
webdav_auth-Admits_example =
    webdav_auth-Admits none (some (somebody 256)) (λ n. some (somebody 256)) reading
      reading_admitted
