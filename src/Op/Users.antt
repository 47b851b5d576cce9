-- ===== src/Op/Users.antt =====
-- internal/op/user.go: users by name and by role, with the caches in front of the database. The database (gorm,
-- behind internal/db/user.go) and the cache by name are parameters. singleflight.Do runs its function.
pub mod Coherence
pub mod Fresh
use xiaoya_qwen.Prelude.{
  ℕ, [], Bytes, Bool, true, false, ◌||◌, Option, none, some, ◌≡◌, ◌≢◌, beq, if◌then◌else◌,
}
use xiaoya_qwen.Prelude.Int.{pos, ℤ, int_eq}
use xiaoya_qwen.Utils.Path.{fix_and_clean_path}
use xiaoya_qwen.Model.User.{User, guest, admin, is_guest, is_admin}
use xiaoya_qwen.Op.Cache.{Cache}

-- The table of users: user names are unique, and a query returns a row, or an error (`none`). A
-- write returns the new table, or `none` if it fails.
pub record UserDb : Type 1 where
  pub Table : Type 0
  pub by_name : Table → Bytes → Option User
  pub by_role : Table → ℤ → Option User
  pub by_id : Table → ℕ → Option User
  pub create : Table → User → Option Table
  pub save : Table → User → Option Table
  pub delete : Table → ℕ → Option Table
  -- The other rows stay as they are.
  pub by_name-create :
      (t t' : Table) (u v : User) (n : Bytes)
      → create t u ≡ some t'
      → by_name t n ≡ some v
      → by_name t' n ≡ some v
  pub by_name-save :
      (t t' : Table) (u old v : User) (n : Bytes)
      → save t u ≡ some t'
      → by_id t u.id ≡ some old
      → n ≢ old.username
      → by_name t n ≡ some v
      → by_name t' n ≡ some v
  pub by_name-delete :
      (t t' : Table) (old : User) (id : ℕ) (n : Bytes)
      → delete t id ≡ some t'
      → by_id t id ≡ some old
      → n ≢ old.username
      → by_name t' n ≡ by_name t n
  -- A condition on the zero of a field would be dropped.
  pub by_role-by_id :
      (t : Table) (r : ℤ) (u : User)
      → int_eq r (pos 0) ≡ false
      → by_role t r ≡ some u
      → (by_id t u.id ≡ some u) × (int_eq u.role r ≡ true)
  pub by_id-create :
      (t t' : Table) (u v : User) (i : ℕ)
      → create t u ≡ some t'
      → by_id t i ≡ some v
      → by_id t' i ≡ some v
  pub by_id-save :
      (t t' : Table) (u : User) (i : ℕ) → save t u ≡ some t' → i ≢ u.id → by_id t' i ≡ by_id t i
  pub by_id-delete :
      (t t' : Table) (id i : ℕ) → delete t id ≡ some t' → i ≢ id → by_id t' i ≡ by_id t i

pub data UserError : Type 0 where
  empty_username delete_admin_or_guest query_error write_error : UserError

pub data UserResult : Type 0 where
  ok : User → UserResult
  failed : UserError → UserResult

module _ (d : UserDb) (c : Cache User) where
  open d use {Table, by_name, by_role, by_id, create, save, delete}
  open c use {Store, get, set, del}

  -- `none` is nil.
  pub record Users : Type 0 where
    pub table : Table
    pub cache : Store
    pub admin_user : Option User
    pub guest_user : Option User

  unfoldable pub queried : Option User → UserResult
  queried none = failed query_error
  queried (some u) = ok u

  unfoldable pub admin_or : Option User → Users → UserResult × Users
  unfolding queried
  admin_or (some u) s = (ok u, s)
  admin_or none s =
      (queried (by_role s.table admin), record s { admin_user = by_role s.table admin })

  unfoldable pub get_admin : Users → UserResult × Users
  unfolding admin_or
  get_admin s = admin_or s.admin_user s

  unfoldable pub guest_or : Option User → Users → UserResult × Users
  unfolding queried
  guest_or (some u) s = (ok u, s)
  guest_or none s =
      (queried (by_role s.table guest), record s { guest_user = by_role s.table guest })

  unfoldable pub get_guest : Users → UserResult × Users
  unfolding guest_or
  get_guest s = guest_or s.guest_user s

  unfoldable pub query_name : Bytes → Option User → Users → UserResult × Users
  query_name username none s = (failed query_error, s)
  query_name username (some u) s = (ok u, record s { cache = set s.cache username u })

  unfoldable pub cached : Bytes → Option User → Users → UserResult × Users
  unfolding query_name
  cached username (some u) s = (ok u, s)
  cached username none s = query_name username (by_name s.table username) s

  unfoldable pub get_user_by_name : Bytes → Users → UserResult × Users
  unfolding cached
  get_user_by_name username s =
      if beq username []
      then (failed empty_username, s)
      else cached username (get s.cache username) s

  -- the end of a write; `none` is no error
  unfoldable pub written : Option Table → Users → Option UserError × Users
  written none s = (some write_error, s)
  written (some t) s = (none, record s { table = t })

  unfoldable pub cleaned : User → User
  cleaned u = record u { base_path = fix_and_clean_path u.base_path }

  unfoldable pub create_user : User → Users → Option UserError × Users
  unfolding written cleaned
  create_user u s = written (create s.table (cleaned u)) s

  unfoldable pub delete_found : ℕ → Option User → Users → Option UserError × Users
  unfolding written
  delete_found id none s = (some query_error, s)
  delete_found id (some old) s =
      if is_admin old || is_guest old
      then (some delete_admin_or_guest, s)
      else written (delete s.table id) (record s { cache = del s.cache old.username })

  unfoldable pub delete_user_by_id : ℕ → Users → Option UserError × Users
  unfolding delete_found
  delete_user_by_id id s = delete_found id (by_id s.table id) s

  -- the caches that UpdateUser empties
  unfoldable pub forget : User → User → Users → Users
  forget u old s = record s {
    cache = del s.cache old.username;
    admin_user = if is_admin u then none else s.admin_user;
    guest_user = if is_guest u then none else s.guest_user;
  }

  unfoldable pub update_found : User → Option User → Users → Option UserError × Users
  unfolding written forget cleaned
  update_found u none s = (some query_error, s)
  update_found u (some old) s = written (save s.table (cleaned u)) (forget u old s)

  unfoldable pub update_user : User → Users → Option UserError × Users
  unfolding update_found
  update_user u s = update_found u (by_id s.table u.id) s

  unfoldable pub cancel_2fa_by_user : User → Users → Option UserError × Users
  unfolding update_user
  cancel_2fa_by_user u s = update_user (record u { otp_secret = [] }) s

  unfoldable pub cancel_found : Option User → Users → Option UserError × Users
  unfolding cancel_2fa_by_user
  cancel_found none s = (some query_error, s)
  cancel_found (some u) s = cancel_2fa_by_user u s

  unfoldable pub cancel_2fa_by_id : ℕ → Users → Option UserError × Users
  unfolding cancel_found
  cancel_2fa_by_id id s = cancel_found (by_id s.table id) s
