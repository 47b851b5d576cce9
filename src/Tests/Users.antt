-- ===== src/Tests/Users.antt =====
-- Users over a table of one row at most, which refuses a second one.
use xiaoya_qwen.Prelude.{
  ℕ, [], Bytes, Bool, true, false, Option, none, some, ◌≡◌, ◌≢◌, refl, beq, beq_iff, ◌==◌,
  if◌then◌else◌, codes, arith,
}
use xiaoya_qwen.Prelude.Int.{ℤ, pos, int_eq}
use xiaoya_qwen.Model.User.{User}
use xiaoya_qwen.Op.Users.{UserDb, Users, queried, get_user_by_name, delete_user_by_id}
use xiaoya_qwen.Op.Users.Coherence.{Coherent}
use xiaoya_qwen.Op.Users.Fresh.{Reaches, stays, by_name_then, delete_then, get_user_by_name-fresh}
use xiaoya_qwen.Tests.Metas
use xiaoya_qwen.Tests.Metas.{memory}

abbrev when : Bool → User → Option User
when b u = if b then some u else none

abbrev name_of : Option User → Bytes → Option User
name_of none n = none
name_of (some u) n = when (beq u.username n) u

abbrev role_of : Option User → ℤ → Option User
role_of none r = none
role_of (some u) r = when (int_eq u.role r) u

abbrev id_of : Option User → ℕ → Option User
id_of none i = none
id_of (some u) i = when (u.id == i) u

abbrev create_one : Option User → User → Option (Option User)
create_one none u = some (some u)
create_one (some v) u = none

abbrev save_one : Option User → User → Option (Option User)
save_one none u = none
save_one (some v) u = if v.id == u.id then some (some u) else none

abbrev delete_one : Option User → ℕ → Option (Option User)
delete_one none i = some none
delete_one (some v) i = if v.id == i then some none else some (some v)

name-create :
    (t t' : Option User) (u v : User) (n : Bytes)
    → create_one t u ≡ some t'
    → name_of t n ≡ some v
    → name_of t' n ≡ some v
name-create none t' u v n e h = cc
name-create (some w) t' u v n e h = cc

name-save :
    (t t' : Option User) (u old v : User) (n : Bytes)
    → save_one t u ≡ some t'
    → id_of t u.id ≡ some old
    → n ≢ old.username
    → name_of t n ≡ some v
    → name_of t' n ≡ some v
name-save none t' u old v n e row h k = cc
name-save (some w) t' u old v n e row h k = ground (arith, beq_iff w.username n)

name-delete :
    (t t' : Option User) (old : User) (id : ℕ) (n : Bytes)
    → delete_one t id ≡ some t'
    → id_of t id ≡ some old
    → n ≢ old.username
    → name_of t' n ≡ name_of t n
name-delete none t' old id n e row h = cc
name-delete (some w) t' old id n e row h = ground (arith, beq_iff w.username n)

role-id :
    (t : Option User) (r : ℤ) (u : User)
    → int_eq r (pos 0) ≡ false
    → role_of t r ≡ some u
    → (id_of t u.id ≡ some u) × (int_eq u.role r ≡ true)
role-id none r u z e = cc
role-id (some w) r u z e = ground arith

id-create :
    (t t' : Option User) (u v : User) (i : ℕ)
    → create_one t u ≡ some t'
    → id_of t i ≡ some v
    → id_of t' i ≡ some v
id-create none t' u v i e h = cc
id-create (some w) t' u v i e h = cc

id-save :
    (t t' : Option User) (u : User) (i : ℕ)
    → save_one t u ≡ some t'
    → i ≢ u.id
    → id_of t' i ≡ id_of t i
id-save none t' u i e h = cc
id-save (some w) t' u i e h = ground arith

id-delete :
    (t t' : Option User) (id i : ℕ) → delete_one t id ≡ some t' → i ≢ id → id_of t' i ≡ id_of t i
id-delete none t' id i e h = cc
id-delete (some w) t' id i e h = ground arith

abbrev small : UserDb
small = record {
  Table = Option User;
  by_name = name_of;
  by_role = role_of;
  by_id = id_of;
  create = create_one;
  save = save_one;
  delete = delete_one;
  by_name-create = name-create;
  by_name-save = name-save;
  by_name-delete = name-delete;
  by_role-by_id = role-id;
  by_id-create = id-create;
  by_id-save = id-save;
  by_id-delete = id-delete;
}

abbrev pub ann : User
ann = record {
  id = 7;
  username = codes "ann";
  password = codes "p";
  base_path = codes "/";
  role = pos 0;
  disabled = false;
  permission = 0;
  otp_secret = [];
  sso_id = [];
}

abbrev start : Users small memory
start = record { table = some ann; cache = []; admin_user = none; guest_user = none }

start-Coherent : Coherent small memory start
unfolding Coherent Metas.find
start-Coherent = (λ n u e. cc, λ u e. cc, λ u e. cc)

-- Ann is looked up, and then deleted.
abbrev ended : Users small memory
ended = (delete_user_by_id small memory 7 (get_user_by_name small memory (codes "ann") start).1).1

deleted : Reaches small memory start ended
deleted =
    by_name_then (codes "ann") start ended
      (delete_then 7 (get_user_by_name small memory (codes "ann") start).1 ended (stays ended))

get_user_by_name-fresh_example :
    Coherent small memory ended
    × ((get_user_by_name small memory (codes "ann") ended).0
        ≡ queried small memory (name_of ended.table (codes "ann")))
get_user_by_name-fresh_example =
    get_user_by_name-fresh small memory start ended (codes "ann") start-Coherent deleted
      (unfold beq in refl)
