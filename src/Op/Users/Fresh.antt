-- ===== src/Op/Users/Fresh.antt =====
-- The operations on users, one after another.
use xiaoya_qwen.Prelude.{ℕ, [], Bytes, false, Option, none, some, ◌≡◌, refl, beq}
use xiaoya_qwen.Model.User.{User}
use xiaoya_qwen.Op.Cache.{Cache}
use xiaoya_qwen.Op.Users.{
  UserDb, Users, queried, get_admin, get_guest, query_name, cached, get_user_by_name, cleaned,
  create_user, delete_user_by_id, update_user,
}
use xiaoya_qwen.Op.Users.Coherence.{
  Coherent, get_user_by_name-Coherent, admin_or-Coherent, guest_or-Coherent, written-create,
  delete_found-Coherent, update_found-Coherent,
}

module _ (d : UserDb) (c : Cache User) where
  open d use {by_name, by_id}

  -- Any sequence of the operations; an update keeps the role of the user, as the handler of the request checks.
  pub data Reaches : Users d c → Users d c → Type 0 where
    stays : (s : Users d c) → Reaches s s
    by_name_then :
        (n : Bytes) (s s' : Users d c) → Reaches (get_user_by_name d c n s).1 s' → Reaches s s'
    admin_then : (s s' : Users d c) → Reaches (get_admin d c s).1 s' → Reaches s s'
    guest_then : (s s' : Users d c) → Reaches (get_guest d c s).1 s' → Reaches s s'
    create_then : (u : User) (s s' : Users d c) → Reaches (create_user d c u s).1 s' → Reaches s s'
    delete_then :
        (id : ℕ) (s s' : Users d c) → Reaches (delete_user_by_id d c id s).1 s' → Reaches s s'
    update_then :
        (u : User) (s s' : Users d c)
        → ((old : User) → by_id s.table u.id ≡ some old → u.role ≡ old.role)
        → Reaches (update_user d c u s).1 s'
        → Reaches s s'

  Reaches-Coherent : (s s' : Users d c) → Reaches s s' → Coherent d c s → Coherent d c s'
  unfolding get_admin get_guest create_user delete_user_by_id update_user
  Reaches-Coherent s s' (stays t) h = h
  Reaches-Coherent s s' (by_name_then n t t' r) h =
      Reaches-Coherent _ t' r (get_user_by_name-Coherent d c n t h)
  Reaches-Coherent s s' (admin_then t t' r) h =
      Reaches-Coherent _ t' r (admin_or-Coherent d c t.admin_user t h)
  Reaches-Coherent s s' (guest_then t t' r) h =
      Reaches-Coherent _ t' r (guest_or-Coherent d c t.guest_user t h)
  Reaches-Coherent s s' (create_then u t t' r) h =
      Reaches-Coherent _ t' r (written-create d c (cleaned d c u) _ t refl h)
  Reaches-Coherent s s' (delete_then id t t' r) h =
      Reaches-Coherent _ t' r (delete_found-Coherent d c id _ t refl h)
  Reaches-Coherent s s' (update_then u t t' same r) h =
      Reaches-Coherent _ t' r (update_found-Coherent d c u _ t refl same h)

  asked :
      (n : Bytes) (row : Option User) (s : Users d c) → (query_name d c n row s).0 ≡ queried d c row
  unfolding query_name queried
  asked n none s = refl
  asked n (some u) s = refl

  cached-answer :
      (n : Bytes) (v : Option User) (s : Users d c)
      → Coherent d c s
      → c.get s.cache n ≡ v
      → (cached d c n v s).0 ≡ queried d c (by_name s.table n)
  unfolding cached queried Coherent
  cached-answer n (some u) s h e = rw (h.0 n u e) refl
  cached-answer n none s h e = asked n (by_name s.table n) s

  -- After any sequence of lookups, of creations and deletions of users, and of updates that
  -- keep the role of the user, from a state where the cached users are those of the table, they
  -- are those of the table again, and GetUserByName answers for a name that is not empty what
  -- the table has under it.
  pub get_user_by_name-fresh :
      (s s' : Users d c) (n : Bytes)
      → Coherent d c s
      → Reaches s s'
      → beq n [] ≡ false
      → Coherent d c s' × ((get_user_by_name d c n s').0 ≡ queried d c (by_name s'.table n))
  unfolding get_user_by_name
  get_user_by_name-fresh s s' n h r e =
      let k = Reaches-Coherent s s' r h in (k, rw e (cached-answer n (c.get s'.cache n) s' k refl))
