-- ===== src/Op/Users/Coherence.antt =====
-- The cached users beside the table of users.
use xiaoya_qwen.Prelude.{
  ℕ, [], Bytes, Bool, true, false, ◌||◌, Option, none, some, ◌≡◌, ◌≢◌, refl, sym, ap, ◌∙◌, beq,
  beq_iff, if◌then◌else◌, Bool-cases, inl, inr,
}
use xiaoya_qwen.Prelude.Int.{ℤ, int_eq}
use xiaoya_qwen.Model.User.{User, guest, admin, is_guest, is_admin}
use xiaoya_qwen.Op.Cache.{Cache}
use xiaoya_qwen.Op.Users.{
  UserDb, Users, admin_or, guest_or, query_name, cached, get_user_by_name, written, cleaned,
  delete_found, forget, update_found,
}

module _ (d : UserDb) (c : Cache User) where
  open d use {Table, by_name, by_role, by_id}

  -- Every cached user is the one of that name in the table.
  abbrev pub AreNames : Table → c.Store → Type 0
  AreNames t m = (n : Bytes) (u : User) → c.get m n ≡ some u → by_name t n ≡ some u

  -- The user of a role that is kept, if one is, is in the table.
  abbrev pub IsOf : ℤ → Table → Option User → Type 0
  IsOf r t o = (u : User) → o ≡ some u → (by_id t u.id ≡ some u) × (int_eq u.role r ≡ true)

  unfoldable pub Coherent : Users d c → Type 0
  Coherent s =
      AreNames s.table s.cache × IsOf admin s.table s.admin_user × IsOf guest s.table s.guest_user

  set-AreNames :
      (t : Table) (m : c.Store) (n : Bytes) (u : User)
      → AreNames t m
      → by_name t n ≡ some u
      → AreNames t (c.set m n u)
  set-AreNames t m n u h e k v g = elim (Bool-cases (beq n k)) [
    | inl b ↦
        let same : n ≡ k = (beq_iff n k).0 b in
        let g' : some u ≡ some v = sym (c.get-set m n k u ∙ rw b refl) ∙ g in
        sym (ap (by_name t) same) ∙ e ∙ g'
    | inr b ↦ h k v (sym (c.get-set m n k u ∙ rw b refl) ∙ g)
  ]

  kept :
      (b : Bool) (x : Option User) (v : User)
      → (if b then none else x) ≡ some v
      → (b ≡ false) × (x ≡ some v)
  kept true x v h = cc
  kept false x v h = (refl, h)

  -- What is left in the cache after a name is deleted there.
  del-left :
      (m : c.Store) (n k : Bytes) (v : User)
      → c.get (c.del m n) k ≡ some v
      → (k ≢ n) × (c.get m k ≡ some v)
  del-left m n k v g =
      let (b, e) = kept (beq n k) (c.get m k) v (sym (c.get-del m n k) ∙ g) in
      (λ same. cc (b, (beq_iff n k).1 (sym same)), e)

  query_name-Coherent :
      (n : Bytes) (row : Option User) (s : Users d c)
      → by_name s.table n ≡ row
      → Coherent s
      → Coherent (query_name d c n row s).1
  unfolding Coherent query_name
  query_name-Coherent n none s e h = h
  query_name-Coherent n (some u) s e (names, a, g) =
      (set-AreNames s.table s.cache n u names e, a, g)

  cached-Coherent :
      (n : Bytes) (v : Option User) (s : Users d c) → Coherent s → Coherent (cached d c n v s).1
  unfolding cached
  cached-Coherent n none s h = query_name-Coherent n (by_name s.table n) s refl h
  cached-Coherent n (some u) s h = h

  pub get_user_by_name-Coherent :
      (n : Bytes) (s : Users d c) → Coherent s → Coherent (get_user_by_name d c n s).1
  unfolding get_user_by_name
  get_user_by_name-Coherent n s h = elim (Bool-cases (beq n [])) [
    | inl b ↦ rw b h
    | inr b ↦ rw b (cached-Coherent n (c.get s.cache n) s h)
  ]

  pub admin_or-Coherent :
      (v : Option User) (s : Users d c) → Coherent s → Coherent (admin_or d c v s).1
  unfolding admin_or Coherent
  admin_or-Coherent (some u) s h = h
  admin_or-Coherent none s (names, a, g) = (names, λ u e. d.by_role-by_id s.table admin u refl e, g)

  pub guest_or-Coherent :
      (v : Option User) (s : Users d c) → Coherent s → Coherent (guest_or d c v s).1
  unfolding guest_or Coherent
  guest_or-Coherent (some u) s h = h
  guest_or-Coherent none s (names, a, g) = (names, a, λ u e. d.by_role-by_id s.table guest u refl e)

  pub written-create :
      (u : User) (t : Option Table) (s : Users d c)
      → d.create s.table u ≡ t
      → Coherent s
      → Coherent (written d c t s).1
  unfolding written Coherent
  written-create u none s e h = h
  written-create u (some t) s e (names, a, g) = (
    λ n v k. d.by_name-create s.table t u v n e (names n v k),
    λ v k. (d.by_id-create s.table t u v v.id e (a v k).0, (a v k).1),
    λ v k. (d.by_id-create s.table t u v v.id e (g v k).0, (g v k).1),
  )

  -- A user of a role is not the one that is deleted or saved, if that one has not the role.
  other_role :
      (r : ℤ) (t : Table) (old v : User) (id : ℕ)
      → by_id t id ≡ some old
      → int_eq old.role r ≡ false
      → by_id t v.id ≡ some v
      → int_eq v.role r ≡ true
      → v.id ≢ id
  other_role r t old v id row differs found role same =
      let e : some v ≡ some old = sym found ∙ ap (by_id t) same ∙ row in
      let f : v ≡ old = cc in cc (differs, role, ap (λ u. int_eq u.role r) f)

  written-delete :
      (id : ℕ) (old : User) (t : Option Table) (s : Users d c)
      → by_id s.table id ≡ some old
      → int_eq old.role admin ≡ false
      → int_eq old.role guest ≡ false
      → d.delete s.table id ≡ t
      → Coherent s
      → Coherent (written d c t (record s { cache = c.del s.cache old.username })).1
  unfolding written Coherent
  written-delete id old none s row na ng e (names, a, g) =
      (λ n v k. names n v (del-left s.cache old.username n v k).1, a, g)
  written-delete id old (some t) s row na ng e (names, a, g) = (
    λ n v k.
        let (other, k') = del-left s.cache old.username n v k in
        d.by_name-delete s.table t old id n e row other ∙ names n v k',
    λ v k.
        let (found, role) = a v k in
        (
          d.by_id-delete s.table t id v.id e (other_role admin s.table old v id row na found role)
              ∙ found,
          role,
        ),
    λ v k.
        let (found, role) = g v k in
        (
          d.by_id-delete s.table t id v.id e (other_role guest s.table old v id row ng found role)
              ∙ found,
          role,
        ),
  )

  neither : (x y : Bool) → (x || y) ≡ false → (x ≡ false) × (y ≡ false)
  neither true y h = cc
  neither false y h = (refl, h)

  pub delete_found-Coherent :
      (id : ℕ) (row : Option User) (s : Users d c)
      → by_id s.table id ≡ row
      → Coherent s
      → Coherent (delete_found d c id row s).1
  unfolding delete_found is_admin is_guest
  delete_found-Coherent id none s e h = h
  delete_found-Coherent id (some old) s e h =
      elim (Bool-cases (int_eq old.role admin || int_eq old.role guest)) [
        | inl b ↦ rw b h
        | inr b ↦
            let (na, ng) = neither (int_eq old.role admin) (int_eq old.role guest) b in
            rw b (written-delete id old (d.delete s.table id) s e na ng refl h)
      ]

  -- The user of a role after UpdateUser has emptied its place.
  IsOf-saved :
      (r : ℤ) (t t' : Table) (u old : User) (o : Option User)
      → by_id t u.id ≡ some old
      → u.role ≡ old.role
      → ((i : ℕ) → i ≢ u.id → by_id t' i ≡ by_id t i)
      → IsOf r t o
      → IsOf r t' (if int_eq u.role r then none else o)
  IsOf-saved r t t' u old o row same others h v k =
      let (differs, k') = kept (int_eq u.role r) o v k in
      let (found, role) = h v k' in
      let old_differs : int_eq old.role r ≡ false = sym (ap (λ x. int_eq x r) same) ∙ differs in
      (others v.id (other_role r t old v u.id row old_differs found role) ∙ found, role)

  written-save :
      (u old : User) (t : Option Table) (s : Users d c)
      → by_id s.table u.id ≡ some old
      → u.role ≡ old.role
      → d.save s.table (cleaned d c u) ≡ t
      → Coherent s
      → Coherent (written d c t (forget d c u old s)).1
  unfolding written Coherent forget cleaned is_admin is_guest
  written-save u old none s row same e (names, a, g) = (
    λ n v k. names n v (del-left s.cache old.username n v k).1,
    IsOf-saved admin s.table s.table u old s.admin_user row same (λ i ne. refl) a,
    IsOf-saved guest s.table s.table u old s.guest_user row same (λ i ne. refl) g,
  )
  written-save u old (some t) s row same e (names, a, g) = (
    λ n v k.
        let (other, k') = del-left s.cache old.username n v k in
        d.by_name-save s.table t _ old v n e row other (names n v k'),
    IsOf-saved admin s.table t u old s.admin_user row same (λ i ne. d.by_id-save s.table t _ i e ne)
        a,
    IsOf-saved guest s.table t u old s.guest_user row same (λ i ne. d.by_id-save s.table t _ i e ne)
        g,
  )

  pub update_found-Coherent :
      (u : User) (row : Option User) (s : Users d c)
      → by_id s.table u.id ≡ row
      → ((old : User) → by_id s.table u.id ≡ some old → u.role ≡ old.role)
      → Coherent s
      → Coherent (update_found d c u row s).1
  unfolding update_found
  update_found-Coherent u none s e r h = h
  update_found-Coherent u (some old) s e r h = written-save u old _ s e (r old e) refl h
