-- ===== src/Server/Auth.antt =====
-- server/middlewares/auth.go. The users that the database finds, the claims of a token and the setting of the
-- token are parameters.
use xiaoya_qwen.Prelude.{
  ℕ, [], Bytes, Bool, false, not, Option, none, some, beq, beq_iff, if◌then◌else◌, ◌≡◌, refl, ◌⊎◌,
  inl, inr, arith, Bool-cases, ap, sym, ◌∙◌,
}
use xiaoya_qwen.Model.User.{User, is_admin}

-- The user of the request, or the code of the response.
pub data AuthResult : Type 0 where
  user_set : User → AuthResult
  abort : ℕ → AuthResult

pub record Accounts : Type 0 where
  pub token : Bytes
  pub get_admin : Option User
  pub get_guest : Option User
  pub parse_token : Bytes → Option Bytes
  pub get_user_by_name : Bytes → Option User

-- `code` answers that there is no such user
unfoldable pub found_or : ℕ → Option User → AuthResult
found_or code none = abort code
found_or code (some u) = user_set u

unfoldable pub enabled_or : ℕ → Option User → AuthResult
enabled_or code none = abort code
enabled_or code (some u) = if u.disabled then abort 401 else user_set u

unfoldable pub by_claims : Accounts → Option Bytes → AuthResult
unfolding enabled_or
by_claims accounts none = abort 401
by_claims accounts (some username) = enabled_or 401 (accounts.get_user_by_name username)

-- Auth
unfoldable pub auth : Accounts → Bytes → AuthResult
unfolding found_or enabled_or by_claims
auth accounts token =
    if beq token accounts.token
    then found_or 500 accounts.get_admin
    else if beq token []
    then enabled_or 500 accounts.get_guest
    else by_claims accounts (accounts.parse_token token)

-- AuthAdmin; `none` goes on
unfoldable pub auth_admin : User → Option ℕ
auth_admin user = if not (is_admin user) then some 403 else none

if_false : {A : Type 0} (b : Bool) (x y : A) → b ≡ false → (if b then x else y) ≡ y
if_false b x y e = ground arith

found : (code : ℕ) (o : Option User) (u : User) → found_or code o ≡ user_set u → o ≡ some u
unfolding found_or
found code none u h = cc
found code (some v) u h = cc

enabled :
    (code : ℕ) (o : Option User) (u : User)
    → enabled_or code o ≡ user_set u
    → (o ≡ some u) × (u.disabled ≡ false)
unfolding enabled_or
enabled code none u h = absurd (cc)
enabled code (some v) u h = elim (Bool-cases v.disabled) [
  | inl d ↦ (let f : abort 401 ≡ user_set u = rw d at h in absurd (cc))
  | inr d ↦
      let e : user_set v ≡ user_set u = sym (if_false v.disabled (abort 401) (user_set v) d) ∙ h in
      let same : v ≡ u = cc in (ap some same, ap (λ x. x.disabled) (sym same) ∙ d)
]

claimed :
    (accounts : Accounts) (o : Option Bytes) (u : User)
    → by_claims accounts o ≡ user_set u
    → (name : Bytes) × (o ≡ some name)
      × (accounts.get_user_by_name name ≡ some u)
      × (u.disabled ≡ false)
unfolding by_claims
claimed accounts none u h = absurd (cc)
claimed accounts (some name) u h =
    let (e, d) = enabled 401 (accounts.get_user_by_name name) u h in (name, refl, e, d)

-- A request that Auth lets through runs as the administrator, with the token of the settings, or as the guest,
-- without a token, or as the user that its token names; the guest and that user are not disabled.
pub auth-user_set :
    (accounts : Accounts) (token : Bytes) (u : User)
    → auth accounts token ≡ user_set u
    → ((token ≡ accounts.token) × (accounts.get_admin ≡ some u))
      ⊎ (((token ≡ []) × (accounts.get_guest ≡ some u) × (u.disabled ≡ false))
          ⊎ ((name : Bytes) × (accounts.parse_token token ≡ some name)
              × (accounts.get_user_by_name name ≡ some u)
              × (u.disabled ≡ false)))
unfolding auth
auth-user_set accounts token u h = elim (Bool-cases (beq token accounts.token)) [
  | inl e ↦ inl ((beq_iff token accounts.token).0 e, found 500 accounts.get_admin u (rw e at h))
  | inr e ↦ elim (Bool-cases (beq token [])) [
    | inl z ↦
        let (g, d) = enabled 500 accounts.get_guest u (rw (e, z) at h) in
        inr (inl ((beq_iff token []).0 z, g, d))
    | inr z ↦ inr (inr (claimed accounts (accounts.parse_token token) u (rw (e, z) at h)))
  ]
]
