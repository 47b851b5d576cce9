-- ===== src/Server/WebdavAuth.antt =====
-- WebDAVAuth of server/webdav.go. The users that the database finds and the methods of a request are parameters.
use xiaoya_qwen.Prelude.{
  List, [], ◌∷◌, Bytes, Bool, true, false, ◌||◌, ◌&&◌, not, Option, none, some, beq, beq_iff, codes,
  ◌≢◌, if◌then◌else◌, ◌≡◌, refl, sym, ◌⊎◌, inl, inr, arith, Bool-cases, ℕ,
}
use xiaoya_qwen.Utils.Slice.{slice_contains}
use xiaoya_qwen.Model.User.{
  User, PasswordError, empty_password, wrong_password, validate_password, can_webdav_read,
  can_webdav_manage,
}

-- The user of the request, which is nil where there is no guest, or the code that aborts it.
pub data Admitted : Type 0 where
  admits : Option User → Admitted
  aborts : ℕ → Admitted

-- The name and the password of BasicAuth, if the request has them, and the method.
pub record Request : Type 0 where
  pub basic_auth : Option (Bytes × Bytes)
  pub method : Bytes

abbrev pub changing : List Bytes
changing =
    codes "PUT"
    ∷ codes "DELETE"
    ∷ codes "PROPPATCH"
    ∷ codes "MKCOL"
    ∷ codes "COPY"
    ∷ codes "MOVE"
    ∷ []

-- What a check that fails comes to: a guest if the method is OPTIONS, and else a code.
unfoldable pub guest_or : Option User → Bytes → ℕ → Admitted
guest_or guest method code = if beq method (codes "OPTIONS") then admits guest else aborts code

-- the checks of a user whose password is right
unfoldable pub allowed : Option User → Bytes → User → Admitted
unfolding guest_or
allowed guest method user =
    if user.disabled || not (can_webdav_read user)
    then guest_or guest method 403
    else if not (can_webdav_manage user) && slice_contains beq changing method
    then guest_or guest method 403
    else admits (some user)

unfoldable pub with_password : Option User → Bytes → User → Option PasswordError → Admitted
unfolding allowed guest_or
with_password guest method user none = allowed guest method user
with_password guest method user (some e) = guest_or guest method 401

unfoldable pub with_user : Option User → Bytes → Option User → Bytes → Admitted
unfolding with_password guest_or
with_user guest method none password = guest_or guest method 401
with_user guest method (some user) password =
    with_password guest method user (validate_password user password)

unfoldable pub with_basic :
    Option User → (Bytes → Option User) → Bytes → Option (Bytes × Bytes) → Admitted
unfolding with_user guest_or
with_basic guest get_user_by_name method none = guest_or guest method 401
with_basic guest get_user_by_name method (some (username, password)) =
    with_user guest method (get_user_by_name username) password

-- WebDAVAuth
unfoldable pub webdav_auth : Option User → (Bytes → Option User) → Request → Admitted
unfolding with_basic
webdav_auth guest get_user_by_name req = with_basic guest get_user_by_name req.method req.basic_auth

-- A user of whom all checks are passed, for a method.
abbrev pub Passes : Bytes → User → Bytes → Type 0
Passes method user password =
    (password ≡ user.password)
    × (password ≢ [])
    × (user.disabled ≡ false)
    × (can_webdav_read user ≡ true)
    × ((can_webdav_manage user ≡ true) ⊎ (slice_contains beq changing method ≡ false))

-- Why a request is let through, and as whom.
abbrev pub Admits : Option User → (Bytes → Option User) → Request → Option User → Type 0
Admits guest get_user_by_name req who =
    ((req.method ≡ codes "OPTIONS") × (who ≡ guest))
    ⊎ ((user : User) × (username : Bytes) × (password : Bytes) × (who ≡ some user)
        × (req.basic_auth ≡ some (username, password))
        × (get_user_by_name username ≡ some user)
        × Passes req.method user password)

guest_or-guest :
    (guest who : Option User) (method : Bytes) (code : ℕ)
    → guest_or guest method code ≡ admits who
    → (method ≡ codes "OPTIONS") × (who ≡ guest)
unfolding guest_or
guest_or-guest guest who method code h = elim (Bool-cases (beq method (codes "OPTIONS"))) [
  | inl e ↦ (
    (beq_iff method (codes "OPTIONS")).0 e,
    (let f : admits guest ≡ admits who = rw e at h in cc),
  )
  | inr e ↦ (let f : aborts code ≡ admits who = rw e at h in absurd (cc))
]

-- Two guards with the same answer in front of the rest.
guarded :
    (b c : Bool) (refused rest r : Admitted)
    → (if b then refused else if c then refused else rest) ≡ r
    → (refused ≡ r) ⊎ ((b ≡ false) × (c ≡ false) × (rest ≡ r))
guarded true c refused rest r h = inl h
guarded false true refused rest r h = inl h
guarded false false refused rest r h = inr (refl, refl, h)

-- A guard that is the disjunction of two, and one that is the conjunction of two.
enabled-reads : (b c : Bool) → (b || not c) ≡ false → (b ≡ false) × (c ≡ true)
enabled-reads b c h = ground arith

manages-or : (b c : Bool) → (not b && c) ≡ false → (b ≡ true) ⊎ (c ≡ false)
manages-or true c h = inl refl
manages-or false c h = inr h

allowed-Passes :
    (guest who : Option User) (method : Bytes) (user : User)
    → allowed guest method user ≡ admits who
    → ((method ≡ codes "OPTIONS") × (who ≡ guest))
      ⊎ ((who ≡ some user)
          × (user.disabled ≡ false)
          × (can_webdav_read user ≡ true)
          × ((can_webdav_manage user ≡ true) ⊎ (slice_contains beq changing method ≡ false)))
unfolding allowed
allowed-Passes guest who method user h =
    elim (guarded (user.disabled || not (can_webdav_read user))
      (not (can_webdav_manage user) && slice_contains beq changing method)
      (guest_or guest method 403) (admits (some user)) (admits who) h) [
        | inl g ↦ inl (guest_or-guest guest who method 403 g)
        | inr (b, c, e) ↦
            let (enabled, reads) = enabled-reads user.disabled (can_webdav_read user) b in
            inr (
              cc,
              enabled,
              reads,
              manages-or (can_webdav_manage user) (slice_contains beq changing method) c,
            )
      ]

checked :
    (b c : Bool)
    → (if b then some empty_password else if not c then some wrong_password else none) ≡ none
    → (b ≡ false) × (c ≡ true)
checked true c h = cc
checked false true h = (refl, refl)
checked false false h = cc

validated :
    (user : User) (password : Bytes)
    → validate_password user password ≡ none
    → (password ≡ user.password) × (password ≢ [])
unfolding validate_password
validated user password h =
    let (filled, right) = checked (beq password []) (beq user.password password) h in
    let same : user.password ≡ password = (beq_iff user.password password).0 right in
    (sym same, λ e. cc (filled, (beq_iff password []).1 e))

with_password-Admits :
    (guest who : Option User) (get_user_by_name : Bytes → Option User) (req : Request) (user : User)
    (username password : Bytes)
    → req.basic_auth ≡ some (username, password)
    → get_user_by_name username ≡ some user
    → (e : Option PasswordError) → validate_password user password ≡ e
    → with_password guest req.method user e ≡ admits who
    → Admits guest get_user_by_name req who
unfolding with_password
with_password-Admits guest who get_user_by_name req user username password b g none v h =
    let (same, not_empty) = validated user password v in
    elim (allowed-Passes guest who req.method user h) [
      | inl o ↦ inl o
      | inr (w, d, r, m) ↦ inr (user, username, password, w, b, g, (same, not_empty, d, r, m))
    ]
with_password-Admits guest who get_user_by_name req user username password b g (some e) v h =
    inl (guest_or-guest guest who req.method 401 h)

with_user-Admits :
    (guest who : Option User) (get_user_by_name : Bytes → Option User) (req : Request)
    (username password : Bytes) (found : Option User)
    → req.basic_auth ≡ some (username, password)
    → get_user_by_name username ≡ found
    → with_user guest req.method found password ≡ admits who
    → Admits guest get_user_by_name req who
unfolding with_user
with_user-Admits guest who get_user_by_name req username password none b g h =
    inl (guest_or-guest guest who req.method 401 h)
with_user-Admits guest who get_user_by_name req username password (some user) b g h =
    with_password-Admits guest who get_user_by_name req user username password b g
      (validate_password user password) refl h

basic-Admits :
    (guest who : Option User) (get_user_by_name : Bytes → Option User) (req : Request)
    (basic : Option (Bytes × Bytes))
    → req.basic_auth ≡ basic
    → with_basic guest get_user_by_name req.method basic ≡ admits who
    → Admits guest get_user_by_name req who
unfolding with_basic
basic-Admits guest who get_user_by_name req none b h =
    inl (guest_or-guest guest who req.method 401 h)
basic-Admits guest who get_user_by_name req (some (username, password)) b h =
    with_user-Admits guest who get_user_by_name req username password (get_user_by_name username) b
      refl h

-- A request that WebDAVAuth lets through is either an OPTIONS, as the guest, or of the user whose
-- name and password it has, which is not empty; this user is not disabled, may read by WebDAV, and
-- may manage by WebDAV unless the method is none of those that change files.
pub webdav_auth-Admits :
    (guest who : Option User) (get_user_by_name : Bytes → Option User) (req : Request)
    → webdav_auth guest get_user_by_name req ≡ admits who
    → Admits guest get_user_by_name req who
unfolding webdav_auth
webdav_auth-Admits guest who get_user_by_name req h =
    basic-Admits guest who get_user_by_name req req.basic_auth refl h
