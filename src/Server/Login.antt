-- ===== src/Server/Login.antt =====
-- Login of server/handles/auth.go. The users of the database, the check of a 2FA code and the generation of a token
-- are parameters; the cache counts the attempts of an address.
pub mod Tally
pub mod Limit
use xiaoya_qwen.Prelude.{
  ℕ, suc, [], Bytes, Bool, true, false, not, Option, none, some, beq, leb, if◌then◌else◌,
}
use xiaoya_qwen.Model.User.{User, PasswordError, validate_password}
use xiaoya_qwen.Op.Cache.{Cache}

pub record LoginReq : Type 0 where
  pub username : Bytes
  pub password : Bytes
  pub otp_code : Bytes

-- The token, or the code of the response.
pub data LoginResult : Type 0 where
  token : Bytes → LoginResult
  refused : ℕ → LoginResult

pub record Logins : Type 0 where
  pub get_user_by_name : Bytes → Option User
  -- code, secret
  pub validate : Bytes → Bytes → Bool
  pub generate_token : Bytes → Option Bytes

-- defaultTimes
abbrev pub default_times : ℕ
default_times = 5

-- the zero value of a count that is not in the cache
abbrev pub count_or_zero : Option ℕ → ℕ
count_or_zero none = 0
count_or_zero (some n) = n

module _ (l : Logins) (c : Cache ℕ) where
  open c use {Store, get, set, del}

  unfoldable pub blocked : Option ℕ → Bool
  blocked none = false
  blocked (some count) = leb default_times count

  -- a wrong attempt
  unfoldable pub counted : Bytes → ℕ → ℕ → Store → LoginResult × Store
  counted ip count code s = (refused code, set s ip (suc count))

  unfoldable pub grant : Bytes → Option Bytes → Store → LoginResult × Store
  grant ip none s = (refused 400, s)
  grant ip (some t) s = (token t, del s ip)

  unfoldable pub check_2fa : Bytes → ℕ → LoginReq → User → Store → LoginResult × Store
  unfolding counted grant
  check_2fa ip count req user s =
      if not (beq user.otp_secret [])
      then if not (l.validate req.otp_code user.otp_secret)
        then counted ip count 402 s
        else grant ip (l.generate_token user.username) s
      else grant ip (l.generate_token user.username) s

  unfoldable pub check_password :
      Bytes → ℕ → LoginReq → User → Option PasswordError → Store → LoginResult × Store
  unfolding counted check_2fa
  check_password ip count req user (some e) s = counted ip count 400 s
  check_password ip count req user none s = check_2fa ip count req user s

  unfoldable pub check_user : Bytes → ℕ → LoginReq → Option User → Store → LoginResult × Store
  unfolding counted check_password validate_password
  check_user ip count req none s = counted ip count 400 s
  check_user ip count req (some user) s =
      check_password ip count req user (validate_password user req.password) s

  unfoldable pub bound : Bytes → ℕ → Option LoginReq → Store → LoginResult × Store
  unfolding check_user
  bound ip count none s = (refused 400, s)
  bound ip count (some req) s = check_user ip count req (l.get_user_by_name req.username) s

  -- Login; a request that gin cannot bind is `none`
  unfoldable pub login : Bytes → Option LoginReq → Store → LoginResult × Store
  unfolding blocked bound
  login ip req s =
      if blocked (get s ip) then (refused 429, s) else bound ip (count_or_zero (get s ip)) req s
