-- ===== src/Server/Login/Tally.antt =====
-- Logins one after another, and the wrong attempts of an address in what has happened.
use xiaoya_qwen.Prelude.{
  ℕ, suc, ◌==◌, List, [], ◌∷◌, Bytes, Bool, true, false, not, Option, none, some, beq,
  if◌then◌else◌, ◌≡◌,
}
use xiaoya_qwen.Model.User.{User, PasswordError, validate_password}
use xiaoya_qwen.Op.Cache.{Cache}
use xiaoya_qwen.Server.Login.{Logins, LoginReq, LoginResult, token, refused, login}

-- What a call of Login comes to, and the end of the time for which an address is blocked.
pub data Event : Type 0 where
  answered : Bytes → Option LoginReq → LoginResult → Event
  expired : Bytes → Event

module _ (l : Logins) (c : Cache ℕ) where
  -- The name, the password or the code of a request is wrong.
  unfoldable pub is_wrong_for : LoginReq → User → Option PasswordError → Bool
  is_wrong_for req user (some e) = true
  is_wrong_for req user none =
      if beq user.otp_secret [] then false else not (l.validate req.otp_code user.otp_secret)

  unfoldable pub is_wrong : LoginReq → Option User → Bool
  unfolding is_wrong_for validate_password
  is_wrong req none = true
  is_wrong req (some user) = is_wrong_for req user (validate_password user req.password)

  -- The wrong attempts of an address since its last token or expiry, the newest event first.
  -- An answer 429 is none: nothing was compared.
  unfoldable pub after : Option LoginReq → LoginResult → ℕ → ℕ
  after req (token t) n = 0
  after none (refused code) n = n
  after (some req) (refused code) n =
      if code == 429 then n else if is_wrong req (l.get_user_by_name req.username) then suc n else n

  unfoldable pub tally : Bytes → List Event → ℕ
  unfolding after
  tally ip [] = 0
  tally ip (expired j ∷ h) = if beq j ip then 0 else tally ip h
  tally ip (answered j req r ∷ h) = let n = tally ip h in if beq j ip then after req r n else n

  -- The events so far, and the cache that they lead to from an empty one.
  pub data Runs : List Event → c.Store → Type 0 where
    fresh : (s : c.Store) → ((ip : Bytes) → c.get s ip ≡ none) → Runs [] s
    attempt :
        (h : List Event) (s : c.Store) (ip : Bytes) (req : Option LoginReq)
        → Runs h s
        → Runs (answered ip req (login l c ip req s).0 ∷ h) (login l c ip req s).1
    expiry :
        (h : List Event) (s : c.Store) (ip : Bytes) → Runs h s → Runs (expired ip ∷ h) (c.del s ip)
