-- ===== src/Server/Login/Limit.antt =====
-- When Login answers 429.
use xiaoya_qwen.Prelude.{
  ℕ, ◌==◌, ◌≤◌, ◌↔◌, ◌<◌, List, [], ◌∷◌, Bytes, true, false, Option, none, some, beq, beq_iff, leb,
  if◌then◌else◌, ◌≡◌, ◌≢◌, refl, sym, ap, ◌∙◌, arith, Bool-cases, inl, inr,
}
use xiaoya_qwen.Model.User.{User, PasswordError, validate_password}
use xiaoya_qwen.Op.Cache.{Cache}
use xiaoya_qwen.Server.Login.{
  Logins, LoginReq, LoginResult, token, refused, default_times, count_or_zero, blocked, counted,
  grant, check_2fa, check_password, check_user, bound, login,
}
use xiaoya_qwen.Server.Login.Tally.{
  Event, answered, expired, is_wrong, is_wrong_for, after, tally, Runs, fresh, attempt, expiry,
}

module _ (l : Logins) (c : Cache ℕ) where
  -- A cache in which the count of one address is changed.
  Counts : Bytes → c.Store → c.Store → ℕ → Type 0
  Counts ip s s' n =
      (j : Bytes) → count_or_zero (c.get s' j) ≡ (if beq ip j then n else count_or_zero (c.get s j))

  same-Counts : (ip : Bytes) (s : c.Store) → Counts ip s s (count_or_zero (c.get s ip))
  unfolding Counts
  same-Counts ip s j = elim (Bool-cases (beq ip j)) [
    | inl b ↦
        rw b (let e : ip ≡ j = (beq_iff ip j).0 b in ap (λ k. count_or_zero (c.get s k)) (sym e))
    | inr b ↦ rw b refl
  ]

  set-Counts : (ip : Bytes) (s : c.Store) (n : ℕ) → Counts ip s (c.set s ip n) n
  unfolding Counts
  set-Counts ip s n j = elim (Bool-cases (beq ip j)) [
    | inl b ↦ rw (c.get-set s ip j n, b) refl
    | inr b ↦ rw (c.get-set s ip j n, b) refl
  ]

  del-Counts : (ip : Bytes) (s : c.Store) → Counts ip s (c.del s ip) 0
  unfolding Counts
  del-Counts ip s j = elim (Bool-cases (beq ip j)) [
    | inl b ↦ rw (c.get-del s ip j, b) refl
    | inr b ↦ rw (c.get-del s ip j, b) refl
  ]

  -- What the calls below an address that is not blocked do to its count.
  Tallies : Bytes → Option LoginReq → c.Store → LoginResult × c.Store → Type 0
  Tallies ip req s out =
      Counts ip s out.1 (after l c req out.0 (count_or_zero (c.get s ip))) × (out.0 ≢ refused 429)

  grant-Tallies :
      (ip : Bytes) (req : LoginReq) (t : Option Bytes) (s : c.Store)
      → is_wrong l c req (l.get_user_by_name req.username) ≡ false
      → Tallies ip (some req) s (grant l c ip t s)
  unfolding Tallies grant after
  grant-Tallies ip req none s h = (rw h (same-Counts ip s), λ e. ground arith)
  grant-Tallies ip req (some t) s h = (del-Counts ip s, λ e. cc)

  counted-Tallies :
      (ip : Bytes) (req : LoginReq) (code : ℕ) (s : c.Store)
      → is_wrong l c req (l.get_user_by_name req.username) ≡ true
      → (code == 429) ≡ false
      → Tallies ip (some req) s (counted l c ip (count_or_zero (c.get s ip)) code s)
  unfolding Tallies counted after
  counted-Tallies ip req code s h k = (rw (k, h) (set-Counts ip s _), λ e. ground arith)

  check_2fa-Tallies :
      (ip : Bytes) (req : LoginReq) (user : User) (s : c.Store)
      → l.get_user_by_name req.username ≡ some user
      → validate_password user req.password ≡ none
      → Tallies ip (some req) s (check_2fa l c ip (count_or_zero (c.get s ip)) req user s)
  unfolding check_2fa
  check_2fa-Tallies ip req user s e p =
      let t = l.generate_token user.username in
      elim (Bool-cases (beq user.otp_secret [])) [
        | inl b ↦ rw b (
            grant-Tallies ip req t s
              (rw e (unfold is_wrong in rw p (unfold is_wrong_for in rw b refl))))
        | inr b ↦ elim (Bool-cases (l.validate req.otp_code user.otp_secret)) [
          | inl v ↦
              rw (b, v)
                (grant-Tallies ip req t s
                  (rw e (unfold is_wrong in rw p (unfold is_wrong_for in rw (b, v) refl))))
          | inr v ↦
              rw (b, v)
                (counted-Tallies ip req 402 s
                  (rw e (unfold is_wrong in rw p (unfold is_wrong_for in rw (b, v) refl))) refl)
        ]
      ]

  check_password-Tallies :
      (ip : Bytes) (req : LoginReq) (user : User) (v : Option PasswordError) (s : c.Store)
      → l.get_user_by_name req.username ≡ some user
      → validate_password user req.password ≡ v
      → Tallies ip (some req) s (check_password l c ip (count_or_zero (c.get s ip)) req user v s)
  unfolding check_password
  check_password-Tallies ip req user none s e p = check_2fa-Tallies ip req user s e p
  check_password-Tallies ip req user (some x) s e p =
      counted-Tallies ip req 400 s (rw e (unfold is_wrong in rw p (unfold is_wrong_for in refl)))
        refl

  check_user-Tallies :
      (ip : Bytes) (req : LoginReq) (found : Option User) (s : c.Store)
      → l.get_user_by_name req.username ≡ found
      → Tallies ip (some req) s (check_user l c ip (count_or_zero (c.get s ip)) req found s)
  unfolding check_user
  check_user-Tallies ip req none s e =
      counted-Tallies ip req 400 s (rw e (unfold is_wrong in refl)) refl
  check_user-Tallies ip req (some user) s e =
      check_password-Tallies ip req user (validate_password user req.password) s e refl

  bound-Tallies :
      (ip : Bytes) (req : Option LoginReq) (s : c.Store)
      → Tallies ip req s (bound l c ip (count_or_zero (c.get s ip)) req s)
  unfolding bound
  bound-Tallies ip none s = unfold Tallies after in (same-Counts ip s, λ e. ground arith)
  bound-Tallies ip (some req) s = check_user-Tallies ip req (l.get_user_by_name req.username) s refl

  -- An address is blocked when its count is at the bound.
  blocked-count : (o : Option ℕ) → blocked l c o ≡ leb default_times (count_or_zero o)
  unfolding blocked
  blocked-count none = refl
  blocked-count (some n) = refl

  -- The counts are the tallies, and none is above the bound.
  Agree : List Event → c.Store → Type 0
  Agree h s =
      (ip : Bytes)
      → (count_or_zero (c.get s ip) ≡ tally l c ip h) × (tally l c ip h ≤ default_times)

  after-le :
      (req : Option LoginReq) (r : LoginResult) (n : ℕ)
      → n < default_times
      → after l c req r n ≤ default_times
  unfolding after
  after-le req (token t) n h = omega arith
  after-le none (refused code) n h = omega arith
  after-le (some req) (refused code) n h = ground arith

  after-429 : (req : Option LoginReq) (n : ℕ) → after l c req (refused 429) n ≡ n
  unfolding after
  after-429 none n = refl
  after-429 (some req) n = refl

  -- The event changes the tally l c of its address only.
  tally-answered :
      (h : List Event) (ip j : Bytes) (req : Option LoginReq) (r : LoginResult)
      → tally l c j (answered ip req r ∷ h)
        ≡ (if beq ip j then after l c req r (tally l c ip h) else tally l c j h)
  unfolding tally
  tally-answered h ip j req r = elim (Bool-cases (beq ip j)) [
    | inl b ↦
        let e : ip ≡ j = (beq_iff ip j).0 b in
        rw b (ap (λ k. after l c req r (tally l c k h)) (sym e))
    | inr b ↦ rw b refl
  ]

  -- An attempt of an address below the bound.
  counted-Agree :
      (h : List Event) (s : c.Store) (ip : Bytes) (req : Option LoginReq)
      (out : LoginResult × c.Store)
      → Agree h s
      → leb default_times (tally l c ip h) ≡ false
      → Tallies ip req s out
      → Agree (answered ip req out.0 ∷ h) out.1
  unfolding Agree Tallies Counts
  counted-Agree h s ip req out agree room (counts, ne) j =
      let t = tally-answered h ip j req out.0 in
      let here = (agree ip).0 in
      let le = after-le req out.0 (tally l c ip h) (ground arith) in
      let e : count_or_zero (c.get out.1 j) ≡ tally l c j (answered ip req out.0 ∷ h) =
        counts j ∙ rw (here, (agree j).0) (sym t) in
      (e, rw t (elim (Bool-cases (beq ip j)) [ inl b ↦ rw b le | inr b ↦ rw b (agree j).1 ]))

  blocked-Agree :
      (h : List Event) (s : c.Store) (ip : Bytes) (req : Option LoginReq)
      → Agree h s
      → Agree (answered ip req (refused 429) ∷ h) s
  unfolding Agree
  blocked-Agree h s ip req agree j =
      let t = tally-answered h ip j req (refused 429) in
      elim (Bool-cases (beq ip j)) [
        | inl b ↦
            let e : ip ≡ j = (beq_iff ip j).0 b in
            let k : tally l c j (answered ip req (refused 429) ∷ h) ≡ tally l c j h =
              t ∙ rw (b, after-429 req (tally l c ip h)) (ap (λ k. tally l c k h) e) in
            rw k (agree j)
        | inr b ↦ rw (t, b) (agree j)
      ]

  attempt-Agree :
      (h : List Event) (s : c.Store) (ip : Bytes) (req : Option LoginReq)
      → Agree h s
      → Agree (answered ip req (login l c ip req s).0 ∷ h) (login l c ip req s).1
  unfolding login
  attempt-Agree h s ip req agree =
      let e : blocked l c (c.get s ip) ≡ leb default_times (tally l c ip h) =
        blocked-count (c.get s ip) ∙ ap (leb default_times) (unfold Agree in (agree ip).0) in
      elim (Bool-cases (leb default_times (tally l c ip h))) [
        | inl full ↦ rw (e, full) (blocked-Agree h s ip req agree)
        | inr room ↦ rw (e, room) (counted-Agree h s ip req _ agree room (bound-Tallies ip req s))
      ]

  expiry-Agree :
      (h : List Event) (s : c.Store) (ip : Bytes) → Agree h s → Agree (expired ip ∷ h) (c.del s ip)
  unfolding Agree tally
  expiry-Agree h s ip agree j = elim (Bool-cases (beq ip j)) [
    | inl b ↦ rw (c.get-del s ip j, b) (refl, omega arith)
    | inr b ↦ rw (c.get-del s ip j, b) (agree j)
  ]

  fresh-Agree : (s : c.Store) → ((ip : Bytes) → c.get s ip ≡ none) → Agree [] s
  unfolding Agree tally
  fresh-Agree s e ip = (rw (e ip) refl, omega arith)

  Runs-Agree : (h : List Event) (s : c.Store) → Runs l c h s → Agree h s
  Runs-Agree h s (fresh t e) = fresh-Agree t e
  Runs-Agree h s (attempt h' t ip req r) = attempt-Agree h' t ip req (Runs-Agree h' t r)
  Runs-Agree h s (expiry h' t ip r) = expiry-Agree h' t ip (Runs-Agree h' t r)

  -- Whatever has been tried from whatever addresses since the cache was empty, with expiries at
  -- any time, an address has at most five wrong attempts since its last token or expiry, and
  -- Login answers it with 429, whatever the request, exactly when it has five.
  pub login-blocks :
      (h : List Event) (s : c.Store) (ip : Bytes) (req : Option LoginReq)
      → Runs l c h s
      → (tally l c ip h ≤ 5) × (((login l c ip req s).0 ≡ refused 429) ↔ (tally l c ip h ≡ 5))
  unfolding login Agree Tallies
  login-blocks h s ip req r =
      let agree = Runs-Agree h s r ip in
      let e : blocked l c (c.get s ip) ≡ leb default_times (tally l c ip h) =
        blocked-count (c.get s ip) ∙ ap (leb default_times) agree.0 in
      elim (Bool-cases (leb default_times (tally l c ip h))) [
        | inl full ↦ (agree.1, rw (e, full) ((λ x. ground arith), (λ x. refl)))
        | inr room ↦ (
          agree.1,
          rw (e, room) ((λ x. absurd ((bound-Tallies ip req s).1 x)), (λ x. absurd (ground arith))),
        )
      ]
