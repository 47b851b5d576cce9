-- ===== src/Tests/Logins.antt =====
-- An address that guesses a password.
use xiaoya_qwen.Prelude.{
  ℕ, zero, suc, if◌then◌else◌, List, [], ◌∷◌, Bytes, Option, none, some, ◌≡◌, ◌≤◌, ◌↔◌, refl, codes,
  beq,
}
use xiaoya_qwen.Server.Login.{Logins, LoginReq, refused, token, login}
use xiaoya_qwen.Server.Login.Tally.{Event, answered, tally, Runs, fresh, attempt}
use xiaoya_qwen.Server.Login.Limit.{login-blocks}
use xiaoya_qwen.Tests.Metas
use xiaoya_qwen.Tests.Metas.{memory}
use xiaoya_qwen.Tests.Users.{ann}

-- Ann is the only user, and has no 2FA.
abbrev only_ann : Logins
only_ann = record {
  get_user_by_name = λ n. if beq n (codes "ann") then some ann else none;
  validate = beq;
  generate_token = some;
}

abbrev guess : LoginReq
guess = record { username = codes "ann"; password = codes "q"; otp_code = [] }

abbrev home : Bytes
home = codes "10.0.0.1"

abbrev Memory : Type 0
Memory = List (Bytes × Option ℕ)

abbrev tries : ℕ → List Event × Memory
tries zero = ([], [])
tries (suc n) =
    let (h, s) = tries n in
    let (r, s') = login only_ann memory home (some guess) s in
    (answered home (some guess) r ∷ h, s')

tried : (n : ℕ) → Runs only_ann memory (tries n).0 (tries n).1
unfolding Metas.find
tried zero = fresh [] (λ ip. refl)
tried (suc n) = attempt (tries n).0 (tries n).1 home (some guess) (tried n)

login_runs :
    ((login only_ann memory home (some guess) (tries 4).1).0 ≡ refused 400)
    × ((login only_ann memory home (some guess) (tries 5).1).0 ≡ refused 429)
    × ((login only_ann memory
          (codes "10.0.0.2")
          (some (record guess { password = codes "p" }))
          (tries 5).1).0
        ≡ token (codes "ann"))
unfolding login Metas.find beq
login_runs = (refl, refl, refl)

login-blocks_example :
    (tally only_ann memory home (tries 5).0 ≤ 5)
    × (((login only_ann memory home (some guess) (tries 5).1).0 ≡ refused 429)
        ↔ (tally only_ann memory home (tries 5).0 ≡ 5))
login-blocks_example =
    login-blocks only_ann memory (tries 5).0 (tries 5).1 home (some guess) (tried 5)
