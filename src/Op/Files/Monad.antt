-- ===== src/Op/Files/Monad.antt =====
-- Steps on a state that return a value or an error. `none`: the recursion is out of fuel.
pub mod Returns
use xiaoya_qwen.Prelude.{Option, none, some}

-- The errors that internal/op tells apart, by their cause.
pub data FsError : Type 0 where
  storage_not_init object_not_found not_folder not_file not_implement file_exists no_root : FsError
  other_error : FsError

pub data Answer (A : Type 0) : Type 0 where
  ok : A → Answer A
  err : FsError → Answer A

abbrev pub M : Type 0 → Type 0 → Type 0
M S A = S → Option (Answer A × S)

module _ {S A : Type 0} where
  abbrev pub pure : A → M S A
  pure a s = some (ok a, s)

  abbrev pub fail : FsError → M S A
  fail e s = some (err e, s)

  abbrev pub attempted : Option (Answer A × S) → Option (Answer (Answer A) × S)
  attempted none = none
  attempted (some (a, s)) = some (ok a, s)

  -- The answer as a value, for code that looks at the error.
  abbrev pub attempt : M S A → M S (Answer A)
  attempt m s = attempted (m s)

module _ {S A B : Type 0} where
  abbrev pub next : Option (Answer A × S) → (A → M S B) → Option (Answer B × S)
  next none f = none
  next (some (ok a, s)) f = f a s
  next (some (err e, s)) f = some (err e, s)

  infixl 5 ◌>>=◌
  abbrev pub ◌>>=◌ : M S A → (A → M S B) → M S B
  ◌>>=◌ m f s = next (m s) f

module _ {S B : Type 0} where
  infixl 5 ◌>>◌
  abbrev pub ◌>>◌ : M S (Unit {0}) → M S B → M S B
  m >> k = m >>= λ _. k
