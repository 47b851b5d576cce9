-- ===== src/Op/Files/Monad/Returns.antt =====
-- Steps that return from every state.
use xiaoya_qwen.Prelude.{Bool, true, false, if◌then◌else◌, Option, none, some, ◌≡◌, refl}
use xiaoya_qwen.Op.Files.Monad.{
  M, Answer, ok, err, FsError, pure, fail, attempted, attempt, next, ◌>>=◌,
}

abbrev pub Returns : {X : Type 0} → Option X → Type 0
Returns {X} o = (r : X) × (o ≡ some r)

abbrev pub Total : {S A : Type 0} → M S A → Type 0
Total {S} m = (s : S) → Returns (m s)

pub Total-pure : {S A : Type 0} (a : A) → Total {S = S} (pure a)
Total-pure a s = ((ok a, s), refl)

pub Total-fail : {S A : Type 0} (e : FsError) → Total {S = S} {A = A} (fail e)
Total-fail e s = ((err e, s), refl)

attempted-Returns : {S A : Type 0} (o : Option (Answer A × S)) → Returns o → Returns (attempted o)
attempted-Returns none (r, e) = cc
attempted-Returns (some (a, s)) r = ((ok a, s), refl)

pub Total-attempt : {S A : Type 0} (m : M S A) → Total m → Total (attempt m)
Total-attempt m t s = attempted-Returns (m s) (t s)

next-Returns :
    {S A B : Type 0} (o : Option (Answer A × S)) (f : A → M S B)
    → Returns o
    → ((a : A) (s : S) → o ≡ some (ok a, s) → Returns (f a s))
    → Returns (next o f)
next-Returns none f (r, e) t = cc
next-Returns (some (ok a, s)) f r t = t a s refl
next-Returns (some (err e, s)) f r t = ((err e, s), refl)

pub Total-bind :
    {S A B : Type 0} (m : M S A) (f : A → M S B)
    → Total m
    → ((a : A) → Total (f a))
    → Total (m >>= f)
Total-bind m f t u s = next-Returns (m s) f (t s) (λ a s' e. u a s')

-- The same for a step whose answer matters.
pub bind-Returns :
    {S A B : Type 0} (m : M S A) (f : A → M S B) (s : S)
    → Returns (m s)
    → ((a : A) (s' : S) → m s ≡ some (ok a, s') → Returns (f a s'))
    → Returns ((m >>= f) s)
bind-Returns m f s r t = next-Returns (m s) f r t

pub Total-if :
    {S A : Type 0} (b : Bool) (m n : M S A) → Total m → Total n → Total (if b then m else n)
Total-if true m n t u = t
Total-if false m n t u = u

pub Returns-if :
    {X : Type 0} (b : Bool) (o p : Option X) → Returns o → Returns p → Returns (if b then o else p)
Returns-if true o p r q = r
Returns-if false o p r q = q
