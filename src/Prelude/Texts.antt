-- ===== src/Prelude/Texts.antt =====
-- Go strings as lists of bytes, and the equality test on them.
use Prim.Native.Nat.{ℕ}
use Prim.Native.Char.{code}
use Prim.Native.String.{String}
use mathlib.Core.Path.{◌≡◌, refl}
use mathlib.Core.Logic.{◌≢◌, ◌↔◌}
use mathlib.Core.Bool.{Bool, true, false, ◌&&◌}
use mathlib.Core.List.{List, [], ◌∷◌}
use native.Mathlib.Omega.{arith}
use xiaoya_qwen.Prelude.Tests.{◌==◌}
use xiaoya_qwen.Prelude.Lists.{All}

abbrev pub Bytes : Type 0
Bytes = List ℕ

-- The code points of a literal, which are its bytes if it is ASCII.
abbrev pub codes : String → Bytes
codes String.[] = []
codes (String.◌∷◌ c s) = code c ∷ codes s

-- a == b on strings
unfoldable pub beq : Bytes → Bytes → Bool
beq [] [] = true
beq [] (b ∷ t) = false
beq (a ∷ s) [] = false
beq (a ∷ s) (b ∷ t) = a == b && beq s t

pub beq→eq : (s t : Bytes) → beq s t ≡ true → s ≡ t
unfolding beq
beq→eq [] [] h = refl
beq→eq [] (b ∷ t) h = cc
beq→eq (a ∷ s) [] h = cc
beq→eq (a ∷ s) (b ∷ t) h = ground (arith, beq→eq s t)

pub beq_refl : (s : Bytes) → beq s s ≡ true
unfolding beq
beq_refl [] = refl
beq_refl (a ∷ s) = ground (arith, beq_refl s)

pub beq_iff : (s t : Bytes) → (beq s t ≡ true) ↔ (s ≡ t)
beq_iff s t = (beq→eq s t, λ e. rw e (beq_refl t))

-- No byte of the text is `b`.
abbrev pub Lacks : ℕ → Bytes → Type 0
Lacks b = All (λ c. c ≢ b)

pub beq-ne : (s t : Bytes) → beq s t ≡ false → s ≢ t
beq-ne s t h e = cc (h, (beq_iff s t).1 e)
