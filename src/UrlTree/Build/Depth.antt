-- ===== src/UrlTree/Build/Depth.antt =====
-- The frames on the stack of open folders: how deep they are, and what popping twice does.
use xiaoya_qwen.Prelude.{
  ℕ, ◌≤◌, ◌<◌, List, [], ◌∷◌, true, false, leb, ◌≡◌, refl, arith, Bool-cases, inl, inr,
}
use xiaoya_qwen.UrlTree.{Node, Nodes}
use xiaoya_qwen.UrlTree.Build.{Frame, Stack, close, attach, pop, pop_while}

-- Nothing on the stack is as deep as a level.
abbrev pub Below : ℕ → Stack → Type 0
Below level s = elim s.frames [ [] ↦ Unit | f ∷ fs ↦ f.level < level ]

abbrev pub stack : List Frame → Nodes → Stack
stack fs root = record { frames = fs; root = root }

pub pop-attach :
    (level : ℕ) (f : Frame) (fs : List Frame) (root : Nodes)
    → leb level f.level ≡ true
    → pop level f fs root ≡ pop_while level (attach (close f) fs root)
unfolding pop pop_while attach
pop-attach level f [] root h = rw h refl
pop-attach level f (g ∷ gs) root h = rw h refl

pop-Below :
    (level : ℕ) (f : Frame) (fs : List Frame) (root : Nodes)
    → leb level f.level ≡ false
    → pop level f fs root ≡ record { frames = f ∷ fs; root = root }
unfolding pop
pop-Below level f [] root h = rw h refl
pop-Below level f (g ∷ gs) root h = rw h refl

pub pop_while-Below :
    (level : ℕ) (fs : List Frame) (root : Nodes)
    → Below level (stack fs root)
    → pop_while level (stack fs root) ≡ stack fs root
unfolding pop_while
pop_while-Below level [] root h = refl
pop_while-Below level (f ∷ fs) root h = pop-Below level f fs root (ground arith)

pub Below-add :
    (level : ℕ) (n : Node) (fs : List Frame) (root : Nodes)
    → Below level (stack fs root)
    → Below level (attach n fs root)
unfolding attach
Below-add level n [] root h = tt
Below-add level n (f ∷ fs) root h = h

Below-pop :
    (level : ℕ) (f : Frame) (fs : List Frame) (root : Nodes) → Below level (pop level f fs root)
unfolding pop
Below-pop level f [] root = elim (Bool-cases (leb level f.level)) [
  | inl h ↦ rw h tt
  | inr h ↦ rw h (ground arith)
]
Below-pop level f (g ∷ gs) root = elim (Bool-cases (leb level f.level)) [
  | inl h ↦ rw h (Below-pop level _ gs root)
  | inr h ↦ rw h (ground arith)
]

pub Below-pop_while :
    (level : ℕ) (fs : List Frame) (root : Nodes) → Below level (pop_while level (stack fs root))
unfolding pop_while
Below-pop_while level [] root = tt
Below-pop_while level (f ∷ fs) root = Below-pop level f fs root

-- Popping down to a level and then further down is popping further down.
pop_while-pop :
    (k level : ℕ) (f : Frame) (fs : List Frame) (root : Nodes)
    → k ≤ level
    → pop_while k (pop level f fs root) ≡ pop k f fs root
unfolding pop pop_while
pop_while-pop k level f [] root h = elim (Bool-cases (leb level f.level)) [
  | inl e ↦ let d : leb k f.level ≡ true = ground arith in rw (e, d) refl
  | inr e ↦ rw e refl
]
pop_while-pop k level f (g ∷ gs) root h = elim (Bool-cases (leb level f.level)) [
  | inl e ↦
      let d : leb k f.level ≡ true = ground arith in rw (e, d) (pop_while-pop k level _ gs root h)
  | inr e ↦ rw e refl
]

pub pop_while-pop_while :
    (k level : ℕ) (fs : List Frame) (root : Nodes)
    → k ≤ level
    → pop_while k (pop_while level (stack fs root)) ≡ pop_while k (stack fs root)
unfolding pop_while
pop_while-pop_while k level [] root h = refl
pop_while-pop_while k level (f ∷ fs) root h = pop_while-pop k level f fs root h
