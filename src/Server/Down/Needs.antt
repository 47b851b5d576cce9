-- ===== src/Server/Down/Needs.antt =====
-- Which paths need a signature: needSign of server/middlewares/down.go, described on its own.
use xiaoya_qwen.Prelude.{
  [], Bytes, Bool, true, false, Option, none, some, beq, beq_iff, ◌≡◌, ◌≢◌, ◌⊎◌, refl, arith,
  Bool-cases, inl, inr,
}
use xiaoya_qwen.Model.Meta.{Meta}
use xiaoya_qwen.Server.Check.{need_sign}

-- What needs a signature: everything, if the setting says so; else the path of a meta that has a
-- password, and every path of such a meta whose password holds below it.
abbrev pub NeedsSign : Bool → Option Meta → Bytes → Type 0
NeedsSign sign_all meta path =
    (sign_all ≡ true)
    ⊎ ((m : Meta) × (meta ≡ some m) × (m.password ≢ []) × ((path ≡ m.path) ⊎ (m.p_sub ≡ true)))

pub need_sign-NeedsSign :
    (sign_all : Bool) (meta : Option Meta) (path : Bytes)
    → need_sign sign_all meta path ≡ true
    → NeedsSign sign_all meta path
unfolding need_sign
need_sign-NeedsSign true meta path h = inl refl
need_sign-NeedsSign false none path h = cc
need_sign-NeedsSign false (some m) path h = elim (Bool-cases (beq m.password [])) [
  | inl open_to_all ↦ absurd (ground arith)
  | inr locked ↦
      let has : m.password ≢ [] = λ z. cc (locked, (beq_iff m.password []).1 z) in
      elim (Bool-cases m.p_sub) [
        | inl sub ↦ inr (m, refl, has, inr sub)
        | inr own ↦ inr (m, refl, has, inl ((beq_iff path m.path).0 (ground arith)))
      ]
]

pub NeedsSign-need_sign :
    (sign_all : Bool) (meta : Option Meta) (path : Bytes)
    → NeedsSign sign_all meta path
    → need_sign sign_all meta path ≡ true
unfolding need_sign
NeedsSign-need_sign true meta path h = refl
NeedsSign-need_sign false none path (inl e) = cc
NeedsSign-need_sign false none path (inr (m, e, has, h)) = cc
NeedsSign-need_sign false (some m) path (inl e) = cc
NeedsSign-need_sign false (some m) path (inr (n, e, has, inl here)) =
    ground (arith, beq_iff m.password [], beq_iff path m.path)
NeedsSign-need_sign false (some m) path (inr (n, e, has, inr sub)) =
    ground (arith, beq_iff m.password [])
