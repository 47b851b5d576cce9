-- ===== src/Utils/Slice.antt =====
-- pkg/utils/slice.go. The equality of a comparable type is an argument; an error is a text.
use xiaoya_qwen.Prelude.{
  List, [], ◌∷◌, Bytes, Bool, true, false, Option, none, some, map, if◌then◌else◌, beq, ◌==◌,
  length, codes, ◌⊎◌, inl, inr,
}
use xiaoya_qwen.Go.Strings.{join}

module _ {ℓ} {T : Type ℓ} (eq : T → T → Bool) where
  -- the loop of SliceEqual, over slices of one length
  unfoldable pub equal_loop : List T → List T → Bool
  equal_loop [] b = true
  equal_loop (v ∷ a) [] = false
  equal_loop (v ∷ a) (w ∷ b) = let rest = equal_loop a b in if eq v w then rest else false

  unfoldable pub slice_equal : List T → List T → Bool
  unfolding equal_loop
  slice_equal a b = if length a == length b then equal_loop a b else false

  unfoldable pub slice_contains : List T → T → Bool
  slice_contains [] v = false
  slice_contains (vv ∷ arr) v = let rest = slice_contains arr v in if eq vv v then true else rest

module _ {ℓ κ} {S : Type ℓ} {D : Type κ} where
  -- `convert` returns a value or an error; the first error ends the loop
  unfoldable pub slice_convert : List S → (S → D ⊎ Bytes) → List D ⊎ Bytes
  slice_convert [] convert = inl []
  slice_convert (s ∷ src) convert =
      let rest = slice_convert src convert in
      elim (convert s) [
        | inr err ↦ inr err
        | inl dst ↦ elim rest [ inl res ↦ inl (dst ∷ res) | inr err ↦ inr err ]
      ]

  unfoldable pub must_slice_convert : List S → (S → D) → List D
  must_slice_convert src convert = map convert src

-- The errors joined by newlines; `none` is nil.
unfoldable pub merge_errors : List Bytes → Option Bytes
merge_errors errs =
    let err_str = join errs (codes "\n") in if beq err_str [] then none else some err_str
