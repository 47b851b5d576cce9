-- ===== src/Go/Strings/Laws.antt =====
-- Laws of the functions of the package strings.
use xiaoya_qwen.Prelude.{
  ℕ, List, [], ◌∷◌, ◌++◌, true, ◌≡◌, refl, ◌≢◌, arith, Bytes, ◌==◌, All, All-append, ==_iff, ◌==◌,
  ◌≢◌, Bool-cases, inl, inr, Lacks, drop, length,
}
use xiaoya_qwen.Go.Strings.{split, has_prefix, trim_prefix, replace_all}

-- A text without the separator in front of another text is glued to its first part.
pub split-append_Lacks :
    (sep : ℕ) (p s : Bytes) {q : Bytes} {qs : List Bytes}
    → Lacks sep p
    → split sep s ≡ q ∷ qs
    → split sep (p ++ s) ≡ (p ++ q) ∷ qs
unfolding split
split-append_Lacks sep [] s h e = e
split-append_Lacks sep (c ∷ p) s h e = ground (arith, split-append_Lacks sep p s h.1 e)

pub split-lone : (sep : ℕ) (p : Bytes) → Lacks sep p → split sep p ≡ p ∷ []
unfolding split
split-lone sep [] h = refl
split-lone sep (c ∷ p) h = ground (arith, split-lone sep p h.1)

split_shape : (sep : ℕ) (s : Bytes) → (q : Bytes) × (qs : List Bytes) × (split sep s ≡ q ∷ qs)
unfolding split
split_shape sep [] = ([], [], refl)
split_shape sep (c ∷ s) = elim (Bool-cases (c == sep)) [
  | inl e ↦ ([], split sep s, rw e refl)
  | inr e ↦ let (q, qs, shape) = split_shape sep s in (c ∷ q, qs, rw (e, shape) refl)
]

-- Splitting at a separator inside the text.
pub split-append : (sep : ℕ) (s t : Bytes) → split sep (s ++ sep ∷ t) ≡ split sep s ++ split sep t
unfolding split
split-append sep [] t = ground arith
split-append sep (c ∷ s) t = ground (arith, split-append sep s t, split_shape sep s)

-- No part of a split holds the separator.
pub split-Lacks : (sep : ℕ) (s : Bytes) → All (Lacks sep) (split sep s)
unfolding split
split-Lacks sep [] = (tt, tt)
split-Lacks sep (c ∷ s) = ground (arith, split-Lacks sep s, split_shape sep s)

-- A text has a prefix if it is the prefix and a rest.
pub has_prefix→append : (s p : Bytes) → has_prefix s p ≡ true → (r : Bytes) × (s ≡ p ++ r)
unfolding has_prefix
has_prefix→append s [] h = (s, refl)
has_prefix→append [] (p ∷ ps) h = cc
has_prefix→append (c ∷ s) (p ∷ ps) h = ground (arith, has_prefix→append s ps)

pub has_prefix-append : (p r : Bytes) → has_prefix (p ++ r) p ≡ true
unfolding has_prefix
has_prefix-append [] r = refl
has_prefix-append (c ∷ p) r = ground (arith, has_prefix-append p r)

drop-append : (p r : Bytes) → drop (length p) (p ++ r) ≡ r
drop-append [] r = refl
drop-append (c ∷ p) r = drop-append p r

pub trim_prefix-append : (p r : Bytes) → trim_prefix (p ++ r) p ≡ r
unfolding trim_prefix
trim_prefix-append p r = rw has_prefix-append (drop-append p r)

-- Parts of a text lack what the text lacks.
pub split-Lacks_other : (sep b : ℕ) (s : Bytes) → Lacks b s → All (Lacks b) (split sep s)
unfolding split
split-Lacks_other sep b [] h = (tt, tt)
split-Lacks_other sep b (c ∷ s) h = ground (arith, split-Lacks_other sep b s h.1, split_shape sep s)

pub replace_all-Lacks :
    (s : Bytes) (old : ℕ) (new : Bytes) → Lacks old new → Lacks old (replace_all s old new)
unfolding replace_all
replace_all-Lacks [] old new h = tt
replace_all-Lacks (c ∷ s) old new h = elim (Bool-cases (c == old)) [
  | inl e ↦ rw e (All-append (λ x. x ≢ old) new _ h (replace_all-Lacks s old new h))
  | inr e ↦ rw e ((λ q. cc (e, (==_iff c old).1 q)), replace_all-Lacks s old new h)
]

pub replace_all-none : (s : Bytes) (old : ℕ) (new : Bytes) → Lacks old s → replace_all s old new ≡ s
unfolding replace_all
replace_all-none [] old new h = refl
replace_all-none (c ∷ s) old new h = ground (arith, replace_all-none s old new h.1)
