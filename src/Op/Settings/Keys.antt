-- ===== src/Op/Settings/Keys.antt =====
-- The keys of the cached lists: which queries share one, and that these have the same answer.
use xiaoya_qwen.Prelude.{
  ℕ, List, [], ◌∷◌, ◌++◌, Bytes, ◌≡◌, ◌≢◌, ◌≤◌, ◌⊎◌, inl, inr, refl, sym, ap, ap₂, subst, ◌∙◌, All,
  Lacks, map, arith,
}
use xiaoya_qwen.Prelude.Int.{ℤ}
use xiaoya_qwen.Go.Strings.{split, join}
use xiaoya_qwen.Go.Strings.Laws.{split-lone, split-append}
use xiaoya_qwen.Utils.Slice.{must_slice_convert}
use xiaoya_qwen.Model.Setting.{SettingItem}
use xiaoya_qwen.Op.Cache.{Cache}
use xiaoya_qwen.Op.Settings.{SettingDb, Itoa, Hooks, all_key, public_key, groups_key}

-- Fields that hold no separator are read back from what Join makes of them.
split-join :
    (sep : ℕ) (p : Bytes) (ps : List Bytes)
    → All (Lacks sep) (p ∷ ps)
    → split sep (join (p ∷ ps) (sep ∷ [])) ≡ p ∷ ps
unfolding join
split-join sep p [] h = split-lone sep p h.0
split-join sep p (q ∷ ps) h =
    split-append sep p (join (q ∷ ps) (sep ∷ []))
    ∙ ap₂ (λ (xs ys : List Bytes). xs ++ ys) (split-lone sep p h.0) (split-join sep q ps h.1)

-- The queries for lists; those for one group are those for a list of one.
pub data Ask : Type 0 where
  all : Ask
  public : Ask
  groups : List ℤ → Ask

module _ (d : SettingDb) (n : Itoa) (h : Hooks) (c : Cache SettingItem)
    (g : Cache (List SettingItem)) where
  abbrev pub key : Ask → Bytes
  key all = all_key d n h c g
  key public = public_key d n h c g
  key (groups gs) = groups_key d n h c g gs

  abbrev pub answer : d.Table → Ask → List SettingItem ⊎ Bytes
  answer t all = d.all t
  answer t public = d.public t
  answer t (groups gs) = d.in_groups t gs

  itoa-Lacks : (a : ℤ) → Lacks b',' (n.itoa a)
  itoa-Lacks a = go (n.itoa a) (n.itoa-digits a)
    where
      go : (s : Bytes) → All (λ c. (c ≡ b'-') ⊎ ((b'0' ≤ c) × (c ≤ b'9'))) s → Lacks b',' s
      go [] k = tt
      go (x ∷ s) (inl e, k) = ((λ f. omega arith), go s k)
      go (x ∷ s) (inr e, k) = ((λ f. omega arith), go s k)

  itoas-Lacks : (gs : List ℤ) → All (Lacks b',') (map n.itoa gs)
  itoas-Lacks [] = tt
  itoas-Lacks (a ∷ gs) = (itoa-Lacks a, itoas-Lacks gs)

  groups_key-fields :
      (a : ℤ) (gs : List ℤ) → split b',' (groups_key d n h c g (a ∷ gs)) ≡ n.itoa a ∷ map n.itoa gs
  unfolding groups_key must_slice_convert
  groups_key-fields a gs = split-join b',' (n.itoa a) (map n.itoa gs) (itoas-Lacks (a ∷ gs))

  itoas-injective : (xs ys : List ℤ) → map n.itoa xs ≡ map n.itoa ys → xs ≡ ys
  itoas-injective [] [] e = refl
  itoas-injective [] (y ∷ ys) e = cc
  itoas-injective (x ∷ xs) [] e = cc
  itoas-injective (x ∷ xs) (y ∷ ys) e =
      let a : n.itoa x ≡ n.itoa y = cc in
      let b : map n.itoa xs ≡ map n.itoa ys = cc in
      ap₂ (λ (z : ℤ) (zs : List ℤ). z ∷ zs) (n.itoa-injective x y a) (itoas-injective xs ys b)

  -- The key of the empty list is the empty text.
  empty_key : groups_key d n h c g [] ≡ []
  unfolding groups_key must_slice_convert join
  empty_key = refl

  empty-fields : split b',' (groups_key d n h c g []) ≡ [] ∷ []
  unfolding groups_key must_slice_convert join split
  empty-fields = refl

  empty_key-ne : (a : ℤ) (gs : List ℤ) → groups_key d n h c g [] ≢ groups_key d n h c g (a ∷ gs)
  empty_key-ne a gs e =
      let f : n.itoa a ∷ map n.itoa gs ≡ [] ∷ [] =
        sym (groups_key-fields a gs) ∙ sym (ap (split b',') e) ∙ empty-fields in
      n.itoa-not_empty a (cc)

  -- The key of a list of groups does not begin with a letter.
  groups_key-letter :
      (gs : List ℤ) (k : Bytes) → Lacks b',' (b'A' ∷ k) → groups_key d n h c g gs ≢ b'A' ∷ k
  groups_key-letter [] k lacks e = let f : [] ≡ b'A' ∷ k = sym empty_key ∙ e in cc
  groups_key-letter (a ∷ gs) k lacks e =
      let f : n.itoa a ∷ map n.itoa gs ≡ (b'A' ∷ k) ∷ [] =
        sym (groups_key-fields a gs) ∙ ap (split b',') e ∙ split-lone b',' (b'A' ∷ k) lacks in
      let i : n.itoa a ≡ b'A' ∷ k = cc in
      let digits = subst (All (λ c. (c ≡ b'-') ⊎ ((b'0' ≤ c) × (c ≤ b'9')))) i (n.itoa-digits a) in
      elim digits.0 [ inl z ↦ absurd (omega arith) | inr z ↦ absurd (omega arith) ]

  groups_key-injective :
      (xs ys : List ℤ) → groups_key d n h c g xs ≡ groups_key d n h c g ys → xs ≡ ys
  groups_key-injective [] [] e = refl
  groups_key-injective [] (y ∷ ys) e = absurd (empty_key-ne y ys e)
  groups_key-injective (x ∷ xs) [] e = absurd (empty_key-ne x xs (sym e))
  groups_key-injective (x ∷ xs) (y ∷ ys) e =
      itoas-injective (x ∷ xs) (y ∷ ys)
        (sym (groups_key-fields x xs) ∙ ap (split b',') e ∙ groups_key-fields y ys)

  all-Lacks : Lacks b',' (all_key d n h c g)
  all-Lacks = omega arith

  public-Lacks : Lacks b',' (public_key d n h c g)
  public-Lacks = omega arith

  -- Queries that share a key have the same answer.
  pub key-answer : (t : d.Table) (p q : Ask) → key p ≡ key q → answer t p ≡ answer t q
  key-answer t all all e = refl
  key-answer t all public e = cc
  key-answer t all (groups gs) e = absurd (groups_key-letter gs _ all-Lacks (sym e))
  key-answer t public all e = cc
  key-answer t public public e = refl
  key-answer t public (groups gs) e = absurd (groups_key-letter gs _ public-Lacks (sym e))
  key-answer t (groups gs) all e = absurd (groups_key-letter gs _ all-Lacks e)
  key-answer t (groups gs) public e = absurd (groups_key-letter gs _ public-Lacks e)
  key-answer t (groups gs) (groups hs) e = ap (d.in_groups t) (groups_key-injective gs hs e)

  pub key-one : (a : ℤ) → key (groups (a ∷ [])) ≡ n.itoa a
  unfolding groups_key must_slice_convert join
  key-one a = refl
