-- ===== src/Op/Storages/RoundRobin.antt =====
-- GetBalancedStorage, one call after another.
use xiaoya_qwen.Prelude.{
  ℕ, zero, suc, ◌+◌, ◌%◌, ◌<◌, List, [], ◌∷◌, Bytes, ◌≡◌, refl, none, some, beq, beq_iff, beq_refl,
  length, get_elem?, arith, ◌∙◌, ap, ◌↔◌, if◌then◌else◌,
}
use native.Mathlib.Nat.{mod-add-mod}
use xiaoya_qwen.Utils.Balance.{get_actual_mount_path}
use xiaoya_qwen.Model.Storage.{Driver}
use xiaoya_qwen.Op.Storages.{BalanceMap, load_or_zero, store, balance}

pub load_or_zero-store :
    (k j : Bytes) (v : ℕ) (m : BalanceMap)
    → load_or_zero j (store k v m) ≡ (if beq k j then v else load_or_zero j m)
unfolding load_or_zero store
load_or_zero-store k j v [] = refl
load_or_zero-store k j v ((i, w) ∷ m) =
    ground (arith, beq_iff i k, beq_iff i j, beq_iff k j, load_or_zero-store k j v m)

get_elem?-some :
    {A : Type 0} (xs : List A) (i : ℕ) → i < length xs → (a : A) × (get_elem? xs i ≡ some a)
get_elem?-some [] i h = elim h [ ]
get_elem?-some (x ∷ xs) zero h = (x, refl)
get_elem?-some (x ∷ xs) (suc i) h = get_elem?-some xs i (omega arith)

-- The storages from which a call at a balance map chooses, one call after another.
unfoldable pub calls : ℕ → List Driver → BalanceMap → BalanceMap
calls zero ds b = b
calls (suc n) ds b = calls n ds (balance ds b).1

abbrev pub counter : Driver → BalanceMap → ℕ
counter d b = load_or_zero (get_actual_mount_path d.storage.mount_path) b

mod_shift : (c n l : ℕ) → ((c + 1) % l + n) % l ≡ (c + n + 1) % l
mod_shift c n l = mod-add-mod (c + 1) l n ∙ ap (λ k. k % l) (omega arith)

module _ (d e : Driver) (ds : List Driver) where
  counter-balance :
      (b : BalanceMap)
      → counter d (balance (d ∷ e ∷ ds) b).1 ≡ (counter d b + 1) % length (d ∷ e ∷ ds)
  unfolding balance
  counter-balance b = ground (
    arith,
    load_or_zero-store (get_actual_mount_path d.storage.mount_path)
        (get_actual_mount_path d.storage.mount_path) ((counter d b + 1) % length (d ∷ e ∷ ds)) b,
    beq_refl (get_actual_mount_path d.storage.mount_path),
  )

  counter-calls :
      (n : ℕ) (b : BalanceMap)
      → counter d b < length (d ∷ e ∷ ds)
      → counter d (calls n (d ∷ e ∷ ds) b) ≡ (counter d b + n) % length (d ∷ e ∷ ds)
  unfolding calls
  counter-calls zero b h = grind arith
  counter-calls (suc n) b h =
      let b' = (balance (d ∷ e ∷ ds) b).1 in
      let r = counter-calls n b' (rw (counter-balance b) (omega arith)) in
      r
      ∙ rw (counter-balance b) (
          mod_shift (counter d b) n (length (d ∷ e ∷ ds))
          ∙ ap (λ k. k % length (d ∷ e ∷ ds)) (omega arith))

  balance-index :
      (b : BalanceMap)
      → (balance (d ∷ e ∷ ds) b).0
        ≡ get_elem? (d ∷ e ∷ ds) ((counter d b + 1) % length (d ∷ e ∷ ds))
  unfolding balance
  balance-index b = refl

  -- With two storages or more, the call after `n` others gets the storage `n + 1` places behind the
  -- counter, round the list; the counter is inside the list.
  pub round_robin :
      (n : ℕ) (b : BalanceMap)
      → counter d b < length (d ∷ e ∷ ds)
      → (balance (d ∷ e ∷ ds) (calls n (d ∷ e ∷ ds) b)).0
        ≡ get_elem? (d ∷ e ∷ ds) ((counter d b + n + 1) % length (d ∷ e ∷ ds))
  round_robin n b h =
      balance-index (calls n (d ∷ e ∷ ds) b)
      ∙ rw (counter-calls n b h)
          (ap (get_elem? (d ∷ e ∷ ds)) (mod-add-mod (counter d b + n) (length (d ∷ e ∷ ds)) 1))

-- A storage is found exactly when some mount path matches: the index never leaves the list.
pub balance-none_iff : (ds : List Driver) (b : BalanceMap) → ((balance ds b).0 ≡ none) ↔ (ds ≡ [])
unfolding balance
balance-none_iff [] b = (λ _. refl, λ _. refl)
balance-none_iff (d ∷ []) b = (λ h. cc, λ h. cc)
balance-none_iff (d ∷ e ∷ ds) b = (
  λ h.
      let (a, q) =
        get_elem?-some (d ∷ e ∷ ds) ((counter d b + 1) % length (d ∷ e ∷ ds)) (omega arith) in
      cc (q, h),
  λ h. cc,
)
