-- ===== src/Signs.antt =====
-- pkg/sign: signatures of texts that may expire. The HMAC, read as URL-safe base64, and the decimal form of an
-- int64 are parameters.
use xiaoya_qwen.Prelude.{
  List, [], ◌∷◌, ◌++◌, Bytes, true, false, not, ◌&&◌, Option, none, some, beq, beq_iff,
  if◌then◌else◌, ◌≡◌, ◌≢◌, refl, ap, ◌∙◌, ◌↔◌, ◌⊎◌, inl, inr, Lacks, arith, Bool-cases,
}
use xiaoya_qwen.Prelude.Int.{ℤ, pos, negsuc, int_lt, int_eq}
use xiaoya_qwen.Go.Strings.{split}
use xiaoya_qwen.Go.Strings.Laws.{split-append, split-lone}

-- crypto/hmac with encoding/base64, and strconv. A time is an int64 in the code and any integer here, which parse_int reads
-- back; the code refuses what is out of range as one that it cannot read.
pub record Primitives : Type 0 where
  pub mac : Bytes → Bytes → Bytes
  pub format_int : ℤ → Bytes
  pub parse_int : Bytes → Option ℤ
  pub parse_int-format_int : (n : ℤ) → parse_int (format_int n) ≡ some n
  pub format_int-not_empty : (n : ℤ) → format_int n ≢ []
  pub format_int-Lacks : (n : ℤ) → Lacks b':' (format_int n)

pub data SignError : Type 0 where
  expire_missing expire_invalid sign_expired sign_invalid : SignError

last : List Bytes → Bytes
last [] = []
last (x ∷ []) = x
last (x ∷ y ∷ ys) = last (y ∷ ys)

last-append_one : (xs : List Bytes) (y : Bytes) → last (xs ++ y ∷ []) ≡ y
unfolding last
last-append_one [] y = refl
last-append_one (x ∷ []) y = refl
last-append_one (x ∷ z ∷ xs) y = last-append_one (z ∷ xs) y

int_eq-zero : (n : ℤ) → int_eq n (pos 0) ≡ true → n ≡ pos 0
int_eq-zero (pos a) h = ap pos (ground arith)
int_eq-zero (negsuc a) h = cc

module _ (p : Primitives) (secret_key : Bytes) where
  open p use {mac, format_int, parse_int}

  unfoldable pub sign : Bytes → ℤ → Bytes
  sign text expire =
      let expire_time_stamp = format_int expire in
      mac secret_key (text ++ b':' ∷ expire_time_stamp) ++ b':' ∷ expire_time_stamp

  -- Verify from the parsed time on; `now` is time.Now().Unix()
  verify_at : Bytes → Bytes → ℤ → Option ℤ → Option SignError
  unfolding beq
  verify_at text given now none = some expire_invalid
  verify_at text given now (some expires) =
      if int_lt expires now && not (int_eq expires (pos 0))
      then some sign_expired
      else if not (beq (sign text expires) given)
      then some sign_invalid
      else none

  -- Verify; `none` is no error
  unfoldable pub verify : Bytes → Bytes → ℤ → Option SignError
  unfolding verify_at last
  verify text given now =
      let stamp = last (split b':' given) in
      if beq stamp [] then some expire_missing else verify_at text given now (parse_int stamp)

  -- A time of expiry that has not passed; 0 is never.
  abbrev pub Fresh : ℤ → ℤ → Type 0
  Fresh expires now = (int_lt expires now ≡ false) ⊎ (expires ≡ pos 0)

  stamp-sign :
      (text : Bytes) (expire : ℤ) → last (split b':' (sign text expire)) ≡ format_int expire
  unfolding sign
  stamp-sign text expire =
      let m = mac secret_key (text ++ b':' ∷ format_int expire) in
      ap last (
        split-append b':' m (format_int expire)
        ∙ ap (λ r. split b':' m ++ r)
            (split-lone b':' (format_int expire) (p.format_int-Lacks expire)))
      ∙ last-append_one (split b':' m) (format_int expire)

  verify_at-Fresh :
      (text : Bytes) (expires now : ℤ)
      → Fresh expires now
      → verify_at text (sign text expires) now (some expires) ≡ none
  unfolding verify_at
  verify_at-Fresh text expires now (inl h) =
      rw h (ground (arith, beq_iff (sign text expires) (sign text expires)))
  verify_at-Fresh text expires now (inr e) =
      let z : int_eq expires (pos 0) ≡ true = rw e refl in
      rw z (ground (arith, beq_iff (sign text expires) (sign text expires)))

  verify_at-none :
      (text given : Bytes) (expires now : ℤ)
      → verify_at text given now (some expires) ≡ none
      → (given ≡ sign text expires) × Fresh expires now
  unfolding verify_at
  verify_at-none text given expires now h = elim (Bool-cases (int_lt expires now)) [
    | inl late ↦ elim (Bool-cases (int_eq expires (pos 0))) [
      | inl z ↦ (ground (arith, beq_iff (sign text expires) given), inr (int_eq-zero expires z))
      | inr z ↦ (let f : some sign_expired ≡ none = rw (late, z) at h in absurd (cc))
    ]
    | inr l ↦ (ground (arith, beq_iff (sign text expires) given), inl l)
  ]

  verify-sign :
      (text : Bytes) (expires now : ℤ)
      → Fresh expires now
      → verify text (sign text expires) now ≡ none
  unfolding verify
  verify-sign text expires now f =
      rw (stamp-sign text expires, p.parse_int-format_int expires)
        (verify_signed (format_int expires) (p.format_int-not_empty expires)
          (verify_at-Fresh text expires now f))
    where
      verify_signed :
          (stamp : Bytes) {o : Option SignError}
          → stamp ≢ []
          → o ≡ none
          → (if beq stamp [] then some expire_missing else o) ≡ none
      verify_signed stamp n h = ground (arith, beq_iff stamp [])

  parsed :
      (text given : Bytes) (now : ℤ) (o : Option ℤ)
      → verify_at text given now o ≡ none
      → (expires : ℤ) × (given ≡ sign text expires) × Fresh expires now
  unfolding verify_at
  parsed text given now none h = absurd (cc)
  parsed text given now (some expires) h =
      let (e, f) = verify_at-none text given expires now h in (expires, e, f)

  -- Verify accepts a text exactly when it is the signature of the data for some time of expiry that has not
  -- passed, where 0 stands for never.
  pub verify_iff :
      (text given : Bytes) (now : ℤ)
      → (verify text given now ≡ none)
        ↔ ((expires : ℤ) × (given ≡ sign text expires) × Fresh expires now)
  unfolding verify
  verify_iff text given now = (
    λ h. elim (Bool-cases (beq (last (split b':' given)) [])) [
      | inl e ↦ (let f : some expire_missing ≡ none = rw e at h in absurd (cc))
      | inr e ↦ parsed text given now (parse_int (last (split b':' given))) (rw e at h)
    ],
    λ (expires, e, f). rw e (verify-sign text expires now f),
  )
