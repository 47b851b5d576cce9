-- ===== src/Tests/Signs.antt =====
-- Signatures with a code that shows the key, and numbers written in ones behind a sign.
use xiaoya_qwen.Prelude.{
  ℕ, zero, suc, [], ◌∷◌, ◌++◌, Bytes, Option, none, some, codes, ◌==◌, if◌then◌else◌, ◌≡◌, ◌≢◌,
  refl, ap, ◌↔◌, length, Lacks, arith,
}
use xiaoya_qwen.Prelude.Int.{ℤ, pos, negsuc}
use xiaoya_qwen.Signs.{Primitives, sign, verify, Fresh, verify_iff}

abbrev ones : ℕ → Bytes
ones zero = []
ones (suc n) = b'1' ∷ ones n

length-ones : (n : ℕ) → length (ones n) ≡ n
length-ones zero = refl
length-ones (suc n) = ap suc (length-ones n)

ones-Lacks : (n : ℕ) → Lacks b':' (ones n)
ones-Lacks zero = tt
ones-Lacks (suc n) = ((omega arith), ones-Lacks n)

abbrev written : ℤ → Bytes
written (pos n) = b'+' ∷ ones n
written (negsuc n) = b'-' ∷ ones n

abbrev read : Bytes → Option ℤ
read [] = none
read (c ∷ s) = if c == b'+' then some (pos (length s)) else some (negsuc (length s))

read-written : (n : ℤ) → read (written n) ≡ some n
read-written (pos n) = ap (λ k. some (pos k)) (length-ones n)
read-written (negsuc n) = ap (λ k. some (negsuc k)) (length-ones n)

written-not_empty : (n : ℤ) → written n ≢ []
written-not_empty (pos n) e = cc
written-not_empty (negsuc n) e = cc

written-Lacks : (n : ℤ) → Lacks b':' (written n)
written-Lacks (pos n) = ((omega arith), ones-Lacks n)
written-Lacks (negsuc n) = ((omega arith), ones-Lacks n)

abbrev plain : Primitives
plain = record {
  mac = λ key message. key ++ message;
  format_int = written;
  parse_int = read;
  parse_int-format_int = read-written;
  format_int-not_empty = written-not_empty;
  format_int-Lacks = written-Lacks;
}

verify_iff_example :
    (verify plain (codes "key") (codes "/a") (sign plain (codes "key") (codes "/a") (pos 5)) (pos 4)
      ≡ none)
    ↔ ((expires : ℤ) × (sign plain (codes "key") (codes "/a") (pos 5)
          ≡ sign plain (codes "key") (codes "/a") expires)
        × Fresh plain (codes "key") expires (pos 4))
verify_iff_example =
    verify_iff plain (codes "key") (codes "/a") (sign plain (codes "key") (codes "/a") (pos 5))
      (pos 4)
