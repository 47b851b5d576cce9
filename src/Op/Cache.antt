-- ===== src/Op/Cache.antt =====
-- The package go-cache as the program uses it: a map whose entries are set, read and deleted, one or all. An entry
-- that has expired reads as absent; the laws speak of entries before they expire.
use xiaoya_qwen.Prelude.{Bytes, Option, none, some, ◌≡◌, beq, if◌then◌else◌}

pub record Cache (V : Type 0) : Type 1 where
  pub Store : Type 0
  pub get : Store → Bytes → Option V
  pub set : Store → Bytes → V → Store
  pub del : Store → Bytes → Store
  pub clear : Store → Store
  pub get-set :
      (s : Store) (k j : Bytes) (v : V) → get (set s k v) j ≡ (if beq k j then some v else get s j)
  pub get-del : (s : Store) (k j : Bytes) → get (del s k) j ≡ (if beq k j then none else get s j)
  pub get-clear : (s : Store) (k : Bytes) → get (clear s) k ≡ none
