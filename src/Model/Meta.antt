-- ===== src/Model/Meta.antt =====
-- internal/model/meta.go: what an administrator attaches to a path.
use xiaoya_qwen.Prelude.{ℕ, Bytes, Bool}

pub record Meta : Type 0 where
  pub id : ℕ
  pub path : Bytes
  pub password : Bytes
  pub p_sub : Bool
  pub write : Bool
  pub w_sub : Bool
  pub hide : Bytes
  pub h_sub : Bool
  pub readme : Bytes
  pub r_sub : Bool
