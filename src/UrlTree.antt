-- ===== src/UrlTree.antt =====
-- drivers/url_tree: a driver whose folders are read from a text. strconv and the request for the size of a
-- file are parameters.
pub mod Lines
pub mod Build
pub mod Serve
pub mod Forest
use xiaoya_qwen.Prelude.{Bytes, ℕ, zero, suc, List, [], ◌∷◌}
use xiaoya_qwen.Prelude.Int.{ℤ}

-- The fields of Node but Children and Level; Level is only read while the tree is built.
pub record Item : Type 0 where
  pub url : Bytes
  pub name : Bytes
  pub modified : ℤ
  pub size : ℤ

mutual
  pub data Node : Type 0 where
    node : Item → Nodes → Node

  pub data Nodes : Type 0 where
    nil : Nodes
    cons : Node → Nodes → Nodes

-- append(nodes, n)
unfoldable pub append : Nodes → Node → Nodes
append nil n = cons n nil
append (cons m ms) n = cons m (append ms n)
