-- ===== src/UrlTree/Serve.antt =====
-- drivers/url_tree/types.go, and the operations of drivers/url_tree/driver.go. A size of a folder is the sum of the
-- sizes in it, in int64.
use xiaoya_qwen.Prelude.{
  ℕ, List, [], ◌∷◌, Bytes, Bool, not, Option, none, some, beq, codes, drop, if◌then◌else◌,
}
use xiaoya_qwen.Prelude.Int.{ℤ, pos, negsuc, int_add}
use xiaoya_qwen.Go.Strings.{split}
use xiaoya_qwen.Go.Path.{slash, join_paths}
use xiaoya_qwen.Model.Objects.{Obj}
use xiaoya_qwen.Op.Files.Monad.{Answer, ok, err, object_not_found, not_folder, not_file}
use xiaoya_qwen.UrlTree.{Item, Node, Nodes, node, nil, cons}
use xiaoya_qwen.UrlTree.Lines.{Outside}
use xiaoya_qwen.UrlTree.Build.{folder_item, build_tree}

unfoldable pub is_file : Item → Bool
is_file item = not (beq item.url [])

unfoldable pub found_or : Option Node → Option Node → Option Node
found_or none other = other
found_or (some n) other = some n

-- getByPath: `none` is nil. A path of one name is the node itself.
unfoldable mutual
  pub get_by_path : Node → List Bytes → Option Node
  get_by_path (node item children) [] = none
  get_by_path (node item children) (p ∷ []) =
      if beq item.name p then some (node item children) else none
  get_by_path (node item children) (p ∷ q ∷ ps) =
      let below = get_in children (q ∷ ps) in if beq item.name p then below else none

  -- the loop over the children
  pub get_in : Nodes → List Bytes → Option Node
  get_in nil ps = none
  get_in (cons n ns) ps = found_or (get_by_path n ps) (get_in ns ps)

-- calSize: the node with the sizes of its folders, and the sum of the sizes of some nodes
unfoldable mutual
  pub cal_size : Node → Node
  cal_size (node item children) =
      let sized = node (record item { size = sum_sizes (pos 0) children }) (cal_sizes children) in
      if is_file item then node item children else sized

  pub cal_sizes : Nodes → Nodes
  cal_sizes nil = nil
  cal_sizes (cons n ns) = cons (cal_size n) (cal_sizes ns)

  pub size_of : Node → ℤ
  size_of (node item children) =
      let sum = sum_sizes (pos 0) children in if is_file item then item.size else sum

  pub sum_sizes : ℤ → Nodes → ℤ
  sum_sizes size nil = size
  sum_sizes size (cons n ns) = sum_sizes (int_add size (size_of n)) ns

-- splitPath
unfoldable pub path_names : Bytes → List Bytes
unfolding split
path_names path =
    if beq path slash then codes "root" ∷ [] else codes "root" ∷ drop 1 (split b'/' path)

unfoldable pub get_node_from_root_by_path : Node → Bytes → Option Node
unfolding path_names get_by_path
get_node_from_root_by_path root path = get_by_path root (path_names path)

-- time.Unix, for times that are not before 1970
unfoldable pub seconds : ℤ → ℕ
seconds (pos n) = n
seconds (negsuc n) = 0

unfoldable pub object_of : Item → Bytes → Obj
unfolding seconds is_file
object_of item path = record {
  size = item.size;
  name = item.name;
  mod_time = seconds item.modified;
  is_dir = not (is_file item);
  id = [];
  path = path;
}

unfoldable pub node_to_obj : Option Node → Bytes → Answer Obj
unfolding object_of
node_to_obj none path = err object_not_found
node_to_obj (some (node item children)) path = ok (object_of item path)

unfoldable pub with_root : Option Nodes → Option Node
unfolding cal_size
with_root none = none
with_root (some children) = some (cal_size (node (folder_item (codes "root")) children))

-- Init; `none` is an error
unfoldable pub init : Outside → Bool → Bytes → Option Node
unfolding with_root build_tree
init o head_size url_structure = with_root (build_tree o head_size url_structure)

unfoldable pub get : Node → Bytes → Answer Obj
unfolding node_to_obj get_node_from_root_by_path
get root path = node_to_obj (get_node_from_root_by_path root path) path

-- utils.SliceConvert over the children of a folder
unfoldable pub objects_of : Bytes → Nodes → List Obj
unfolding object_of
objects_of dir nil = []
objects_of dir (cons (node item children) ns) =
    object_of item (join_paths dir item.name) ∷ objects_of dir ns

unfoldable pub list_node : Bytes → Option Node → Answer (List Obj)
unfolding objects_of
list_node dir none = err object_not_found
list_node dir (some (node item children)) =
    if is_file item then err not_folder else ok (objects_of dir children)

unfoldable pub list : Node → Obj → Answer (List Obj)
unfolding list_node get_node_from_root_by_path
list root dir = list_node dir.path (get_node_from_root_by_path root dir.path)

unfoldable pub link_node : Option Node → Answer Bytes
link_node none = err object_not_found
link_node (some (node item children)) = if is_file item then ok item.url else err not_file

unfoldable pub link : Node → Obj → Answer Bytes
unfolding link_node get_node_from_root_by_path
link root file = link_node (get_node_from_root_by_path root file.path)
