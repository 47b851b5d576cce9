-- ===== src/UrlTree/Build.antt =====
-- BuildTree of drivers/url_tree/util.go. A frame of the stack is a folder that is open, with the children that it
-- has so far; it is put among the children of the frame below when it is popped. The root is never popped: its level
-- is -1.
pub mod Depth
use xiaoya_qwen.Prelude.{ℕ, List, [], ◌∷◌, Bytes, Bool, Option, none, some, leb, if◌then◌else◌, map}
use xiaoya_qwen.Prelude.Int.{pos}
use xiaoya_qwen.Go.Strings.{split}
use xiaoya_qwen.UrlTree.{Item, Node, Nodes, node, nil, append}
use xiaoya_qwen.UrlTree.Lines.{Line, blank, bad, folder, file, Outside, read_line}

pub record Frame : Type 0 where
  pub level : ℕ
  pub name : Bytes
  pub children : Nodes

-- The frames, the innermost first, and the children of the root.
pub record Stack : Type 0 where
  pub frames : List Frame
  pub root : Nodes

abbrev pub folder_item : Bytes → Item
folder_item name = record { url = []; name = name; modified = pos 0; size = pos 0 }

abbrev pub close : Frame → Node
close f = node (folder_item f.name) f.children

-- A node among the children of the top of the stack.
unfoldable pub attach : Node → List Frame → Nodes → Stack
unfolding append
attach n [] root = record { frames = []; root = append root n }
attach n (f ∷ fs) root = record {
  frames = record f { children = append f.children n } ∷ fs;
  root = root;
}

-- the loop that pops the frames of a level or deeper
unfoldable pub pop : ℕ → Frame → List Frame → Nodes → Stack
unfolding append
pop level f [] root =
    if leb level f.level
    then record { frames = []; root = append root (close f) }
    else record { frames = f ∷ []; root = root }
pop level f (g ∷ gs) root =
    let rest = pop level (record g { children = append g.children (close f) }) gs root in
    if leb level f.level then rest else record { frames = f ∷ g ∷ gs; root = root }

unfoldable pub pop_while : ℕ → Stack → Stack
unfolding pop
pop_while level s = elim s.frames [ [] ↦ s | f ∷ fs ↦ pop level f fs s.root ]

-- a folder is put on the stack, a file among the children of its top
unfoldable pub push_folder : ℕ → Bytes → Stack → Stack
push_folder level name s = record s {
  frames = record { level = level; name = name; children = nil } ∷ s.frames;
}

unfoldable pub add_file : Item → Stack → Stack
unfolding attach
add_file item s = attach (node item nil) s.frames s.root

-- The loop of BuildTree, over what the lines say; `none` is an error.
unfoldable pub build : List Line → Stack → Option Stack
unfolding pop_while push_folder add_file
build [] s = some s
build (blank ∷ ls) s = build ls s
build (bad ∷ ls) s = none
build (folder level name ∷ ls) s = build ls (push_folder level name (pop_while level s))
build (file level item ∷ ls) s = build ls (add_file item (pop_while level s))

-- The tree below the root, with the frames that are still open in their places.
unfoldable pub finished : Option Stack → Option Nodes
unfolding pop_while
finished none = none
finished (some s) = some (pop_while 0 s).root

unfoldable pub build_tree : Outside → Bool → Bytes → Option Nodes
unfolding build finished read_line split
build_tree o head_size text =
    finished
      (build (map (read_line o head_size) (split b'\n' text)) (record { frames = []; root = nil }))
