-- ===== src/UrlTree/Forest.antt =====
-- Trees of folders and files, and the lines that spell them: a folder, then what is in it two spaces deeper.
use xiaoya_qwen.Prelude.{
  ℕ, suc, List, [], ◌∷◌, ◌++◌, append_assoc, append-nil, Bytes, Bool, some, map, ◌≡◌, refl, sym, ap,
  ◌∙◌, arith,
}
use xiaoya_qwen.Go.Strings.{split}
use xiaoya_qwen.UrlTree.{Item, Node, Nodes, node, nil, cons, append}
use xiaoya_qwen.UrlTree.Lines.{Line, blank, bad, Outside, read_line}
use xiaoya_qwen.UrlTree.Lines
use xiaoya_qwen.UrlTree.Build.{
  Frame, Stack, folder_item, close, attach, pop_while, push_folder, add_file, build, finished,
  build_tree,
}
use xiaoya_qwen.UrlTree.Build.Depth.{
  Below, stack, pop-attach, pop_while-Below, Below-add, Below-pop_while, pop_while-pop_while,
}

mutual
  pub data Tree : Type 0 where
    file : Item → Tree
    folder : Bytes → Trees → Tree

  pub data Trees : Type 0 where
    empty : Trees
    and : Tree → Trees → Trees

unfoldable mutual
  -- The node of a tree.
  pub node_of : Tree → Node
  node_of (file item) = node item nil
  node_of (folder name ts) = node (folder_item name) (nodes_of ts)

  pub nodes_of : Trees → Nodes
  nodes_of empty = nil
  nodes_of (and t ts) = cons (node_of t) (nodes_of ts)

-- What the lines of trees at a level say.
unfoldable pub lines_of : ℕ → Trees → List Line
lines_of level empty = []
lines_of level (and (file item) ts) = Lines.file level item ∷ lines_of level ts
lines_of level (and (folder name kids) ts) =
    Lines.folder level name ∷ (lines_of (suc level) kids ++ lines_of level ts)

-- The lines that are not blank.
unfoldable pub visible : List Line → List Line
visible [] = []
visible (blank ∷ ls) = visible ls
visible (bad ∷ ls) = bad ∷ visible ls
visible (Lines.folder level name ∷ ls) = Lines.folder level name ∷ visible ls
visible (Lines.file level item ∷ ls) = Lines.file level item ∷ visible ls

build-visible : (ls : List Line) (s : Stack) → build (visible ls) s ≡ build ls s
unfolding build visible
build-visible [] s = refl
build-visible (blank ∷ ls) s = build-visible ls s
build-visible (bad ∷ ls) s = refl
build-visible (Lines.folder level name ∷ ls) s = build-visible ls _
build-visible (Lines.file level item ∷ ls) s = build-visible ls _

-- The trees among the children of the top of a stack.
plant : Trees → Stack → Stack
plant empty s = s
plant (and t ts) s = plant ts (attach (node_of t) s.frames s.root)

Below-plant : (level : ℕ) (ts : Trees) (s : Stack) → Below level s → Below level (plant ts s)
unfolding plant
Below-plant level empty s h = h
Below-plant level (and t ts) s h =
    Below-plant level ts _ (Below-add level (node_of t) s.frames s.root h)

-- The nodes behind others.
join_nodes : Nodes → Nodes → Nodes
join_nodes nil ns = ns
join_nodes (cons m ms) ns = cons m (join_nodes ms ns)

join_nodes-append :
    (ms : Nodes) (n : Node) (ns : Nodes) → join_nodes (append ms n) ns ≡ join_nodes ms (cons n ns)
unfolding join_nodes append
join_nodes-append nil n ns = refl
join_nodes-append (cons m ms) n ns = ap (cons m) (join_nodes-append ms n ns)

join_nodes-nil : (ms : Nodes) → join_nodes ms nil ≡ ms
unfolding join_nodes
join_nodes-nil nil = refl
join_nodes-nil (cons m ms) = ap (cons m) (join_nodes-nil ms)

plant-frame :
    (ts : Trees) (f : Frame) (fs : List Frame) (root : Nodes)
    → plant ts (stack (f ∷ fs) root)
      ≡ stack (record f { children = join_nodes f.children (nodes_of ts) } ∷ fs) root
unfolding plant attach nodes_of
plant-frame empty f fs root = rw (join_nodes-nil f.children) refl
plant-frame (and t ts) f fs root =
    plant-frame ts (record f { children = append f.children (node_of t) }) fs root
    ∙ rw (join_nodes-append f.children (node_of t) (nodes_of ts)) refl

plant-root :
    (ts : Trees) (root : Nodes)
    → plant ts (stack [] root) ≡ stack [] (join_nodes root (nodes_of ts))
unfolding plant attach nodes_of
plant-root empty root = rw (join_nodes-nil root) refl
plant-root (and t ts) root =
    plant-root ts (append root (node_of t))
    ∙ rw (join_nodes-append root (node_of t) (nodes_of ts)) refl

-- The stack after the lines of trees, popped down to their level.
Grown : ℕ → Trees → List Line → Stack → Type 0
Grown level ts more s =
    (s' : Stack) × (build (lines_of level ts ++ more) s ≡ build more s')
    × (pop_while level s' ≡ plant ts (pop_while level s))

-- A folder that is popped with all that is in it.
popped_folder :
    (level : ℕ) (name : Bytes) (kids : Trees) (s s' : Stack)
    → pop_while (suc level) s'
      ≡ plant kids (pop_while (suc level) (push_folder level name (pop_while level s)))
    → pop_while level s'
      ≡ attach (node_of (folder name kids)) (pop_while level s).frames (pop_while level s).root
unfolding push_folder node_of
popped_folder level name kids s s' e =
    let t = pop_while level s in
    let below : Below level t = Below-pop_while level s.frames s.root in
    let f : Frame = record { level = level; name = name; children = nil } in
    let full : Frame = record { level = level; name = name; children = nodes_of kids } in
    let inside : plant kids (pop_while (suc level) (stack (f ∷ t.frames) t.root))
        ≡ stack (full ∷ t.frames) t.root =
      ap (plant kids) (pop_while-Below (suc level) (f ∷ t.frames) t.root (omega arith))
      ∙ plant-frame kids f t.frames t.root
      ∙ unfold join_nodes in refl in
    sym (pop_while-pop_while level (suc level) s'.frames s'.root (omega arith))
    ∙ ap (pop_while level) (e ∙ inside)
    ∙ unfold pop_while in
      pop-attach level full t.frames t.root (ground arith)
      ∙ pop_while-Below level _ _ (Below-add level (close full) t.frames t.root below)

grown : (level : ℕ) (ts : Trees) (more : List Line) (s : Stack) → Grown level ts more s
unfolding Grown lines_of plant build add_file node_of
grown level empty more s = (s, refl, refl)
grown level (and (file item) ts) more s =
    let t = pop_while level s in
    let s1 = attach (node item nil) t.frames t.root in
    let (s', e, p) = grown level ts more s1 in
    let below : Below level s1 =
      Below-add level (node item nil) t.frames t.root (Below-pop_while level s.frames s.root) in
    (s', e, p ∙ ap (plant ts) (pop_while-Below level s1.frames s1.root below))
grown level (and (folder name kids) ts) more s =
    let s1 = push_folder level name (pop_while level s) in
    let (s2, e2, p2) = grown (suc level) kids (lines_of level ts ++ more) s1 in
    let (s3, e3, p3) = grown level ts more s2 in
    (
      s3,
      ap (λ ls. build ls s1) (append_assoc (lines_of (suc level) kids) (lines_of level ts) more)
          ∙ e2
          ∙ e3,
      p3 ∙ ap (plant ts) (popped_folder level name kids s s2 p2),
    )

-- If the lines of a text that are not blank say what the lines of some trees say, then BuildTree builds
-- the nodes of these trees, without an error.
pub build_tree-Trees :
    (o : Outside) (head_size : Bool) (text : Bytes) (ts : Trees)
    → visible (map (read_line o head_size) (split b'\n' text)) ≡ lines_of 0 ts
    → build_tree o head_size text ≡ some (nodes_of ts)
unfolding build_tree finished Grown
build_tree-Trees o head_size text ts h =
    let ls = map (read_line o head_size) (split b'\n' text) in
    let start = stack [] nil in
    let (s', e, p) = grown 0 ts [] start in
    let built : build ls start ≡ some s' =
      sym (build-visible ls start)
      ∙ ap (λ l. build l start) (h ∙ sym (append-nil (lines_of 0 ts)))
      ∙ e
      ∙ unfold build in refl in
    let closed : pop_while 0 s' ≡ stack [] (nodes_of ts) =
      p ∙ unfold pop_while in plant-root ts nil ∙ unfold join_nodes in refl in
    rw (built, closed) refl
