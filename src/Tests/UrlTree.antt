-- ===== src/Tests/UrlTree.antt =====
-- The driver of URL trees on the text of drivers/url_tree/urls_test.go.
use xiaoya_qwen.Prelude.{◌∷◌, ◌++◌, Bytes, false, none, some, ◌≡◌, refl, codes, beq, length, map}
use xiaoya_qwen.Prelude.Int.{pos}
use xiaoya_qwen.Go.Strings.{split}
use xiaoya_qwen.UrlTree.{Item}
use xiaoya_qwen.UrlTree.Lines.{Outside, file, folder, bad, read_line}
use xiaoya_qwen.UrlTree.Build.{build_tree}
use xiaoya_qwen.UrlTree.Forest.{
  Tree, Trees, empty, and, nodes_of, lines_of, visible, build_tree-Trees,
}
use xiaoya_qwen.UrlTree.Forest

abbrev no_outside : Outside
no_outside = record { parse_int = λ s. some (pos (length s)); get_size_from_url = λ s. none }

abbrev at : Bytes → Bytes → Item
at url name = record { url = url; name = name; modified = pos 0; size = pos 0 }

read_line_runs :
    (read_line no_outside false (codes "  name1:https://url1 ")
      ≡ file 1 (at (codes "https://url1") (codes "name1")))
    × (read_line no_outside false (codes "folder1:") ≡ folder 0 (codes "folder1"))
    × (read_line no_outside false (codes "   x:http://y") ≡ bad)
    × (read_line no_outside false (codes "x:https://a?u=http://y") ≡ bad)
unfolding read_line beq
read_line_runs = (refl, refl, refl, refl)

abbrev text : Bytes
text =
    codes "folder1:"
    ++ b'\n'
      ∷ (codes "  name1:https://url1"
          ++ b'\n'
            ∷ (codes "  folder2:"
                ++ b'\n'
                  ∷ (codes "    http://url3" ++ b'\n' ∷ (codes "" ++ b'\n' ∷ codes "http://url8"))))

abbrev url3 : Item
url3 = at (codes "http://url3") (codes "url3")

abbrev trees : Trees
trees =
    and
      (Forest.folder (codes "folder1") (
        and (Forest.file (at (codes "https://url1") (codes "name1")))
          (and (Forest.folder (codes "folder2") (and (Forest.file url3) empty)) empty)))
      (and (Forest.file (at (codes "http://url8") (codes "url8"))) empty)

spelled : visible (map (read_line no_outside false) (split b'\n' text)) ≡ lines_of 0 trees
unfolding read_line beq visible lines_of
spelled = refl

build_tree-Trees_example : build_tree no_outside false text ≡ some (nodes_of trees)
build_tree-Trees_example = build_tree-Trees no_outside false text trees spelled
