-- ===== src/Tests/Paths.antt =====
-- pkg/utils/path.go at concrete paths.
use xiaoya_qwen.Prelude.{[], ◌∷◌, ◌++◌, ◌≡◌, refl, ◌↔◌, true, some, codes}
use xiaoya_qwen.Go.Path.{absolute, Begins}
use xiaoya_qwen.Utils.Path.{fix_and_clean_path, is_sub_path, join_base_path, is_relative}
use xiaoya_qwen.Go.Path.{join_paths, elements, resolve}
use xiaoya_qwen.Go.Strings.{split, replace_all}
use xiaoya_qwen.Utils.Path.Clean.{names, fix_and_clean_path-absolute}
use xiaoya_qwen.Utils.Path.SubPath.{is_sub_path_iff}
use xiaoya_qwen.Utils.Path.JoinBase.{join_base_path-is_sub_path}

names_run : names (codes "x//\\y/../z") ≡ codes "x" ∷ codes "z" ∷ []
unfolding names elements resolve split replace_all
names_run = refl

fix_and_clean_path-absolute_example :
    fix_and_clean_path (codes "../a\\b") ≡ absolute (names (codes "../a\\b"))
fix_and_clean_path-absolute_example = fix_and_clean_path-absolute (codes "../a\\b")

is_sub_path_iff_example :
    (is_sub_path (codes "/a") (codes "/ab") ≡ true)
    ↔ Begins (names (codes "/a")) (names (codes "/ab"))
is_sub_path_iff_example = is_sub_path_iff (codes "/a") (codes "/ab")

joined : join_base_path (codes "/home") (codes "a\\..\\..\\b") ≡ some (codes "/home/b")
unfolding join_base_path is_relative fix_and_clean_path join_paths
joined = refl

join_base_path-is_sub_path_example :
    (is_sub_path (codes "/home") (codes "/home/b") ≡ true)
    × (names (codes "/home/b") ≡ names (codes "/home") ++ names (codes "a\\..\\..\\b"))
join_base_path-is_sub_path_example =
    join_base_path-is_sub_path (codes "/home") (codes "a\\..\\..\\b") (codes "/home/b") joined
