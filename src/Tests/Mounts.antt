-- ===== src/Tests/Mounts.antt =====
-- Mounts and the choice of a storage, at a concrete map.
use xiaoya_qwen.Prelude.{
  List, ◌<◌, ◌+◌, ◌%◌, ◌≤◌, [], ◌∷◌, ◌++◌, ◌≡◌, refl, ◌↔◌, true, false, codes, Bytes, In, In-cons,
  arith, length, get_elem?, beq,
}
use xiaoya_qwen.Prelude.Int.{pos}
use xiaoya_qwen.Model.Storage.{Driver}
use xiaoya_qwen.Utils.Path.Clean.{names}
use xiaoya_qwen.Utils.Path.{fix_and_clean_path, is_sub_path, path_add_separator_suffix}
use xiaoya_qwen.Utils.Balance.{get_actual_mount_path}
use xiaoya_qwen.Op.Storages.{
  Entry, StoragesMap, found, get_storages_by_path, balance, slash_count,
  get_storage_and_actual_path, consider, by_mount_path, get_balanced_storage, load_or_zero,
}
use xiaoya_qwen.Go.Sort.{sort_by, str_lt}
use xiaoya_qwen.Go.Strings.{count, trim_prefix}
use xiaoya_qwen.Op.Storages.LongestMatch.{Matches, depth, get_storages_by_path_iff}
use xiaoya_qwen.Op.Storages.RoundRobin.{calls, counter, round_robin}
use xiaoya_qwen.Op.Storages.Resolve.{IsKeyed, IsMount, get_storage_and_actual_path-names}

abbrev pub mounted : Bytes → Driver
mounted p = record {
  config = record {
    name = codes "Local";
    local_sort = true;
    only_local = true;
    only_proxy = false;
    no_cache = true;
    no_upload = false;
    need_ms = false;
    default_root = codes "/";
    check_status = false;
    alert = [];
    no_overwrite_upload = false;
  };
  storage = record {
    id = 1;
    mount_path = p;
    order = pos 0;
    driver = codes "Local";
    cache_expiration = pos 30;
    status = codes "work";
    addition = [];
    remark = [];
    modified = 0;
    disabled = false;
    sort = record { order_by = []; order_direction = []; extract_folder = [] };
    proxy = record { web_proxy = false; webdav_policy = []; down_proxy_url = [] };
  };
}

abbrev mounts : StoragesMap
mounts =
    (codes "/a", mounted (codes "/a"))
    ∷ (codes "/a/d.balance", mounted (codes "/a/d.balance"))
    ∷ (codes "/a/d", mounted (codes "/a/d"))
    ∷ []

-- What a run of the lookup computes with.
opened : Unit {0}
unfolding get_storages_by_path consider slash_count is_sub_path fix_and_clean_path
    path_add_separator_suffix get_actual_mount_path by_mount_path sort_by str_lt count beq
    get_balanced_storage get_storage_and_actual_path trim_prefix balance load_or_zero
opened = tt

longest :
    get_storages_by_path mounts (codes "/a/d/x")
    ≡ mounted (codes "/a/d") ∷ mounted (codes "/a/d.balance") ∷ []
unfolding opened
longest = refl

get_storages_by_path_iff_example :
    In (mounted (codes "/a/d")) (get_storages_by_path mounts (codes "/a/d/x")) ↔ (
      (e : Entry) × In e mounts
      × (e.1 ≡ mounted (codes "/a/d"))
      × Matches (codes "/a/d/x") e
      × ((x : Entry) → In x mounts → Matches (codes "/a/d/x") x → depth x ≤ depth e))
get_storages_by_path_iff_example =
    get_storages_by_path_iff mounts (codes "/a/d/x") (mounted (codes "/a/d"))

abbrev others : List Driver
others = mounted (codes "/a/d.balance") ∷ []

counter_fits :
    counter (mounted (codes "/a/d")) []
    < length (mounted (codes "/a/d") ∷ mounted (codes "/a/d.balance") ∷ [])
unfolding opened
counter_fits = omega arith

round_robin_example :
    (balance (mounted (codes "/a/d") ∷ others) (calls 2 (mounted (codes "/a/d") ∷ others) [])).0
    ≡ get_elem?
        (mounted (codes "/a/d") ∷ others)
        ((counter (mounted (codes "/a/d")) [] + 2 + 1) % 2)
round_robin_example =
    round_robin (mounted (codes "/a/d")) (mounted (codes "/a/d.balance")) [] 2 [] counter_fits

abbrev second : StoragesMap
second = (codes "/a/d.balance", mounted (codes "/a/d.balance")) ∷ []

abbrev two_mounts : StoragesMap
two_mounts = (codes "/a", mounted (codes "/a")) ∷ second

abbrev Keyed : Entry → Type 0
Keyed e = (e.0 ≡ e.1.storage.mount_path) × IsMount (get_actual_mount_path e.0)

two_mounts-IsKeyed : IsKeyed two_mounts
unfolding opened
two_mounts-IsKeyed =
    In-cons Keyed (codes "/a", mounted (codes "/a")) second (refl, refl)
      (In-cons Keyed (codes "/a/d.balance", mounted (codes "/a/d.balance")) [] (refl, refl)
        (λ x i. elim i [ ]))

resolved :
    (get_storage_and_actual_path two_mounts (codes "/a/d/../y") []).0
    ≡ found (mounted (codes "/a")) (codes "/y")
unfolding opened
resolved = refl

get_storage_and_actual_path-names_example :
    (names (codes "/a/d/../y") ≡ names (get_actual_mount_path (codes "/a")) ++ names (codes "/y"))
    × ((x : Entry)
        → In x two_mounts
        → Matches (codes "/a/d/../y") x
        → depth x ≤ slash_count (get_actual_mount_path (codes "/a")))
get_storage_and_actual_path-names_example =
    get_storage_and_actual_path-names two_mounts (codes "/a/d/../y") [] (mounted (codes "/a"))
      (codes "/y") two_mounts-IsKeyed resolved
