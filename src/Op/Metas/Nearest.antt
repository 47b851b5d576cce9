-- ===== src/Op/Metas/Nearest.antt =====
-- GetNearestMeta: a path, and then each directory above it.
use xiaoya_qwen.Prelude.{
  ℕ, zero, suc, ◌<◌, List, [], ◌∷◌, ◌++◌, All, Lacks, Bytes, Option, some, ◌≡◌, refl, sym, ap,
  subst, ◌∙◌, ◌≢◌, beq, beq_iff, length, length-append, arith, inl, inr, false, All-In,
  In-append_right,
}
use xiaoya_qwen.Go.Path.{slash, dir, dir-absolute, absolute, AllNames, IsName, absolute-injective}
use xiaoya_qwen.Utils.Path.{fix_and_clean_path}
use xiaoya_qwen.Utils.Path.Clean.{
  names, names-absolute, names-AllNames, names-Lacks, fix_and_clean_path-absolute,
}
use xiaoya_qwen.Utils.Path.Parent.{snoc-cases, All-front, length-absolute}
use xiaoya_qwen.Model.Meta.{Meta}
use xiaoya_qwen.Op.Cache.{Cache}
use xiaoya_qwen.Op.Metas.{
  Query, row, no_row, query_error, MetaDb, MetaResult, ok, meta_not_found, other_error, Metas,
  get_meta_by_path, nearest_round, nearest_loop, get_nearest_meta,
}
use xiaoya_qwen.Op.Metas.Coherence.{Coherent, reading, IsLookup, get_meta_by_path-IsLookup}

module _ (d : MetaDb) (t : d.Table) where
  -- The nearest meta in a table: that of the path itself if a query of it answers anything but that
  -- there is no row, and else the nearest one of the directory above it.
  pub data Nearest : List Bytes → MetaResult → Type 0 where
    here :
        (ps : List Bytes) (r : MetaResult)
        → reading (d.by_path t (absolute ps)) ≡ r
        → r ≢ meta_not_found
        → Nearest ps r
    above :
        (ps : List Bytes) (n : Bytes) (r : MetaResult)
        → d.by_path t (absolute (ps ++ n ∷ [])) ≡ no_row
        → Nearest ps r
        → Nearest (ps ++ n ∷ []) r
    nowhere : d.by_path t slash ≡ no_row → Nearest [] meta_not_found

reading-not_found : (q : Query) → reading q ≡ meta_not_found → q ≡ no_row
unfolding reading
reading-not_found (row m) h = cc
reading-not_found no_row h = refl
reading-not_found query_error h = cc

snoc-nil : (qs : List Bytes) (n : Bytes) → qs ++ n ∷ [] ≢ []
snoc-nil [] n e = cc
snoc-nil (q ∷ qs) n e = cc

not_slash : (p : Bytes) → p ≢ slash → beq p slash ≡ false
not_slash p ne = ground (arith, beq_iff p slash)

slash-snoc :
    (qs : List Bytes) (n : Bytes) → AllNames (qs ++ n ∷ []) → absolute (qs ++ n ∷ []) ≢ slash
slash-snoc qs n h e = snoc-nil qs n (absolute-injective (qs ++ n ∷ []) [] h tt e)

module _ (d : MetaDb) (c : Cache (Option Meta)) where
  -- What a search from the names `ps` returns.
  pub record IsNearest (s : Metas d c) (ps : List Bytes) (r : MetaResult × Metas d c) : Type 0 where
    pub nearest : Nearest d s.table ps r.0
    pub same_table : r.1.table ≡ s.table
    pub coherent : Coherent d c r.1

  lookup :
      (s : Metas d c) (ps : List Bytes)
      → AllNames ps
      → All (Lacks b'\\') ps
      → Coherent d c s
      → IsLookup d c s (absolute ps) (get_meta_by_path d c s (absolute ps))
  lookup s ps h l k =
      let e : fix_and_clean_path (absolute ps) ≡ absolute ps =
        fix_and_clean_path-absolute (absolute ps) ∙ ap absolute (names-absolute ps h l) in
      subst (λ p. IsLookup d c s p (get_meta_by_path d c s (absolute ps))) e
        (get_meta_by_path-IsLookup d c s (absolute ps) k)

  IsReturned : Metas d c → List Bytes → Option (MetaResult × Metas d c) → Type 0
  IsReturned s ps o = (r : MetaResult × Metas d c) × (o ≡ some r) × IsNearest s ps r

  -- A search that goes on above a path ends as a search from the path does.
  round_above :
      (s : Metas d c) (qs : List Bytes) (n : Bytes) (s' : Metas d c)
      (up : Option (MetaResult × Metas d c))
      → d.by_path s.table (absolute (qs ++ n ∷ [])) ≡ no_row
      → s'.table ≡ s.table
      → IsReturned s' qs up
      → IsReturned s (qs ++ n ∷ []) up
  unfolding IsReturned
  round_above s qs n s' up q same (r, e, k) = (
    r,
    e,
    record {
      nearest = above qs n r.0 q (subst (λ t. Nearest d t qs r.0) same k.nearest);
      same_table = k.same_table ∙ same;
      coherent = k.coherent;
    },
  )

  round_not_found :
      (s : Metas d c) (ps : List Bytes) (s' : Metas d c) (up : Option (MetaResult × Metas d c))
      → AllNames ps
      → d.by_path s.table (absolute ps) ≡ no_row
      → s'.table ≡ s.table
      → Coherent d c s'
      → ((qs : List Bytes) (n : Bytes) → ps ≡ qs ++ n ∷ [] → IsReturned s' qs up)
      → IsReturned s ps (nearest_round d c (absolute ps) (meta_not_found, s') up)
  unfolding nearest_round IsReturned beq
  round_not_found s ps s' up h q same k rec = elim (snoc-cases ps) [
    | inl e ↦ rw e (
      (meta_not_found, s'),
      refl,
      record {
        nearest = nowhere (ap (λ p. d.by_path s.table (absolute p)) (sym e) ∙ q);
        same_table = same;
        coherent = k;
      },
    )
    | inr (qs, n, e) ↦
        let ne : beq (absolute ps) slash ≡ false =
          not_slash (absolute ps) (rw e (slash-snoc qs n (subst AllNames e h))) in
        let r : IsReturned s (qs ++ n ∷ []) up =
          round_above s qs n s' up (ap (λ p. d.by_path s.table (absolute p)) (sym e) ∙ q) same
            (rec qs n e) in
        rw (ne, e) r
  ]

  round :
      (s : Metas d c) (ps : List Bytes) (found : MetaResult × Metas d c)
      (up : Option (MetaResult × Metas d c))
      → AllNames ps
      → IsLookup d c s (absolute ps) found
      → ((qs : List Bytes) (n : Bytes) → ps ≡ qs ++ n ∷ [] → IsReturned found.1 qs up)
      → IsReturned s ps (nearest_round d c (absolute ps) found up)
  unfolding nearest_round IsReturned
  round s ps (meta_not_found, s') up h k rec =
      round_not_found s ps s' up h (reading-not_found _ (sym k.answer)) k.same_table k.coherent rec
  round s ps (ok m, s') up h k rec = (
    (ok m, s'),
    refl,
    record {
      nearest = here ps (ok m) (sym k.answer) (λ x. cc);
      same_table = k.same_table;
      coherent = k.coherent;
    },
  )
  round s ps (other_error, s') up h k rec = (
    (other_error, s'),
    refl,
    record {
      nearest = here ps other_error (sym k.answer) (λ x. cc);
      same_table = k.same_table;
      coherent = k.coherent;
    },
  )

  nearest_loop-IsNearest :
      (fuel : ℕ) (s : Metas d c) (ps : List Bytes)
      → length ps < fuel
      → AllNames ps
      → All (Lacks b'\\') ps
      → Coherent d c s
      → IsReturned s ps (nearest_loop d c fuel s (absolute ps))
  unfolding nearest_loop
  nearest_loop-IsNearest zero s ps f h l k = elim f [ ]
  nearest_loop-IsNearest (suc fuel) s ps f h l k =
      let found = lookup s ps h l k in
      round s ps (get_meta_by_path d c s (absolute ps)) _ h found (λ qs n e.
        let hs : AllNames (qs ++ n ∷ []) = subst AllNames e h in
        let name = All-In IsName (qs ++ n ∷ []) n hs (In-append_right n qs (n ∷ []) (inl refl)) in
        let front = All-front IsName qs (n ∷ []) hs in
        let up : dir (absolute ps) ≡ absolute qs =
          ap (λ p. dir (absolute p)) e ∙ dir-absolute qs n front name in
        rw up (
          nearest_loop-IsNearest fuel (get_meta_by_path d c s (absolute ps)).1 qs
            (omega (arith, length-append qs (n ∷ []), ap length e)) front
            (All-front (Lacks b'\\') qs (n ∷ []) (subst (All (Lacks b'\\')) e l)) found.coherent))

  -- From a state where the cache agrees with the table, GetNearestMeta returns, its answer is that of the
  -- nearest meta that the table has for the names of the path, the table stays as it is and the cache
  -- agrees with it again.
  pub get_nearest_meta-IsNearest :
      (s : Metas d c) (path : Bytes)
      → Coherent d c s
      → (r : MetaResult × Metas d c) × (get_nearest_meta d c s path ≡ some r)
        × IsNearest s (names path) r
  unfolding get_nearest_meta
  get_nearest_meta-IsNearest s path k =
      unfold IsReturned in
      rw (fix_and_clean_path-absolute path) (
        nearest_loop-IsNearest (suc (length (absolute (names path)))) s (names path)
          (omega (arith, length-absolute (names path))) (names-AllNames path) (names-Lacks path) k)
