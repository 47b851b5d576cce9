-- ===== src/Server/Read/Found.antt =====
-- What FsGet, FsOther and FsDirs answer.
use xiaoya_qwen.Prelude.{
  List, [], ◌∷◌, Bytes, Bool, true, false, Option, none, some, beq, beq_iff, if◌then◌else◌, In, ◌≡◌,
  ◌≢◌, refl, sym, ap, subst, ◌⊎◌, inl, inr,
}
use xiaoya_qwen.Go.Strings.{trim_suffix, has_prefix}
use xiaoya_qwen.Go.Path
use xiaoya_qwen.Go.Path.{dir}
use xiaoya_qwen.Model.Meta.{Meta}
use xiaoya_qwen.Model.Objects.{Obj}
use xiaoya_qwen.Server.Read.{Reads, shows, DirResp, filter_dirs, dirs_objs, dirs_at}
use xiaoya_qwen.Server.Read.Get.{
  FsGetResp, get_at, get_obj, get_answer, filter_related, related_of, other_at, answered,
}
use xiaoya_qwen.Server.Read.Contents.{IsRelated, Gets, Folders, to_objs_resp-IsOf}

shows-injective : {A : Type 0} {a b : A} → shows a ≡ shows b → a ≡ b
shows-injective h = cc

-- What a loop that keeps some elements of a list has kept.
kept-In :
    {A : Type 0} (dropped kept : Bool) (x y : A) (rest : List A)
    → In x (if dropped then rest else if kept then y ∷ rest else rest)
    → ((dropped ≡ false) × (kept ≡ true) × (x ≡ y)) ⊎ In x rest
kept-In true kept x y rest i = inr i
kept-In false true x y rest (inl e) = inl (refl, refl, e)
kept-In false true x y rest (inr i) = inr i
kept-In false false x y rest i = inr i

module _ (e : Reads) where
  filter_related-In :
      (objs : List Obj) (obj x : Obj)
      → In x (filter_related e objs obj)
      → In x objs × IsRelated obj x
  unfolding filter_related IsRelated
  filter_related-In [] obj x i = elim i [ ]
  filter_related-In (o ∷ os) obj x i =
      let name = trim_suffix obj.name (Path.ext obj.name) in
      let rest = filter_related e os obj in
      elim (kept-In (beq o.name obj.name) (has_prefix o.name name) x o rest i) [
        | inl (other, prefix, same) ↦
            let differs : o.name ≢ obj.name = λ z. cc (other, (beq_iff o.name obj.name).1 z) in
            (inl same, subst (IsRelated obj) (sym same) (differs, prefix))
        | inr j ↦ let (k, related) = filter_related-In os obj x j in (inr k, related)
      ]

  related_of-In :
      (path : Bytes) (meta : Option Meta) (obj x : Obj) (found : Option (List Obj))
      → e.list meta (dir path) false ≡ found
      → In x (related_of e found obj)
      → (objs : List Obj) × (e.list meta (dir path) false ≡ some objs) × In x objs × IsRelated obj x
  unfolding related_of
  related_of-In path meta obj x none l i = elim i [ ]
  related_of-In path meta obj x (some objs) l i =
      let (j, related) = filter_related-In objs obj x i in (objs, l, j, related)

  get_answer-Gets :
      (path : Bytes) (meta : Option Meta) (obj : Obj) (url : Option Bytes) (r : FsGetResp)
      → e.get path ≡ some obj
      → get_answer e path meta obj url ≡ shows r
      → Gets e path meta r
  unfolding get_answer Gets
  get_answer-Gets path meta obj none r g h = absurd (cc)
  get_answer-Gets path meta obj (some url) r g h =
      let same = shows-injective h in
      (
        obj,
        g,
        record {
          name = ap (λ (y : FsGetResp). y.obj.name) (sym same);
          size = ap (λ (y : FsGetResp). y.obj.size) (sym same);
          is_dir = ap (λ (y : FsGetResp). y.obj.is_dir) (sym same);
          modified = ap (λ (y : FsGetResp). y.obj.modified) (sym same);
        },
        (λ o i.
            let (x, j, of) =
              to_objs_resp-IsOf e _ _ _ o
                (subst (λ (y : FsGetResp). In o y.related) (sym same) i) in
            let (objs, l, k, related) = related_of-In path meta obj x _ refl j in
            (objs, l, x, k, related, of)),
      )

  get_obj-Gets :
      (path : Bytes) (meta : Option Meta) (found : Option Obj) (r : FsGetResp)
      → e.get path ≡ found
      → get_obj e path meta found ≡ shows r
      → Gets e path meta r
  unfolding get_obj
  get_obj-Gets path meta none r g h = absurd (cc)
  get_obj-Gets path meta (some obj) r g h = get_answer-Gets path meta obj _ r g h

  pub get_at-Gets :
      (path : Bytes) (meta : Option Meta) (r : FsGetResp)
      → get_at e path meta ≡ shows r
      → Gets e path meta r
  unfolding get_at
  get_at-Gets path meta r h = get_obj-Gets path meta (e.get path) r refl h

  answered-some : (found : Option Bytes) (r : Bytes) → answered e found ≡ shows r → found ≡ some r
  unfolding answered
  answered-some none r h = absurd (cc)
  answered-some (some x) r h = cc

  pub other_at-some :
      (path : Bytes) (meta : Option Meta) (r : Bytes)
      → other_at e path meta ≡ shows r
      → e.other path ≡ some r
  unfolding other_at
  other_at-some path meta r h = answered-some (e.other path) r h

  filter_dirs-In :
      (objs : List Obj) (d : DirResp)
      → In d (filter_dirs e objs)
      → (x : Obj) × In x objs × (x.is_dir ≡ true) × (d.name ≡ x.name) × (d.modified ≡ x.mod_time)
  unfolding filter_dirs
  filter_dirs-In [] d i = elim i [ ]
  filter_dirs-In (o ∷ os) d i =
      let shown : DirResp = record { name = o.name; modified = o.mod_time } in
      elim (kept-In false o.is_dir d shown (filter_dirs e os) i) [
        | inl (_, folder, same) ↦ (
          o,
          inl refl,
          folder,
          ap (λ (y : DirResp). y.name) same,
          ap (λ (y : DirResp). y.modified) same,
        )
        | inr j ↦
            let (x, k, folder, name, modified) = filter_dirs-In os d j in
            (x, inr k, folder, name, modified)
      ]

  dirs_objs-Folders :
      (path : Bytes) (meta : Option Meta) (ds : List DirResp) (found : Option (List Obj))
      → e.list meta path false ≡ found
      → dirs_objs e found ≡ shows ds
      → Folders e path meta ds
  unfolding dirs_objs Folders
  dirs_objs-Folders path meta ds none l h = absurd (cc)
  dirs_objs-Folders path meta ds (some objs) l h =
      let same : filter_dirs e objs ≡ ds = cc in
      (objs, l, (λ d i. filter_dirs-In objs d (subst (In d) (sym same) i)))

  pub dirs_at-Folders :
      (path : Bytes) (meta : Option Meta) (ds : List DirResp)
      → dirs_at e path meta ≡ shows ds
      → Folders e path meta ds
  unfolding dirs_at
  dirs_at-Folders path meta ds h = dirs_objs-Folders path meta ds (e.list meta path false) refl h
