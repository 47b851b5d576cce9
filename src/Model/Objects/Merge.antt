-- ===== src/Model/Objects/Merge.antt =====
-- What ObjMerge keeps of two lists of objects.
use xiaoya_qwen.Prelude.{
  Option, none, some, List, [], ◌∷◌, ◌++◌, append_assoc, append-nil, Bytes, Bool, true, false, beq,
  beq_iff, if◌then◌else◌, ◌≡◌, refl, sym, ap, ◌∙◌, subst, arith, In, In-append, In-append_left,
  In-append_right, ◌⊎◌, inl, inr, Bool-cases,
}
use xiaoya_qwen.Go.Strings.{split}
use xiaoya_qwen.Model.Objects.{
  init_hide_reg, compile_all, Obj, ObjMerge, has, add, hidden, click_obj, insert_objs, merge,
}

abbrev pub names_of : List Obj → List Bytes
names_of [] = []
names_of (o ∷ os) = o.name ∷ names_of os

-- No name twice.
abbrev pub Distinct : List Bytes → Type 0
Distinct [] = Unit
Distinct (n ∷ ns) = (has ns n ≡ false) × Distinct ns

names_of-append : (xs ys : List Obj) → names_of (xs ++ ys) ≡ names_of xs ++ names_of ys
names_of-append [] ys = refl
names_of-append (x ∷ xs) ys = ap (λ r. x.name ∷ r) (names_of-append xs ys)

has-append :
    (xs ys : List Bytes) (n : Bytes)
    → has xs n ≡ false
    → has ys n ≡ false
    → has (xs ++ ys) n ≡ false
unfolding has
has-append [] ys n h k = k
has-append (x ∷ xs) ys n h k = ground (arith, has-append xs ys n)

has-In : (xs : List Bytes) (n : Bytes) → has xs n ≡ true → In n xs
unfolding has
has-In [] n h = cc
has-In (x ∷ xs) n h = elim (Bool-cases (beq x n)) [
  | inl e ↦ inl (sym ((beq_iff x n).0 e))
  | inr e ↦ inr (has-In xs n (rw e at h))
]

In-has : (xs : List Bytes) (n : Bytes) → In n xs → has xs n ≡ true
unfolding has
In-has [] n h = elim h [ ]
In-has (x ∷ xs) n (inl e) = ground (arith, beq_iff x n)
In-has (x ∷ xs) n (inr i) = ground (arith, In-has xs n i)

Distinct-add :
    (xs : List Bytes) (n : Bytes) → Distinct xs → has xs n ≡ false → Distinct (xs ++ n ∷ [])
unfolding has
Distinct-add [] n d h = (refl, tt)
Distinct-add (x ∷ xs) n d h =
    let ne : beq x n ≡ false = ground arith in
    let rest : has xs n ≡ false = ground arith in
    (
      has-append xs (n ∷ []) x d.0 (ground (arith, beq_iff n x, beq_iff x n)),
      Distinct-add xs n d.1 rest,
    )

-- What holds of the objects that were kept so far, out of those that were looked at.
pub record IsKept (regs : List (Bytes → Bool)) (seen out : List Obj) : Type 0 where
  pub distinct : Distinct (names_of out)
  pub shown : (o : Obj) → In o out → hidden regs o.name ≡ false
  pub seen_before : (o : Obj) → In o out → In o seen
  pub complete : (o : Obj) → In o seen → hidden regs o.name ≡ false → In o.name (names_of out)

-- An object that is dropped: it is hidden, or its name is there.
IsKept-dropped :
    (regs : List (Bytes → Bool)) (seen out : List Obj) (obj : Obj)
    → IsKept regs seen out
    → (hidden regs obj.name ≡ true) ⊎ In obj.name (names_of out)
    → IsKept regs (seen ++ obj ∷ []) out
IsKept-dropped regs seen out obj h why = record {
  distinct = h.distinct;
  shown = h.shown;
  seen_before = λ o i. In-append_left o seen (obj ∷ []) (h.seen_before o i);
  complete = λ o i s. elim (In-append o seen (obj ∷ []) i) [
    | inl j ↦ h.complete o j s
    | inr (inl e) ↦ elim why [
      | inl hid ↦
          (let f : true ≡ false = sym hid ∙ ap (λ x. hidden regs x.name) (sym e) ∙ s in absurd (cc))
      | inr j ↦ subst (λ x. In x.name (names_of out)) (sym e) j
    ]
    | inr (inr j) ↦ elim j [ ]
  ];
}

-- An object that is kept.
IsKept-added :
    (regs : List (Bytes → Bool)) (seen out : List Obj) (obj : Obj)
    → IsKept regs seen out
    → hidden regs obj.name ≡ false
    → has (names_of out) obj.name ≡ false
    → IsKept regs (seen ++ obj ∷ []) (out ++ obj ∷ [])
IsKept-added regs seen out obj h s new = record {
  distinct =
      subst Distinct (sym (names_of-append out (obj ∷ [])))
        (Distinct-add (names_of out) obj.name h.distinct new);
  shown = λ o i. elim (In-append o out (obj ∷ []) i) [
    | inl j ↦ h.shown o j
    | inr (inl e) ↦ ap (λ x. hidden regs x.name) e ∙ s
    | inr (inr j) ↦ elim j [ ]
  ];
  seen_before = λ o i. elim (In-append o out (obj ∷ []) i) [
    | inl j ↦ In-append_left o seen (obj ∷ []) (h.seen_before o j)
    | inr j ↦ In-append_right o seen (obj ∷ []) j
  ];
  complete = λ o i t.
      subst (In o.name) (sym (names_of-append out (obj ∷ [])))
        (elim (In-append o seen (obj ∷ []) i) [
          | inl j ↦ In-append_left o.name (names_of out) (obj.name ∷ []) (h.complete o j t)
          | inr (inl e) ↦
              In-append_right o.name (names_of out) (obj.name ∷ []) (inl (ap (λ x. x.name) e))
          | inr (inr j) ↦ elim j [ ]
        ]);
}

-- The set holds the names that were kept, and the expressions stay.
pub record IsMerging (regs : List (Bytes → Bool)) (seen : List Obj) (r : List Obj × ObjMerge)
    : Type 0 where
  pub kept : IsKept regs seen r.0
  pub same_regs : r.1.regs ≡ regs
  pub names : r.1.set ≡ names_of r.0

clicked :
    (regs : List (Bytes → Bool)) (seen out : List Obj) (om : ObjMerge) (obj : Obj)
    → IsMerging regs seen (out, om)
    → IsMerging regs
        (seen ++ obj ∷ [])
        ((if (click_obj om obj).0 then out ++ obj ∷ [] else out), (click_obj om obj).1)
unfolding click_obj add
clicked regs seen out om obj h = elim (Bool-cases (hidden om.regs obj.name)) [
  | inl hid ↦ rw hid (record {
    kept =
        IsKept-dropped regs seen out obj h.kept
          (inl (subst (λ r. hidden r obj.name ≡ true) h.same_regs hid));
    same_regs = h.same_regs;
    names = h.names;
  })
  | inr s ↦ elim (Bool-cases (has om.set obj.name)) [
    | inl old ↦
        rw (s, old)
          (record {
            kept =
                IsKept-dropped regs seen out obj h.kept
                  (inr (subst (In obj.name) h.names (has-In om.set obj.name old)));
            same_regs = h.same_regs;
            names = h.names;
          })
    | inr new ↦
        rw (s, new)
          (record {
            kept =
                IsKept-added regs seen out obj h.kept
                  (subst (λ r. hidden r obj.name ≡ false) h.same_regs s)
                  (subst (λ r. has r obj.name ≡ false) h.names new);
            same_regs = h.same_regs;
            names = ap (λ r. r ++ obj.name ∷ []) h.names ∙ sym (names_of-append out (obj ∷ []));
          })
  ]
]

insert_objs-IsMerging :
    (regs : List (Bytes → Bool)) (seen out objs_ : List Obj) (om : ObjMerge)
    → IsMerging regs seen (out, om)
    → IsMerging regs (seen ++ objs_) (insert_objs om out objs_)
unfolding insert_objs
insert_objs-IsMerging regs seen out [] om h =
    subst (λ s. IsMerging regs s (out, om)) (sym (append-nil seen)) h
insert_objs-IsMerging regs seen out (obj ∷ objs_) om h =
    subst (λ s. IsMerging regs s (insert_objs om out (obj ∷ objs_)))
      (append_assoc seen (obj ∷ []) objs_)
      (insert_objs-IsMerging regs (seen ++ obj ∷ []) _ objs_ (click_obj om obj).1
        (clicked regs seen out om obj h))

nothing-IsKept : (regs : List (Bytes → Bool)) → IsKept regs [] []
nothing-IsKept regs = record {
  distinct = tt;
  shown = λ o i. elim i [ ];
  seen_before = λ o i. elim i [ ];
  complete = λ o i s. elim i [ ];
}

-- Merging two lists with expressions that hide names, from an empty set: no name stands twice in the
-- result, its objects are objects of the two lists and not hidden, and every name of the two lists that
-- is not hidden stands in it.
pub merge-IsKept :
    (regs : List (Bytes → Bool)) (objs objs_ : List Obj)
    → IsKept regs (objs ++ objs_) (merge (record { regs = regs; set = [] }) objs objs_).0
unfolding merge
merge-IsKept regs objs objs_ =
    let om : ObjMerge = record { regs = regs; set = [] } in
    let first =
      insert_objs-IsMerging regs [] [] objs om
        (record { kept = nothing-IsKept regs; same_regs = refl; names = refl }) in
    (insert_objs-IsMerging regs objs _ objs_ (insert_objs om [] objs).1 first).kept

-- InitHideReg leaves the set of names as it is.
pub init_hide_reg-set :
    (compile : Bytes → Option (Bytes → Bool)) (om x : ObjMerge) (hides : Bytes)
    → init_hide_reg compile om hides ≡ some x
    → x.set ≡ om.set
unfolding init_hide_reg
init_hide_reg-set compile om x hides h = by_cases (compile_all compile (split b'\n' hides)) h
  where
    by_cases :
        (c : Option (List (Bytes → Bool)))
        → ◌≡◌ {A = Option ObjMerge}
            (elim c [ none ↦ none | some regs ↦ some (record om { regs = regs }) ])
            (some x)
        → x.set ≡ om.set
    by_cases none e = cc
    by_cases (some regs) e = cc
