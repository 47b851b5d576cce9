-- ===== src/Server/Down/Laws.antt =====
-- Which requests for a file are served, and how.
use xiaoya_qwen.Prelude.{
  [], Bytes, Bool, true, false, Option, none, some, beq, beq_iff, codes, ◌≡◌, sym, ◌∙◌, ◌≢◌, ◌↔◌,
  ◌⊎◌, refl, ap, arith, Bool-cases, inl, inr, subst,
}
use xiaoya_qwen.Go.Strings.{trim_suffix}
use xiaoya_qwen.Go.Path.{base}
use xiaoya_qwen.Utils.Path.{fix_and_clean_path, ext}
use xiaoya_qwen.Utils.Slice.{slice_contains}
use xiaoya_qwen.Model.Meta.{Meta}
use xiaoya_qwen.Model.Storage.{Driver, must_proxy}
use xiaoya_qwen.Server.Check.{need_sign}
use xiaoya_qwen.Server.Manage.{NearestMeta, nearest, meta_error}
use xiaoya_qwen.Server.Down.Needs.{NeedsSign, need_sign-NeedsSign, NeedsSign-need_sign}
use xiaoya_qwen.Server.Down.{
  Query, Served, redirect, refused, Downloads, check_sign, down_signed, behind, FileTypes,
  should_proxy, proxy, proxy_found, can_proxy, send, proxy_link, proxy_from, down_proxy, down_found,
  down,
}

-- The signature that a request lacks: its path needs one, and what it has is not right for the path.
abbrev pub Unsigned : Bool → (Bytes → Bytes → Bool) → NearestMeta → Bytes → Bytes → Type 0
Unsigned sign_all verify found path s =
    (meta : Option Meta) × (found ≡ nearest meta)
    × NeedsSign sign_all meta path
    × (verify path (trim_suffix s (codes "/")) ≡ false)

module _ {A : Type 0} (handler : Query → Bytes → A) (q : Query) where
  ran : (x : A) → some x ≢ none
  ran x h = cc

  unverified :
      (sign_all : Bool) (verify : Bytes → Bytes → Bool) (meta : Option Meta) (path s : Bytes)
      → Unsigned sign_all verify (nearest meta) path s
      → (need_sign sign_all meta path ≡ true) × (verify path (trim_suffix s (codes "/")) ≡ false)
  unverified sign_all verify meta path s (m, e, needs, v) =
      let same : m ≡ meta = cc in
      (
        NeedsSign-need_sign sign_all meta path (subst (λ o. NeedsSign sign_all o path) same needs),
        v,
      )

  lets_through :
      (sign_all : Bool) (verify : Bytes → Bytes → Bool) (meta : Option Meta) (path s : Bytes)
      → (need_sign sign_all meta path ≡ false) ⊎ (verify path (trim_suffix s (codes "/")) ≡ true)
      → behind handler q (check_sign sign_all verify (nearest meta) path s) ≡ some (handler q path)
  unfolding check_sign behind
  lets_through sign_all verify meta path s (inl n) = rw n refl
  lets_through sign_all verify meta path s (inr v) =
      elim (Bool-cases (need_sign sign_all meta path)) [
        | inl n ↦ rw (n, v) refl
        | inr n ↦ rw n refl
      ]

  stops :
      (sign_all : Bool) (verify : Bytes → Bytes → Bool) (meta : Option Meta) (path s : Bytes)
      → need_sign sign_all meta path ≡ true
      → verify path (trim_suffix s (codes "/")) ≡ false
      → behind handler q (check_sign sign_all verify (nearest meta) path s) ≡ none
  unfolding check_sign behind
  stops sign_all verify meta path s n v = rw (n, v) refl

  signed_iff :
      (sign_all : Bool) (verify : Bytes → Bytes → Bool) (meta : Option Meta) (path s : Bytes)
      → (need_sign sign_all meta path ≡ false) ⊎ (verify path (trim_suffix s (codes "/")) ≡ true)
      → (behind handler q (check_sign sign_all verify (nearest meta) path s) ≡ none)
        ↔ (nearest meta ≡ meta_error) ⊎ Unsigned sign_all verify (nearest meta) path s
  signed_iff sign_all verify meta path s free = (
    (λ h. absurd (ran _ (sym (lets_through sign_all verify meta path s free) ∙ h))),
    (λ u. elim u [
      | inl e ↦ absurd (cc)
      | inr w ↦
          let (n, v) = unverified sign_all verify meta path s w in
          elim free [ inl m ↦ absurd (cc) | inr x ↦ absurd (cc) ]
    ]),
  )

  check_sign_iff :
      (sign_all : Bool) (verify : Bytes → Bytes → Bool) (found : NearestMeta) (path s : Bytes)
      → (behind handler q (check_sign sign_all verify found path s) ≡ none)
        ↔ (found ≡ meta_error) ⊎ Unsigned sign_all verify found path s
  check_sign_iff sign_all verify meta_error path s =
      ((λ h. inl refl), (λ u. unfold check_sign behind in refl))
  check_sign_iff sign_all verify (nearest meta) path s =
      elim (Bool-cases (need_sign sign_all meta path)) [
        | inr n ↦ signed_iff sign_all verify meta path s (inl n)
        | inl n ↦ elim (Bool-cases (verify path (trim_suffix s (codes "/")))) [
          | inl v ↦ signed_iff sign_all verify meta path s (inr v)
          | inr v ↦ (
            (λ h. inr (meta, refl, need_sign-NeedsSign sign_all meta path n, v)),
            (λ u. stops sign_all verify meta path s n v),
          )
        ]
      ]

  -- The handler behind the middleware Down does not run exactly when the lookup of the nearest
  -- meta of the cleaned path fails, or the request has no signature that is right for the cleaned
  -- path and needs one: everything is to be signed, or the meta has a password and either stands
  -- at the path itself or sets its password for what is below it as well.
  pub down_signed_iff :
      (sign_all : Bool) (verify : Bytes → Bytes → Bool) (metas : Bytes → NearestMeta)
      (raw s : Bytes)
      → (behind handler q (down_signed sign_all verify metas raw s) ≡ none)
        ↔ (metas (fix_and_clean_path raw) ≡ meta_error)
          ⊎ Unsigned sign_all verify (metas (fix_and_clean_path raw)) (fix_and_clean_path raw) s
  unfolding down_signed
  down_signed_iff sign_all verify metas raw s =
      check_sign_iff sign_all verify (metas (fix_and_clean_path raw)) (fix_and_clean_path raw) s

module _ (e : Downloads) where
  -- A text that is in one list of types or the other, and what follows from it.
  should-can :
      (types : FileTypes) (storage : Driver) (filename : Bytes)
      → should_proxy types storage filename ≡ true
      → can_proxy types storage filename ≡ true
  unfolding should_proxy can_proxy
  should-can types storage filename h =
      let m = must_proxy storage.config in
      let w = storage.storage.proxy.web_proxy in
      let x = slice_contains beq types.proxy_types (ext filename) in ground arith

  unneeded :
      (types : FileTypes) (storage : Driver) (filename : Bytes)
      → can_proxy types storage filename ≡ false
      → should_proxy types storage filename ≡ false
  unneeded types storage filename h = elim (Bool-cases (should_proxy types storage filename)) [
    | inl needed ↦ absurd (cc (h, should-can types storage filename needed))
    | inr free ↦ free
  ]

  -- What a storage that a proxy has to serve comes to, for the storage that Proxy finds: a
  -- redirect goes to the proxy that this one names, and if the answer is 403, this one is another
  -- storage, one that need not be proxied.
  abbrev pub Stays : Driver → Option Driver → Bytes → Served → Type 0
  Stays storage second raw_path out =
      (out ≡ refused 403
        → (again : Driver) × (second ≡ some again)
          × (again ≢ storage)
          × (should_proxy e.types again (base raw_path) ≡ false))
      × ((u : Bytes)
          → out ≡ redirect u
          → (again : Driver) × (second ≡ some again)
            × (again.storage.proxy.down_proxy_url ≢ [])
            × (u ≡ down_proxy e again.storage.proxy.down_proxy_url raw_path))

  send-Stays :
      (storage : Driver) (second : Option Driver) (raw_path : Bytes) (l : Option e.Link)
      → Stays storage second raw_path (send e l)
  unfolding send
  send-Stays storage second raw_path none = ((λ h. absurd (ground arith)), (λ u h. absurd (cc)))
  send-Stays storage second raw_path (some l) = ((λ h. absurd (cc)), (λ u h. absurd (cc)))

  proxy_link-Stays :
      (storage : Driver) (second : Option Driver) (raw_path : Bytes) (q : Query) (l : Option e.Link)
      → Stays storage second raw_path (proxy_link e q l)
  unfolding proxy_link
  proxy_link-Stays storage second raw_path q none =
      ((λ h. absurd (ground arith)), (λ u h. absurd (cc)))
  proxy_link-Stays storage second raw_path q (some l) = send-Stays storage second raw_path _

  proxy_from-Stays :
      (storage again : Driver) (raw_path : Bytes) (q : Query) (s : e.State)
      → should_proxy e.types storage (base raw_path) ≡ true
      → Stays storage (some again) raw_path (proxy_from e q raw_path again s).0
  unfolding proxy_from
  proxy_from-Stays storage again raw_path q s h =
      let url = again.storage.proxy.down_proxy_url in
      elim (Bool-cases (can_proxy e.types again (base raw_path))) [
        | inr barred ↦ rw barred (
          (λ z. (
            again,
            refl,
            (λ same. cc (
              barred,
              should-can e.types storage (base raw_path) h,
              ap (λ o. can_proxy e.types o (base raw_path)) same,
            )),
            unneeded e.types again (base raw_path) barred,
          )),
          (λ u z. absurd (cc)),
        )
        | inl can ↦ elim (Bool-cases (beq url [])) [
          | inl b ↦ rw (can, b) (proxy_link-Stays storage (some again) raw_path q _)
          | inr b ↦ elim (Bool-cases q.has_d) [
            | inl d ↦ rw (can, b, d) (proxy_link-Stays storage (some again) raw_path q _)
            | inr d ↦
                rw (can, b, d)
                  (
                    (λ z. absurd (cc)),
                    (λ u z. (again, refl, (λ n. cc (b, (beq_iff url []).1 n)), cc)),
                  )
          ]
        ]
      ]

  proxy_found-Stays :
      (storage : Driver) (raw_path : Bytes) (q : Query) (second : Option Driver × e.State)
      → should_proxy e.types storage (base raw_path) ≡ true
      → Stays storage second.0 raw_path (proxy_found e q raw_path second).0
  unfolding proxy_found
  proxy_found-Stays storage raw_path q (none, s) h =
      ((λ z. absurd (ground arith)), (λ u z. absurd (cc)))
  proxy_found-Stays storage raw_path q (some again, s) h =
      proxy_from-Stays storage again raw_path q s h

  -- If Down finds a storage for a file that has to be proxied, by its driver, by its settings or
  -- by the type of the file, the client is never redirected to the URL of the file: a redirect
  -- goes to the proxy that the storage of the second lookup, that of Proxy, names. And if the
  -- answer is 403, the second lookup has found another storage, one that need not be proxied.
  pub down-Stays :
      (storage : Driver) (raw_path : Bytes) (q : Query) (s t : e.State)
      → e.get_storage raw_path s ≡ (some storage, t)
      → should_proxy e.types storage (base raw_path) ≡ true
      → Stays storage (e.get_storage raw_path t).0 raw_path (down e q raw_path s).0
  unfolding down down_found proxy
  down-Stays storage raw_path q s t found h =
      rw (found, h) (proxy_found-Stays storage raw_path q (e.get_storage raw_path t) h)
