-- ===== src/Audit/Logged.antt =====
-- What has been logged is found in the memory.
use mathlib.Core.List.{Memᴰ}
use arona_os.Prelude.{
  ◌≡◌, refl, sym, ap, subst, map, ◌∙◌, Text, codes, List, [], ◌∷◌, ◌++◌, ok, Occurs,
}
use arona_os.Guardian.{Uuid, DateTime}
use arona_os.Guardian.Engine.{Intervention}
use arona_os.Permissions.Grant.{PurposeGrant}
use arona_os.Adaptive.{TrustScore, ApprovalManner}
use arona_os.Memory.{system, arona, MemoryRecord, apply_importance}
use arona_os.Memory.Store.{Sled, Serde, IsLawful, get}
use arona_os.Memory.RoundTrip.{get-put}
use arona_os.Audit.{
  Formats, GrantEvent, debug_category, debug_status, event_label, reason_of, intervention_text,
  grant_text, approval_text, put_new, join, dormancy_line, build_dormancy_notification,
  log_intervention, log_grant_event, log_approval, log_explicit_declaration,
}

append_assoc : (xs ys zs : Text) → (xs ++ ys) ++ zs ≡ xs ++ (ys ++ zs)
append_assoc [] ys zs = refl
append_assoc (x ∷ xs) ys zs = ap (λ s. x ∷ s) (append_assoc xs ys zs)

Occurs-here : (needle after : Text) → Occurs needle (needle ++ after)
Occurs-here needle after = ([], after, refl)

Occurs-later : (needle before s : Text) → Occurs needle s → Occurs needle (before ++ s)
Occurs-later needle before s (b, a, e) =
    (before ++ b, a, ap (λ t. before ++ t) e ∙ sym (append_assoc before b (needle ++ a)))

module _ (formats : Formats) {D V E F : Type 0} (sled : Sled D V E) (serde : Serde V F)
    (lawful : IsLawful sled serde) where
  -- Over a lawful database and serialiser, a log that `log_intervention` has written is found by
  -- its id among Arona's memories: a record of the category Arona that tells the reason of the
  -- intervention, with the importance 0.8 (0x3F4CCCCD as an `f32`), and never recalled.
  pub log_intervention-get :
      (id : Uuid) (now : DateTime) (i : Intervention) (d d' : D)
      → log_intervention formats sled serde id now i d ≡ (d', ok tt)
      → (r : MemoryRecord) × (get sled serde arona id d' ≡ (d', ok r))
        × Occurs (reason_of i.action) r.content
        × (r.recall.importance ≡ 0x3f4c_cccd)
        × (r.recall.recall_count ≡ 0)
  unfolding log_intervention put_new apply_importance intervention_text
  log_intervention-get id now i d d' h = (
    _,
    get-put sled serde lawful _ d d' refl h,
    Occurs-later (reason_of i.action) (codes "[Guardian介入] カテゴリ=") _ (
        Occurs-later (reason_of i.action) (debug_category i.category) _ (
          Occurs-later (reason_of i.action) (codes " ルールID=") _ (
            Occurs-later (reason_of i.action) (formats.show_uuid i.rule_id) _ (
              Occurs-later (reason_of i.action) (codes " 理由=") _ (
                Occurs-here (reason_of i.action)
                  (codes " 発生日時=" ++ formats.to_rfc3339 i.timestamp)))))),
    refl,
    refl,
  )

  -- A log that `log_grant_event` has written is found by its id among the system's memories: a record
  -- that tells the purpose of the grant and the event, and has the purpose among its tags.
  pub log_grant_event-get :
      (id : Uuid) (now : DateTime) (grant : PurposeGrant) (event : GrantEvent) (d d' : D)
      → log_grant_event formats sled serde id now grant event d ≡ (d', ok tt)
      → (r : MemoryRecord) × (get sled serde system id d' ≡ (d', ok r))
        × Occurs grant.purpose r.content
        × Occurs (event_label formats event) r.content
        × (r.tags ≡ codes "権限付与" ∷ grant.purpose ∷ [])
  unfolding log_grant_event put_new grant_text
  log_grant_event-get id now grant event d d' h = (
    _,
    get-put sled serde lawful _ d d' refl h,
    Occurs-later grant.purpose (codes "[権限付与] 目的=") _ (Occurs-here grant.purpose _),
    Occurs-later _ (codes "[権限付与] 目的=") _ (
        Occurs-later _ grant.purpose _ (
          Occurs-later _ (codes " 状態=") _ (
            Occurs-later _ (debug_status grant.status) _
              (Occurs-later _ (codes " イベント=") _ (Occurs-here (event_label formats event) _))))),
    refl,
  )

  -- The logs of the trust model are found by their ids among Arona's memories, and tell the category;
  -- that of a declaration has the importance 0.6 (0x3F19999A), that of an approval none.
  pub log_approval-get :
      (id : Uuid) (now : DateTime) (score : TrustScore) (manner : ApprovalManner) (d d₁ d' d₂ : D)
      → log_approval formats sled serde id now score manner d ≡ (d₁, ok tt)
      → log_explicit_declaration formats sled serde id now score d' ≡ (d₂, ok tt)
      → ((r : MemoryRecord) × (get sled serde arona id d₁ ≡ (d₁, ok r))
          × Occurs score.category r.content
          × (r.recall.importance ≡ 0))
        × ((r : MemoryRecord) × (get sled serde arona id d₂ ≡ (d₂, ok r))
            × Occurs score.category r.content
            × (r.recall.importance ≡ 0x3f19_999a))
  unfolding log_approval log_explicit_declaration put_new apply_importance approval_text
  log_approval-get id now score manner d d₁ d' d₂ h k = (
    (
      _,
      get-put sled serde lawful _ d d₁ refl h,
      Occurs-later score.category (codes "[信頼スコア] カテゴリ=") _ (Occurs-here score.category _),
      refl,
    ),
    (
      _,
      get-put sled serde lawful _ d' d₂ refl k,
      Occurs-later score.category (codes "[信頼スコア] カテゴリ=") _ (Occurs-here score.category _),
      refl,
    ),
  )

Occurs-before : (needle s after : Text) → Occurs needle s → Occurs needle (s ++ after)
Occurs-before needle s after (b, a, e) = (
  b,
  a ++ after,
  ap (λ t. t ++ after) e
      ∙ (append_assoc b (needle ++ a) after ∙ ap (λ t. b ++ t) (append_assoc needle a after)),
)

Occurs-join :
    (needle separator x : Text) (xs : List Text)
    → Memᴰ x xs
    → Occurs needle x
    → Occurs needle (join separator xs)
unfolding join
Occurs-join needle separator x [] m o = elim m [ ]
Occurs-join needle separator x (y ∷ []) (Memᴰ.head e) o = subst (Occurs needle) e o
Occurs-join needle separator x (y ∷ []) (Memᴰ.tail m) o = elim m [ ]
Occurs-join needle separator x (y ∷ z ∷ rest) (Memᴰ.head e) o =
    Occurs-before needle y (separator ++ join separator (z ∷ rest)) (subst (Occurs needle) e o)
Occurs-join needle separator x (y ∷ z ∷ rest) (Memᴰ.tail m) o =
    Occurs-later needle y _
      (Occurs-later needle separator _ (Occurs-join needle separator x (z ∷ rest) m o))

Memᴰ-map : {A B : Type 0} (f : A → B) (a : A) (xs : List A) → Memᴰ a xs → Memᴰ (f a) (map f xs)
Memᴰ-map f a [] m = elim m [ ]
Memᴰ-map f a (x ∷ xs) (Memᴰ.head e) = Memᴰ.head (ap f e)
Memᴰ-map f a (x ∷ xs) (Memᴰ.tail m) = Memᴰ.tail (Memᴰ-map f a xs m)

-- The notification names the purpose of each of the grants, and the day of its last use.
pub build_dormancy_notification-Occurs :
    (formats : Formats) (grants : List PurposeGrant) (grant : PurposeGrant)
    → Memᴰ grant grants
    → Occurs grant.purpose (build_dormancy_notification formats grants)
      × Occurs (formats.show_day grant.last_used_at) (build_dormancy_notification formats grants)
unfolding build_dormancy_notification
build_dormancy_notification-Occurs formats [] grant m = elim m [ ]
build_dormancy_notification-Occurs formats (g ∷ grants) grant m =
    let there = Memᴰ.tail (Memᴰ-map (dormancy_line formats) grant (g ∷ grants) m) in
    let day = formats.show_day grant.last_used_at in
    (
      Occurs-join grant.purpose _ (dormancy_line formats grant) _ there
          (Occurs-later grant.purpose (codes "- 「") _ (Occurs-here grant.purpose _)),
      Occurs-join day _ (dormancy_line formats grant) _ there (
          Occurs-later day (codes "- 「") _ (
            Occurs-later day grant.purpose _
              (Occurs-later day (codes "」(最終利用: ") _ (Occurs-here day _)))),
    )
