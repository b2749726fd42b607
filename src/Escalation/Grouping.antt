-- ===== src/Escalation/Grouping.antt =====
-- packages/domain/escalation.py, `group_alerts`: buckets by entity and rule, split where the gap
-- between two alerts exceeds the window. A missing creation time is `datetime.min`, from which the
-- times count here. A group's name is given by its entity, its rule and its number of alerts.
use operational_intelligence.Prelude.{
  ℕ, ◌+◌, ◌*◌, ◌≡◌, refl, String, Bool, ◌&&◌, some, none, List, [], ◌∷◌, ◌++◌, map, if◌then◌else◌,
  str_eq, leb, ◌==◌, arith, Bool-cases, inl, inr,
}
use operational_intelligence.Escalation.{AlertData}

pub record AlertGroup : Type 0 where
  pub entity_id : String
  pub rule_id : String
  pub alert_ids : List ℕ
  pub root_alert_id : ℕ

pub record Bucket : Type 0 where
  pub entity_id : String
  pub rule_id : String
  pub first : AlertData
  pub others : List AlertData

abbrev pub parse_dt : AlertData → ℕ
parse_dt a = elim a.created_at [ none ↦ 0 | some t ↦ t ]

-- `sorted(alerts, key=_parse_dt)`, which keeps the order of equal times
unfoldable pub place_alert : AlertData → List AlertData → List AlertData
place_alert a [] = a ∷ []
place_alert a (b ∷ bs) =
    let rest = place_alert a bs in if leb (parse_dt a) (parse_dt b) then a ∷ b ∷ bs else b ∷ rest

unfoldable pub sort_alerts : List AlertData → List AlertData
unfolding place_alert
sort_alerts [] = []
sort_alerts (a ∷ alerts) = place_alert a (sort_alerts alerts)

abbrev pub in_bucket : AlertData → Bucket → Bool
in_bucket a b = str_eq b.entity_id a.entity_id && str_eq b.rule_id a.rule_id

-- buckets.setdefault(key, []).append(alert)
unfoldable pub add_to_bucket : List Bucket → AlertData → List Bucket
add_to_bucket [] a =
    record { entity_id = a.entity_id; rule_id = a.rule_id; first = a; others = [] } ∷ []
add_to_bucket (b ∷ buckets) a =
    let rest = add_to_bucket buckets a in
    if in_bucket a b then record b { others = b.others ++ (a ∷ []) } ∷ buckets else b ∷ rest

unfoldable pub bucket_all : List Bucket → List AlertData → List Bucket
unfolding add_to_bucket
bucket_all buckets [] = buckets
bucket_all buckets (a ∷ alerts) = bucket_all (add_to_bucket buckets a) alerts

-- `_make_group` of a group's first alert and the others
unfoldable pub make_group : Bucket → AlertData → List AlertData → AlertGroup
make_group b first others = record {
  entity_id = b.entity_id;
  rule_id = b.rule_id;
  alert_ids = first.id ∷ map (λ (a : AlertData). a.id) others;
  root_alert_id = first.id;
}

-- The loop over a bucket: the group so far (`first`, `others`), the alert before, and the rest.
unfoldable pub split_bucket :
    (window : ℕ)
    → Bucket
    → AlertData
    → List AlertData
    → (prev : AlertData) → List AlertData
    → List AlertGroup
unfolding make_group
split_bucket window b first others prev [] = make_group b first others ∷ []
split_bucket window b first others prev (a ∷ rest) =
    let joined = split_bucket window b first (others ++ (a ∷ [])) a rest in
    let apart = split_bucket window b a [] a rest in
    if leb (parse_dt a) (parse_dt prev + window) then joined else make_group b first others ∷ apart

unfoldable pub split_all : (window : ℕ) → List Bucket → List AlertGroup
unfolding split_bucket
split_all window [] = []
split_all window (b ∷ buckets) =
    split_bucket window b b.first [] b.first b.others ++ split_all window buckets

unfoldable pub group_alerts : List AlertData → (time_window_minutes : ℕ) → List AlertGroup
unfolding split_all bucket_all sort_alerts
group_alerts alerts time_window_minutes =
    split_all (time_window_minutes * 60) (bucket_all [] (sort_alerts alerts))

module _ (id : ℕ) where
  -- how often the id occurs
  abbrev pub occurs : List ℕ → ℕ
  occurs [] = 0
  occurs (i ∷ is) = (if i == id then 1 else 0) + occurs is

  abbrev pub occurs_in_alerts : List AlertData → ℕ
  occurs_in_alerts [] = 0
  occurs_in_alerts (a ∷ alerts) = (if a.id == id then 1 else 0) + occurs_in_alerts alerts

  abbrev pub occurs_in_groups : List AlertGroup → ℕ
  occurs_in_groups [] = 0
  occurs_in_groups (g ∷ groups) = occurs g.alert_ids + occurs_in_groups groups

  abbrev occurs_in_buckets : List Bucket → ℕ
  occurs_in_buckets [] = 0
  occurs_in_buckets (b ∷ buckets) =
      occurs_in_alerts (b.first ∷ b.others) + occurs_in_buckets buckets

  occurs-map :
      (alerts : List AlertData)
      → occurs (map (λ (a : AlertData). a.id) alerts) ≡ occurs_in_alerts alerts
  occurs-map [] = refl
  occurs-map (a ∷ alerts) = omega (arith, occurs-map alerts)

  occurs_in_alerts-append :
      (xs ys : List AlertData)
      → occurs_in_alerts (xs ++ ys) ≡ occurs_in_alerts xs + occurs_in_alerts ys
  occurs_in_alerts-append [] ys = omega arith
  occurs_in_alerts-append (x ∷ xs) ys = omega (arith, occurs_in_alerts-append xs ys)

  occurs_in_groups-append :
      (xs ys : List AlertGroup)
      → occurs_in_groups (xs ++ ys) ≡ occurs_in_groups xs + occurs_in_groups ys
  occurs_in_groups-append [] ys = omega arith
  occurs_in_groups-append (x ∷ xs) ys = omega (arith, occurs_in_groups-append xs ys)

  occurs-place_alert :
      (a : AlertData) (alerts : List AlertData)
      → occurs_in_alerts (place_alert a alerts) ≡ occurs_in_alerts (a ∷ alerts)
  unfolding place_alert
  occurs-place_alert a [] = refl
  occurs-place_alert a (b ∷ alerts) = elim (Bool-cases (leb (parse_dt a) (parse_dt b))) [
    | inl e ↦ rw e refl
    | inr e ↦ rw e (omega (arith, occurs-place_alert a alerts))
  ]

  occurs-sort_alerts :
      (alerts : List AlertData) → occurs_in_alerts (sort_alerts alerts) ≡ occurs_in_alerts alerts
  unfolding sort_alerts
  occurs-sort_alerts [] = refl
  occurs-sort_alerts (a ∷ alerts) =
      omega (arith, occurs-place_alert a (sort_alerts alerts), occurs-sort_alerts alerts)

  occurs-add_to_bucket :
      (buckets : List Bucket) (a : AlertData)
      → occurs_in_buckets (add_to_bucket buckets a)
        ≡ occurs_in_buckets buckets + occurs_in_alerts (a ∷ [])
  unfolding add_to_bucket
  occurs-add_to_bucket [] a = omega arith
  occurs-add_to_bucket (b ∷ buckets) a = elim (Bool-cases (in_bucket a b)) [
    | inl e ↦ rw e (omega (arith, occurs_in_alerts-append b.others (a ∷ [])))
    | inr e ↦ rw e (omega (arith, occurs-add_to_bucket buckets a))
  ]

  occurs-bucket_all :
      (buckets : List Bucket) (alerts : List AlertData)
      → occurs_in_buckets (bucket_all buckets alerts)
        ≡ occurs_in_buckets buckets + occurs_in_alerts alerts
  unfolding bucket_all
  occurs-bucket_all buckets [] = omega arith
  occurs-bucket_all buckets (a ∷ alerts) =
      omega
        (arith, occurs-bucket_all (add_to_bucket buckets a) alerts, occurs-add_to_bucket buckets a)

  occurs-split_bucket :
      (window : ℕ) (b : Bucket) (first : AlertData) (others : List AlertData) (prev : AlertData)
      (rest : List AlertData)
      → occurs_in_groups (split_bucket window b first others prev rest)
        ≡ occurs_in_alerts (first ∷ others) + occurs_in_alerts rest
  unfolding split_bucket make_group
  occurs-split_bucket window b first others prev [] = omega (arith, occurs-map others)
  occurs-split_bucket window b first others prev (a ∷ rest) =
      elim (Bool-cases (leb (parse_dt a) (parse_dt prev + window))) [
        | inl e ↦ rw e (
            omega (
              arith,
              occurs-split_bucket window b first (others ++ (a ∷ [])) a rest,
              occurs_in_alerts-append others (a ∷ []),
            ))
        | inr e ↦ rw e (omega (arith, occurs-split_bucket window b a [] a rest, occurs-map others))
      ]

  occurs-split_all :
      (window : ℕ) (buckets : List Bucket)
      → occurs_in_groups (split_all window buckets) ≡ occurs_in_buckets buckets
  unfolding split_all
  occurs-split_all window [] = refl
  occurs-split_all window (b ∷ buckets) = omega (
    arith,
    occurs_in_groups-append (split_bucket window b b.first [] b.first b.others)
        (split_all window buckets),
    occurs-split_bucket window b b.first [] b.first b.others,
    occurs-split_all window buckets,
  )

  -- Grouping neither loses an alert nor puts one into two groups: every id occurs in the groups as
  -- often as in the alerts.
  pub group_alerts-occurs :
      (alerts : List AlertData) (time_window_minutes : ℕ)
      → occurs_in_groups (group_alerts alerts time_window_minutes) ≡ occurs_in_alerts alerts
  unfolding group_alerts
  group_alerts-occurs alerts time_window_minutes = omega (
    arith,
    occurs-split_all (time_window_minutes * 60) (bucket_all [] (sort_alerts alerts)),
    occurs-bucket_all [] (sort_alerts alerts),
    occurs-sort_alerts alerts,
  )
