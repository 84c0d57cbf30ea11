-- ===== src/Unit/Alert/Laws.antt =====
-- What the alert store (pkg/unit/alert/store.go) gives back after it is changed.
use ai_inference_managed_by.Unit.Page.{page-All}
use ai_inference_managed_by.Unit.Alert.{
  page, rule_not_found, id_or, AlertRule, ℤ, delete_rule, update_rule, list_alerts, is_skipped,
  create_rule, AlertEntry, select_alerts, get_rule, AlertFilter, AlertStore,
}
use ai_inference_managed_by.Base.{
  Option-cases, eq_of_==, ◌&&◌, false, subst, ◌≤◌, inr, length, inl, ◌⊎◌, String, ℕ, ◌≡◌, refl,
  if◌then◌else◌, List, [], ◌∷◌, some, arith, eq_iff, ◌==◌, not, All, Bool-cases,
}
use ai_inference_managed_by.Base.Map.{values, lookup, is_some, lookup-insert, lookup-delete}
use ai_inference_managed_by.Base.Result.{err, ok}

-- What `get_rule` gives for every id after a rule is created, updated or deleted, whether the rule
-- was there or not. A refused call changes nothing.
pub get_rule-after :
    (fresh : String) (now : ℤ) (rule : AlertRule) (id k : String) (s : AlertStore)
    → (get_rule k (create_rule fresh now rule s).1 ≡ (
        if is_some (lookup (id_or fresh rule.id) s.rules)
        then get_rule k s
        else if id_or fresh rule.id == k
        then ok (record rule { id = id_or fresh rule.id; created_at = now; updated_at = now })
        else get_rule k s))
      × (get_rule k (update_rule now rule s).1 ≡ (
          if not (is_some (lookup rule.id s.rules))
          then get_rule k s
          else if rule.id == k
          then ok (record rule { updated_at = now })
          else get_rule k s))
      × (get_rule k (delete_rule id s).1 ≡ (if id == k then err rule_not_found else get_rule k s))
unfolding get_rule create_rule update_rule delete_rule
get_rule-after fresh now rule id k s = (
  ground (
    arith,
    lookup-insert (id_or fresh rule.id) k
        (record rule { id = id_or fresh rule.id; created_at = now; updated_at = now }) s.rules,
  ),
  ground (arith, lookup-insert rule.id k (record rule { updated_at = now }) s.rules),
  ground (arith, lookup-delete id k s.rules, eq_iff id k),
)

-- An alert matches a filter: each name that the filter gives is the alert's.
abbrev pub IsMatch : AlertFilter → AlertEntry → Type 0
IsMatch f a =
    ((f.rule_id ≡ "") ⊎ (a.rule_id ≡ f.rule_id))
    × ((f.status ≡ "") ⊎ (a.status ≡ f.status))
    × ((f.severity ≡ "") ⊎ (a.severity ≡ f.severity))

given-or : (g x : String) → (not (g == "") && not (x == g)) ≡ false → (g ≡ "") ⊎ (x ≡ g)
given-or g x h = elim (Bool-cases (g == "")) [
  | inl e ↦ inl (eq_of_== g "" e)
  | inr n ↦ inr (eq_of_== x g (ground (arith, n)))
]

is_skipped-IsMatch : (f : AlertFilter) (a : AlertEntry) → is_skipped f a ≡ false → IsMatch f a
is_skipped-IsMatch f a h = (
  given-or f.rule_id a.rule_id (ground arith),
  given-or f.status a.status (ground arith),
  given-or f.severity a.severity (ground arith),
)

select_alerts-IsMatch :
    (f : AlertFilter) (alerts : List AlertEntry) → All (IsMatch f) (select_alerts f alerts)
unfolding select_alerts
select_alerts-IsMatch f [] = tt
select_alerts-IsMatch f (a ∷ more) = elim (Bool-cases (is_skipped f a)) [
  | inl e ↦ subst (All (IsMatch f)) (ground (arith, e)) (select_alerts-IsMatch f more)
  | inr e ↦
      subst (λ xs. All (IsMatch f) xs) (step (select_alerts f more) e)
        (is_skipped-IsMatch f a e, select_alerts-IsMatch f more)
]
  where
    step :
        (rest : List AlertEntry)
        → is_skipped f a ≡ false
        → a ∷ rest ≡ (if is_skipped f a then rest else a ∷ rest)
    step rest e = rw e refl

-- The alerts on a page of `list_alerts` match the filter, and they are at most as many as the total
-- that it reports.
pub list_alerts-IsMatch :
    (f : AlertFilter) (s : AlertStore) (window : List AlertEntry) (total : ℕ)
    → list_alerts f s ≡ some (window, total)
    → All (IsMatch f) window × length window ≤ total
unfolding list_alerts
list_alerts-IsMatch f s window total h =
    let result = select_alerts f (values s.alerts) in
    elim (Option-cases (page f.offset f.limit result)) [
      | inl e ↦ absurd (ground (arith, e))
      | inr (w, e) ↦
          let same : (w ≡ window) × (length result ≡ total) = ground (arith, e) in
          let r =
            page-All (IsMatch f) f.offset f.limit result w e
              (select_alerts-IsMatch f (values s.alerts)) in
          (subst (All (IsMatch f)) same.0 r.0, ground (arith, same.0, same.1, r.1))
    ]
