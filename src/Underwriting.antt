-- ===== src/Underwriting.antt =====
-- The rules engine of services/risk-engine/internal/underwriting/engine.go. The SHA-256 root of the
-- evidence in its order is the parameter `evidence_root`.
pub mod Approval
mod Tests
use unified.Base.{
  ℕ, zero, suc, ◌+◌, ◌-◌, ◌*◌, ◌/◌, ◌%◌, ◌^◌, ◌≤◌, ◌<◌, min, String, ◌≡◌, refl, sym, ap, ◌∙◌, ◌≢◌,
  ◌↔◌, ◌⊎◌, inl, inr, Bool, true, false, not, ◌&&◌, ◌||◌, Option, none, some, List, [], ◌∷◌, ◌++◌,
  map, arith, eq_iff, eq_refl, ltb, leb, ◌==◌, ◌=ₛ◌, ◌≠ₛ◌, is_empty, if◌then◌else◌, ltb→lt, lt→ltb,
  Bool-cases, Option-cases, eq_of_text_eq, ne_of_text_eq, text_eq_of_ne, length, All, length-append,
  All-append, Dict, lookup, insert, contains, lookup-insert, lookup-insert_self, lookup-empty,
  lookup-insert_cases, lookup-insert_free, contains-insert, insert-All, Result, ok, err, ◌>>=◌,
  ◌>>◌, or_err, Result-cases, >>=-eq-ok, reject_if, ℤ, pos, negsuc, pos_part, neg_part, sub_ℕ, ◌+ℤ◌,
  ◌-ℤ◌, ◌*ℤ◌, quo, ◌≤ℤ◌, ltb_ℤ, leb_ℤ, eqb_ℤ, int_laws, *ℤ-pos, quo-pos, -ℤ-pos, +ℤ-pos,
  eq_of_parts, Time, is_zero, before, after, time_sub, max_duration,
}
use Prim.Native.String.{compare}
use Prim.Native.Nat.{Ordering}
use unified.Decimal.{set_string, to_string}

pub record FeatureEvidence : Type 0 where
  pub feature_id : String
  pub value_units : String
  pub source_id : String
  pub transform_version : String
  pub evidence_hash : String
  pub observed_at : Time

pub record Policy : Type 0 where
  pub policy_id : String
  pub version : String
  pub rule_set_hash : String
  pub feature_schema_hash : String
  pub credential_scope : String
  pub settlement_asset_id : String
  pub product_id : String
  pub maximum_exposure_units : String
  pub maximum_duration_days : ℕ
  pub minimum_assurance : ℕ
  pub income_advance_bps : ℕ
  pub maximum_feature_age : ℕ

pub record Application : Type 0 where
  pub decision_id : String
  pub subject_commitment : String
  pub borrower_account : String
  pub credential_scope : String
  pub credential_assurance : ℕ
  pub settlement_asset_id : String
  pub product_id : String
  pub requested_units : String
  pub duration_days : ℕ
  pub features : List FeatureEvidence

pub record Decision : Type 0 where
  pub approved : Bool
  pub maximum_exposure_units : String
  pub reason_codes : List String
  pub feature_evidence_root : String
  pub policy_id : String
  pub policy_version : String
  pub rule_set_hash : String
  pub feature_schema_hash : String
  pub decided_at : Time

pub data UnderwritingError : Type 0 where
  invalid_application invalid_evidence invalid_policy : UnderwritingError

abbrev pub verified_income : String
verified_income = "verified_income_units"

abbrev pub existing_obligations : String
existing_obligations = "existing_obligations_units"

-- A parsed value whose decimal text is the input.
abbrev pub same_text : String → Option ℤ → Option ℤ
same_text s none = none
same_text s (some z) = if to_string z =ₛ s then some z else none

-- `positiveInteger`, which takes any sign.
unfoldable pub positive_integer : String → Option ℤ
positive_integer s = same_text s (set_string s)

-- `New`
unfoldable pub new : Policy → Result UnderwritingError Policy
new p = elim (positive_integer p.maximum_exposure_units) [
  | none ↦ err invalid_policy
  | some maximum ↦
      if is_empty p.policy_id
        || is_empty p.version
        || is_empty p.rule_set_hash
        || is_empty p.feature_schema_hash
        || is_empty p.credential_scope
        || is_empty p.settlement_asset_id
        || is_empty p.product_id
        || leb_ℤ maximum (pos 0)
        || (p.maximum_duration_days == 0)
        || (p.minimum_assurance == 0)
        || (p.income_advance_bps == 0)
        || ltb 10000 p.income_advance_bps
        || (p.maximum_feature_age == 0)
      then err invalid_policy
      else ok p
]

-- `slices.SortFunc` by the feature's name.
unfoldable pub place : FeatureEvidence → List FeatureEvidence → List FeatureEvidence
place f [] = f ∷ []
place f (g ∷ gs) =
    let rest = place f gs in
    elim (compare g.feature_id f.feature_id) [ Ordering.gt ↦ f ∷ g ∷ gs | _ ↦ g ∷ rest ]

unfoldable pub sort : List FeatureEvidence → List FeatureEvidence
sort [] = []
sort (f ∷ fs) = place f (sort fs)

-- The tests of one round of the loop, but for those on the value.
unfoldable pub feature_refused : FeatureEvidence → Time → Policy → Dict ℤ → Bool
feature_refused f as_of p values =
    is_empty f.feature_id
    || is_empty f.source_id
    || is_empty f.transform_version
    || is_empty f.evidence_hash
    || is_zero f.observed_at
    || after f.observed_at as_of
    || ltb p.maximum_feature_age (time_sub as_of f.observed_at)
    || contains f.feature_id values
    || ((f.feature_id ≠ₛ verified_income) && (f.feature_id ≠ₛ existing_obligations))

unfoldable pub collect :
    List FeatureEvidence → Time → Policy → Dict ℤ → Result UnderwritingError (Dict ℤ)
collect [] as_of p values = ok values
collect (f ∷ fs) as_of p values = elim (positive_integer f.value_units) [
  | none ↦ err invalid_evidence
  | some value ↦
      let rest = collect fs as_of p (insert f.feature_id value values) in
      if feature_refused f as_of p values || ltb_ℤ value (pos 0) then err invalid_evidence else rest
]

-- `authenticatedFeatures`: the income and the obligations.
unfoldable pub authenticated_features :
    List FeatureEvidence → Time → Policy → Result UnderwritingError (ℤ × ℤ)
authenticated_features evidence as_of p =
    if not (length evidence == 2)
    then err invalid_evidence
    else elim (collect (sort evidence) as_of p []) [
      | err e ↦ err e
      | ok values ↦ elim (lookup verified_income values) [
        | none ↦ err invalid_evidence
        | some income ↦ elim (lookup existing_obligations values) [
          | none ↦ err invalid_evidence
          | some obligations ↦ ok (income, obligations)
        ]
      ]
    ]

-- The advance on the income less the obligations, at least 0 and at most the maximum of the policy.
unfoldable pub capacity_of : ℤ → ℤ → ℕ → ℤ → ℤ
capacity_of income obligations bps maximum =
    let open_units = quo (income *ℤ pos bps) (pos 10000) -ℤ obligations in
    let floored = if ltb_ℤ open_units (pos 0) then pos 0 else open_units in
    if ltb_ℤ maximum floored then maximum else floored

abbrev pub note : Bool → String → List String → List String
note b reason reasons = if b then reason ∷ reasons else reasons

-- The reasons against an application, in the order of the code.
unfoldable pub reasons_against : Policy → Application → ℤ → ℤ → List String
reasons_against p a requested capacity =
    note (a.credential_scope ≠ₛ p.credential_scope) "CREDENTIAL_SCOPE_MISMATCH" (
      note (ltb a.credential_assurance p.minimum_assurance) "CREDENTIAL_ASSURANCE_LOW" (
        note (ltb p.maximum_duration_days a.duration_days) "DURATION_EXCEEDED"
          (note (ltb_ℤ capacity requested) "CAPACITY_INSUFFICIENT" [])))

abbrev pub is_none : List String → Bool
is_none [] = true
is_none (r ∷ rs) = false

unfoldable pub bad_application : Policy → Application → Time → Bool
bad_application p a as_of =
    is_zero as_of
    || is_empty a.decision_id
    || is_empty a.subject_commitment
    || is_empty a.borrower_account
    || (a.settlement_asset_id ≠ₛ p.settlement_asset_id)
    || (a.product_id ≠ₛ p.product_id)
    || (a.duration_days == 0)

-- `policyMaximum, _ :=`, a number since `New` has checked it; 0 for other texts, which do not occur.
unfoldable pub policy_maximum : Policy → ℤ
policy_maximum p = elim (set_string p.maximum_exposure_units) [ none ↦ pos 0 | some z ↦ z ]

module _ (evidence_root : List FeatureEvidence → String) where
  -- `Decide` from the features on.
  unfoldable pub decide_on : Policy → Application → Time → ℤ → ℤ × ℤ → Decision
  decide_on p a as_of requested (income, obligations) =
      let capacity = capacity_of income obligations p.income_advance_bps (policy_maximum p) in
      let reasons = reasons_against p a requested capacity in
      record {
        approved = is_none reasons;
        maximum_exposure_units = to_string capacity;
        reason_codes = if is_none reasons then "APPROVED" ∷ [] else reasons;
        feature_evidence_root = evidence_root (sort a.features);
        policy_id = p.policy_id;
        policy_version = p.version;
        rule_set_hash = p.rule_set_hash;
        feature_schema_hash = p.feature_schema_hash;
        decided_at = as_of;
      }

  unfoldable pub decide : Policy → Application → Time → Result UnderwritingError Decision
  decide p a as_of =
      if bad_application p a as_of
      then err invalid_application
      else elim (positive_integer a.requested_units) [
        | none ↦ err invalid_application
        | some requested ↦
            if leb_ℤ requested (pos 0)
            then err invalid_application
            else elim (authenticated_features a.features as_of p) [
              | err e ↦ err e
              | ok features ↦ ok (decide_on p a as_of requested features)
            ]
      ]
