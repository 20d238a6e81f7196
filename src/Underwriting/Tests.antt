-- ===== src/Underwriting/Tests.antt =====
-- A run of the rules engine, and the theorem at that input: an income of 1,000, of which half is
-- advanced, against obligations of 100.
use unified.Base.{
  ◌≤◌, String, ◌≡◌, refl, true, List, [], ◌∷◌, lookup, insert, ok, ◌+ℤ◌, ◌-ℤ◌, ◌*ℤ◌, quo, pos, ◌≤ℤ◌,
}
use unified.Decimal.{set_string, to_string}
use unified.Underwriting.{
  FeatureEvidence, Policy, Application, Decision, positive_integer, new, place, sort,
  feature_refused, collect, authenticated_features, capacity_of, reasons_against, bad_application,
  policy_maximum, decide_on, decide,
}
use unified.Underwriting.Approval.{IsApproved, decide_approves, decide_completes}

-- What a run computes with.
running : Unit {0}
unfolding lookup insert set_string to_string positive_integer place sort feature_refused collect
    authenticated_features capacity_of reasons_against bad_application policy_maximum decide_on
    decide quo ◌+ℤ◌ ◌-ℤ◌ ◌*ℤ◌ new
running = tt

abbrev evidence : String → String → FeatureEvidence
evidence id units = record {
  feature_id = id;
  value_units = units;
  source_id = "s";
  transform_version = "1";
  evidence_hash = "h";
  observed_at = 5;
}

abbrev policy : Policy
policy = record {
  policy_id = "p";
  version = "1";
  rule_set_hash = "r";
  feature_schema_hash = "f";
  credential_scope = "c";
  settlement_asset_id = "usd";
  product_id = "loan";
  maximum_exposure_units = "300";
  maximum_duration_days = 90;
  minimum_assurance = 2;
  income_advance_bps = 5000;
  maximum_feature_age = 10;
}

abbrev application : Application
application = record {
  decision_id = "d";
  subject_commitment = "s";
  borrower_account = "b";
  credential_scope = "c";
  credential_assurance = 3;
  settlement_asset_id = "usd";
  product_id = "loan";
  requested_units = "250";
  duration_days = 30;
  features =
      evidence "verified_income_units" "1000" ∷ evidence "existing_obligations_units" "100" ∷ [];
}

abbrev evidence_root : List FeatureEvidence → String
evidence_root fs = "root"

abbrev decision : Decision
decision = record {
  approved = true;
  maximum_exposure_units = "300";
  reason_codes = "APPROVED" ∷ [];
  feature_evidence_root = "root";
  policy_id = "p";
  policy_version = "1";
  rule_set_hash = "r";
  feature_schema_hash = "f";
  decided_at = 9;
}

policy_accepted : new policy ≡ ok policy
unfolding running
policy_accepted = refl

decide_approves_example : IsApproved policy application 9 decision
unfolding running
decide_approves_example = decide_approves evidence_root policy application 9 decision refl refl

decide_completes_example :
    (d : Decision) × (decide evidence_root policy application 9 ≡ ok d)
    × (◌≡◌ {A = String} "c" "c"
        → 2 ≤ 3
        → 30 ≤ 90
        → pos 250 ≤ℤ capacity_of (pos 1000) (pos 100) 5000 (policy_maximum policy)
        → d.approved ≡ true)
unfolding running
decide_completes_example =
    decide_completes evidence_root policy application 9 (pos 250) (pos 1000) (pos 100) refl refl
      refl refl
