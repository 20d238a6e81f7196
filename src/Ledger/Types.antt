-- ===== src/Ledger/Types.antt =====
-- The records of services/foundation-ledger/internal/ledger/ledger.go.
use unified.Base.{String, List, Dict, Time}

-- `type Side string`: the two constants, and any other text.
pub data Side : Type 0 where
  debit credit : Side
  other : String → Side

pub record Entry : Type 0 where
  pub account_code : String
  pub side : Side
  pub asset_id : String
  pub units : String
  pub party_id : String
  pub loan_id : String
  pub tranche_id : String

pub record Journal : Type 0 where
  pub id : String
  pub legal_entity_id : String
  pub book_id : String
  pub source_system : String
  pub entry_type : String
  pub source_event_id : String
  pub loan_id : String
  pub idempotency_key : String
  pub correlation_id : String
  pub effective_at : Time
  pub entries : List Entry
  pub evidence_hash : String
  pub reversal_of : String
  pub reason : String

pub record PostedJournal : Type 0 where
  pub journal : Journal
  pub content_hash : String
  pub posted_at : Time

pub record Ledger : Type 0 where
  pub by_id : Dict PostedJournal
  pub idempotency : Dict String
  pub reversals : Dict String

pub data LedgerError : Type 0 where
  invalid_journal unbalanced_journal idempotency_conflict already_reversed unknown_journal :
      LedgerError
