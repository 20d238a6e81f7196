-- ===== src/PaymentAccounting/Ingress.antt =====
-- The payment ingress with the poster as its accounting: the ledger behind both.
use unified.Base.{String, ◌≡◌, sym, Option, List, Time}
use mathlib.Core.Path.{subst}
use unified.Ledger.{Journal}
use unified.Ledger.Invariant.{IsValid}
use unified.Ledger.Reversal.{ledger_debits, ledger_credits, accepted-balanced}
use unified.Payment.{Transition, Intent, Services, Orchestrator, Codec, Commit, ReversalRecord}
use unified.Payment.History.{Call, after_calls}
use unified.Payment.Keeping.{IsKept}
use unified.Payment.Accounts.{after_calls-kept}
use unified.PaymentAccounting.{Poster, apply}
use unified.PaymentAccounting.Journals.{apply-IsValid}

module _ {W : Type 0} (hash : Journal → Option String) (hash_json : Transition → String)
    (poster : W → Poster) where
  -- The ledger of the poster is valid.
  abbrev pub HasValidBook : W → Type 0
  HasValidBook w = IsValid hash (poster w).book

  -- The accounting of the services is the poster, and their coordinator leaves its ledger alone but for
  -- running the callback that it is given.
  pub record IsPosting (s : Services W) : Type 0 where
    pub posts :
        (t : Transition) (w : W)
        → (now : Time) × (poster (s.apply t w).1 ≡ (apply hash hash_json t now (poster w)).1)
    pub handles :
        (r : ReversalRecord) (c : Commit W) (w : W)
        → ((x : W) → HasValidBook x → HasValidBook (c x).1)
        → HasValidBook w
        → HasValidBook (s.handle_provider_reversal r c w).1
    pub resolves :
        (r : ReversalRecord) (c : Commit W) (w : W)
        → ((x : W) → HasValidBook x → HasValidBook (c x).1)
        → HasValidBook w
        → HasValidBook (s.resolve_provider_reversal r c w).1

  posting-IsKept : (s : Services W) → IsPosting s → IsKept s HasValidBook
  posting-IsKept s h = record {
    by_apply = λ t w v.
        let (now, e) = h.posts t w in
        subst (λ x. IsValid hash x.book) (sym e) (apply-IsValid hash hash_json t now (poster w) v);
    by_handling = h.handles;
    by_resolving = h.resolves;
  }

  -- Whatever calls the payment ingress takes, with the poster as its accounting and a ledger that is
  -- valid at first, the debits of the ledger equal its credits in every asset.
  pub ingress-balances :
      (s : Services W) (k : Codec) (content_hash : Intent → String) (calls : List Call)
      (o : Orchestrator W) (asset : String)
      → IsPosting s
      → IsValid hash (poster o.world).book
      → ledger_debits hash asset (poster (after_calls s k content_hash calls o).world).book.by_id
        ≡ ledger_credits hash asset (poster (after_calls s k content_hash calls o).world).book.by_id
  ingress-balances s k content_hash calls o asset h v =
      accepted-balanced hash asset (poster (after_calls s k content_hash calls o).world).book.by_id
        (after_calls-kept s HasValidBook (posting-IsKept s h) k content_hash calls o v).accepted
