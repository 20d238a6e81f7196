-- ===== src/AllocationMode/Invariant.antt =====
-- The invariant of the allocation latch: its two maps agree.
use unified.Base.{
  String, ◌≡◌, sym, ap, ◌∙◌, inl, inr, false, none, some, arith, eq_iff, ◌=ₛ◌, Bool-cases,
  Option-cases, eq_of_text_eq, lookup, insert, lookup-insert, lookup-insert_self, lookup-empty,
  lookup-insert_cases, lookup-insert_free,
}
use unified.AllocationMode.{Claim, Registry, new, owned_by_other}
use unified.AllocationMode.Steps.{SameIdentity}

-- The two maps agree: a claim is filed under its payment, and owns its allocation.
pub record IsLatched (r : Registry) : Type 0 where
  pub filed :
      (p : String) (c : Claim)
      → lookup p r.by_payment ≡ some c
      → (c.payment_id ≡ p) × (lookup c.allocation_id r.by_allocation ≡ some p)
  pub owned :
      (a p : String)
      → lookup a r.by_allocation ≡ some p
      → (c : Claim) × (lookup p r.by_payment ≡ some c) × (c.allocation_id ≡ a)

pub some_inj : {A : Type 0} {a b : A} → some a ≡ some b → a ≡ b
some_inj h = cc

pub new-IsLatched : IsLatched new
unfolding new
new-IsLatched = record {
  filed = λ p c h. absurd (go (sym (lookup-empty _) ∙ h));
  owned = λ a p h. absurd (go (sym (lookup-empty _) ∙ h));
}
  where
    go : {A : Type 0} {a : A} → none ≡ some a → ⊥
    go h = cc

-- The allocation of a payment without a claim is free.
pub free_allocation :
    (r : Registry) (c : Claim)
    → IsLatched r
    → lookup c.payment_id r.by_payment ≡ none
    → owned_by_other c.allocation_id c.payment_id r ≡ false
    → lookup c.allocation_id r.by_allocation ≡ none
unfolding owned_by_other
free_allocation r c v free unowned = elim (Option-cases (lookup c.allocation_id r.by_allocation)) [
  | inl q ↦ q
  | inr (p, q) ↦
      let (d, found, _) = v.owned _ _ q in
      absurd (ground (arith, found, free, q, unowned, eq_iff p c.payment_id))
]

module _ (r r' : Registry) (v : IsLatched r) where
  pub keeps-IsLatched :
      r'.by_payment ≡ r.by_payment → r'.by_allocation ≡ r.by_allocation → IsLatched r'
  keeps-IsLatched a b = record {
    filed = λ p c h.
        let (e, f) = v.filed _ _ (ap (lookup p) (sym a) ∙ h) in
        (e, ap (lookup c.allocation_id) b ∙ f);
    owned = λ q p h.
        let (c, e, f) = v.owned _ _ (ap (lookup q) (sym b) ∙ h) in (c, ap (lookup p) a ∙ e, f);
  }

  pub claims-IsLatched :
      (c : Claim)
      → lookup c.payment_id r.by_payment ≡ none
      → lookup c.allocation_id r.by_allocation ≡ none
      → r'.by_payment ≡ insert c.payment_id c r.by_payment
      → r'.by_allocation ≡ insert c.allocation_id c.payment_id r.by_allocation
      → IsLatched r'
  claims-IsLatched c free vacant a b = record {
    filed = λ p d h. filed p d (ap (lookup p) (sym a) ∙ h);
    owned = λ q p h. owned q p (ap (lookup q) (sym b) ∙ h);
  }
    where
      filed :
          (p : String) (d : Claim)
          → lookup p (insert c.payment_id c r.by_payment) ≡ some d
          → (d.payment_id ≡ p) × (lookup d.allocation_id r'.by_allocation ≡ some p)
      filed p d h = elim (lookup-insert_cases c.payment_id p c r.by_payment h) [
        | inl (e, k) ↦ (
          ap (λ x. x.payment_id) (sym k) ∙ e,
          ap (λ x. lookup x.allocation_id r'.by_allocation) (sym k)
              ∙ ap (lookup c.allocation_id) b
              ∙ lookup-insert_self c.allocation_id c.payment_id r.by_allocation
              ∙ ap some e,
        )
        | inr k ↦
            let (e, f) = v.filed _ _ k in
            (
              e,
              ap (lookup d.allocation_id) b
                  ∙ lookup-insert_free c.allocation_id d.allocation_id c.payment_id r.by_allocation
                      vacant f,
            )
      ]

      owned :
          (q p : String)
          → lookup q (insert c.allocation_id c.payment_id r.by_allocation) ≡ some p
          → (d : Claim) × (lookup p r'.by_payment ≡ some d) × (d.allocation_id ≡ q)
      owned q p h = elim (lookup-insert_cases c.allocation_id q c.payment_id r.by_allocation h) [
        | inl (e, k) ↦ (
          c,
          ap (lookup p) a
              ∙ ap (λ x. lookup x (insert c.payment_id c r.by_payment)) (sym k)
              ∙ lookup-insert_self c.payment_id c r.by_payment,
          e,
        )
        | inr k ↦
            let (d, e, f) = v.owned _ _ k in
            (d, ap (lookup p) a ∙ lookup-insert_free c.payment_id p c r.by_payment free e, f)
      ]

  pub moves-IsLatched :
      (id : String) (c c' : Claim)
      → lookup id r.by_payment ≡ some c
      → SameIdentity c c'
      → r'.by_payment ≡ insert id c' r.by_payment
      → r'.by_allocation ≡ r.by_allocation
      → IsLatched r'
  moves-IsLatched id c c' found same a b = record {
    filed = λ p d h. filed p d (ap (lookup p) (sym a) ∙ h);
    owned = λ q p h. owned q p (ap (lookup q) (sym b) ∙ h);
  }
    where
      filed :
          (p : String) (d : Claim)
          → lookup p (insert id c' r.by_payment) ≡ some d
          → (d.payment_id ≡ p) × (lookup d.allocation_id r'.by_allocation ≡ some p)
      filed p d h = elim (lookup-insert_cases id p c' r.by_payment h) [
        | inl (e, k) ↦
            let (named, owns) = v.filed _ _ found in
            (
              ap (λ x. x.payment_id) (sym (same ∙ k)) ∙ named ∙ e,
              ap (λ x. lookup x.allocation_id r'.by_allocation) (sym (same ∙ k))
                  ∙ ap (lookup c.allocation_id) b
                  ∙ owns
                  ∙ ap some e,
            )
        | inr k ↦ let (e, f) = v.filed _ _ k in (e, ap (lookup d.allocation_id) b ∙ f)
      ]

      owned :
          (q p : String)
          → lookup q r.by_allocation ≡ some p
          → (d : Claim) × (lookup p r'.by_payment ≡ some d) × (d.allocation_id ≡ q)
      owned q p h =
          let (d, e, f) = v.owned _ _ h in
          elim (Bool-cases (id =ₛ p)) [
            | inl k ↦
                let i = eq_of_text_eq id p k in
                let own : d ≡ c =
                  some_inj (sym e ∙ ap (λ x. lookup x r.by_payment) (sym i) ∙ found) in
                (
                  c',
                  ap (lookup p) a
                      ∙ ap (λ x. lookup x (insert id c' r.by_payment)) (sym i)
                      ∙ lookup-insert_self id c' r.by_payment,
                  ap (λ x. x.allocation_id) (sym same) ∙ ap (λ x. x.allocation_id) (sym own) ∙ f,
                )
            | inr k ↦
                (d, ap (lookup p) a ∙ ground (arith, lookup-insert id p c' r.by_payment, k, e), f)
          ]
