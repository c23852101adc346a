-- ===== src/Integrations/Transactions.antt =====
-- Moves of a transaction, and of the work under an idempotency key.
use Prim.Native.String.{String}
use text.Mathlib.Text.{◌==◌ as str_eq}
use stock_pilot.Prelude.{ℕ, refl, Bool, Option, none, some, Bool-cases, inl, inr}
use stock_pilot.Store.Rows.{IdempotencyRecord}
use stock_pilot.Store.Monad.{Store, M, Result, ok, err, Ensures, Ensures-bind, with_tenant}
use stock_pilot.Idempotency.{
  Json, IdempotentRequest, purge_expired, answer_existing, run_and_record, create_record, answer,
  execute_idempotent, fingerprint_payload,
}
use stock_pilot.Integrations.Steps.{stays, Moves, Moves-refl}
use stock_pilot.Integrations.Moves.{IsConsistent-same}

-- A committed transaction makes its moves, one that is rolled back none.
pub with_tenant-Moves :
    {A : Type 0} (limit : Option ℕ) (work : M A) (s : Store)
    → Ensures (λ _ t. Moves limit s t) (work s)
    → Moves limit s (with_tenant work s).1
unfolding with_tenant
with_tenant-Moves {A} limit work s h = go (work s) h
  where
    go :
        (r : Result (A × Store))
        → Ensures (λ _ t. Moves limit s t) r
        → Moves limit s
            (elim r as (λ _. Result A × Store) [ ok (a, t) ↦ (ok a, t) | err e ↦ (err e, s) ]).1
    go (ok (a, t)) h = h
    go (err e) h = Moves-refl s

module _ (comes_first : String → String → Bool) (stringify : Json → String)
    (hash : String → String) where
  -- The purge of old keys and the new key move no delivery.
  run_and_record-Moves :
      (limit : Option ℕ) (now created : ℕ) (q : IdempotentRequest) (work : M String) (s : Store)
      → Ensures
          (λ _ t. Moves limit (purge_expired q.organization now s) t)
          (work (purge_expired q.organization now s))
      → Ensures
          (λ _ t. Moves limit s t)
          (run_and_record comes_first stringify hash created q work
            (purge_expired q.organization now s))
  unfolding run_and_record create_record purge_expired
  run_and_record-Moves limit now created q work s h =
      Ensures-bind (λ _ t. Moves limit (purge_expired q.organization now s) t)
        (λ _ t. Moves limit s t) _ _ h
        λ body t m. record {
          steps = m.steps;
          accounts = m.accounts;
          keeps = λ c.
              IsConsistent-same t _ refl refl refl (
                m.keeps
                  (IsConsistent-same s (purge_expired q.organization now s) refl refl refl c));
          keyed = m.keyed;
        }

  answer-Moves :
      (limit : Option ℕ) (now created : ℕ) (q : IdempotentRequest) (work : M String)
      (o : Option IdempotencyRecord) (s : Store)
      → Ensures
          (λ _ t. Moves limit (purge_expired q.organization now s) t)
          (work (purge_expired q.organization now s))
      → Ensures
          (λ _ t. Moves limit s t)
          (answer comes_first stringify hash created q work o (purge_expired q.organization now s))
  unfolding answer answer_existing purge_expired
  answer-Moves limit now created q work none s h = run_and_record-Moves limit now created q work s h
  answer-Moves limit now created q work (some r) s h =
      elim (Bool-cases
        (str_eq r.fingerprint (fingerprint_payload comes_first stringify hash q.payload))) [
          | inl e ↦ rw e (record {
            steps = λ id. stays;
            accounts = refl;
            keeps = λ c. IsConsistent-same s _ refl refl refl c;
            keyed = λ k. k;
          })
          | inr e ↦ rw e tt
        ]

  pub execute_idempotent-Moves :
      (limit : Option ℕ) (now created : ℕ) (q : IdempotentRequest) (work : M String) (s : Store)
      → Ensures
          (λ _ t. Moves limit (purge_expired q.organization now s) t)
          (work (purge_expired q.organization now s))
      → Ensures
          (λ _ t. Moves limit s t)
          (execute_idempotent comes_first stringify hash now created q work s)
  unfolding execute_idempotent
  execute_idempotent-Moves limit now created q work s h =
      answer-Moves limit now created q work _ s h
