-- ===== src/Idempotency/Replay.antt =====
-- An answered request is replayed for a day, and its key is taken.
use Prim.Native.String.{String}
use text.Mathlib.Text.{◌==◌ as str_eq}
use text.Mathlib.TextEquality.{eq_iff}
use stock_pilot.Prelude.{
  ℕ, ◌+◌, ◌≤◌, ◌≡◌, ◌≢◌, refl, sym, ap, ◌∙◌, Bool, true, false, Option, none, some, List, [], ◌∷◌,
  find_first, find_first-delete_where, arith, if◌then◌else◌, Bool-cases, ◌⊎◌, inl, inr, ⊤,
}
use stock_pilot.Store.Rows.{IdempotencyRecord}
use stock_pilot.Store.Monad.{
  Store, Result, M, ok, err, key_reused, Ensures, Ensures-ok, Ensures-bind, with_tenant,
  with_tenant-keeps,
}
use stock_pilot.Idempotency.{
  Json, IdempotentRequest, IdempotentExecution, record_lifetime, is_record_of, is_expired,
  is_purged, purge_expired, fingerprint_payload, run_and_record, answer_existing, answer,
  execute_idempotent, create_record,
}

module _ (comes_first : String → String → Bool) (stringify : Json → String)
    (hash : String → String) where
  -- The record that a first execution leaves on top of the table.
  recorded : ℕ → IdempotentRequest → IdempotentExecution → IdempotencyRecord
  recorded created q res = record {
    organization = q.organization;
    scope = q.scope;
    key = q.key;
    fingerprint = fingerprint_payload comes_first stringify hash q.payload;
    response_body = res.body;
    response_status = res.response_status;
    expires_at = created + record_lifetime;
  }

  Leaves : ℕ → IdempotentRequest → IdempotentExecution → Store → Type 0
  Leaves created q res t =
      (res.replayed ≡ true)
      ⊎ ((rs : List IdempotencyRecord) × (t.idempotency_records ≡ recorded created q res ∷ rs))

  answer_existing-Leaves :
      (created : ℕ) (q : IdempotentRequest) (r : IdempotencyRecord) (s : Store)
      → Ensures (Leaves created q) (answer_existing comes_first stringify hash q r s)
  unfolding answer_existing Leaves
  answer_existing-Leaves created q r s =
      elim (Bool-cases
        (str_eq r.fingerprint (fingerprint_payload comes_first stringify hash q.payload))) [
          | inl e ↦ rw e (inl refl)
          | inr e ↦ rw e tt
        ]

  run_and_record-Leaves :
      (created : ℕ) (q : IdempotentRequest) (work : M String) (s : Store)
      → Ensures (Leaves created q) (run_and_record comes_first stringify hash created q work s)
  unfolding run_and_record create_record Leaves recorded
  run_and_record-Leaves created q work s =
      Ensures-bind (λ _ _. ⊤) (Leaves created q) (work s) _ (anything (work s))
        (λ body t _. inr (t.idempotency_records, refl))
    where
      anything : (r : Result (String × Store)) → Ensures (λ _ _. ⊤) r
      anything (ok (a, t)) = tt
      anything (err e) = tt

  answer-Leaves :
      (created : ℕ) (q : IdempotentRequest) (work : M String) (o : Option IdempotencyRecord)
      (s : Store)
      → Ensures (Leaves created q) (answer comes_first stringify hash created q work o s)
  unfolding answer
  answer-Leaves created q work none s = run_and_record-Leaves created q work s
  answer-Leaves created q work (some r) s = answer_existing-Leaves created q r s

  execute_idempotent-Leaves :
      (now created : ℕ) (q : IdempotentRequest) (work : M String) (s : Store)
      → Ensures
          (Leaves created q)
          (execute_idempotent comes_first stringify hash now created q work s)
  unfolding execute_idempotent
  execute_idempotent-Leaves now created q work s =
      answer-Leaves created q work _ (purge_expired q.organization now s)

  -- The record of `q` is the one that its execution left.
  Kept : ℕ → IdempotentRequest → IdempotentExecution → Store → Type 0
  Kept created q res t =
      find_first (is_record_of q) t.idempotency_records ≡ some (recorded created q res)

  -- The record stays while it lives.
  purge_expired-Kept :
      (organization later created : ℕ) (q : IdempotentRequest) (res : IdempotentExecution)
      (t : Store)
      → later ≤ created + record_lifetime
      → Kept created q res t
      → Kept created q res (purge_expired organization later t)
  unfolding Kept purge_expired is_purged is_expired recorded
  purge_expired-Kept organization later created q res t l h =
      find_first-delete_where (is_record_of q) (is_purged organization later) t.idempotency_records
        (recorded created q res) (ground arith) h

  is_own :
      (created : ℕ) (q : IdempotentRequest) (res : IdempotentExecution) (payload : Json)
      (status : ℕ)
      → is_record_of
          (record q { payload = payload; response_status = status })
          (recorded created q res)
        ≡ true
  unfolding is_record_of recorded
  is_own created q res payload status = ground (arith, eq_iff q.scope q.scope, eq_iff q.key q.key)

  answered :
      (created : ℕ) (q : IdempotentRequest) (res : IdempotentExecution) (payload : Json)
      (status : ℕ) (u : Store)
      → answer_existing comes_first stringify hash
          (record q { payload = payload; response_status = status })
          (recorded created q res)
          u
        ≡ (if str_eq
              (fingerprint_payload comes_first stringify hash q.payload)
              (fingerprint_payload comes_first stringify hash payload)
            then ok (
              record { body = res.body; replayed = true; response_status = res.response_status },
              u,
            )
            else err key_reused)
  unfolding answer_existing recorded
  answered created q res payload status u = ground arith

  left-Kept :
      (created : ℕ) (q : IdempotentRequest) (res : IdempotentExecution) (t : Store)
      (rs : List IdempotencyRecord)
      → t.idempotency_records ≡ recorded created q res ∷ rs
      → Kept created q res t
  unfolding Kept find_first
  left-Kept created q res t rs e = rw (e, is_own created q res q.payload q.response_status) refl

  is_record_of-same :
      (q other : IdempotentRequest) (r : IdempotencyRecord)
      → is_record_of q r ≡ true
      → is_record_of other r ≡ true
      → (x : IdempotencyRecord) → is_record_of other x ≡ is_record_of q x
  unfolding is_record_of
  is_record_of-same q other r h k x =
      let scope : other.scope ≡ q.scope =
        ground (arith, h, k, eq_iff r.scope q.scope, eq_iff r.scope other.scope) in
      let key : other.key ≡ q.key =
        ground (arith, h, k, eq_iff r.key q.key, eq_iff r.key other.key) in
      let organization : other.organization ≡ q.organization = ground (arith, h, k) in
      rw (scope, key, organization) refl

  find_first-same :
      (p q : IdempotencyRecord → Bool) (xs : List IdempotencyRecord)
      → ((x : IdempotencyRecord) → p x ≡ q x)
      → find_first p xs ≡ find_first q xs
  unfolding find_first
  find_first-same p q [] h = refl
  find_first-same p q (x ∷ xs) h = ground (arith, h x, find_first-same p q xs h)

  none-not_some : {A : Type 0} {a : A} → none ≢ some a
  none-not_some h = cc

  -- A new record of another key leaves the one that is kept.
  on_top :
      (created : ℕ) (q other : IdempotentRequest) (res : IdempotentExecution)
      (r : IdempotencyRecord) (rs : List IdempotencyRecord)
      → is_record_of other r ≡ true
      → find_first (is_record_of other) rs ≡ none
      → find_first (is_record_of q) rs ≡ some (recorded created q res)
      → find_first (is_record_of q) (r ∷ rs) ≡ some (recorded created q res)
  unfolding find_first
  on_top created q other res r rs own fresh kept = elim (Bool-cases (is_record_of q r)) [
    | inr b ↦ rw (find_first, b) kept
    | inl b ↦
        let same =
          find_first-same (is_record_of other) (is_record_of q) rs
            (is_record_of-same q other r b own) in
        let clash = sym fresh ∙ (same ∙ kept) in absurd (none-not_some clash)
  ]

  -- The work of a call writes no record itself.
  abbrev pub IsSilent : M String → Type 0
  IsSilent work =
      (s : Store) → Ensures (λ _ t. t.idempotency_records ≡ s.idempotency_records) (work s)

  answer-Kept :
      (created at : ℕ) (q other : IdempotentRequest) (res : IdempotentExecution) (work : M String)
      (found : Option IdempotencyRecord) (s : Store)
      → IsSilent work
      → find_first (is_record_of other) s.idempotency_records ≡ found
      → Kept created q res s
      → Ensures
          (λ _ t. Kept created q res t)
          (answer comes_first stringify hash at other work found s)
  unfolding answer run_and_record create_record answer_existing Kept recorded
  answer-Kept created at q other res work (some r) s silent e h =
      elim (Bool-cases
        (str_eq r.fingerprint (fingerprint_payload comes_first stringify hash other.payload))) [
          | inl b ↦ rw b h
          | inr b ↦ rw b tt
        ]
  answer-Kept created at q other res work none s silent e h =
      Ensures-bind (λ _ t. t.idempotency_records ≡ s.idempotency_records)
        (λ _ t. Kept created q res t) (work s) _ (silent s)
        (λ body t same.
          on_top created q other res
            (recorded at other
              (record { body = body; replayed = false; response_status = other.response_status }))
            t.idempotency_records
            (is_own at other
              (record { body = body; replayed = false; response_status = other.response_status })
              other.payload other.response_status)
            (rw same e) (rw same h))

  -- A call under some key, with its clocks and its work.
  pub record KeyedCall : Type 0 where
    pub now : ℕ
    pub created : ℕ
    pub request : IdempotentRequest
    pub work : M String

  -- Calls one after the other, each in its transaction.
  unfoldable pub call_all : List KeyedCall → Store → Store
  call_all [] s = s
  call_all (c ∷ cs) s =
      call_all cs
        (with_tenant
          (execute_idempotent comes_first stringify hash c.now c.created c.request c.work) s).1

  -- The clocks of the calls are up to a moment, and their works write no record.
  abbrev pub UpTo : ℕ → List KeyedCall → Type 0
  UpTo t [] = ⊤
  UpTo t (c ∷ cs) = (c.now ≤ t) × IsSilent c.work × UpTo t cs

  call_all-Kept :
      (created : ℕ) (q : IdempotentRequest) (res : IdempotentExecution) (cs : List KeyedCall)
      (s : Store)
      → UpTo (created + record_lifetime) cs
      → Kept created q res s
      → Kept created q res (call_all cs s)
  unfolding call_all execute_idempotent
  call_all-Kept created q res [] s quiet h = h
  call_all-Kept created q res (c ∷ cs) s quiet h = call_all-Kept created q res cs _ quiet.2 (
      with_tenant-keeps (Kept created q res)
        (execute_idempotent comes_first stringify hash c.now c.created c.request c.work) s h
        (answer-Kept created c.created q c.request res c.work _
          (purge_expired c.request.organization c.now s) quiet.1 refl
          (purge_expired-Kept c.request.organization c.now created q res s quiet.0 h)))

  -- A request that was answered by running its work: until the record expires, whatever calls under
  -- any keys come before, the same key with the same fingerprint is answered with the same body and
  -- status and runs no work, and with another fingerprint it is refused. The works of the calls
  -- write no record themselves.
  pub executed_once :
      (now created later anew : ℕ) (q : IdempotentRequest) (payload : Json) (status : ℕ)
      (work other : M String) (s t : Store) (res : IdempotentExecution) (cs : List KeyedCall)
      → execute_idempotent comes_first stringify hash now created q work s ≡ ok (res, t)
      → res.replayed ≡ false
      → UpTo (created + record_lifetime) cs
      → later ≤ created + record_lifetime
      → execute_idempotent comes_first stringify hash later anew
          (record q { payload = payload; response_status = status })
          other
          (call_all cs t)
        ≡ (if str_eq
              (fingerprint_payload comes_first stringify hash q.payload)
              (fingerprint_payload comes_first stringify hash payload)
            then ok (
              record { body = res.body; replayed = true; response_status = res.response_status },
              purge_expired q.organization later (call_all cs t),
            )
            else err key_reused)
  unfolding execute_idempotent answer Leaves Kept is_record_of
  executed_once now created later anew q payload status work other s t res cs h fresh quiet l =
      elim (Ensures-ok (Leaves created q) _ h (execute_idempotent-Leaves now created q work s)) [
        | inl e ↦ cc
        | inr (rs, e) ↦
            let again = record q { payload = payload; response_status = status } in
            let u = purge_expired q.organization later (call_all cs t) in
            let kept : Kept created q res u =
              purge_expired-Kept q.organization later created q res (call_all cs t) l
                (call_all-Kept created q res cs t quiet (left-Kept created q res t rs e)) in
            ap (λ o. answer comes_first stringify hash anew again other o u) kept
            ∙ answered created q res payload status u
      ]
