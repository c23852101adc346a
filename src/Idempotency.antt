-- ===== src/Idempotency.antt =====
-- apps/api/src/idempotency/idempotency.ts: a request under an `Idempotency-Key` runs once. The
-- advisory lock of the key makes the calls on it run one after the other.
pub mod Replay
pub mod Fingerprint
use Prim.Native.String.{String}
use text.Mathlib.Text.{◌==◌ as str_eq}
use stock_pilot.Prelude.{
  ℕ, ◌+◌, Bool, true, false, ◌&&◌, not, Option, none, some, List, [], ◌∷◌, ◌==◌, ltb, find_first,
  delete_where, if◌then◌else◌, ⊤,
}
use stock_pilot.Store.Rows.{IdempotencyRecord}
use stock_pilot.Store.Monad.{Store, M, ok, pure, throw, gets, ◌>>=◌, ◌>>◌, modify, key_reused}

-- A payload: a number and a date are their texts.
mutual
  pub data Json : Type 0 where
    null undefined : Json
    boolean : Bool → Json
    number string date : String → Json
    array : Items → Json
    object : Entries → Json

  pub data Items : Type 0 where
    no_item : Items
    item : Json → Items → Items

  pub data Entries : Type 0 where
    no_entry : Entries
    entry : String → Json → Entries → Entries

unfoldable pub is_undefined : Json → Bool
is_undefined undefined = true
is_undefined _ = false

-- 24 hours in milliseconds.
abbrev pub record_lifetime : ℕ
record_lifetime = 86400000

pub record IdempotentExecution : Type 0 where
  pub body : String
  pub replayed : Bool
  pub response_status : ℕ

pub record IdempotentRequest : Type 0 where
  pub key : String
  pub organization : ℕ
  pub payload : Json
  pub response_status : ℕ
  pub scope : String

-- `organizationId_scope_key`
unfoldable pub is_record_of : IdempotentRequest → IdempotencyRecord → Bool
is_record_of q r =
    (r.organization == q.organization) && (str_eq r.scope q.scope && str_eq r.key q.key)

unfoldable pub is_expired : ℕ → IdempotencyRecord → Bool
is_expired now r = ltb r.expires_at now

-- Row-level security shows the transaction the records of its own organization only.
unfoldable pub is_purged : ℕ → ℕ → IdempotencyRecord → Bool
is_purged organization now r = (r.organization == organization) && is_expired now r

unfoldable pub purge_expired : ℕ → ℕ → Store → Store
purge_expired organization now s = record s {
  idempotency_records = delete_where (is_purged organization now) s.idempotency_records;
}

unfoldable pub create_record : IdempotencyRecord → M ⊤
create_record r = modify (λ s. record s { idempotency_records = r ∷ s.idempotency_records })

-- `comes_first` is `left.localeCompare(right) <= 0`, `stringify` is `JSON.stringify` and `hash` the
-- SHA-256 digest in hexadecimal.
module _ (comes_first : String → String → Bool) (stringify : Json → String)
    (hash : String → String) where
  -- One step of the sort of the entries, which is stable.
  unfoldable pub insert_entry : String → Json → Entries → Entries
  insert_entry k v no_entry = entry k v no_entry
  insert_entry k v (entry j w es) =
      let rest = insert_entry k v es in
      if comes_first k j then entry k v (entry j w es) else entry j w rest

  unfoldable mutual
    pub canonicalize : Json → Json
    canonicalize (array xs) = array (canonicalize_items xs)
    canonicalize (date d) = string d
    canonicalize (object es) = object (canonicalize_entries es)
    canonicalize null = null
    canonicalize undefined = undefined
    canonicalize (boolean b) = boolean b
    canonicalize (number n) = number n
    canonicalize (string t) = string t

    pub canonicalize_items : Items → Items
    canonicalize_items no_item = no_item
    canonicalize_items (item x xs) = item (canonicalize x) (canonicalize_items xs)

    -- The sort looks at the keys only, so it may come after the values.
    pub canonicalize_entries : Entries → Entries
    canonicalize_entries no_entry = no_entry
    canonicalize_entries (entry k v es) =
        let rest = canonicalize_entries es in
        let value = canonicalize v in if is_undefined v then rest else insert_entry k value rest

  unfoldable pub fingerprint_payload : Json → String
  fingerprint_payload payload = hash (stringify (canonicalize payload))

  -- The work, and the record of what it answers; `work` gives the text of `toJson`.
  unfoldable pub run_and_record : ℕ → IdempotentRequest → M String → M IdempotentExecution
  run_and_record created request work = do
    result ← work
    create_record (record {
      organization = request.organization;
      scope = request.scope;
      key = request.key;
      fingerprint = fingerprint_payload request.payload;
      response_body = result;
      response_status = request.response_status;
      expires_at = created + record_lifetime;
    })
    pure (record { body = result; replayed = false; response_status = request.response_status })

  unfoldable pub answer_existing : IdempotentRequest → IdempotencyRecord → M IdempotentExecution
  answer_existing request existing =
      if not (str_eq existing.fingerprint (fingerprint_payload request.payload))
      then throw key_reused
      else pure (record {
        body = existing.response_body;
        replayed = true;
        response_status = existing.response_status;
      })

  -- `if (existing) … `, and what follows it.
  unfoldable pub answer :
      ℕ → IdempotentRequest → M String → Option IdempotencyRecord → M IdempotentExecution
  answer created request work none = run_and_record created request work
  answer created request work (some existing) = answer_existing request existing

  -- `now` is the clock at the purge, `created` that at the new record.
  unfoldable pub execute_idempotent : ℕ → ℕ → IdempotentRequest → M String → M IdempotentExecution
  execute_idempotent now created request work = do
    modify (purge_expired request.organization now)
    existing ← gets (λ s. find_first (is_record_of request) s.idempotency_records)
    answer created request work existing
