-- ===== src/Idempotency/Fingerprint.antt =====
-- Which payloads have one fingerprint: the order of an object's entries and its undefined entries
-- do not matter, at any depth of objects.
use Prim.Native.String.{String}
use stock_pilot.Prelude.{◌≡◌, refl, ap, ◌∙◌, Bool, true, false, ◌&&◌, ◌||◌, arith}
use stock_pilot.Idempotency.{
  Json, undefined, object, Entries, no_entry, entry, is_undefined, insert_entry, canonicalize,
  canonicalize_entries, fingerprint_payload,
}

-- `localeCompare(left, right) <= 0` is a total preorder.
pub record IsOrder (comes_first : String → String → Bool) : Type 0 where
  pub total : (a b : String) → (comes_first a b || comes_first b a) ≡ true
  pub transitive :
      (a b c : String) → comes_first a b ≡ true → comes_first b c ≡ true → comes_first a c ≡ true

-- Two objects written differently: entries exchanged whose keys do not compare as equal, an
-- undefined entry left out, both also below an entry.
pub data Rewritten (comes_first : String → String → Bool) : Entries → Entries → Type 0 where
  swapped :
      {k j : String} {v w : Json} {es : Entries}
      → (comes_first k j && comes_first j k) ≡ false
      → Rewritten comes_first (entry k v (entry j w es)) (entry j w (entry k v es))
  left_out : {k : String} {es : Entries} → Rewritten comes_first (entry k undefined es) es
  below :
      {k : String} {v : Json} {es fs : Entries}
      → Rewritten comes_first es fs
      → Rewritten comes_first (entry k v es) (entry k v fs)
  inside :
      {k : String} {es fs gs : Entries}
      → Rewritten comes_first es fs
      → Rewritten comes_first (entry k (object es) gs) (entry k (object fs) gs)
  both :
      {es fs gs : Entries}
      → Rewritten comes_first es fs
      → Rewritten comes_first fs gs
      → Rewritten comes_first es gs

module _ (comes_first : String → String → Bool) (stringify : Json → String)
    (hash : String → String) where
  insert_entry-insert_entry :
      (order : IsOrder comes_first) (k j : String) (v w : Json) (es : Entries)
      → (comes_first k j && comes_first j k) ≡ false
      → insert_entry comes_first stringify hash k v (insert_entry comes_first stringify hash j w es)
        ≡ insert_entry comes_first stringify hash j w
            (insert_entry comes_first stringify hash k v es)
  unfolding insert_entry
  insert_entry-insert_entry order k j v w no_entry d = ground (arith, order.total k j)
  insert_entry-insert_entry order k j v w (entry i x es) d = ground (
    arith,
    order.total k j,
    order.total k i,
    order.total j i,
    order.transitive k i j,
    order.transitive j i k,
    insert_entry-insert_entry order k j v w es d,
  )

  canonicalize_entries-Rewritten :
      (order : IsOrder comes_first) {es fs : Entries}
      → Rewritten comes_first es fs
      → canonicalize_entries comes_first stringify hash es
        ≡ canonicalize_entries comes_first stringify hash fs
  unfolding canonicalize canonicalize_entries is_undefined
  canonicalize_entries-Rewritten order (swapped {k} {j} {v} {w} {es} d) = ground (
    arith,
    insert_entry-insert_entry order k j (canonicalize comes_first stringify hash v)
        (canonicalize comes_first stringify hash w)
        (canonicalize_entries comes_first stringify hash es) d,
  )
  canonicalize_entries-Rewritten order left_out = refl
  canonicalize_entries-Rewritten order (below {k} {v} {es} {fs} r) =
      rw (canonicalize_entries-Rewritten order r) refl
  canonicalize_entries-Rewritten order (inside {k} {es} {fs} {gs} r) =
      rw (canonicalize_entries-Rewritten order r) refl
  canonicalize_entries-Rewritten order (both r q) =
      canonicalize_entries-Rewritten order r ∙ canonicalize_entries-Rewritten order q

  -- Where `localeCompare` orders the keys, payloads that differ only in the order of entries whose
  -- keys do not compare as equal, and in undefined entries, have one fingerprint, whatever the
  -- hash; so have those that differ in this way in an object below them.
  pub fingerprint_payload-Rewritten :
      (order : IsOrder comes_first) (es fs : Entries)
      → Rewritten comes_first es fs
      → fingerprint_payload comes_first stringify hash (object es)
        ≡ fingerprint_payload comes_first stringify hash (object fs)
  unfolding fingerprint_payload canonicalize
  fingerprint_payload-Rewritten order es fs r =
      ap (λ x. hash (stringify (object x))) (canonicalize_entries-Rewritten order r)
