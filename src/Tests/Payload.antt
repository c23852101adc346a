-- ===== src/Tests/Payload.antt =====
-- Two writings of one payload.
use Prim.Native.String.{String}
use text.Mathlib.Text.{◌==◌ as str_eq}
use stock_pilot.Prelude.{◌≡◌, refl, Bool, ◌||◌, not, arith}
use stock_pilot.Idempotency.{
  Json, string, undefined, object, Entries, no_entry, entry, fingerprint_payload,
}
use stock_pilot.Idempotency.Fingerprint.{
  IsOrder, swapped, left_out, below, both, fingerprint_payload-Rewritten,
}

-- "b" comes last.
abbrev b_last : String → String → Bool
b_last l r = not (str_eq l "b") || str_eq r "b"

b_last-IsOrder : IsOrder b_last
b_last-IsOrder = record { total = λ a b. ground arith; transitive = λ a b c h k. ground arith }

abbrev printed : Json → String
printed (string t) = t
printed _ = "object"

abbrev plain : String → String
plain t = t

abbrev one_way : Entries
one_way = entry "b" (string "2") (entry "a" (string "1") (entry "c" undefined no_entry))

abbrev other_way : Entries
other_way = entry "a" (string "1") (entry "b" (string "2") no_entry)

fingerprint_payload-Rewritten_example :
    fingerprint_payload b_last printed plain (object one_way)
    ≡ fingerprint_payload b_last printed plain (object other_way)
fingerprint_payload-Rewritten_example =
    fingerprint_payload-Rewritten b_last printed plain b_last-IsOrder one_way other_way
      (both (swapped refl) (below (below left_out)))
