-- ===== src/Prelude/Map.antt =====
-- A JavaScript Map with text keys: its entries in the order of insertion, and a table that is kept
-- within a cap by a sweep and, where that is not enough, by the eviction of the oldest entry.
use Prim.Native.String.{String}
use Prim.Native.Nat.{ℕ, suc, ◌≤◌, ◌<◌}
use text.Mathlib.Text.{◌==◌ as str_eq}
use text.Mathlib.TextEquality.{eq_iff}
use mathlib.Core.Path.{◌≡◌, refl}
use mathlib.Core.Logic.{◌≢◌, ◌⊎◌, inl, inr}
use mathlib.Core.Bool.{Bool, false}
use mathlib.Core.Option.{Option, none, some}
use mathlib.Core.List.{List, [], ◌∷◌}
use native.Mathlib.Omega.{arith}
use stock_pilot.Prelude.Tests.{leb, ltb, if◌then◌else◌, Option-cases, Bool-cases}
use stock_pilot.Prelude.Lists.{length}

abbrev pub Map : Type 0 → Type 0
Map A = List (String × A)

module _ {A : Type 0} where
  unfoldable pub get : String → Map A → Option A
  get k [] = none
  get k ((j, b) ∷ bs) = if str_eq j k then some b else get k bs

  -- `Map.set`: in place for a key that is there, at the end for a new one.
  unfoldable pub set : String → A → Map A → Map A
  set k b [] = (k, b) ∷ []
  set k b ((j, c) ∷ bs) = if str_eq j k then (j, b) ∷ bs else (j, c) ∷ set k b bs

  unfoldable pub delete : String → Map A → Map A
  delete k [] = []
  delete k ((j, c) ∷ bs) = if str_eq j k then bs else (j, c) ∷ delete k bs

  -- The entries that are not dead.
  unfoldable pub sweep : (A → Bool) → Map A → Map A
  sweep dead [] = []
  sweep dead ((j, b) ∷ bs) = let rest = sweep dead bs in if dead b then rest else (j, b) ∷ rest

  -- The first entry with the smallest age; the infinite start is the start with no key.
  unfoldable pub oldest : (A → ℕ) → Option (String × ℕ) → Map A → Option (String × ℕ)
  oldest age best [] = best
  oldest age none ((j, b) ∷ bs) = oldest age (some (j, age b)) bs
  oldest age (some (k, t)) ((j, b) ∷ bs) =
      oldest age (if ltb (age b) t then some (j, age b) else some (k, t)) bs

  unfoldable pub evict : (A → ℕ) → Map A → Map A
  evict age bs = elim (oldest age none bs) [ none ↦ bs | some (k, t) ↦ delete k bs ]

  -- A sweep where the table is full, and an eviction where it still is.
  unfoldable pub room : ℕ → (A → ℕ) → (A → Bool) → Map A → Map A
  room cap age dead bs =
      let swept = if leb cap (length bs) then sweep dead bs else bs in
      if leb cap (length swept) then evict age swept else swept

  -- A key that is there is written in place, a new one where there is room.
  unfoldable pub put : ℕ → (A → ℕ) → (A → Bool) → String → A → Map A → Map A
  put cap age dead key b bs = elim (get key bs) [
    | some _ ↦ set key b bs
    | none ↦ set key b (room cap age dead bs)
  ]

  pub get-set_self : (k : String) (b : A) (bs : Map A) → get k (set k b bs) ≡ some b
  unfolding get set
  get-set_self k b [] = ground (arith, eq_iff k k)
  get-set_self k b ((j, c) ∷ bs) = ground (arith, eq_iff k k, eq_iff j k, get-set_self k b bs)

  pub get-put_self :
      (cap : ℕ) (age : A → ℕ) (dead : A → Bool) (k : String) (b : A) (bs : Map A)
      → get k (put cap age dead k b bs) ≡ some b
  unfolding put
  get-put_self cap age dead k b bs = elim (Option-cases (get k bs)) [
    | inl e ↦ rw (put, e) (get-set_self k b (room cap age dead bs))
    | inr (x, e) ↦ rw (put, e) (get-set_self k b bs)
  ]

  pub get-set_other :
      (k j : String) (b : A) (bs : Map A) → str_eq j k ≡ false → get k (set j b bs) ≡ get k bs
  unfolding get set
  get-set_other k j b [] h = ground arith
  get-set_other k j b ((i, c) ∷ bs) h =
      ground (arith, eq_iff i j, eq_iff i k, eq_iff j k, get-set_other k j b bs h)

  pub length-set : (k : String) (b : A) (bs : Map A) → length (set k b bs) ≤ suc (length bs)
  unfolding set
  length-set k b [] = omega arith
  length-set k b ((j, c) ∷ bs) = ground (arith, length-set k b bs)

  -- Where there is room a write leaves the other keys, and adds at most one entry.
  pub get-put_other :
      (cap : ℕ) (age : A → ℕ) (dead : A → Bool) (k j : String) (b : A) (bs : Map A)
      → str_eq j k ≡ false
      → length bs < cap
      → get k (put cap age dead j b bs) ≡ get k bs
  unfolding put room
  get-put_other cap age dead k j b bs h free = ground (arith, get-set_other k j b bs h)

  pub length-put_free :
      (cap : ℕ) (age : A → ℕ) (dead : A → Bool) (j : String) (b : A) (bs : Map A)
      → length bs < cap
      → length (put cap age dead j b bs) ≤ suc (length bs)
  unfolding put room
  length-put_free cap age dead j b bs free = ground (arith, length-set j b bs)

  -- A sweep keeps what is not dead.
  pub get-sweep :
      (dead : A → Bool) (k : String) (b : A) (bs : Map A)
      → get k bs ≡ some b
      → dead b ≡ false
      → get k (sweep dead bs) ≡ some b
  unfolding get sweep
  get-sweep dead k b [] e h = cc
  get-sweep dead k b ((j, c) ∷ bs) e h = elim (Bool-cases (str_eq j k)) [
    | inl own ↦ let same : c ≡ b = ground arith in rw (same, h) (ground arith)
    | inr other ↦ ground (arith, get-sweep dead k b bs)
  ]

  pub length-set_present :
      (k : String) (b : A) (bs : Map A) → get k bs ≢ none → length (set k b bs) ≡ length bs
  unfolding set get
  length-set_present k b [] h = absurd (h refl)
  length-set_present k b ((j, c) ∷ bs) h = ground (arith, length-set_present k b bs)

  pub length-sweep : (dead : A → Bool) (bs : Map A) → length (sweep dead bs) ≤ length bs
  unfolding sweep
  length-sweep dead [] = omega arith
  length-sweep dead ((j, b) ∷ bs) = ground (arith, length-sweep dead bs)

  length-delete :
      (k : String) (bs : Map A) → get k bs ≢ none → suc (length (delete k bs)) ≡ length bs
  unfolding delete get
  length-delete k [] h = absurd (h refl)
  length-delete k ((j, c) ∷ bs) h = ground (arith, length-delete k bs)

  pub length-delete_le : (k : String) (bs : Map A) → length (delete k bs) ≤ length bs
  unfolding delete
  length-delete_le k [] = omega arith
  length-delete_le k ((j, c) ∷ bs) = ground (arith, length-delete_le k bs)

  -- A key is the candidate so far, or one of the entries.
  oldest-present :
      (age : A → ℕ) (k : String) (t : ℕ) (bs : Map A) (j : String) (u : ℕ)
      → oldest age (some (k, t)) bs ≡ some (j, u)
      → (j ≡ k) ⊎ (get j bs ≢ none)
  unfolding oldest get
  oldest-present age k t [] j u e = inl (cc)
  oldest-present age k t ((i, b) ∷ bs) j u e = elim (Bool-cases (ltb (age b) t)) [
    | inl sooner ↦ grind (arith, eq_iff i j, oldest-present age i (age b) bs j u)
    | inr later ↦ grind (arith, eq_iff i j, oldest-present age k t bs j u)
  ]

  oldest-ne-none :
      (age : A → ℕ) (k : String) (t : ℕ) (bs : Map A) → oldest age (some (k, t)) bs ≢ none
  unfolding oldest
  oldest-ne-none age k t [] e = cc
  oldest-ne-none age k t ((i, b) ∷ bs) e = elim (Bool-cases (ltb (age b) t)) [
    | inl sooner ↦ oldest-ne-none age i (age b) bs (rw sooner at e)
    | inr later ↦ oldest-ne-none age k t bs (rw later at e)
  ]

  oldest-cases :
      (age : A → ℕ) (k : String) (t : ℕ) (bs : Map A)
      → (j : String) × (u : ℕ) × (oldest age (some (k, t)) bs ≡ some (j, u))
  oldest-cases age k t bs = elim (Option-cases (oldest age (some (k, t)) bs)) [
    | inl e ↦ absurd (oldest-ne-none age k t bs e)
    | inr (p, e) ↦ (p.0, p.1, e)
  ]

  length-evict :
      (age : A → ℕ) (bs : Map A) → 0 < length bs → suc (length (evict age bs)) ≡ length bs
  unfolding evict get oldest
  length-evict age [] h = absurd (omega arith)
  length-evict age ((j, b) ∷ bs) h =
      let (k, u, e) = oldest-cases age j (age b) bs in
      let present : get k ((j, b) ∷ bs) ≢ none =
        ground (arith, eq_iff j k, oldest-present age j (age b) bs k u e) in
      ground (arith, e, length-delete k ((j, b) ∷ bs) present)

  length-room :
      (cap : ℕ) (age : A → ℕ) (dead : A → Bool) (bs : Map A)
      → 0 < cap
      → length bs ≤ cap
      → length (room cap age dead bs) < cap
  unfolding room
  length-room cap age dead bs pos h =
      ground (arith, length-sweep dead bs, length-evict age bs, length-evict age (sweep dead bs))

  -- The table stays within its cap.
  pub length-put :
      (cap : ℕ) (age : A → ℕ) (dead : A → Bool) (k : String) (b : A) (bs : Map A)
      → 0 < cap
      → length bs ≤ cap
      → length (put cap age dead k b bs) ≤ cap
  unfolding put
  length-put cap age dead k b bs pos h = ground (
    arith,
    length-set k b (room cap age dead bs),
    length-set_present k b bs,
    length-room cap age dead bs pos h,
  )
