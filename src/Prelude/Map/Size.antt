-- ===== src/Prelude/Map/Size.antt =====
-- How many entries a map holds: no key stands twice, so the entries are bounded by any list that
-- has their keys.
use bssl_ram.Prelude.Checks.{if◌then◌else◌, Eq, Bool-cases, ◌>>=◌}
use bssl_ram.Prelude.Lists.{length, any}
use bssl_ram.Prelude.Map.{
  Map, lookup, insert, remove, retain, lookup-insert, lookup-remove, lookup-retain_keys,
}
use Prim.Native.Nat.{suc, ◌≤◌}
use mathlib.Core.Path.{◌≡◌, refl, ap}
use mathlib.Core.Bool.{Bool, true}
use mathlib.Core.Logic.{◌≢◌, inl, inr}
use mathlib.Core.Option.{none, some}
use mathlib.Core.List.{List, [], ◌∷◌}
use native.Mathlib.Omega.{arith}

module _ {ℓ κ} {K : Type ℓ} {V : Type κ} ⦃eq : Eq K⦄ where
  abbrev pub NodupKeys : Map K V → Type κ
  NodupKeys [] = Unit
  NodupKeys ((k, v) ∷ m) = (lookup k m ≡ none) × NodupKeys m

  pub insert-NodupKeys : (k : K) (v : V) (m : Map K V) → NodupKeys m → NodupKeys (insert k v m)
  unfolding insert lookup
  insert-NodupKeys k v [] h = (refl, tt)
  insert-NodupKeys k v ((j, w) ∷ m) h =
      ground
        (arith, eq.beq_iff j k, eq.beq_iff k j, insert-NodupKeys k v m h.1, lookup-insert k j v m)

  pub remove-NodupKeys : (k : K) (m : Map K V) → NodupKeys m → NodupKeys (remove k m)
  unfolding remove
  remove-NodupKeys k [] h = tt
  remove-NodupKeys k ((j, w) ∷ m) h = ground (arith, remove-NodupKeys k m h.1, lookup-remove k j m)

  pub retain-NodupKeys :
      (p : K → Bool) (m : Map K V) → NodupKeys m → NodupKeys (retain (λ k _. p k) m)
  unfolding retain
  retain-NodupKeys p [] h = tt
  retain-NodupKeys p ((j, w) ∷ m) h =
      ground (arith, retain-NodupKeys p m h.1, lookup-retain_keys p j m)

  -- The entry of a key after `retain`.
  pub lookup-retain :
      (p : K → V → Bool) (k : K) (m : Map K V)
      → NodupKeys m
      → lookup k (retain p m) ≡ (do v ← lookup k m; if p k v then some v else none)
  unfolding lookup retain
  lookup-retain p k [] h = refl
  lookup-retain p k ((j, w) ∷ m) h = elim (Bool-cases (eq.beq j k)) [
    | inl same ↦
        let e : j ≡ k = (eq.beq_iff j k).0 same in
        let absent : lookup k m ≡ none = rw (← e) h.0 in
        ground (arith, lookup-retain p k m h.1, ap (λ x. p x w) e)
    | inr other ↦ ground (arith, lookup-retain p k m h.1)
  ]

  pub retain-NodupKeys_all : (p : K → V → Bool) (m : Map K V) → NodupKeys m → NodupKeys (retain p m)
  unfolding retain
  retain-NodupKeys_all p [] h = tt
  retain-NodupKeys_all p ((j, w) ∷ m) h =
      ground (arith, retain-NodupKeys_all p m h.1, lookup-retain p j m h.1)

  remove_absent : (k : K) (m : Map K V) → lookup k m ≡ none → remove k m ≡ m
  unfolding remove lookup
  remove_absent k [] h = refl
  remove_absent k ((j, w) ∷ m) h = ground (arith, remove_absent k m)

  length-le-remove : (k : K) (m : Map K V) → NodupKeys m → length m ≤ suc (length (remove k m))
  unfolding remove
  length-le-remove k [] h = omega arith
  length-le-remove k ((j, w) ∷ m) h = elim (Bool-cases (eq.beq j k)) [
    | inl same ↦
        let e : j ≡ k = (eq.beq_iff j k).0 same in
        ground (arith, remove_absent j m h.0, ap (λ x. remove x m) e)
    | inr other ↦ ground (arith, length-le-remove k m h.1)
  ]

  -- Every key of `m` is in `l`.
  abbrev pub KeysWithin : Map K V → List K → Type (ℓ ⊔ κ)
  KeysWithin m l = (k : K) → lookup k m ≢ none → any (λ j. eq.beq j k) l ≡ true

  head_found : (k : K) (v : V) (m : Map K V) → lookup k ((k, v) ∷ m) ≢ none
  unfolding lookup
  head_found k v m = λ e. ground (arith, eq.beq_iff k k)

  shrink : (j : K) (l : List K) (m : Map K V) → KeysWithin m (j ∷ l) → KeysWithin (remove j m) l
  shrink j l m w k found = elim (Bool-cases (eq.beq j k)) [
    | inl same ↦ absurd (found (rw lookup-remove (rw same)))
    | inr other ↦
        let kept : lookup k m ≢ none = λ e. found (rw lookup-remove (rw other e)) in
        ground (arith, w k kept)
  ]

  pub length-le_of_KeysWithin :
      (l : List K) (m : Map K V) → NodupKeys m → KeysWithin m l → length m ≤ length l
  length-le_of_KeysWithin [] [] h w = omega arith
  length-le_of_KeysWithin [] ((k, v) ∷ m) h w =
      absurd (ground (arith, w k (head_found k v m), eq.beq_iff k k))
  length-le_of_KeysWithin (j ∷ l) m h w =
      let within = λ (k : K) (found : lookup k (remove j m) ≢ none). shrink j l m w k found in
      let rest = length-le_of_KeysWithin l (remove j m) (remove-NodupKeys j m h) within in
      omega (arith, length-le-remove j m h)
