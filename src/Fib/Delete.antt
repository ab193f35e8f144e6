-- ===== src/Fib/Delete.antt =====
-- `fib_delete` of rt-fib.c takes the node of a prefix out of the table.
use active_bgp_measurement.Base.{ℕ, ◌-◌, ◌^◌, ◌<◌, ◌≡◌, refl, ◌∙◌}
use active_bgp_measurement.Base.{List, ◌&&◌, none, some, arith, ok, bug}
use active_bgp_measurement.Base.{◌==◌, if◌then◌else◌, Option-cases, ◌⊎◌, inl, inr}
use active_bgp_measurement.Fib.{FibNode, Fib, unlink, fib_find, fib_delete, count_down}
use active_bgp_measurement.Fib.Unlink.{
  IsNodes-unlink, find_in-unlink, All-unlink, unlink-none, length-unlink, unlink-found,
}
use active_bgp_measurement.Fib.Invariant.{IsFib}
use active_bgp_measurement.Fib.Update.{
  bucket, length-bucket, with_bucket, IsNodes-bucket, Belongs-bucket, IsFib-with_bucket,
  fib_find-with_bucket, fib_find-at_key,
}
use active_bgp_measurement.Fib.Count.{count_down_lem}

module _ {V : Type 0} (ipa_hash : ℕ → ℕ) where
  fib_delete-absent :
      (f : Fib V) (a len : ℕ)
      → unlink a len (bucket ipa_hash f a) ≡ none
      → fib_delete ipa_hash f a len ≡ bug
  unfolding fib_delete
  fib_delete-absent f a len absent = rw (fib_delete, absent) refl

  fib_delete-found :
      (f : Fib V) (a len : ℕ) (c : List (FibNode V))
      → unlink a len (bucket ipa_hash f a) ≡ some c
      → fib_delete ipa_hash f a len
        ≡ ok (count_down ipa_hash (with_bucket ipa_hash f a c f.entries))
  unfolding fib_delete
  fib_delete-found f a len c found = rw (fib_delete, found) refl

  -- What a table without the prefix is to be.
  abbrev pub Deleted : Fib V → ℕ → ℕ → Fib V → Type 0
  Deleted f a len f' =
      ((x l : ℕ)
        → fib_find ipa_hash f' x l ≡ (if len == l && x == a then none else fib_find ipa_hash f x l))
      × IsFib ipa_hash f'

  -- When the primary hashes have 16 bits, the invariant of the table holds and its count of entries
  -- is below 2 ^ 32, then fib_delete of a prefix that the table does not have calls bug(), and of a
  -- prefix that it has leaves a table in which the prefix is not found and every other prefix finds
  -- what it found before, and whose invariant holds.
  pub fib_delete_lem :
      (hashed : (a : ℕ) → ipa_hash a < 2 ^ 16) (f : Fib V) (a len : ℕ)
      → IsFib ipa_hash f
      → f.entries < 2 ^ 32
      → ((fib_find ipa_hash f a len ≡ none) × (fib_delete ipa_hash f a len ≡ bug))
        ⊎ ((e : FibNode V) × (fib_find ipa_hash f a len ≡ some e)
            × ((f' : Fib V) × (fib_delete ipa_hash f a len ≡ ok f') × Deleted f a len f'))
  unfolding fib_find
  fib_delete_lem hashed f a len h few =
      let b = bucket ipa_hash f a in
      elim (Option-cases (unlink a len b)) [
        | inl absent ↦ inl (unlink-none a len b absent, fib_delete-absent f a len absent)
        | inr (c, found) ↦
            let shorter = length-unlink a len b c found in
            let counts = length-bucket ipa_hash hashed f a h in
            let good =
              IsFib-with_bucket ipa_hash hashed f a c (f.entries - 1) h
                (IsNodes-unlink a len b c (IsNodes-bucket ipa_hash f a h) found)
                (All-unlink _ a len b c found (Belongs-bucket ipa_hash f a h)) (omega arith) in
            let counted =
              count_down_lem ipa_hash hashed (with_bucket ipa_hash f a c f.entries) (f.entries - 1)
                (omega arith) (omega arith) good in
            let (e, old) = unlink-found a len b c found in
            inr (
              e,
              old,
              (
                count_down ipa_hash (with_bucket ipa_hash f a c f.entries),
                fib_delete-found f a len c found,
                (
                  λ x l.
                      counted.0 x l
                      ∙ fib_find-with_bucket ipa_hash hashed f a c (f.entries - 1) x l h
                      ∙ rw (find_in-unlink a len b c (IsNodes-bucket ipa_hash f a h) found x l)
                          (fib_find-at_key ipa_hash f a len x l none),
                  counted.1,
                ),
              ),
            )
      ]
