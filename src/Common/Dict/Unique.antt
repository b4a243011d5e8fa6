-- ===== src/Common/Dict/Unique.antt =====
-- Dictionaries that have every key once, as objects do.
use oocsi_web.Common.{
  String, Bool, Option, none, some, [], ◌∷◌, ◌≡◌, refl, arith, if◌then◌else◌, str_eq, eq_iff, subst,
  Bool-cases, inl, inr,
}
use oocsi_web.Common.Dict.{Dict, lookup, insert, keep_values, lookup-insert}

module _ {ℓ} {V : Type ℓ} where
  -- No key stands twice.
  unfoldable pub IsUnique : Dict V → Type ℓ
  IsUnique [] = Unit
  IsUnique ((key, value) ∷ rest) = (lookup key rest ≡ none) × IsUnique rest

  -- The value under a key, if it passes.
  unfoldable pub passed : (V → Bool) → Option V → Option V
  passed test none = none
  passed test (some value) = if test value then some value else none

  keep_values-absent :
      (test : V → Bool) (key : String) (dict : Dict V)
      → lookup key dict ≡ none
      → lookup key (keep_values test dict) ≡ none
  unfolding lookup keep_values
  keep_values-absent test key [] h = refl
  keep_values-absent test key ((other, value) ∷ rest) h =
      let ih = keep_values-absent test key rest in ground (arith, h, ih)

  pub keep_values-IsUnique :
      (test : V → Bool) (dict : Dict V) → IsUnique dict → IsUnique (keep_values test dict)
  unfolding IsUnique keep_values
  keep_values-IsUnique test [] h = tt
  keep_values-IsUnique test ((key, value) ∷ rest) (absent, h) = elim (Bool-cases (test value)) [
    | inl e ↦ rw e (keep_values-absent test key rest absent, keep_values-IsUnique test rest h)
    | inr e ↦ rw e (keep_values-IsUnique test rest h)
  ]

  pub insert-IsUnique :
      (key : String) (value : V) (dict : Dict V) → IsUnique dict → IsUnique (insert key value dict)
  unfolding IsUnique insert lookup
  insert-IsUnique key value [] h = (refl, tt)
  insert-IsUnique key value ((other, old) ∷ rest) (absent, h) =
      elim (Bool-cases (str_eq other key)) [
        | inl e ↦ rw e (subst (λ k. lookup k rest ≡ none) ((eq_iff other key).0 e) absent, h)
        | inr e ↦ rw e (
          ground (
            arith,
            e,
            absent,
            lookup-insert key other value rest,
            eq_iff key other,
            eq_iff other key,
          ),
          insert-IsUnique key value rest h,
        )
      ]

  pub lookup-keep_values :
      (test : V → Bool) (key : String) (dict : Dict V)
      → IsUnique dict
      → lookup key (keep_values test dict) ≡ passed test (lookup key dict)
  unfolding IsUnique lookup keep_values passed
  lookup-keep_values test key [] h = refl
  lookup-keep_values test key ((other, value) ∷ rest) (absent, h) =
      let later = lookup-keep_values test key rest h in
      elim (Bool-cases (str_eq other key)) [
        | inl e ↦
            let gone =
              keep_values-absent test key rest
                (subst (λ k. lookup k rest ≡ none) ((eq_iff other key).0 e) absent) in
            ground (arith, e, gone)
        | inr e ↦ ground (arith, e, later)
      ]
