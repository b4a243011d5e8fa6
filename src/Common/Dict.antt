-- ===== src/Common/Dict.antt =====
-- Objects used as dictionaries: association lists in insertion order, with text keys. A write to a
-- key that is present keeps its place; `delete` removes the key.
pub mod Unique
use Prim.Native.String.{String}
use mathlib.Core.Path.{◌≡◌, refl}
use mathlib.Core.Bool.{Bool, true}
use mathlib.Core.List.{List, [], ◌∷◌}
use mathlib.Core.Option.{Option, none, some}
use native.Mathlib.Omega.{arith}
use text.Mathlib.TextEquality.{eq_iff}
use text.Mathlib.TextPositions.{eq_refl}
unfoldable use text.Mathlib.Text.{◌==◌ as str_eq}
use oocsi_web.Common.Tests.{if◌then◌else◌}

abbrev pub Dict {ℓ} : Type ℓ → Type ℓ
Dict V = List (String × V)

module _ {ℓ} {V : Type ℓ} where
  unfoldable pub lookup : String → Dict V → Option V
  lookup wanted [] = none
  lookup wanted ((key, value) ∷ rest) = if str_eq key wanted then some value else lookup wanted rest

  unfoldable pub insert : String → V → Dict V → Dict V
  insert key value [] = (key, value) ∷ []
  insert key value ((other, old) ∷ rest) =
      let later = insert key value rest in
      if str_eq other key then (key, value) ∷ rest else (other, old) ∷ later

  unfoldable pub erase : String → Dict V → Dict V
  erase k [] = []
  erase k ((j, w) ∷ m) = let rest = erase k m in if str_eq j k then rest else (j, w) ∷ rest

  unfoldable pub keep_values : (V → Bool) → Dict V → Dict V
  keep_values p [] = []
  keep_values p ((j, w) ∷ m) = let rest = keep_values p m in if p w then (j, w) ∷ rest else rest

  pub lookup-insert :
      (key wanted : String) (value : V) (dict : Dict V)
      → lookup wanted (insert key value dict)
        ≡ (if str_eq key wanted then some value else lookup wanted dict)
  unfolding lookup insert
  lookup-insert key wanted value [] = refl
  lookup-insert key wanted value ((other, old) ∷ rest) =
      let ih = lookup-insert key wanted value rest in
      ground (arith, eq_iff other wanted, eq_iff other key, eq_iff key wanted)

  pub lookup-erase :
      (key wanted : String) (dict : Dict V)
      → lookup wanted (erase key dict) ≡ (if str_eq key wanted then none else lookup wanted dict)
  unfolding lookup erase
  lookup-erase key wanted [] = ground arith
  lookup-erase key wanted ((other, old) ∷ rest) =
      let ih = lookup-erase key wanted rest in
      ground (arith, eq_iff other wanted, eq_iff key wanted, eq_iff other key)

  pub lookup-insert_self :
      (key : String) (value : V) (dict : Dict V) → lookup key (insert key value dict) ≡ some value
  lookup-insert_self key value dict = simp (eq_refl, lookup-insert)

  pub lookup-keep_kept :
      (test : V → Bool) (key : String) (value : V) (dict : Dict V)
      → lookup key dict ≡ some value
      → test value ≡ true
      → lookup key (keep_values test dict) ≡ some value
  unfolding lookup keep_values
  lookup-keep_kept test key value [] e h = cc
  lookup-keep_kept test key value ((other, old) ∷ rest) e h =
      ground (arith, lookup-keep_kept test key value rest)
