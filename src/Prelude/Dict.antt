-- ===== src/Prelude/Dict.antt =====
-- Python's dict, in insertion order, over keys with a Boolean equality.
pub mod Sum
use mathlib.Core.Path.{◌≡◌, refl}
use mathlib.Core.Logic.{◌≢◌}
use mathlib.Core.Bool.{Bool, true, false}
use mathlib.Core.Option.{Option, none, some}
use mathlib.Core.List.{List, [], ◌∷◌}
use native.Mathlib.Omega.{arith}
use memeval.Prelude.Tests.{if◌then◌else◌}
use memeval.Prelude.Keys.{Eq}

abbrev pub Dict {ℓ κ} : Type ℓ → Type κ → Type (ℓ ⊔ κ)
Dict K V = List (K × V)

module _ {ℓ} {K V : Type ℓ} ⦃e : Eq K⦄ where
  -- d.get(k)
  unfoldable pub get : Dict K V → K → Option V
  get [] k = none
  get ((j, v) ∷ d) k = if e.beq j k then some v else get d k

  -- d.get(k, default)
  abbrev pub get_or : Dict K V → K → V → V
  get_or d k v = elim (get d k) [ none ↦ v | some w ↦ w ]

  -- k in d
  abbrev pub contains : Dict K V → K → Bool
  contains d k = elim (get d k) [ none ↦ false | some _ ↦ true ]

  -- d[k] = v
  unfoldable pub put : Dict K V → K → V → Dict K V
  put [] k v = (k, v) ∷ []
  put ((j, w) ∷ d) k v = if e.beq j k then (j, v) ∷ d else (j, w) ∷ put d k v

  -- d.pop(k, None), where no key is listed twice
  unfoldable pub remove : Dict K V → K → Dict K V
  remove [] k = []
  remove ((j, w) ∷ d) k = if e.beq j k then d else (j, w) ∷ remove d k

  pub get-put :
      (d : Dict K V) (k j : K) (v : V) → get (put d k v) j ≡ (if e.beq k j then some v else get d j)
  unfolding get put
  get-put [] k j v = refl
  get-put ((i, w) ∷ d) k j v =
      ground (arith, e.beq_iff i k, e.beq_iff i j, e.beq_iff k j, get-put d k j v)

  pub get-put_self : (d : Dict K V) (k : K) (v : V) → get (put d k v) k ≡ some v
  get-put_self d k v = ground (arith, get-put d k k v, e.beq_iff k k)

  pub get-put_ne : (d : Dict K V) (k j : K) (v : V) → k ≢ j → get (put d k v) j ≡ get d j
  get-put_ne d k j v h = ground (arith, get-put d k j v, e.beq_iff k j)

  pub get_or-put :
      (d : Dict K V) (k j : K) (v x : V)
      → get_or (put d k v) j x ≡ (if e.beq k j then v else get_or d j x)
  get_or-put d k j v x = ground (arith, get-put d k j v)

  pub put-get : (d : Dict K V) (k : K) (v : V) → get d k ≡ some v → put d k v ≡ d
  unfolding get put
  put-get [] k v h = ground arith
  put-get ((j, w) ∷ d) k v h = ground (arith, put-get d k v)

  -- No key is listed twice.
  abbrev pub NoShadow : Dict K V → Type ℓ
  NoShadow [] = Unit
  NoShadow ((k, v) ∷ d) = (get d k ≡ none) × NoShadow d

  pub put-NoShadow : (d : Dict K V) (k : K) (v : V) → NoShadow d → NoShadow (put d k v)
  unfolding put get
  put-NoShadow [] k v h = (refl, tt)
  put-NoShadow ((j, w) ∷ d) k v h =
      ground (arith, e.beq_iff j k, e.beq_iff k j, get-put d k j v, put-NoShadow d k v h.1)
