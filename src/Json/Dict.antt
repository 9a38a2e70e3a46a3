-- ===== src/Json/Dict.antt =====
-- A Python dict with text keys, as an association list in insertion order.
use eda_agent.Base.{
  String, List, [], ◌∷◌, ◌≡◌, refl, Option, none, some, str_eq, eq_iff, arith, if◌then◌else◌,
}

abbrev pub Dict {ℓ} : Type ℓ → Type ℓ
Dict V = List (String × V)

module _ {ℓ} {V : Type ℓ} where
  -- d.get(key)
  unfoldable pub lookup : String → Dict V → Option V
  lookup key [] = none
  lookup key ((found, value) ∷ d) = if str_eq found key then some value else lookup key d

  -- d[key] = value: an old key keeps its place.
  unfoldable pub insert : String → V → Dict V → Dict V
  insert key new [] = (key, new) ∷ []
  insert key new ((found, value) ∷ d) =
      if str_eq found key then (found, new) ∷ d else (found, value) ∷ insert key new d

  pub lookup-insert :
      (key asked : String) (new : V) (d : Dict V)
      → lookup asked (insert key new d) ≡ (if str_eq key asked then some new else lookup asked d)
  unfolding lookup insert
  lookup-insert key asked new [] = refl
  lookup-insert key asked new ((found, value) ∷ d) =
      let ih = lookup-insert key asked new d in
      ground (arith, ih, eq_iff found key, eq_iff found asked, eq_iff key asked)
