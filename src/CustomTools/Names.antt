-- ===== src/CustomTools/Names.antt =====
-- Keys of dicts under insertion and update.
use eda_agent.Base.{
  String, true, false, ◌≡◌, refl, sym, ap, subst, ◌∙◌, some, List, [], ◌∷◌, All, str_eq, mem_str,
  arith, if◌then◌else◌,
}
use eda_agent.Json.Dict.{Dict, lookup, insert, lookup-insert}
use eda_agent.CustomTools.Bindings.{keys, update}

-- The keys of a dict after an insertion, and after an update.
abbrev pub insert_key : String → List String → List String
insert_key key [] = key ∷ []
insert_key key (found ∷ ks) =
    let rest = insert_key key ks in if str_eq found key then found ∷ ks else found ∷ rest

abbrev pub insert_keys : List String → List String → List String
insert_keys ks [] = ks
insert_keys ks (j ∷ js) = insert_keys (insert_key j ks) js

pub All-insert_key :
    (P : String → Type 0) (key : String) (ks : List String)
    → P key
    → All P ks
    → All P (insert_key key ks)
All-insert_key P key [] p h = (p, tt)
All-insert_key P key (k ∷ ks) p h =
    elim (str_eq k key) as (λ b. All P (if b then k ∷ ks else k ∷ insert_key key ks)) [
      | true ↦ h
      | false ↦ (h.0, All-insert_key P key ks p h.1)
    ]

module _ {ℓ} {V : Type ℓ} where
  pub keys-insert :
      (key : String) (v : V) (d : Dict V) → keys (insert key v d) ≡ insert_key key (keys d)
  unfolding insert
  keys-insert key v [] = refl
  keys-insert key v ((i, x) ∷ d) = ground (arith, keys-insert key v d)

  pub All-insert :
      (P : V → Type 0) (key : String) (v : V) (d : Dict V)
      → P v
      → All (λ (e : String × V). P e.1) d
      → All (λ (e : String × V). P e.1) (insert key v d)
  unfolding insert
  All-insert P key v [] p h = (p, tt)
  All-insert P key v ((i, x) ∷ d) p h =
      elim (str_eq i key)
        as (λ b.
          All (λ (e : String × V). P e.1) (if b then (i, v) ∷ d else (i, x) ∷ insert key v d)) [
            | true ↦ (p, h.1)
            | false ↦ (h.0, All-insert P key v d p h.1)
          ]

  pub All-update :
      (P : V → Type 0) (d e : Dict V)
      → All (λ (e : String × V). P e.1) d
      → All (λ (e : String × V). P e.1) e
      → All (λ (e : String × V). P e.1) (update d e)
  unfolding update
  All-update P d [] h k = h
  All-update P d ((i, x) ∷ e) h k = All-update P (insert i x d) e (All-insert P i x d k.0 h) k.1

  pub All-keys-update :
      (P : String → Type 0) (d e : Dict V)
      → All P (keys d)
      → All P (keys e)
      → All P (keys (update d e))
  unfolding update
  All-keys-update P d [] h k = h
  All-keys-update P d ((i, x) ∷ e) h k =
      All-keys-update P (insert i x d) e
        (subst (All P) (sym (keys-insert i x d)) (All-insert_key P i (keys d) k.0 h)) k.1

  -- A key that the second dict lacks keeps its value.
  pub lookup-update :
      (name : String) (d e : Dict V)
      → All (λ k. str_eq k name ≡ false) (keys e)
      → lookup name (update d e) ≡ lookup name d
  unfolding update
  lookup-update name d [] h = refl
  lookup-update name d ((i, x) ∷ e) h =
      lookup-update name (insert i x d) e h.1
      ∙ lookup-insert i name x d
      ∙ ap (λ b. if b then some x else lookup name d) h.0

  pub keys-lookup :
      (name : String) (v : V) (d : Dict V) → lookup name d ≡ some v → mem_str name (keys d) ≡ true
  unfolding lookup
  keys-lookup name v [] h = ground (arith, h)
  keys-lookup name v ((i, x) ∷ d) h = ground (arith, h, keys-lookup name v d)

  pub keys-update : (d e : Dict V) → keys (update d e) ≡ insert_keys (keys d) (keys e)
  unfolding update
  keys-update d [] = refl
  keys-update d ((i, x) ∷ e) =
      keys-update (insert i x d) e ∙ ap (λ ks. insert_keys ks (keys e)) (keys-insert i x d)
