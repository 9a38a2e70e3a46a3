-- ===== src/Memory/Groups.antt =====
-- The loops of `_evict_if_needed`, `shrink_to_byte_budget` and `_trim_to_token_budget`: drop the
-- first message and the tool messages glued to it, until what is left fits.
use eda_agent.Base.{
  ℕ, zero, suc, ◌≤◌, ◌<◌, ◌≡◌, refl, ap, sym, ◌∙◌, ◌⊎◌, inl, inr, Bool, true, false, List, [], ◌∷◌,
  ◌++◌, arith, length, map, if◌then◌else◌, Bool-cases, append_assoc, length-append,
}

module _ {ℓ} {A : Type ℓ} (is_tool : A → Bool) where
  -- while history and history[0].role == "tool": history.pop(0)
  unfoldable pub drop_tools : List A → List A
  drop_tools [] = []
  drop_tools (m ∷ ms) = let rest = drop_tools ms in if is_tool m then rest else m ∷ ms

  unfoldable pub drop_group : List A → List A
  unfolding drop_tools
  drop_group [] = []
  drop_group (m ∷ ms) = drop_tools ms

  -- `fits` is the negated loop test. The loops also end on the empty list.
  unfoldable pub drop_until : ℕ → (List A → Bool) → List A → List A
  unfolding drop_group
  drop_until zero fits ms = ms
  drop_until (suc fuel) fits [] = []
  drop_until (suc fuel) fits (m ∷ ms) =
      let rest = drop_until fuel fits (drop_tools ms) in if fits (m ∷ ms) then m ∷ ms else rest

  -- A list that a request may start with: no tool message in front.
  abbrev pub StartsGroup : List A → Type 0
  StartsGroup [] = Unit
  StartsGroup (m ∷ ms) = is_tool m ≡ false

  pub length-drop_tools : (ms : List A) → length (drop_tools ms) ≤ length ms
  unfolding drop_tools
  length-drop_tools [] = omega arith
  length-drop_tools (m ∷ ms) = ground (arith, length-drop_tools ms)

  pub drop_tools-StartsGroup : (ms : List A) → StartsGroup (drop_tools ms)
  unfolding drop_tools
  drop_tools-StartsGroup [] = tt
  drop_tools-StartsGroup (m ∷ ms) = elim (Bool-cases (is_tool m)) [
    | inl e ↦ rw e (drop_tools-StartsGroup ms)
    | inr e ↦ rw e e
  ]

  -- With a round for each message the loop ends by its test, or on the empty list.
  pub drop_until-fits :
      (fuel : ℕ) (fits : List A → Bool) (ms : List A)
      → length ms ≤ fuel
      → (fits (drop_until fuel fits ms) ≡ true) ⊎ (drop_until fuel fits ms ≡ [])
  unfolding drop_until
  drop_until-fits zero fits [] h = inr refl
  drop_until-fits zero fits (m ∷ ms) h = absurd (omega arith)
  drop_until-fits (suc fuel) fits [] h = inr refl
  drop_until-fits (suc fuel) fits (m ∷ ms) h = elim (Bool-cases (fits (m ∷ ms))) [
    | inl e ↦ inl (rw e e)
    | inr e ↦ rw e (drop_until-fits fuel fits (drop_tools ms) (omega (arith, length-drop_tools ms)))
  ]

  -- What is left starts at a group, unless nothing was dropped.
  pub drop_until-StartsGroup :
      (fuel : ℕ) (fits : List A → Bool) (ms : List A)
      → StartsGroup ms
      → StartsGroup (drop_until fuel fits ms)
  unfolding drop_until
  drop_until-StartsGroup zero fits ms h = h
  drop_until-StartsGroup (suc fuel) fits [] h = tt
  drop_until-StartsGroup (suc fuel) fits (m ∷ ms) h = elim (Bool-cases (fits (m ∷ ms))) [
    | inl e ↦ rw e h
    | inr e ↦ rw e (drop_until-StartsGroup fuel fits (drop_tools ms) (drop_tools-StartsGroup ms))
  ]

  drop_tools-suffix : (ms : List A) → (d : List A) × (ms ≡ d ++ drop_tools ms)
  unfolding drop_tools
  drop_tools-suffix [] = ([], refl)
  drop_tools-suffix (m ∷ ms) = elim (Bool-cases (is_tool m)) [
    | inl e ↦ let (d, p) = drop_tools-suffix ms in (m ∷ d, rw e (ap (◌∷◌ m) p))
    | inr e ↦ ([], rw e)
  ]

  pub drop_until-suffix :
      (fuel : ℕ) (fits : List A → Bool) (ms : List A)
      → (d : List A) × (ms ≡ d ++ drop_until fuel fits ms)
  unfolding drop_until
  drop_until-suffix zero fits ms = ([], refl)
  drop_until-suffix (suc fuel) fits [] = ([], refl)
  drop_until-suffix (suc fuel) fits (m ∷ ms) = elim (Bool-cases (fits (m ∷ ms))) [
    | inl e ↦ ([], rw e)
    | inr e ↦
        let (d, p) = drop_tools-suffix ms in
        let (d', q) = drop_until-suffix fuel fits (drop_tools ms) in
        (m ∷ (d ++ d'), rw e (ap (◌∷◌ m) (p ∙ ap (◌++◌ d) q ∙ sym (append_assoc d d' _))))
  ]

  -- A later start of a group survives the removal of the tool messages in front.
  drop_tools-boundary :
      (ms d s : List A)
      → ms ≡ d ++ s
      → StartsGroup s
      → 0 < length s
      → (e : List A) × (drop_tools ms ≡ e ++ s)
  unfolding drop_tools
  drop_tools-boundary ms [] [] p g h = absurd (omega arith)
  drop_tools-boundary ms [] (x ∷ s) p g h = ([], rw (p, drop_tools, g))
  drop_tools-boundary [] (y ∷ d) s p g h = cc
  drop_tools-boundary (m ∷ ms) (y ∷ d) s p g h = elim (Bool-cases (is_tool m)) [
    | inl e ↦ rw e (drop_tools-boundary ms d s (ground arith) g h)
    | inr e ↦ (y ∷ d, rw e p)
  ]

  too_long : (ms d s : List A) → ms ≡ d ++ s → length ms < length s → ⊥
  too_long ms d s p h = omega (arith, ap length p, length-append d s)

  starts : (y : A) (d s : List A) → (y ∷ d ≡ []) ⊎ StartsGroup s → StartsGroup s
  starts y d s (inl e) = cc
  starts y d s (inr g) = g

  past_group :
      (all ms d s : List A) (fits : List A → Bool) (m : A)
      → all ≡ d ++ s
      → (d ≡ []) ⊎ StartsGroup s
      → fits all ≡ false
      → all ≡ m ∷ ms
      → 0 < length s
      → ((b : List A) → drop_tools ms ≡ b ++ s → (b ≡ []) ⊎ StartsGroup s → fits s ≡ false)
      → fits s ≡ false
  past_group all ms [] s fits m p g e q h rest = rw (← p) e
  past_group all ms (y ∷ d) s fits m p g e q h rest =
      let (b, r) = drop_tools-boundary ms d s (ground arith) (starts y d s g) h in
      rest b r (inr (starts y d s g))

  -- Nothing is dropped too much: whatever starts at a group and is longer does not fit.
  pub drop_until-longest :
      (fuel : ℕ) (fits : List A → Bool) (ms d s : List A)
      → ms ≡ d ++ s
      → (d ≡ []) ⊎ StartsGroup s
      → length (drop_until fuel fits ms) < length s
      → fits s ≡ false
  unfolding drop_until
  drop_until-longest zero fits ms d s p g h = absurd (too_long ms d s p h)
  drop_until-longest (suc fuel) fits [] d s p g h = absurd (too_long [] d s p h)
  drop_until-longest (suc fuel) fits (m ∷ ms) d s p g h = elim (Bool-cases (fits (m ∷ ms))) [
    | inl e ↦ absurd (too_long (m ∷ ms) d s p (rw e at h))
    | inr e ↦
        past_group (m ∷ ms) ms d s fits m p g e refl (let k = rw e at h in omega arith)
          (λ b q g'. drop_until-longest fuel fits (drop_tools ms) b s q g' (rw e at h))
  ]

-- The loop commutes with a change of representation that keeps the tool messages.
module _ {ℓ κ} {A : Type ℓ} {B : Type κ} (p : A → Bool) (q : B → Bool) (f : A → B) where
  drop_tools-map :
      ((a : A) → q (f a) ≡ p a) → (ms : List A) → drop_tools q (map f ms) ≡ map f (drop_tools p ms)
  unfolding drop_tools
  drop_tools-map same [] = refl
  drop_tools-map same (m ∷ ms) = ground (arith, same m, drop_tools-map same ms)

  pub drop_until-map :
      ((a : A) → q (f a) ≡ p a)
      → (fuel : ℕ) (fits : List B → Bool) (ms : List A)
      → drop_until q fuel fits (map f ms) ≡ map f (drop_until p fuel (λ l. fits (map f l)) ms)
  unfolding drop_until
  drop_until-map same zero fits ms = refl
  drop_until-map same (suc fuel) fits [] = refl
  drop_until-map same (suc fuel) fits (m ∷ ms) = elim (Bool-cases (fits (map f (m ∷ ms)))) [
    | inl e ↦ rw e
    | inr e ↦ rw e (
        ap (drop_until q fuel fits) (drop_tools-map same ms)
        ∙ drop_until-map same fuel fits (drop_tools p ms))
  ]
