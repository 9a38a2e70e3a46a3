-- ===== src/Memory/Requests.antt =====
-- What `get_messages` sends under a token budget, and what `shrink_to_byte_budget` keeps.
use eda_agent.Base.{
  ℕ, suc, ◌≤◌, ◌<◌, ◌≡◌, refl, ap, ◌∙◌, ◌⊎◌, inl, inr, false, some, List, [], ◌∷◌, ◌++◌, arith, leb,
  leb→le, ◌==◌, map, length, length-append, Bool-cases, Text, All,
}
use eda_agent.Memory.Groups.{
  drop_until, drop_until-map, drop_until-fits, drop_until-suffix, drop_until-longest, StartsGroup,
}
use eda_agent.Memory.History.{Message, Memory, is_tool}
use eda_agent.Memory.Wire.{serialise}
use eda_agent.Memory.Pairing.{IsPaired, drop_until-IsPaired}
use eda_agent.Memory.RoundTrip.{IsCanonical}
use eda_agent.Memory.Budget.{
  wire_is_tool, wire_is_system, payload_bytes, shrink_to_byte_budget, estimate, trim_after,
  trim_split, trim_to_token_budget, prompt_entries, get_messages,
}

enabled : (n : ℕ) → 0 < n → (n == 0) ≡ false
enabled n h = ground arith

module _ {F : Type 0} where
  length-map : (ms : List (Message F)) → length (map serialise ms) ≡ length ms
  length-map [] = refl
  length-map (m ∷ ms) = ap suc (length-map ms)

  serialise-is_tool : (m : Message F) → wire_is_tool (serialise m) ≡ is_tool m
  unfolding serialise
  serialise-is_tool m = refl

  not_system : (m : Message F) → IsCanonical m → wire_is_system (serialise m) ≡ false
  unfolding serialise
  not_system m c = ground arith

module _ {F : Type 0} (repr : F → Text) where
  trim_split-prompt :
      (prompt : Text) (ms : List (Message F)) (n : ℕ)
      → All IsCanonical ms
      → trim_split repr (prompt_entries prompt ++ map serialise ms) n
        ≡ trim_after repr (prompt_entries prompt) (map serialise ms) n
  trim_split-prompt [] [] n c = refl
  trim_split-prompt [] (m ∷ ms) n c = rw (not_system m c.0)
  trim_split-prompt (x ∷ prompt) ms n c = refl

  -- The end of the history that a request takes when the whole of it is over the budget.
  taken : Text → ℕ → List (Message F) → List (Message F)
  taken prompt n ms =
      drop_until is_tool (length (map serialise ms))
        (λ l. leb (estimate repr (prompt_entries prompt ++ map serialise l)) n) ms

  trim_to_taken :
      (prompt : Text) (ms : List (Message F)) (n : ℕ)
      → All IsCanonical ms
      → trim_split repr (prompt_entries prompt ++ map serialise ms) n
        ≡ prompt_entries prompt ++ map serialise (taken prompt n ms)
  unfolding taken
  trim_to_taken prompt ms n c =
      trim_split-prompt prompt ms n c
      ∙ ap (◌++◌ (prompt_entries prompt)) (
          drop_until-map is_tool wire_is_tool serialise serialise-is_tool
            (length (map serialise ms)) _ ms)

  taken-suffix :
      (prompt : Text) (n : ℕ) (ms : List (Message F))
      → (d : List (Message F)) × (ms ≡ d ++ taken prompt n ms)
  unfolding taken
  taken-suffix prompt n ms = drop_until-suffix is_tool (length (map serialise ms)) _ ms

  taken-fits :
      (prompt : Text) (n : ℕ) (ms : List (Message F))
      → (estimate repr (prompt_entries prompt ++ map serialise (taken prompt n ms)) ≤ n)
        ⊎ (taken prompt n ms ≡ [])
  unfolding taken
  taken-fits prompt n ms =
      elim (drop_until-fits is_tool (length (map serialise ms)) _ ms
        (omega (arith, length-map ms))) [ inl e ↦ inl (leb→le _ n e) | inr e ↦ inr e ]

  -- A request under a positive token budget, from a paired and canonical history, is the prompt
  -- and an end of the history in which every tool result has its call; it is within the budget, or
  -- only the prompt is left.
  pub get_messages_within :
      (mem : Memory F) (prompt : Text) (n : ℕ)
      → IsPaired mem.history
      → All IsCanonical mem.history
      → let sent = get_messages repr mem prompt (some (suc n)) in
        (d s : List (Message F)) × (mem.history ≡ d ++ s)
        × (sent ≡ prompt_entries prompt ++ map serialise s)
        × IsPaired s
        × ((estimate repr sent ≤ suc n) ⊎ (s ≡ []))
  unfolding get_messages trim_to_token_budget
  get_messages_within mem prompt n h c =
      let all = prompt_entries prompt ++ map serialise mem.history in
      elim (Bool-cases (leb (estimate repr all) (suc n))) [
        | inl e ↦ rw e ([], mem.history, refl, refl, h, inl (leb→le _ (suc n) e))
        | inr e ↦
            rw (e, trim_to_taken prompt mem.history (suc n) c)
              (let (d, p) = taken-suffix prompt (suc n) mem.history in
                (
                  d,
                  taken prompt (suc n) mem.history,
                  p,
                  refl,
                  unfold taken in drop_until-IsPaired _ _ mem.history h,
                  taken-fits prompt (suc n) mem.history,
                ))
      ]

  no_longer :
      (prompt : Text) (ms d s : List (Message F))
      → ms ≡ d ++ s
      → ¬ (
          length (prompt_entries prompt ++ map serialise ms)
          < length (prompt_entries prompt ++ map serialise s))
  no_longer prompt ms d s p h = omega (
    arith,
    length-append (prompt_entries prompt) (map serialise ms),
    length-append (prompt_entries prompt) (map serialise s),
    length-map ms,
    length-map s,
    ap length p,
    length-append d s,
  )

  sent_shorter :
      (prompt : Text) (n : ℕ) (ms s : List (Message F))
      → length (prompt_entries prompt ++ map serialise (taken prompt n ms))
        < length (prompt_entries prompt ++ map serialise s)
      → length (taken prompt n ms) < length s
  sent_shorter prompt n ms s h = omega (
    arith,
    length-append (prompt_entries prompt) (map serialise (taken prompt n ms)),
    length-append (prompt_entries prompt) (map serialise s),
    length-map (taken prompt n ms),
    length-map s,
  )

  over_budget :
      (prompt : Text) (n : ℕ) (ms d s : List (Message F))
      → ms ≡ d ++ s
      → StartsGroup is_tool s
      → length (taken prompt n ms) < length s
      → n < estimate repr (prompt_entries prompt ++ map serialise s)
  unfolding taken
  over_budget prompt n ms d s p g h =
      let over = drop_until-longest is_tool (length (map serialise ms)) _ ms d s p (inr g) h in
      ground (arith, over)

  -- A request under a positive token budget, from a canonical history, leaves out no more than it
  -- must: a longer end of the history that starts with a message that is no tool message would be
  -- over the budget with the prompt.
  pub get_messages-longest :
      (mem : Memory F) (prompt : Text) (n : ℕ) (d s : List (Message F))
      → All IsCanonical mem.history
      → mem.history ≡ d ++ s
      → StartsGroup is_tool s
      → length (get_messages repr mem prompt (some (suc n)))
        < length (prompt_entries prompt ++ map serialise s)
      → suc n < estimate repr (prompt_entries prompt ++ map serialise s)
  unfolding get_messages trim_to_token_budget
  get_messages-longest mem prompt n d s c p g h =
      let all = prompt_entries prompt ++ map serialise mem.history in
      elim (Bool-cases (leb (estimate repr all) (suc n))) [
        | inl e ↦ absurd (no_longer prompt mem.history d s p (rw e at h))
        | inr e ↦
            let shorter : length (taken prompt (suc n) mem.history) < length s =
              sent_shorter prompt (suc n) mem.history s
                (rw (e, trim_to_taken prompt mem.history (suc n) c) at h) in
            over_budget prompt (suc n) mem.history d s p g shorter
      ]

  -- A paired history shrunk to a positive byte budget is an end of the old one in which every tool
  -- result still has its call; its JSON fits the budget, or nothing is left of it.
  pub shrink_fits :
      (mem : Memory F) (max_bytes : ℕ)
      → 0 < max_bytes
      → IsPaired mem.history
      → let after = shrink_to_byte_budget repr max_bytes mem in
        ((d : List (Message F)) × (mem.history ≡ d ++ after.history))
        × IsPaired after.history
        × ((payload_bytes repr after.history ≤ max_bytes) ⊎ (after.history ≡ []))
  unfolding shrink_to_byte_budget
  shrink_fits mem max_bytes pos h = rw (enabled max_bytes pos) (
    drop_until-suffix is_tool (length mem.history) _ mem.history,
    drop_until-IsPaired _ _ mem.history h,
    elim (drop_until-fits is_tool (length mem.history) _ mem.history (omega arith)) [
      | inl e ↦ inl (leb→le _ max_bytes e)
      | inr e ↦ inr e
    ],
  )

  -- Shrinking drops no more than it must: a longer end of the history that starts with a message
  -- that is no tool message has a JSON over the budget.
  pub shrink-longest :
      (mem : Memory F) (max_bytes : ℕ) (d s : List (Message F))
      → mem.history ≡ d ++ s
      → StartsGroup is_tool s
      → length (shrink_to_byte_budget repr max_bytes mem).history < length s
      → max_bytes < payload_bytes repr s
  unfolding shrink_to_byte_budget
  shrink-longest mem max_bytes d s p g h = elim (Bool-cases (max_bytes == 0)) [
    | inl e ↦
        let k : length mem.history < length s = rw e at h in
        absurd (omega (arith, ap length p, length-append d s))
    | inr e ↦
        let over =
          drop_until-longest is_tool (length mem.history) _ mem.history d s p (inr g) (rw e at h) in
        ground (arith, over)
  ]
