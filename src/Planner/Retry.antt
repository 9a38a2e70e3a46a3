-- ===== src/Planner/Retry.antt =====
-- What is sent after a timeout.
use eda_agent.Base.{
  ℕ, zero, suc, ◌/◌, ◌≡◌, refl, sym, ap, subst, ◌∙◌, ◌≤◌, ◌⊎◌, Bool, true, false, some, List, [],
  ◌++◌, map, if◌then◌else◌, Text, ◌==◌, All, arith, Outcome,
}
use eda_agent.Memory.History.{Memory, Message}
use eda_agent.Memory.Wire.{Entry, serialise}
use eda_agent.Memory.Pairing.{IsPaired}
use eda_agent.Memory.RoundTrip.{IsCanonical}
use eda_agent.Memory.Budget.{get_messages, prompt_entries, estimate}
use eda_agent.Memory.Requests.{get_messages_within}
use eda_agent.Planner.Model.{Response, Services}
use eda_agent.Planner.Prompt.{build_system_prompt}
use eda_agent.Planner.Request.{
  Config, Payload, Sent, timeout, Transport, at_least_one, timed_out, payload_messages,
  build_payload, retry_budget, reduces_context, after_retry, after_send, post_chat_completion,
}

at_least_one-suc : (n : ℕ) → (m : ℕ) × (at_least_one n ≡ suc m)
at_least_one-suc zero = (0, refl)
at_least_one-suc (suc n) = (n, refl)

budget_suc :
    (given input half_input half_max : ℕ)
    → (m : ℕ) × ((if given == 0
          then if input == 0 then at_least_one half_max else at_least_one half_input
          else given)
        ≡ suc m)
budget_suc zero zero a b = at_least_one-suc b
budget_suc zero (suc i) a b = let (m, e) = at_least_one-suc a in (m, ground (arith, e))
budget_suc (suc g) i a b = (g, ground arith)

module _ {F W : Type 0} (sv : Services F W) (cfg : Config) (net : Transport F W) where
  -- Messages of at most `n` tokens: an end of the history, or the prompt alone.
  abbrev pub FitsWithin : ℕ → Memory F → List (Entry F) → Type 0
  FitsWithin n mem messages =
      (prompt : Text) × (d s : List (Message F)) × (mem.history ≡ d ++ s)
      × (messages ≡ prompt_entries prompt ++ map serialise s)
      × IsPaired s
      × ((estimate sv.floats.repr messages ≤ n) ⊎ (s ≡ []))

  payload_messages-FitsWithin :
      (mode : Bool) (mem : Memory F) (prompt : Text) (n m : ℕ)
      → mode ≡ false
      → n ≡ suc m
      → IsPaired mem.history
      → All IsCanonical mem.history
      → FitsWithin n mem (payload_messages sv cfg net mode mem prompt (some n))
  payload_messages-FitsWithin mode mem prompt n m e q h c =
      subst (λ b. FitsWithin n mem (payload_messages sv cfg net b mem prompt (some n))) (sym e)
        (subst (λ k. FitsWithin k mem (get_messages sv.floats.repr mem prompt (some k))) (sym q)
          (let (d, s, whole, sent, paired, fits) =
              get_messages_within sv.floats.repr mem prompt m h c in
            (prompt, d, s, whole, sent, paired, fits)))

  late_retry :
      (mem : Memory F) (w : W) (s : Sent F) (b : Bool)
      → s ≡ timeout
      → b ≡ true
      → reduces_context sv cfg net mem ≡ b
      → after_send sv cfg net mem (s, w)
        ≡ after_retry sv cfg net
            (net.send (build_payload sv cfg net mem false (some (retry_budget sv cfg net))) w)
  late_retry mem w s b e t q =
      ap (λ x. after_send sv cfg net mem (x, w)) e
      ∙ ap
          (λ x. elim x as (λ y. Outcome (Response F) × W) [
            | false ↦ (timed_out sv cfg net, w)
            | true ↦
                after_retry sv cfg net
                  (net.send (build_payload sv cfg net mem false (some (retry_budget sv cfg net))) w)
          ])
          (q ∙ t)

  -- If the first request times out, not in prompt mode, from a paired and canonical history, and a
  -- retry would reduce the context, then exactly one more request is sent, whose outcome is the
  -- call's; its messages are a prompt and an end of the history in which every tool result has its
  -- call, within the retry budget or without any of the history.
  pub retry-FitsWithin :
      (mem : Memory F) (payload : Payload F) (w : W)
      → cfg.prompt_mode ≡ false
      → IsPaired mem.history
      → All IsCanonical mem.history
      → (net.send payload w).0 ≡ timeout
      → reduces_context sv cfg net mem ≡ true
      → (again : Payload F) × (post_chat_completion sv cfg net mem payload w
          ≡ after_retry sv cfg net (net.send again (net.send payload w).1))
        × FitsWithin (retry_budget sv cfg net) mem again.messages
  unfolding post_chat_completion build_payload
  retry-FitsWithin mem payload w mode h c late less =
      let budget = retry_budget sv cfg net in
      let (m, e) =
        budget_suc cfg.timeout_retry_input_max_tokens cfg.input_max_tokens
          (cfg.input_max_tokens / 2) (cfg.max_tokens / 2) in
      (
        build_payload sv cfg net mem false (some budget),
        late_retry mem (net.send payload w).1 (net.send payload w).0 true late refl less,
        payload_messages-FitsWithin cfg.prompt_mode mem
            (build_system_prompt sv cfg.system_prompt false mem) budget m mode e h c,
      )
