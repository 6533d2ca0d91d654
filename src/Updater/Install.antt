-- ===== src/Updater/Install.antt =====
-- One attempt of the helper, from the wait for the new agent back to the first write of the state.
use backupchief_agent.Base.{
  ◌≡◌, refl, ◌⊎◌, inl, inr, Option, none, some, Text, Bool-cases, same_text, same_text_iff,
}
use Prim.Native.Nat.{Ordering}
use backupchief_agent.Updater.{
  Request, Problem, not_newer, install_failed, unavailable_for_rollback, DurableState, preflight,
  installing, Machine, Act, ◌>>=◌, get, continue, complete, success, already_installed,
  target_not_newer, preflight_failed, installation_failed,
}
use backupchief_agent.Updater.Versions.{compare_versions}
use backupchief_agent.Updater.Run.{
  write_failure, await_target, after_failed_install, install_target, start_update,
}
use backupchief_agent.Updater.Steps.{
  Post, Recorded, At, Remembers, CodeTruth, Ends, Safe, At-Remembers, then_query,
  then_remove_readiness, then_write_state, then_change_package, then_wait, kept_request,
}
use backupchief_agent.Updater.Ends.{
  on_error-Safe, ret-Safe, state_at, state_at-Recorded, write_terminal-Safe, write_failure-Safe,
  rollback-Safe,
}

order_cases :
    (o : Option Ordering)
    → (o ≡ none) ⊎ (o ≡ some Ordering.gt) ⊎ (o ≡ some Ordering.lt) ⊎ (o ≡ some Ordering.eq)
order_cases none = inl refl
order_cases (some Ordering.gt) = inr (inl refl)
order_cases (some Ordering.lt) = inr (inr (inl refl))
order_cases (some Ordering.eq) = inr (inr (inr refl))

module _ (q₀ : Request) (v₀ : Text) where
  -- After a `get` of what is known of the machine.
  pub then_get :
      {A : Type 0} (f : Machine → A) (k : A → Act (Option Problem)) (st : Option DurableState)
      (i : Text)
      → ((m : Machine)
          → At q₀ v₀ st i m
          → Post (Ends q₀ v₀) (Remembers q₀ v₀) (k (f m) m).0 (k (f m) m).1)
      → Safe q₀ v₀ (get f >>= k) st i
  unfolding continue
  then_get f k st i h m at = h m at

  pub await_target-Safe :
      (st : Option DurableState)
      → Recorded q₀ v₀ st q₀.target_version
      → Safe q₀ v₀ (await_target (kept_request q₀ v₀) v₀) st q₀.target_version
  unfolding await_target CodeTruth
  await_target-Safe st h =
      then_wait q₀ v₀ (kept_request q₀ v₀) q₀.target_version _ st q₀.target_version h (
        on_error-Safe q₀ v₀ _ _ st q₀.target_version
          (λ p. rollback-Safe q₀ v₀ p st q₀.target_version h)
          (write_terminal-Safe q₀ v₀ v₀ complete success q₀.target_version none st q₀.target_version
            h (refl, refl, refl, refl)))

  after_failed_install-Safe :
      (p : Problem) (st : Option DurableState) (i : Text)
      → Recorded q₀ v₀ st i
      → Safe q₀ v₀ (after_failed_install (kept_request q₀ v₀) v₀ p) st i
  unfolding after_failed_install CodeTruth
  after_failed_install-Safe p st i h =
      let failure : Safe q₀ v₀ (write_failure (kept_request q₀ v₀) installation_failed v₀ p) st i =
        write_failure-Safe q₀ v₀ v₀ installation_failed v₀ p st i h (refl, refl) in
      then_query q₀ v₀ _ st i h (λ e.
        then_get (λ m. m.installed) _ st i
          (λ m at.
            on_error-Safe q₀ v₀ _ _ st i (λ p'. failure)
              (elim (Bool-cases (same_text m.installed v₀)) [
                | inl same ↦ rw same failure
                | inr other ↦ rw other (rollback-Safe q₀ v₀ (install_failed p) st i h)
              ])
              e m at))

  install_target-Safe :
      (st : Option DurableState)
      → Recorded q₀ v₀ st v₀
      → Safe q₀ v₀ (install_target (kept_request q₀ v₀) v₀) st v₀
  unfolding install_target CodeTruth Recorded
  install_target-Safe st h =
      let s₁ = state_at q₀ v₀ preflight none in
      let s₂ = state_at q₀ v₀ installing none in
      let h₁ : Recorded q₀ v₀ (some s₁) v₀ = (refl, refl, λ e. refl) in
      let fixed : (i : Text) → Recorded q₀ v₀ (some s₂) i =
        λ i. state_at-Recorded q₀ v₀ installing none i (λ e. cc) in
      let failure : (p : Problem)
          → Safe q₀ v₀ (write_failure (kept_request q₀ v₀) preflight_failed v₀ p) (some s₁) v₀ =
        λ p. write_failure-Safe q₀ v₀ v₀ preflight_failed v₀ p (some s₁) v₀ h₁ refl in
      then_write_state q₀ v₀ s₁ _ st v₀ h
        (then_query q₀ v₀ _ (some s₁) v₀ h₁ (
          on_error-Safe q₀ v₀ _ _ (some s₁) v₀ failure (
            then_query q₀ v₀ _ (some s₁) v₀ h₁ (
              on_error-Safe q₀ v₀ _ _ (some s₁) v₀ failure (
                then_query q₀ v₀ _ (some s₁) v₀ h₁ (
                  on_error-Safe q₀ v₀ _ _ (some s₁) v₀ (λ p. failure (unavailable_for_rollback p))
                    (then_remove_readiness q₀ v₀ _ (some s₁) v₀ h₁ (λ ignored.
                      then_write_state q₀ v₀ s₂ _ (some s₁) v₀ h₁
                        (then_change_package q₀ v₀ q₀.target_version _ (some s₂) v₀ fixed
                          (await_target-Safe (some s₂) (fixed q₀.target_version))
                          (λ p i. after_failed_install-Safe p (some s₂) i (fixed i)))
                        (λ p. ret-Safe q₀ v₀ p (some s₁) v₀ h₁)))))))))
        (λ p. ret-Safe q₀ v₀ p st v₀ h)

  pub start_update-Safe :
      (st : Option DurableState)
      → Recorded q₀ v₀ st v₀
      → Safe q₀ v₀ (start_update (kept_request q₀ v₀) v₀) st v₀
  unfolding start_update CodeTruth Post
  start_update-Safe st h = elim (Bool-cases (same_text v₀ q₀.target_version)) [
    | inl e ↦
        let same = (same_text_iff v₀ q₀.target_version).0 e in
        rw e (
          write_terminal-Safe q₀ v₀ v₀ complete already_installed v₀ none st v₀ h
            (refl, refl, same, same))
    | inr e ↦ rw e (elim (order_cases (compare_versions q₀.target_version v₀)) [
      | inl c ↦ rw c (λ m. At-Remembers q₀ v₀ st v₀ m h)
      | inr (inl c) ↦ rw c (install_target-Safe st h)
      | inr (inr (inl c)) ↦ rw c (
          write_failure-Safe q₀ v₀ v₀ target_not_newer v₀ not_newer st v₀ h
            (refl, refl, refl, refl))
      | inr (inr (inr c)) ↦ rw c (
          write_failure-Safe q₀ v₀ v₀ target_not_newer v₀ not_newer st v₀ h
            (refl, refl, refl, refl))
    ])
  ]
