-- ===== src/TestService/Wire.antt =====
-- The account service of the tests behind a connection that fails by a script.
use cqrs_account.Prelude.{
  ◌≡◌, ◌≢◌, refl, sym, subst, ap, ◌∙◌, ◌⊎◌, Bool, true, false, String, List, [], ◌∷◌, string_eq,
  arith, inl, inr,
}
use cqrs_account.Outcome.{err}
use cqrs_account.Account.Commands.{AccountCommand}
use cqrs_account.Account.Events.{AccountError}
use cqrs_account.Account.State.{Account}
use cqrs_account.Account.Handle.{handle}
use cqrs_account.Service.{
  AccountService, Executed, user_error, framework_error, FrameworkError, database_connection_error,
  succeeded, failed, panicked,
}
use cqrs_account.Service.Laws.{IsEventSourced, Committed, Replays}
use cqrs_account.TestPlatform.{test_platform}
use cqrs_account.TestService.{Bank, decide, bank_service-IsEventSourced}

-- The accounts, and which of the next calls fail.
abbrev pub Wire : Type 0
Wire = Bank × List Bool

unfoldable pub try_execute : String → AccountCommand → Wire → Executed × Wire
try_execute id c (bank, true ∷ script) =
    (failed (framework_error database_connection_error), (bank, script))
try_execute id c (bank, false ∷ script) =
    let (r, bank') = decide id (handle (bank id) c) bank in (r, (bank', script))
try_execute id c (bank, []) =
    let (r, bank') = decide id (handle (bank id) c) bank in (r, (bank', []))

abbrev pub wire_service : AccountService
wire_service = record { World = Wire; execute = try_execute }

abbrev pub look_behind : String → Wire → Account
look_behind id w = w.0 id

-- What a call has done: it has failed, or the accounts have taken the command.
try_execute_splits :
    (id : String) (c : AccountCommand) (w : Wire)
    → ((try_execute id c w).0 ≡ failed (framework_error database_connection_error))
        × ((try_execute id c w).1.0 ≡ w.0)
      ⊎ ((try_execute id c w).0 ≡ (decide id (handle (w.0 id) c) w.0).0)
        × ((try_execute id c w).1.0 ≡ (decide id (handle (w.0 id) c) w.0).1)
unfolding try_execute
try_execute_splits id c (bank, true ∷ script) = inl (refl, refl)
try_execute_splits id c (bank, false ∷ script) = inr (refl, refl)
try_execute_splits id c (bank, []) = inr (refl, refl)

pub wire_service-IsEventSourced : IsEventSourced wire_service look_behind
wire_service-IsEventSourced = record {
  on_success = on_success;
  on_user_error = on_user_error;
  on_framework_error = on_framework_error;
  on_panic = on_panic;
  elsewhere = elsewhere;
}
  where
    on_success :
        (id : String) (c : AccountCommand) (w : Wire)
        → (try_execute id c w).0 ≡ succeeded
        → Committed wire_service look_behind id c w
    on_success id c w r = elim (try_execute_splits id c w) [
      | inl (e, _) ↦ absurd (ground arith)
      | inr (e, k) ↦
          let (events, accepted, replay) =
            bank_service-IsEventSourced.on_success id c w.0 (sym e ∙ r) in
          (events, accepted, subst (λ (b : Bank). Replays (w.0 id) (b id) events) (sym k) replay)
    ]

    on_user_error :
        (id : String) (c : AccountCommand) (w : Wire) (x : AccountError)
        → (try_execute id c w).0 ≡ failed (user_error x)
        → (handle (w.0 id) c ≡ err x) × ((try_execute id c w).1.0 id ≡ w.0 id)
    on_user_error id c w x r = elim (try_execute_splits id c w) [
      | inl (e, _) ↦ absurd (ground arith)
      | inr (e, k) ↦
          let (refused, same) = bank_service-IsEventSourced.on_user_error id c w.0 x (sym e ∙ r) in
          (refused, ap (λ (b : Bank). b id) k ∙ same)
    ]

    on_framework_error :
        (id : String) (c : AccountCommand) (w : Wire) (x : FrameworkError)
        → (try_execute id c w).0 ≡ failed (framework_error x)
        → (try_execute id c w).1.0 id ≡ w.0 id
    on_framework_error id c w x r = elim (try_execute_splits id c w) [
      | inl (_, k) ↦ ap (λ (b : Bank). b id) k
      | inr (e, k) ↦
          ap (λ (b : Bank). b id) k
          ∙ bank_service-IsEventSourced.on_framework_error id c w.0 x (sym e ∙ r)
    ]

    on_panic :
        (id : String) (c : AccountCommand) (w : Wire)
        → (try_execute id c w).0 ≡ panicked
        → ((try_execute id c w).1.0 id ≡ w.0 id) ⊎ Committed wire_service look_behind id c w
    on_panic id c w r = elim (try_execute_splits id c w) [
      | inl (_, k) ↦ inl (ap (λ (b : Bank). b id) k)
      | inr (e, k) ↦ elim (bank_service-IsEventSourced.on_panic id c w.0 (sym e ∙ r)) [
        | inl same ↦ inl (ap (λ (b : Bank). b id) k ∙ same)
        | inr (events, accepted, replay) ↦
            inr (
              events,
              accepted,
              subst (λ (b : Bank). Replays (w.0 id) (b id) events) (sym k) replay,
            )
      ]
    ]

    elsewhere :
        (id other : String) (c : AccountCommand) (w : Wire)
        → id ≢ other
        → (try_execute id c w).1.0 other ≡ w.0 other
    elsewhere id other c w ne = elim (try_execute_splits id c w) [
      | inl (_, k) ↦ ap (λ (b : Bank). b other) k
      | inr (_, k) ↦
          ap (λ (b : Bank). b other) k ∙ bank_service-IsEventSourced.elsewhere id other c w.0 ne
    ]
