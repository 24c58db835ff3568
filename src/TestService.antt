-- ===== src/TestService.antt =====
-- An account service for the tests: it keeps the accounts in memory, runs `handle` and `apply`, and
-- never fails by itself.
pub mod Wire
use cqrs_account.Prelude.{
  ◌≡◌, ◌≢◌, refl, sym, ap, ◌∙◌, ◌⊎◌, Bool, true, false, String, List, [], ◌∷◌, Bool-cases,
  string_eq, ◌==◌, if◌then◌else◌, arith, inl, inr, beq_refl,
}
use cqrs_account.Outcome.{Outcome, done, panic, Result, ok, err}
use cqrs_account.Account.Commands.{AccountCommand}
use cqrs_account.Account.Events.{AccountEvent, AccountError}
use cqrs_account.Account.State.{Account}
use cqrs_account.Account.Handle.{handle}
use cqrs_account.Account.Apply.{apply_all}
use cqrs_account.Service.{
  AccountService, AggregateError, Executed, user_error, framework_error, FrameworkError,
  database_connection_error, succeeded, failed, panicked,
}
use cqrs_account.Service.Laws.{IsEventSourced, applied}
use cqrs_account.Service.Available.{IsAvailable}
use cqrs_account.TestPlatform.{test_platform}

abbrev pub Bank : Type 0
Bank = String → Account

abbrev pub store : String → Account → Bank → Bank
store id account bank = λ other. if id == other then account else bank other

unfoldable pub commit : String → Outcome Account → Bank → Executed × Bank
commit id (done account) bank = (succeeded, store id account bank)
commit id (panic p) bank = (panicked, bank)

unfoldable pub decide : String → Result (List AccountEvent) AccountError → Bank → Executed × Bank
decide id (ok events) bank = commit id (apply_all (bank id) events) bank
decide id (err e) bank = (failed (user_error e), bank)

abbrev pub bank_service : AccountService
bank_service = record { World = Bank; execute = λ id c bank. decide id (handle (bank id) c) bank }

abbrev pub look : String → Bank → Account
look id bank = bank id

commit-succeeded :
    (id : String) (o : Outcome Account) (bank : Bank)
    → (commit id o bank).0 ≡ succeeded
    → o ≡ done ((commit id o bank).1 id)
unfolding commit
commit-succeeded id (done a) bank h = rw (beq_refl id) refl
commit-succeeded id (panic p) bank h = absurd (ground arith)

commit-not_failed :
    (id : String) (o : Outcome Account) (bank : Bank) (e : AggregateError)
    → (commit id o bank).0 ≢ failed e
unfolding commit
commit-not_failed id (done a) bank e h = ground arith
commit-not_failed id (panic p) bank e h = ground arith

commit-panicked :
    (id : String) (o : Outcome Account) (bank : Bank)
    → (commit id o bank).0 ≡ panicked
    → (commit id o bank).1 id ≡ bank id
unfolding commit
commit-panicked id (done a) bank h = absurd (ground arith)
commit-panicked id (panic p) bank h = refl

commit-elsewhere :
    (id other : String) (o : Outcome Account) (bank : Bank)
    → id ≢ other
    → (commit id o bank).1 other ≡ bank other
unfolding commit
commit-elsewhere id other (panic p) bank ne = refl
commit-elsewhere id other (done a) bank ne = elim (Bool-cases (id == other)) [
  | inl same ↦ absurd (ne ((string_eq.reflects id other).0 same))
  | inr differs ↦ rw differs refl
]

decide-succeeded :
    (id : String) (r : Result (List AccountEvent) AccountError) (bank : Bank)
    → (decide id r bank).0 ≡ succeeded
    → (events : List AccountEvent) × (r ≡ ok events)
      × (apply_all (bank id) events ≡ done ((decide id r bank).1 id))
unfolding decide
decide-succeeded id (ok events) bank h =
    (events, refl, commit-succeeded id (apply_all (bank id) events) bank h)
decide-succeeded id (err e) bank h = absurd (ground arith)

decide-failed :
    (id : String) (r : Result (List AccountEvent) AccountError) (bank : Bank) (e : AccountError)
    → (decide id r bank).0 ≡ failed (user_error e)
    → (r ≡ err e) × ((decide id r bank).1 id ≡ bank id)
unfolding decide
decide-failed id (err e') bank e h = (ground arith, refl)
decide-failed id (ok events) bank e h =
    absurd (commit-not_failed id (apply_all (bank id) events) bank (user_error e) h)

decide-broken :
    (id : String) (r : Result (List AccountEvent) AccountError) (bank : Bank) (e : FrameworkError)
    → (decide id r bank).0 ≢ failed (framework_error e)
unfolding decide
decide-broken id (err e') bank e h = ground arith
decide-broken id (ok events) bank e h =
    commit-not_failed id (apply_all (bank id) events) bank (framework_error e) h

decide-panicked :
    (id : String) (r : Result (List AccountEvent) AccountError) (bank : Bank)
    → (decide id r bank).0 ≡ panicked
    → (decide id r bank).1 id ≡ bank id
unfolding decide
decide-panicked id (err e') bank h = refl
decide-panicked id (ok events) bank h = commit-panicked id (apply_all (bank id) events) bank h

decide-elsewhere :
    (id other : String) (r : Result (List AccountEvent) AccountError) (bank : Bank)
    → id ≢ other
    → (decide id r bank).1 other ≡ bank other
unfolding decide
decide-elsewhere id other (err e) bank ne = refl
decide-elsewhere id other (ok events) bank ne =
    commit-elsewhere id other (apply_all (bank id) events) bank ne

pub bank_service-IsEventSourced : IsEventSourced bank_service look
bank_service-IsEventSourced = record {
  on_success = λ id c w r.
      let (events, accepted, k) = decide-succeeded id (handle (w id) c) w r in
      (events, accepted, applied k);
  on_user_error = λ id c w e r. decide-failed id (handle (w id) c) w e r;
  on_framework_error = λ id c w e r. absurd (decide-broken id (handle (w id) c) w e r);
  on_panic = λ id c w r. inl (decide-panicked id (handle (w id) c) w r);
  elsewhere = λ id other c w ne. decide-elsewhere id other (handle (w id) c) w ne;
}

pub bank_service-IsAvailable : IsAvailable bank_service look
unfolding decide commit
bank_service-IsAvailable = record {
  on_accepted = λ id c w events account h e. rw (h, decide, e, commit) refl;
}
