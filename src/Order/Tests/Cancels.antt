-- ===== src/Order/Tests/Cancels.antt =====
-- The theorem about an order that is cancelled at a concrete input.
use cqrs_account.Prelude.{refl, string_eq, arith}
use cqrs_account.BTreeMap
use cqrs_account.Types.{hex}
use cqrs_account.TestPlatform.{test_platform}
use cqrs_account.TestService.{
  bank_service, bank_service-IsEventSourced, bank_service-IsAvailable, look,
}
use cqrs_account.Account.Tests.Runs.{locked, locked-IsValid}
use cqrs_account.Order.Cancel.{IsReturned, cancel-IsReturned}
use cqrs_account.Order.Tests.{config, env, start}
use cqrs_account.Order.Tests.Runs.{bob_funded}

cancel-IsReturned_example :
    IsReturned bank_service look bank_service-IsEventSourced bank_service-IsAvailable env config
      "too late" 9
      (start locked bob_funded)
      locked
unfolding hex BTreeMap.get
cancel-IsReturned_example =
    cancel-IsReturned bank_service look bank_service-IsEventSourced bank_service-IsAvailable env
      config "too late" 9 (start locked bob_funded) locked refl locked-IsValid (omega arith) refl
      (omega arith)
