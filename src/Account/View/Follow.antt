-- ===== src/Account/View/Follow.antt =====
-- The account view along accepted commands: those that work on locks, and all together.
use cqrs_account.BTreeMap
use cqrs_account.BTreeMap.{BTreeMap, get-insert}
use cqrs_account.Types.{byte_array32_eq}
use cqrs_account.Account.Events.Build
