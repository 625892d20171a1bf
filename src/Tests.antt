-- ===== src/Tests.antt =====
-- The theorems at concrete inputs, and runs of the definitions.
mod CoreTests
mod RoleTests
mod QuotaTests
mod CostTests
mod AncestorTests
mod LoggingTests
mod PullTests
mod EstimateTests
mod LinkTests
mod UtilTests
mod ProvisionTests
mod LoginTests
mod SummaryTests
mod GrantTests
mod RegistryTests
