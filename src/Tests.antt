-- ===== src/Tests.antt =====
-- Runs on concrete data, and the theorems at inputs that meet their hypotheses.
pub mod RateLimits
pub mod Caches
pub mod LowestBins
pub mod Nbts
pub mod Markets
pub mod ItemKeyRuns
pub mod MarketStorages
pub mod AccessPolicyRuns
pub mod PlayerMetricsRuns
pub mod SessionRuns
pub mod AuthFlowRuns
pub mod ExternalAuths
pub mod CallbackRuns
pub mod Logins
pub mod Mfas
