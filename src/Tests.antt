-- ===== src/Tests.antt =====
-- Runs of the definitions on small inputs, and the theorems at inputs that meet their hypotheses.
mod QueueRuns
mod CacheRuns
mod SessionRuns
mod BrokerRuns
mod HubRuns
mod PresenceRuns
mod MemoryRuns
mod NodeRuns
mod RestoreRuns
mod RpcRuns
mod VerifierRuns
mod DisconnectRuns
mod StreamRuns
mod RouterRuns
