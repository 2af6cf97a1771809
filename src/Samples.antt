-- ===== src/Samples.antt =====
-- Concrete data: a world in which everything that the program does not implement is a short
-- function, a small cluster in it, and the theorems at these.
mod Codecs
pub mod Small
mod Cluster
mod LogCases
mod VoteCases
mod BallotCases
mod HandlerCases
mod LeaderCases
mod PlainCases
mod GroupCases
mod PullCases
mod WheelCases
mod AlphaCases
mod JoinCases
mod ClientCases
mod StartCases
mod ReplicationCases
