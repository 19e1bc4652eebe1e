-- ===== src/Utils.antt =====
-- utils/: data structures that the node, the broker and the sessions share.
pub mod PriorityQueue
pub mod MessageVerifier
pub mod Queue
