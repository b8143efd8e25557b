-- ===== src/Queue.antt =====
-- The Redis sorted-set queues: the sorted sets as the program calls them, and RedisJobQueue.
pub mod SortedSets
pub mod RedisJobQueue
