-- ===== src/Connections.antt =====
-- The connections that the process opens at its start: MongoDB (src/infra/config/database.ts) and Redis
-- (src/infra/config/redis.ts). RabbitMQ's stands in Services.Broker. Log lines are left out, and with
-- them the listeners that only log.
pub mod MongoDb
pub mod Redis
