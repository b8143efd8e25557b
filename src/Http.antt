-- ===== src/Http.antt =====
-- The HTTP interface: requests, responses and errors, the job routes (src/domains/job/job.routes.ts,
-- job.controller.ts), the middleware before them and the error handler after them. Log lines are left
-- out. Express, Joi and jsonwebtoken are parameters.
pub mod Schemas
pub mod Messages
pub mod Middleware
pub mod Errors
pub mod Jobs
pub mod Guard
pub mod Listing
pub mod App
pub mod Letters
pub mod Service
