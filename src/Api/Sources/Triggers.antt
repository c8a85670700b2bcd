-- ===== src/Api/Sources/Triggers.antt =====
-- When a task for a source can join the queue.
use know_gate.Auth.Permissions
use know_gate.Api.Result.{Result}
