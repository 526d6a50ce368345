-- ===== src/Db/Health.antt =====
-- internal/infra/db/health_repository.go: a ping, bounded by three seconds.
use cache_22_server.Prelude.{Bytes, codes}
use cache_22_server.World.{Action, attempt, pure, ◌>>◌}

unfoldable pub get_status : Bytes → Action Bytes
unfolding attempt
get_status source = attempt >> pure (codes "ok")
