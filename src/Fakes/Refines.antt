-- ===== src/Fakes/Refines.antt =====
-- The fakes of internal/testutil/fakes.go give what the database gives.
use cache_22_server.Prelude.{nat_eq, list_eq}
use cache_22_server.World.{World}
