-- ===== src/Api/Health.antt =====
-- When the service is healthy.
use ubki_uploader.Db.Schema.{Db}
