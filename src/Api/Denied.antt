-- ===== src/Api/Denied.antt =====
-- internal/api/sessions.go: a caller without the session's token, or of another tenant, at every
-- handler of a session.
use isobox.Registry.{Registry}
use isobox.Api.Reply.{Reply}
