-- ===== src/Web/Render.antt =====
-- The errors of src/web/render.rs; a message of a bad request is a constructor.
use sagittarius.Blocklist.Parse.{Text}
use sagittarius.Storage.Sqlite.{StorageError}

pub data BadRequest : Type 0 where
  ttl_order no_capacity invalid_mode no_retention invalid_strategy no_fanout : BadRequest
  invalid_v4 invalid_v6 : Text → BadRequest

-- `WebError`, as far as the settings and the pool use it.
pub data WebError : Type 0 where
  internal : StorageError → WebError
  bad_request : BadRequest → WebError
