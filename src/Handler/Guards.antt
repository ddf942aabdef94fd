-- ===== src/Handler/Guards.antt =====
-- handler.py: the status of a reply.
use cactus_runner.Prelude.{ℕ, Option, none, some}
use cactus_runner.Exec.{Result, ok, err}
use cactus_runner.Handler.Replies.{Reply}

abbrev pub reply_status : Result Reply → Option ℕ
reply_status (ok r) = some r.status
reply_status (err e) = none
