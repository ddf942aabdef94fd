-- ===== src/Handler/Requests.antt =====
-- handler.py and auth.py: which certificates may send a request, and the reply to the others.
use cactus_runner.Prelude.{String, Bool, true, false, Option, none, some, str_eq, ◌≡◌, arith}
use cactus_runner.Exec.{ok, ◌>>=◌}
use cactus_runner.Models.{ActiveTestProcedure, is_finished}
use cactus_runner.Services.{Services}
use cactus_runner.World.{World, observe, time_now}
use cactus_runner.Uri.{Request}
use cactus_runner.Proxy.{request_is_authorized}
use cactus_runner.Handler.Replies.{Config}
use cactus_runner.Handler.Guards.{reply_status}
use cactus_runner.Handler.Proxied.{is_authorized, serve_active, proxied_request_handler}

-- The LFDI that a certificate presents: that of a PEM certificate, that of a fingerprint, or the
-- text itself; another text presents none.
pub data Presents (S : Services) (certificate : String) : Option String → Type 0 where
  by_pem :
      (lfdi : String)
      → S.is_valid_pem certificate ≡ true
      → S.generate_lfdi_from_pem certificate ≡ ok lfdi
      → Presents S certificate (some lfdi)
  by_fingerprint :
      (lfdi : String)
      → S.is_valid_pem certificate ≡ false
      → S.is_valid_sha256 certificate ≡ true
      → S.generate_lfdi_from_fingerprint certificate ≡ ok lfdi
      → Presents S certificate (some lfdi)
  by_itself :
      S.is_valid_pem certificate ≡ false
      → S.is_valid_sha256 certificate ≡ false
      → S.is_valid_lfdi certificate ≡ true
      → Presents S certificate (some certificate)
  by_nothing :
      S.is_valid_pem certificate ≡ false
      → S.is_valid_sha256 certificate ≡ false
      → S.is_valid_lfdi certificate ≡ false
      → Presents S certificate none

abbrev pub is_same_lfdi : (expected presented : Option String) → Bool
is_same_lfdi (some e) (some p) = str_eq p e
is_same_lfdi _ _ = false

module _ (S : Services) (config : Config) (request : Request) where
  decided :
      (presented : Option String) (w : World S)
      → Presents S request.certificate presented
      → request_is_authorized S request w ≡ (ok (is_same_lfdi w.certs.client_lfdi presented), w)
  unfolding request_is_authorized ◌>>=◌
  decided _ w (by_pem lfdi a b) = ground arith
  decided _ w (by_fingerprint lfdi a b c) = ground arith
  decided _ w (by_itself a b c) = ground arith
  decided _ w (by_nothing a b c) = ground arith

  -- The answer to a request that comes in the world, by whether its client is the registered one.
  abbrev pub IsAnswered : World S → Bool → Type 0
  IsAnswered w true = is_authorized S config request (time_now S w).1 ≡ (ok true, (time_now S w).1)
  IsAnswered w false =
      (proxied_request_handler S config request w).1 ≡ (time_now S w).1
      × reply_status (proxied_request_handler S config request w).0 ≡ some 403

  answered :
      (w : World S) (p : ActiveTestProcedure) (b : Bool)
      → w.runner.active_test_procedure ≡ some p
      → is_finished p ≡ false
      → is_authorized S config request (time_now S w).1 ≡ (ok b, (time_now S w).1)
      → IsAnswered w b
  unfolding proxied_request_handler serve_active observe time_now ◌>>=◌
  answered w p true h f a = a
  answered w p false h f a = ground arith

  -- While a test is active, not finished, and the check is not turned off, a request is authorized
  -- exactly if the LFDI that its certificate presents is that of the registered client. A request
  -- that is not is answered with 403; nothing is forwarded or recorded, and only the clock is read.
  pub proxied_request_handler-IsAnswered :
      (w : World S) (p : ActiveTestProcedure) (presented : Option String)
      → w.runner.active_test_procedure ≡ some p
      → is_finished p ≡ false
      → config.dev_skip_authorization_check ≡ false
      → Presents S request.certificate presented
      → IsAnswered w (is_same_lfdi w.certs.client_lfdi presented)
  unfolding is_authorized time_now observe
  proxied_request_handler-IsAnswered w p presented h f skip by =
      answered w p _ h f (rw skip (decided presented (time_now S w).1 by))
