-- ===== src/Proxy.antt =====
-- proxy.py and auth.py: forwarding a request to the utility server, and who may send one.
use cactus_runner.Prelude.{ℕ, String, Bool, false, Option, none, some, str_eq, if◌then◌else◌}
use cactus_runner.Exec.{pure, lift, gets, ◌>>=◌}
use cactus_runner.Models.{ActiveTestProcedure}
use cactus_runner.Services.{Services, Response}
use cactus_runner.World.{World, Run, call, time_now}
use cactus_runner.Uri.{Request}

pub record ProxyResult : Type 0 where
  pub uri : String
  pub request_method : String
  pub request_body : String
  pub response : Response
  pub response_timestamp : ℕ

-- The answer while communication loss is simulated.
abbrev pub comms_disabled : Response
comms_disabled = record { status = 500; body = "COMMS DISABLED" }

abbrev pub same_text : Option String → String → Bool
same_text none s = false
same_text (some t) s = str_eq s t

module _ (S : Services) where
  unfoldable pub proxy_request :
      Request → (remote_url : String) → ActiveTestProcedure → Run S ProxyResult
  proxy_request request remote_url p = do
    response ←
        if p.communications_disabled
        then pure comms_disabled
        else call S (S.forward request.method remote_url request.body)
    now ← time_now S
    pure (record {
      uri = remote_url;
      request_method = request.method;
      request_body = request.body;
      response = response;
      response_timestamp = now;
    })

  unfoldable pub request_is_authorized : Request → Run S Bool
  request_is_authorized request = do
    expected ← gets (λ (w : World S). w.certs.client_lfdi)
    let incoming = request.certificate
    if S.is_valid_pem incoming
        then (do lfdi ← lift (S.generate_lfdi_from_pem incoming); pure (same_text expected lfdi))
        else if S.is_valid_sha256 incoming
        then (do
          lfdi ← lift (S.generate_lfdi_from_fingerprint incoming)
          pure (same_text expected lfdi))
        else if S.is_valid_lfdi incoming
        then pure (same_text expected incoming)
        else pure false
