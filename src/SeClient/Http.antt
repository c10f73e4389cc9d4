-- ===== src/SeClient/Http.antt =====
-- The four requests of rootpa/Code/Common/seclient.c.
use tee_mobicore_driver_daem.Base.{ℕ, Bool, List, Option, none, some}
use tee_mobicore_driver_daem.Cmp.{rootpa_error_illegal_argument}
use tee_mobicore_driver_daem.SeClient.Options.{Curl}
use tee_mobicore_driver_daem.SeClient.Communicate.{
  http_get, http_post, http_put, http_delete, Exchange, refused, CertPaths, http_communicate,
}

module _ {W : Type 0} (curl : Curl W) (enough : ℕ → Bool) (paths : CertPaths) where
  unfoldable pub http_post_and_receive_command :
      Option (List ℕ) → Option (List ℕ) → W → Option (Exchange × W)
  http_post_and_receive_command input link = http_communicate curl enough paths input link http_post

  unfoldable pub http_put_and_receive_command :
      Option (List ℕ) → Option (List ℕ) → W → Option (Exchange × W)
  http_put_and_receive_command none link w = some (refused rootpa_error_illegal_argument, w)
  http_put_and_receive_command (some input) link w =
      http_communicate curl enough paths (some input) link http_put w

  unfoldable pub http_get_and_receive_command : Option (List ℕ) → W → Option (Exchange × W)
  http_get_and_receive_command link = http_communicate curl enough paths none link http_get

  unfoldable pub http_delete_and_receive_command : Option (List ℕ) → W → Option (Exchange × W)
  http_delete_and_receive_command link = http_communicate curl enough paths none link http_delete
