-- ===== src/Provisioning/Start/Recovery.antt =====
-- The recovery from a factory reset in rootpa/Code/Common/provisioningengine.c, with a trustlet to
-- install.
use tee_mobicore_driver_daem.Base.{ℕ, ◌≡◌, refl, true, List, Option, none, some}
use tee_mobicore_driver_daem.State.{ProvisioningState}
use tee_mobicore_driver_daem.SeClient.Text.{◌>>=◌, str_str}
use tee_mobicore_driver_daem.SeClient.Communicate.{http_delete, answered}
use tee_mobicore_driver_daem.CommandHandler.Provision.{initial_rel_post}
use tee_mobicore_driver_daem.Provisioning.Memory.{
  initial_post, block, cleanup, initial_post_text, initial_delete_text,
}
use tee_mobicore_driver_daem.Provisioning.Peer.{Peer, relation_of, take_answer}
use tee_mobicore_driver_daem.Provisioning.Branches.{request, plain_request, on_relation}
use tee_mobicore_driver_daem.Provisioning.Round.{round, end_round, drop_used, on_no_relation}
use tee_mobicore_driver_daem.Provisioning.Start.{first_rel, loop_with, put_off}

-- Defined, and so.
abbrev pub Yields : {A : Type 0} → (A → Type 0) → Option A → Type 0
Yields P none = ⊥
Yields P (some a) = P a

-- After a factory reset, two rounds in which the server answers the initial delete without a
-- relation lead to the initial post that was put off, with its link, but without the request for
-- the installation that was to be posted.
pub put_off-forgets_request :
    {W : Type 0} (peer : Peer W) (w w' : W) (link delete_link command : List ℕ)
    (answer_link request : Option (List ℕ)) (ret : ℕ) (reports : List (ProvisioningState × ℕ))
    → peer.exchange http_delete none (some delete_link) w
      ≡ some (answered 0 answer_link none (some command), w')
    → Yields
        (λ s. (s.rel ≡ initial_post) × ((s.link ≡ block 0 link) × (s.response ≡ none)))
        (do
          s₁ ← round peer (
              put_off delete_link
                (loop_with w link (first_rel initial_rel_post) request ret true reports))
          round peer s₁)
unfolding put_off round end_round drop_used cleanup on_no_relation on_relation plain_request request
    relation_of take_answer initial_post_text initial_delete_text str_str
put_off-forgets_request peer w w' link delete_link command none request ret reports e =
    rw (e) (refl, (refl, refl))
put_off-forgets_request peer w w' link delete_link command (some l) request ret reports e =
    rw (e) (refl, (refl, refl))
