-- ===== src/SeClient/Answers.antt =====
-- What the answers of the service enabler come to, `httpCommunicate` of
-- rootpa/Code/Common/seclient.c.
use tee_mobicore_driver_daem.Base.{ℕ, List}
use tee_mobicore_driver_daem.SeClient.Header.Roundtrip.{link_header}
use tee_mobicore_driver_daem.SeClient.Options.{Transfer, done, header, body}

-- An answer with a Link header and a body.
abbrev pub answer_of : {W : Type 0} → List ℕ → List ℕ → List ℕ → ℕ → ℕ → List ℕ → W → Transfer W
answer_of url rel rest size nmemb contents w =
    header (link_header url rel rest) size nmemb (λ n. body contents (λ k. done 0 w))
