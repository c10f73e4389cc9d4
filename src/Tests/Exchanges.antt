-- ===== src/Tests/Exchanges.antt =====
-- The theorems about the client of the service enabler at concrete inputs.
use tee_mobicore_driver_daem.Base.{
  ℕ, zero, suc, ◌*◌, ◌≤◌, ◌≡◌, ◌⊎◌, ◌↔◌, refl, Bool, true, List, [], ◌∷◌, none, some, arith, length,
}
use tee_mobicore_driver_daem.SeClient.Header.{write_header_callback}
use tee_mobicore_driver_daem.SeClient.Header.Roundtrip.{
  link_header, header_of, write_header_callback-roundtrip,
}
use tee_mobicore_driver_daem.SeClient.Transfer.Pieces.{
  send_all, at_offset, in_memory, send_all_complete,
}
use tee_mobicore_driver_daem.SeClient.Options.{Transfer, Curl, done, body}
use tee_mobicore_driver_daem.SeClient.Communicate.{Buffers, fresh_head, fresh_chunk}
use tee_mobicore_driver_daem.SeClient.Answers.{answer_of}

-- Memory for everything.
abbrev always : ℕ → Bool
always n = true

abbrev url : List ℕ
url = 104 ∷ 58 ∷ 47 ∷ []

abbrev rel : List ℕ
rel = 110 ∷ 101 ∷ 120 ∷ 116 ∷ []

write_header_callback-roundtrip_example :
    write_header_callback always (link_header url rel (13 ∷ 10 ∷ 0 ∷ [])) 1 24 fresh_head
    ≡ some (1 * 24, header_of url rel)
write_header_callback-roundtrip_example =
    write_header_callback-roundtrip always fresh_head url rel (13 ∷ 10 ∷ 0 ∷ []) 1 24 refl refl refl
      refl (omega arith)

abbrev four : List ℕ
four = 7 ∷ 8 ∷ 9 ∷ 10 ∷ []

-- Four bytes in pieces of three.
send_all_complete_example :
    ((length four ≤ 3) ⊎ ((k : ℕ) × (k * 3 ≡ length four)))
    ↔ (send_all 6 3 (at_offset (in_memory four) 4 0) ≡ some four)
send_all_complete_example = send_all_complete 3 four (omega arith) (omega arith)

-- A server that breaks off at first and then answers with a Link header and a body.
abbrev serve : ℕ → Transfer ℕ
serve zero = body (60 ∷ []) (λ n. done 18 1)
serve (suc w) = body (60 ∷ 62 ∷ []) (λ n. done 0 2)

abbrev curl_of : (ℕ → Transfer ℕ) → Curl ℕ
curl_of perform = record {
  global_init = λ w. (true, w);
  easy_init = λ w. (true, w);
  set_opt = λ o w. (true, w);
  append_headers = λ w. w;
  save_cert_file = λ path w. w;
  perform = perform;
  response_code = λ w. (200, w);
  now = λ w. (0, w);
  pause = λ w. w;
  free_headers = λ w. w;
  easy_reset = λ w. w;
  easy_cleanup = λ w. w;
  global_cleanup = λ w. w;
}

abbrev buffers : Buffers
buffers = record { sending = none; chunk = fresh_chunk; head = fresh_head }

abbrev answers : ℕ → Transfer ℕ
answers w = answer_of url rel (13 ∷ 10 ∷ 0 ∷ []) 1 24 (60 ∷ 62 ∷ []) (suc w)
