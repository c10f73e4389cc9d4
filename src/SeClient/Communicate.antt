-- ===== src/SeClient/Communicate.antt =====
-- One exchange with the service enabler, `httpCommunicate` of rootpa/Code/Common/seclient.c.
use tee_mobicore_driver_daem.Base.{
  ℕ, zero, suc, ◌-◌, Bool, true, false, ◌&&◌, ◌||◌, List, [], ◌∷◌, ◌++◌, Option, none, some,
  if◌then◌else◌, ltb, leb, ◌==◌, length,
}
use tee_mobicore_driver_daem.Cmp.{
  rootpa_ok, rootpa_error_out_of_memory, rootpa_error_internal, rootpa_error_illegal_argument,
  rootpa_error_network, rootpa_error_se_cmp_version, rootpa_error_se_precondition_not_met,
}
use tee_mobicore_driver_daem.SeClient.Text.{◌>>=◌}
use tee_mobicore_driver_daem.SeClient.Header.{HeaderStruct, write_header_callback}
use tee_mobicore_driver_daem.SeClient.Transfer.{
  ResponseStruct, MemoryStruct, read_response_callback, write_memory_callback,
}
use tee_mobicore_driver_daem.SeClient.Options.{
  Transfer, Curl, done, reads, header, body, set_put_opt, set_post_opt, set_delete_opt,
  set_basic_opt,
}

-- httpMethod_t
pub data HttpMethod : Type 0 where
  http_get http_post http_put http_delete : HttpMethod

-- A PUT has an input.
abbrev pub HasInput : HttpMethod → Option (List ℕ) → Type 0
HasInput http_put none = ⊥
HasInput http_put (some input) = Unit
HasInput http_get input = Unit
HasInput http_post input = Unit
HasInput http_delete input = Unit

-- What an exchange leaves in the caller's pointers: nothing touched; the rel and the command NULL
-- and the link as it was; or the link, the rel and the command of the answer.
pub data Exchange : Type 0 where
  refused failed : ℕ → Exchange
  answered : ℕ → Option (List ℕ) → Option (List ℕ) → Option (List ℕ) → Exchange

-- The buffers that the callbacks work on. The chunk of the response is set for a PUT only.
pub record Buffers : Type 0 where
  pub sending : Option ResponseStruct
  pub chunk : MemoryStruct
  pub head : HeaderStruct

abbrev pub fresh_chunk : MemoryStruct
fresh_chunk = record { memory = some []; size = 0 }

abbrev pub fresh_head : HeaderStruct
fresh_head = record { link = none; link_size = 0; rel = none; rel_size = 0 }

-- The response and its zero.
abbrev pub response_chunk : List ℕ → ResponseStruct
response_chunk input = record { response = input ++ (0 ∷ []); size = length input; offset = 0 }

module _ {W : Type 0} (enough : ℕ → Bool) where
  -- `curl_easy_perform`, with the callbacks it makes: the CURLcode and the buffers after it.
  unfoldable pub run_transfer : Transfer W → Buffers → Option (ℕ × (Buffers × W))
  run_transfer (done code w) b = some (code, (b, w))
  run_transfer (reads size nmemb k) b = elim b.sending [
    | none ↦ none
    | some rsp ↦ (do
      (bytes, rsp') ← read_response_callback size nmemb rsp
      run_transfer (k bytes) (record b { sending = some rsp' }))
  ]
  run_transfer (header text size nmemb k) b = do
    (n, head') ← write_header_callback enough text size nmemb b.head
    run_transfer (k n) (record b { head = head' })
  run_transfer (body contents k) b = do
    (n, chunk') ← write_memory_callback enough contents b.chunk
    run_transfer (k n) (record b { chunk = chunk' })

-- MAX_ATTEMPTS
abbrev pub max_attempts : ℕ
max_attempts = 30

-- The loop around `curl_easy_perform` with so many attempts left: the last CURLcode is `CURLE_OK`,
-- the buffers, and the state.
unfoldable pub attempts_from :
    {W : Type 0} → Curl W → (ℕ → Bool) → ℕ → ℕ → Buffers → W → Option (Bool × (Buffers × W))
attempts_from curl enough zero begin_time b w = some (false, (b, w))
attempts_from curl enough (suc left) begin_time b w = do
  (code, (b', w')) ← run_transfer enough (curl.perform w) b
  let (end_time, w'') = curl.now (curl.pause w')
  let again = attempts_from curl enough left begin_time b' w''
  if code == 0
      then some (true, (b', w'))
      else if ltb 29 (end_time - begin_time)
      then some (false, (b', w''))
      else again

-- The result for the status of the answer.
unfoldable pub status_result : ℕ → ℕ
status_result code =
    if leb 200 code && ltb code 300
    then rootpa_ok
    else if (code == 400)
        || ((code == 405)
            || ((code == 406)
                || ((code == 409)
                    || ((code == 411)
                        || ((code == 414)
                            || ((code == 415)
                                || ((code == 422) || ((code == 500) || (code == 505)))))))))
    then rootpa_error_internal
    else if (code == 301) || ((code == 408) || (code == 503))
    then rootpa_error_network
    else if code == 501
    then rootpa_error_se_cmp_version
    else if code == 424
    then rootpa_error_se_precondition_not_met
    else if code == 404
    then rootpa_error_illegal_argument
    else rootpa_error_network

-- The options of the method, and the chunk of the response. `strlen` of NULL is undefined.
unfoldable pub set_method :
    {W : Type 0}
    → Curl W
    → HttpMethod
    → Option (List ℕ)
    → W
    → Option (Option ResponseStruct × (Bool × W))
set_method curl http_put none w = none
set_method curl http_put (some input) w =
    some (some (response_chunk input), set_put_opt curl (length input) w)
set_method curl http_post input w = some (none, set_post_opt curl input w)
set_method curl http_delete input w = some (none, set_delete_opt curl w)
set_method curl http_get input w = some (none, (true, w))

-- The two paths of the certificates.
pub record CertPaths : Type 0 where
  pub certificate_path : List ℕ
  pub certificate_file_path : List ℕ

-- From the retry loop on.
unfoldable pub perform_and_answer :
    {W : Type 0} → Curl W → (ℕ → Bool) → Buffers → W → Option (Exchange × W)
perform_and_answer curl enough b w = do
  let (begin_time, w') = curl.now w
  (connected, (b', w'')) ← attempts_from curl enough max_attempts begin_time b w'
  let (http_code, after) = curl.response_code w''
  if connected
      then some (
        answered (status_result http_code) b'.head.link b'.head.rel b'.chunk.memory,
        curl.easy_reset (curl.free_headers after),
      )
      else some (failed rootpa_error_network, curl.easy_reset after)

-- The pointers `linkP`, `relP` and `commandP` are given; `*linkP` is the link.
unfoldable pub http_communicate :
    {W : Type 0}
    → Curl W
    → (ℕ → Bool)
    → CertPaths
    → Option (List ℕ)
    → Option (List ℕ)
    → HttpMethod
    → W
    → Option (Exchange × W)
http_communicate curl enough paths input none method w =
    some (refused rootpa_error_illegal_argument, w)
http_communicate curl enough paths input (some link) method w =
    if enough 1
    then (do
      (sending, (method_set, w')) ← set_method curl method input w
      let (basic_set, w'') =
          set_basic_opt curl paths.certificate_file_path paths.certificate_path (some link)
            (curl.append_headers w')
      if method_set
          then (if basic_set
              then perform_and_answer curl enough
                  (record { sending = sending; chunk = fresh_chunk; head = fresh_head }) w''
              else some (failed rootpa_error_network, w''))
          else some (failed rootpa_error_network, w'))
    else some (failed rootpa_error_out_of_memory, w)
