-- ===== src/SeClient/Options.antt =====
-- libcurl as rootpa/Code/Common/seclient.c uses it, and the options it sets: `setPutOpt`,
-- `setPostOpt`, `setDeleteOpt`, `setBasicOpt`, `setCertPath`, `openSeClientAndInit` and
-- `closeSeClientAndCleanup`.
use tee_mobicore_driver_daem.Base.{
  ℕ, ◌+◌, Bool, true, false, List, [], ◌∷◌, ◌++◌, Option, none, some, if◌then◌else◌, ltb, length,
}
use tee_mobicore_driver_daem.Cmp.{rootpa_ok, rootpa_error_network}

-- CURLoption, with the argument where it is no constant.
pub data CurlOption : Type 0 where
  url post_fields : Option (List ℕ) → CurlOption
  in_file_size post_field_size time_out : ℕ → CurlOption
  read_function upload put read_data post delete_request : CurlOption
  write_function header_function write_data write_header http_header user_agent : CurlOption
  no_progress : CurlOption
  ca_info ca_path : List ℕ → CurlOption

-- `curl_easy_perform` as it calls back: for bytes to send, with a header, and with bytes received,
-- each time with what it does on the result of the callback.
pub data Transfer (W : Type 0) : Type 0 where
  done : ℕ → W → Transfer W
  reads : ℕ → ℕ → (List ℕ → Transfer W) → Transfer W
  header : List ℕ → ℕ → ℕ → (ℕ → Transfer W) → Transfer W
  body : List ℕ → (ℕ → Transfer W) → Transfer W

-- libcurl, the clock, and the file of the certificates, over a state of theirs. A Boolean is
-- `CURLE_OK`, or a handle that is not NULL.
pub record Curl (W : Type 0) : Type 0 where
  pub global_init : W → Bool × W
  pub easy_init : W → Bool × W
  pub set_opt : CurlOption → W → Bool × W
  pub append_headers : W → W
  pub save_cert_file : List ℕ → W → W
  pub perform : W → Transfer W
  pub response_code : W → ℕ × W
  pub now : W → ℕ × W
  pub pause : W → W
  pub free_headers : W → W
  pub easy_reset : W → W
  pub easy_cleanup : W → W
  pub global_cleanup : W → W

module _ {W : Type 0} (curl : Curl W) where
  -- One option after the other, to the first that fails.
  unfoldable pub set_opts : List CurlOption → W → Bool × W
  set_opts [] w = (true, w)
  set_opts (o ∷ os) w =
      let (ok, w') = curl.set_opt o w in
      let rest = set_opts os w' in if ok then rest else (false, w')

  unfoldable pub set_put_opt : ℕ → W → Bool × W
  set_put_opt chunk_size =
      set_opts (read_function ∷ upload ∷ put ∷ read_data ∷ in_file_size chunk_size ∷ [])

  unfoldable pub set_post_opt : Option (List ℕ) → W → Bool × W
  set_post_opt none = set_opts (post ∷ post_field_size 0 ∷ post_fields none ∷ [])
  set_post_opt (some input) = set_opts (post ∷ post_fields (some input) ∷ [])

  unfoldable pub set_delete_opt : W → Bool × W
  set_delete_opt = set_opts (delete_request ∷ [])

  -- SE_CONNECTION_DEFAULT_TIMEOUT
  abbrev pub se_connection_default_timeout : ℕ
  se_connection_default_timeout = 58

  unfoldable pub set_basic_opt : List ℕ → List ℕ → Option (List ℕ) → W → Bool × W
  set_basic_opt certificate_file_path certificate_path link w =
      let (ok, w') =
        set_opts
          (url link
            ∷ write_function
            ∷ header_function
            ∷ write_data
            ∷ write_header
            ∷ http_header
            ∷ user_agent
            ∷ no_progress
            ∷ [])
          w in
      if ok
      then set_opts
          (ca_info certificate_file_path
            ∷ ca_path certificate_path
            ∷ time_out se_connection_default_timeout
            ∷ [])
          (curl.save_cert_file certificate_file_path w')
      else (false, w')

  -- The result, and whether `curl_handle_` is set.
  unfoldable pub open_se_client_and_init : Bool → W → ℕ × (Bool × W)
  open_se_client_and_init handle w =
      let (ok, w') = curl.global_init w in
      if ok
      then (let (handle', w'') = curl.easy_init w' in
          ((if handle' then rootpa_ok else rootpa_error_network), (handle', w'')))
      else (rootpa_error_network, (handle, w'))

  unfoldable pub close_se_client_and_cleanup : Bool → W → Bool × W
  close_se_client_and_cleanup handle w =
      (false, curl.global_cleanup (if handle then curl.easy_cleanup w else w))

-- CERT_PATH_MAX_LEN
abbrev pub cert_path_max_len : ℕ
cert_path_max_len = 256

-- "cacert.pem"
abbrev cacert_filename : List ℕ
cacert_filename = 99 ∷ 97 ∷ 99 ∷ 101 ∷ 114 ∷ 116 ∷ 46 ∷ 112 ∷ 101 ∷ 109 ∷ []

abbrev cert_path_of : Option (List ℕ) → List ℕ
cert_path_of none = []
cert_path_of (some path) = if ltb (length path + 1) cert_path_max_len then path else []

abbrev cert_dir_of : Option (List ℕ) → List ℕ
cert_dir_of none = []
cert_dir_of (some path) =
    if ltb (length path + 1 + 11) cert_path_max_len then path ++ (47 ∷ []) else []

-- `certificatePath_` and `certificateFilePath_`, as text before the zeros.
unfoldable pub set_cert_path : Option (List ℕ) → Option (List ℕ) → List ℕ × List ℕ
set_cert_path local_path cert_path =
    (cert_path_of cert_path, cert_dir_of local_path ++ cacert_filename)
