-- ===== src/Tests/Uris.antt =====
-- The theorems about addresses at concrete inputs.
use tee_mobicore_driver_daem.Base.{
  ℕ, ◌+◌, ◌≤◌, ◌<◌, ◌≡◌, ◌⊎◌, refl, List, [], ◌∷◌, ◌++◌, some, none, true, arith, length, replicate,
  take,
}
use tee_mobicore_driver_daem.Cmp.{rootpa_ok, rootpa_error_illegal_argument}
use tee_mobicore_driver_daem.Uri.{int_string, decimal, trustlet_link, set_initial_address}
use tee_mobicore_driver_daem.Uri.Text.{NonZero, buffer, chars_of}
use tee_mobicore_driver_daem.Uri.Links.{address_of, trustlet_link-fits, trustlet_link-overflows}
use tee_mobicore_driver_daem.Uri.Initial.{set_initial_address-cases}

abbrev url : List ℕ
url = 104 ∷ 47 ∷ []

abbrev bytes : List ℕ
bytes = replicate 16 171

url-NonZero : NonZero url
url-NonZero = (omega arith, (omega arith, tt))

-- "/7" and "/123456789"
short_spid : length (int_string 7) + 7 ≡ 9
unfolding int_string decimal
short_spid = refl

long_spid : 9 < length (int_string 123456789)
unfolding int_string decimal
long_spid = omega arith

trustlet_link-fits_example :
    trustlet_link url bytes 7 bytes
    ≡ some (buffer (address_of url bytes 7 ++ chars_of true 0 bytes) 7)
trustlet_link-fits_example =
    trustlet_link-fits url bytes bytes 7 url-NonZero refl refl (omega arith) 7 short_spid

trustlet_link-overflows_example : trustlet_link url bytes 123456789 bytes ≡ none
trustlet_link-overflows_example =
    trustlet_link-overflows url bytes bytes 123456789 url-NonZero refl refl (omega arith) long_spid

set_initial_address-cases_example :
    ((2 < 255) × (set_initial_address (some url) 2 [] ≡ some (rootpa_ok, buffer (take 2 url) 253)))
    ⊎ ((255 ≤ 2) × (set_initial_address (some url) 2 [] ≡ some (rootpa_error_illegal_argument, [])))
set_initial_address-cases_example =
    set_initial_address-cases url [] 2 (omega arith) (omega arith) (omega arith)
