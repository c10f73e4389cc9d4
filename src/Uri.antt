-- ===== src/Uri.antt =====
-- The addresses of the service enabler in rootpa/Code/Common/provisioningengine.c: strings that end
-- in a zero, in buffers of bytes. A write or a search past the end of a buffer is undefined, `none`.
pub mod Text
pub mod Links
pub mod Initial
use tee_mobicore_driver_daem.Base.{
  ℕ, zero, suc, ◌+◌, ◌-◌, ◌*◌, ◌/◌, ◌%◌, List, [], ◌∷◌, ◌++◌, Bool, true, false, ◌&&◌, ◌||◌, Option,
  none, some, if◌then◌else◌, ◌==◌, ltb, length, set, take, replicate, u32_mod, add32,
}
use tee_mobicore_driver_daem.Cmp.{rootpa_ok, rootpa_error_internal, rootpa_error_illegal_argument}

infixl 5 ◌>>=◌
abbrev ◌>>=◌ : {A B : Type 0} → Option A → (A → Option B) → Option B
none >>= f = none
some a >>= f = f a

-- `strlen`
abbrev pub str_len : List ℕ → Option ℕ
str_len [] = none
str_len (zero ∷ bytes) = some 0
str_len (suc c ∷ bytes) = do n ← str_len bytes; some (suc n)

-- `uriP[i]=c`
unfoldable pub put_char : ℕ → ℕ → List ℕ → Option (List ℕ)
put_char i c uri = if ltb i (length uri) then some (set uri i c) else none

-- One character behind the other.
abbrev pub put_chars : ℕ → List ℕ → List ℕ → Option (List ℕ)
put_chars i [] uri = some uri
put_chars i (c ∷ cs) uri = do uri' ← put_char i c uri; put_chars (suc i) cs uri'

unfoldable pub add_slash_to_uri : List ℕ → Option (List ℕ)
add_slash_to_uri uri = do i ← str_len uri; put_char i 47 uri

-- The character of a half of a byte.
abbrev pub hex_digit : ℕ → ℕ
hex_digit n = if ltb n 10 then n + 48 else n + 87

-- Does a dash follow this byte of a uuid?
abbrev pub dash_behind : ℕ → Bool
dash_behind i = (i == 3) || ((i == 5) || ((i == 7) || (i == 9)))

-- The loop's body for byte `i`: the next index, and the buffer.
unfoldable pub add_byte : Bool → ℕ → ℕ → ℕ → List ℕ → Option (ℕ × List ℕ)
add_byte uuid i at byte uri = do
  uri' ← put_char at (hex_digit (byte / 16)) uri
  uri'' ← put_char (suc at) (hex_digit (byte % 16)) uri'
  if uuid && dash_behind i
      then (do uri''' ← put_char (suc (suc at)) 45 uri''; some (suc (suc (suc at)), uri'''))
      else some (suc (suc at), uri'')

unfoldable pub add_bytes_from : Bool → ℕ → ℕ → List ℕ → List ℕ → Option (List ℕ)
add_bytes_from uuid i at [] uri = some uri
add_bytes_from uuid i at (byte ∷ bytes) uri = do
  (at', uri') ← add_byte uuid i at byte uri
  add_bytes_from uuid (suc i) at' bytes uri'

unfoldable pub add_bytes_to_uri : List ℕ → List ℕ → Bool → Option (List ℕ)
add_bytes_to_uri uri bytes uuid = do at ← str_len uri; add_bytes_from uuid 0 at bytes uri

-- The decimal digits in front of others; a 32-bit number has at most ten.
abbrev digits_before : ℕ → ℕ → List ℕ → List ℕ
digits_before zero n more = more
digits_before (suc fuel) n more =
    let longer = digits_before fuel (n / 10) ((n % 10 + 48) ∷ more) in
    if ltb n 10 then (n + 48) ∷ more else longer

-- `%d` of a 32-bit word.
unfoldable pub decimal : ℕ → List ℕ
decimal n =
    if ltb n 2147483648 then digits_before 10 n [] else 45 ∷ digits_before 10 (u32_mod - n) []

-- INT_STRING_LENGTH
abbrev pub int_string_length : ℕ
int_string_length = 12

-- What `snprintf` leaves of "/%d": one character less than the length of its buffer.
unfoldable pub int_string : ℕ → List ℕ
int_string n = take 11 (47 ∷ decimal n)

-- `strncpy` fills up with zeros.
unfoldable pub add_int_to_uri : List ℕ → ℕ → Option (List ℕ)
add_int_to_uri uri n = do
  at ← str_len uri
  put_chars at (take int_string_length (int_string n ++ replicate int_string_length 0)) uri

-- INITIAL_URL_BUFFER_LENGTH
abbrev pub initial_url_buffer_length : ℕ
initial_url_buffer_length = 255

-- The address with its length, as `memcpy` reads it, and the buffer before; NULL is `none`.
unfoldable pub set_initial_address : Option (List ℕ) → ℕ → List ℕ → Option (ℕ × List ℕ)
set_initial_address none length old = some (rootpa_error_internal, old)
set_initial_address (some addr) length old =
    if length == 0
    then some (rootpa_error_internal, old)
    else if ltb initial_url_buffer_length (add32 length 1)
    then some (rootpa_error_illegal_argument, old)
    else (do
      url ← put_chars 0 (take length addr) (replicate initial_url_buffer_length 0)
      some (rootpa_ok, url))

-- What `createBasicLink` adds to the length of the initial address: 16, 4 and 16 bytes as two
-- characters each, and six.
abbrev link_room : ℕ
link_room = 78

-- `createBasicLink`, with memory at hand: the SUID behind the initial address, which is given as
-- the characters before its zero.
unfoldable pub create_basic_link : List ℕ → List ℕ → Option (List ℕ)
create_basic_link suid initial_url = do
  link ← put_chars 0 initial_url (replicate (length initial_url + link_room) 0)
  add_bytes_to_uri link suid false

-- The address for installing a trustlet, as `doProvisioningWithSe` puts it together.
unfoldable pub trustlet_link : List ℕ → List ℕ → ℕ → List ℕ → Option (List ℕ)
trustlet_link initial_url suid spid uuid = do
  link ← create_basic_link suid initial_url
  with_spid ← (if spid == 0 then some link else add_int_to_uri link spid)
  with_slash ← add_slash_to_uri with_spid
  add_bytes_to_uri with_slash uuid true
