-- ===== src/Uri/Links.antt =====
-- Which addresses fit the buffer of `createBasicLink` (rootpa/Code/Common/provisioningengine.c).
use tee_mobicore_driver_daem.Base.{
  ℕ, zero, suc, ◌+◌, ◌-◌, ◌*◌, ◌/◌, ◌%◌, ◌≤◌, ◌<◌, ◌≡◌, ◌≢◌, refl, sym, ◌∙◌, ap, List, [], ◌∷◌,
  ◌++◌, Bool, true, false, ◌&&◌, none, some, arith, length, replicate, take, length-take, inl, inr,
  Bool-cases, if◌then◌else◌, u32_mod, ◌==◌,
}
use tee_mobicore_driver_daem.Uri.{
  put_chars, dash_behind, add_bytes_to_uri, add_slash_to_uri, digits_before, decimal, int_string,
  int_string_length, add_int_to_uri, create_basic_link, trustlet_link,
}
use tee_mobicore_driver_daem.Uri.Text.{
  NonZero, buffer, chars_of, str_len-buffer, put_char-buffer, put_chars-buffer, put_chars-full,
  add_bytes_from-eq, append_assoc, length-buffer,
}

NonZero-append : (xs ys : List ℕ) → NonZero xs → NonZero ys → NonZero (xs ++ ys)
NonZero-append [] ys n m = m
NonZero-append (x ∷ xs) ys n m = (n.0, NonZero-append xs ys n.1 m)

chars_of-NonZero : (uuid : Bool) (i : ℕ) (bytes : List ℕ) → NonZero (chars_of uuid i bytes)
chars_of-NonZero uuid i [] = tt
chars_of-NonZero uuid i (byte ∷ bytes) = elim (Bool-cases (uuid && dash_behind i)) [
  | inl dash ↦
      rw dash (ground arith, (ground arith, (omega arith, chars_of-NonZero uuid (suc i) bytes)))
  | inr plain ↦ rw plain (ground arith, (ground arith, chars_of-NonZero uuid (suc i) bytes))
]

-- How many dashes `n` bytes get, from byte `i` on.
abbrev dashes : ℕ → ℕ → ℕ
dashes i zero = 0
dashes i (suc n) = (if dash_behind i then 1 else 0) + dashes (suc i) n

length-chars_of :
    (uuid : Bool) (i : ℕ) (bytes : List ℕ)
    → length (chars_of uuid i bytes)
      ≡ 2 * length bytes + (if uuid then dashes i (length bytes) else 0)
length-chars_of true i [] = refl
length-chars_of false i [] = refl
length-chars_of true i (byte ∷ bytes) = ground (arith, length-chars_of true (suc i) bytes)
length-chars_of false i (byte ∷ bytes) = ground (arith, length-chars_of false (suc i) bytes)

digits_before-NonZero :
    (fuel n : ℕ) (more : List ℕ) → NonZero more → NonZero (digits_before fuel n more)
digits_before-NonZero zero n more m = m
digits_before-NonZero (suc fuel) n more m =
    ground (arith, digits_before-NonZero fuel (n / 10) ((n % 10 + 48) ∷ more))

NonZero-take : (n : ℕ) (xs : List ℕ) → NonZero xs → NonZero (take n xs)
NonZero-take zero xs m = tt
NonZero-take (suc n) [] m = tt
NonZero-take (suc n) (x ∷ xs) m = (m.0, NonZero-take n xs m.1)

decimal-NonZero : (n : ℕ) → NonZero (decimal n)
unfolding decimal
decimal-NonZero n =
    ground (arith, digits_before-NonZero 10 n [] tt, digits_before-NonZero 10 (u32_mod - n) [] tt)

int_string-NonZero : (n : ℕ) → NonZero (int_string n)
unfolding int_string
int_string-NonZero n = NonZero-take 11 (47 ∷ decimal n) (omega arith, decimal-NonZero n)

length-int_string : (n : ℕ) → (length (int_string n) ≤ 11) × (0 < length (int_string n))
unfolding int_string
length-int_string n = (omega (arith, length-take {0} 11 (47 ∷ decimal n)), omega arith)

-- A slash behind a text.
add_slash_to_uri-buffer :
    (text : List ℕ) (room : ℕ)
    → NonZero text
    → add_slash_to_uri (buffer text (suc room)) ≡ some (buffer (text ++ 47 ∷ []) room)
unfolding add_slash_to_uri
add_slash_to_uri-buffer text room n =
    rw (str_len-buffer text room n) (put_char-buffer text room (length text) 47 refl)

add_bytes_to_uri-eq :
    (text bytes : List ℕ) (uuid : Bool) (room : ℕ)
    → NonZero text
    → add_bytes_to_uri (buffer text (suc room)) bytes uuid
      ≡ put_chars (length text) (chars_of uuid 0 bytes) (buffer text (suc room))
unfolding add_bytes_to_uri
add_bytes_to_uri-eq text bytes uuid room n =
    rw (str_len-buffer text room n)
      (add_bytes_from-eq uuid 0 (length text) bytes (buffer text (suc room)))

buffer-replicate : (a b n : ℕ) → n ≡ a + b → buffer (replicate a 0) b ≡ replicate n 0
buffer-replicate zero b n e = ap (λ k. replicate k 0) (omega arith)
buffer-replicate (suc a) b zero e = absurd (omega arith)
buffer-replicate (suc a) b (suc n) e = ap (◌∷◌ 0) (buffer-replicate a b n (omega arith))

-- Zeros behind a text are room.
buffer-buffer : (text : List ℕ) (a b n : ℕ) → n ≡ a + b → buffer (buffer text a) b ≡ buffer text n
buffer-buffer text a b n e =
    append_assoc text (replicate a 0) (replicate b 0) ∙ ap (◌++◌ text) (buffer-replicate a b n e)

take-replicate :
    (n m left : ℕ) → n ≡ left → n ≤ m → take n (replicate m 0) ≡ replicate {A = ℕ} left 0
take-replicate zero m zero e l = refl
take-replicate zero m (suc left) e l = absurd (omega arith)
take-replicate (suc n) m zero e l = absurd (omega arith)
take-replicate (suc n) zero (suc left) e l = absurd (omega arith)
take-replicate (suc n) (suc m) (suc left) e l =
    ap (◌∷◌ 0) (take-replicate n m left (omega arith) (omega arith))

-- `strncpy` of a short string.
take-padded :
    (cs : List ℕ) (n m left : ℕ)
    → n ≡ length cs + left
    → left ≤ m
    → take n (cs ++ replicate m 0) ≡ cs ++ replicate left 0
take-padded [] n m left e l = take-replicate n m left (omega arith) (omega arith)
take-padded (c ∷ cs) zero m left e l = absurd (omega arith)
take-padded (c ∷ cs) (suc n) m left e l = ap (◌∷◌ c) (take-padded cs n m left (omega arith) l)

-- The number behind a text, if `strncpy` has room for its twelve bytes.
add_int_to_uri-buffer :
    (text : List ℕ) (n room left : ℕ)
    → NonZero text
    → int_string_length ≤ suc room
    → suc room ≡ length (int_string n) + left
    → add_int_to_uri (buffer text (suc room)) n ≡ some (buffer (text ++ int_string n) left)
unfolding add_int_to_uri
add_int_to_uri-buffer text n room left z fits r =
    let cs = int_string n in
    let short = length-int_string n in
    let k : ℕ = 12 - length cs in
    let rest : ℕ = suc room - 12 in
    let padded = take-padded cs 12 12 k (omega (arith, short)) (omega arith) in
    rw (str_len-buffer text room z, padded)
      (put_chars-buffer (buffer cs k) text (suc room) (length text) rest refl
          (omega (arith, short, length-buffer cs k))
        ∙ ap some (
            ap (λ t. buffer t rest) (sym (append_assoc text cs (replicate k 0)))
            ∙ buffer-buffer (text ++ cs) k rest left (omega (arith, short))))

create_basic_link-eq :
    (url suid : List ℕ)
    → NonZero url
    → length suid ≡ 16
    → create_basic_link suid url ≡ some (buffer (url ++ chars_of false 0 suid) 46)
unfolding create_basic_link
create_basic_link-eq url suid z n = rw (put_chars-buffer url [] (length url + 78) 0 78 refl refl) (
    add_bytes_to_uri-eq url suid false 77 z
    ∙ put_chars-buffer (chars_of false 0 suid) url 78 (length url) 46 refl
        (omega (arith, length-chars_of false 0 suid)))

-- The address without the trustlet: the initial address, the SUID, the service provider, a slash.
abbrev pub address_of : List ℕ → List ℕ → ℕ → List ℕ
address_of url suid spid = ((url ++ chars_of false 0 suid) ++ int_string spid) ++ 47 ∷ []

module _ (url suid uuid : List ℕ) (spid : ℕ) (z : NonZero url) (suid_size : length suid ≡ 16)
    (uuid_size : length uuid ≡ 16) (some_spid : spid ≢ 0) where
  address-NonZero : NonZero (address_of url suid spid)
  address-NonZero =
      NonZero-append ((url ++ chars_of false 0 suid) ++ int_string spid) (47 ∷ [])
        (NonZero-append (url ++ chars_of false 0 suid) (int_string spid)
          (NonZero-append url (chars_of false 0 suid) z (chars_of-NonZero false 0 suid))
          (int_string-NonZero spid))
        (omega arith, tt)

  trustlet_link-eq :
      (room : ℕ)
      → 45 ≡ length (int_string spid) + suc room
      → trustlet_link url suid spid uuid
        ≡ put_chars
            (length (address_of url suid spid))
            (chars_of true 0 uuid)
            (buffer (address_of url suid spid) (suc room))
  unfolding trustlet_link
  trustlet_link-eq room e =
      let basic = url ++ chars_of false 0 suid in
      let basic-z = NonZero-append url (chars_of false 0 suid) z (chars_of-NonZero false 0 suid) in
      let named-z = NonZero-append basic (int_string spid) basic-z (int_string-NonZero spid) in
      let other : (spid == 0) ≡ false = ground arith in
      rw
        (
          create_basic_link-eq url suid z suid_size,
          other,
          add_int_to_uri-buffer basic spid 45 (suc (suc room)) basic-z (omega arith) (omega arith),
          add_slash_to_uri-buffer (basic ++ int_string spid) (suc room) named-z,
        )
        (add_bytes_to_uri-eq (address_of url suid spid) uuid true room address-NonZero)

  uuid-length : length (chars_of true 0 uuid) ≡ 36
  uuid-length = length-chars_of true 0 uuid ∙ ap (λ n. 2 * n + dashes 0 n) uuid_size

  -- For an initial address without zeros, a SUID and a uuid of 16 bytes and a service provider
  -- other than 0, if the slash and the number of the service provider are at most nine
  -- characters, then the buffer of the link holds the initial address, the SUID in hexadecimal,
  -- the slash and the number, a slash and the uuid with its dashes, and behind it as many zeros
  -- as the slash and the number are short of nine characters.
  pub trustlet_link-fits :
      (left : ℕ)
      → length (int_string spid) + left ≡ 9
      → trustlet_link url suid spid uuid
        ≡ some (buffer ((address_of url suid spid) ++ chars_of true 0 uuid) left)
  trustlet_link-fits left e =
      trustlet_link-eq (35 + left) (omega arith)
      ∙ put_chars-buffer (chars_of true 0 uuid) (address_of url suid spid) (suc (35 + left))
          (length (address_of url suid spid)) left refl (omega (arith, uuid-length))

  -- For an initial address without zeros, a SUID and a uuid of 16 bytes and a service provider
  -- other than 0, if the slash and the number of the service provider are more than nine
  -- characters, then putting the address together writes past the end of its buffer.
  pub trustlet_link-overflows :
      9 < length (int_string spid) → trustlet_link url suid spid uuid ≡ none
  trustlet_link-overflows e =
      let room : ℕ = 44 - length (int_string spid) in
      let short = length-int_string spid in
      trustlet_link-eq room (omega (arith, short))
      ∙ put_chars-full (chars_of true 0 uuid) (address_of url suid spid) (suc room)
          (length (address_of url suid spid)) refl (omega (arith, uuid-length, short))
