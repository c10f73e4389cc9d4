-- ===== src/SeClient/Header/Roundtrip.antt =====
-- Writing a `Link` header and reading it back with `writeHeaderCallback` of
-- rootpa/Code/Common/seclient.c.
use tee_mobicore_driver_daem.Base.{
  ℕ, zero, suc, ◌+◌, ◌-◌, ◌*◌, ◌≤◌, ◌≡◌, refl, Bool, true, false, ◌&&◌, not, List, [], ◌∷◌, ◌++◌,
  some, ◌==◌, leb, length, length-append, take-append, arith,
}
use tee_mobicore_driver_daem.SeClient.Text.{as_is, str_str}
use tee_mobicore_driver_daem.SeClient.Header.{
  HeaderStruct, copy_header, update_rel, update_link, update_link_and_rel, write_header_callback,
}

-- A string, that does not hold the character.
abbrev pub plain : ℕ → List ℕ → Bool
plain c [] = true
plain c (zero ∷ text) = false
plain c (suc d ∷ text) = not (suc d == c) && plain c text

-- `>;rel="<rel>"`, and what follows it in memory.
abbrev rel_part : List ℕ → List ℕ → List ℕ
rel_part rel rest = 62 ∷ 59 ∷ 114 ∷ 101 ∷ 108 ∷ 61 ∷ 34 ∷ (rel ++ (34 ∷ rest))

-- `Link: <`, the link, and the rel.
abbrev pub link_header : List ℕ → List ℕ → List ℕ → List ℕ
link_header url rel rest = 76 ∷ 105 ∷ 110 ∷ 107 ∷ 58 ∷ 32 ∷ 60 ∷ (url ++ rel_part rel rest)

-- The first place of a character is behind the text that does not hold it.
str_str-plain :
    (c : ℕ) (text rest : List ℕ)
    → plain (suc c) text ≡ true
    → str_str as_is (suc c ∷ []) (text ++ (suc c ∷ rest)) ≡ some (some (suc c ∷ rest))
unfolding str_str
str_str-plain c [] rest h = ground arith
str_str-plain c (zero ∷ text) rest h = cc
str_str-plain c (suc d ∷ text) rest h =
    let later = str_str-plain c text rest in ground (arith, later)

length_between : (text rest : List ℕ) → length (text ++ rest) - length rest ≡ length text
length_between text rest = omega (arith, length-append {0} text rest)

copy_header-between :
    (enough : ℕ → Bool) (text rest : List ℕ)
    → enough (length text + 1) ≡ true
    → copy_header enough (text ++ rest) (length text) ≡ (true, some text)
unfolding copy_header
copy_header-between enough text rest e = rw (e, take-append {0} text rest) refl

update_rel-roundtrip :
    (enough : ℕ → Bool) (mem : HeaderStruct) (rel rest : List ℕ)
    → plain 34 rel ≡ true
    → enough (length rel + 1) ≡ true
    → update_rel enough mem (rel_part rel rest)
      ≡ some (record mem { rel_size = length rel; rel = some rel })
unfolding update_rel str_str
update_rel-roundtrip enough mem rel rest p e =
    rw
      (
        str_str-plain 33 rel rest p,
        length_between rel (34 ∷ rest),
        copy_header-between enough rel (34 ∷ rest) e,
      )
      refl

-- The structure that a header fills.
abbrev pub header_of : List ℕ → List ℕ → HeaderStruct
header_of url rel = record {
  link = some url;
  link_size = length url;
  rel = some rel;
  rel_size = length rel;
}

update_link-roundtrip :
    (enough : ℕ → Bool) (mem : HeaderStruct) (url rel rest : List ℕ)
    → plain 62 url ≡ true
    → plain 34 rel ≡ true
    → enough (length url + 1) ≡ true
    → enough (length rel + 1) ≡ true
    → update_link enough mem (url ++ rel_part rel rest) ≡ some (true, header_of url rel)
unfolding update_link
update_link-roundtrip enough mem url rel rest p q e d =
    rw
      (
        str_str-plain 61 url (59 ∷ 114 ∷ 101 ∷ 108 ∷ 61 ∷ 34 ∷ (rel ++ (34 ∷ rest))) p,
        length_between url (rel_part rel rest),
        copy_header-between enough url (rel_part rel rest) e,
        update_rel-roundtrip enough
            (record {
              link = some url;
              link_size = length url;
              rel = mem.rel;
              rel_size = mem.rel_size;
            })
            rel rest q d,
      )
      refl

update_link_and_rel-roundtrip :
    (enough : ℕ → Bool) (mem : HeaderStruct) (url rel rest : List ℕ)
    → plain 62 url ≡ true
    → plain 34 rel ≡ true
    → enough (length url + 1) ≡ true
    → enough (length rel + 1) ≡ true
    → update_link_and_rel enough mem (link_header url rel rest) ≡ some (true, header_of url rel)
unfolding update_link_and_rel str_str
update_link_and_rel-roundtrip enough mem url rel rest p q e d =
    update_link-roundtrip enough mem url rel rest p q e d

-- A header that is written as Link: <link>;rel="rel" is read back: the callback takes all of its
-- bytes and the structure holds the link and the rel with their lengths, whatever it held before
-- and whatever follows in memory; given that the link has no zero and no >, the rel no zero and
-- no quotation mark, that there is memory for both copies, and that the header counts at least
-- six bytes.
pub write_header_callback-roundtrip :
    (enough : ℕ → Bool) (mem : HeaderStruct) (url rel rest : List ℕ) (size nmemb : ℕ)
    → plain 62 url ≡ true
    → plain 34 rel ≡ true
    → enough (length url + 1) ≡ true
    → enough (length rel + 1) ≡ true
    → 6 ≤ size * nmemb
    → write_header_callback enough (link_header url rel rest) size nmemb mem
      ≡ some (size * nmemb, header_of url rel)
unfolding write_header_callback
write_header_callback-roundtrip enough mem url rel rest size nmemb p q e d h =
    let long : leb 6 (size * nmemb) ≡ true = ground arith in
    rw (long, update_link_and_rel-roundtrip enough mem url rel rest p q e d) refl
