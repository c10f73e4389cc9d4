-- ===== src/SeClient/Header.antt =====
-- The `Link` header of an answer, `copyHeader`, `updateLinkAndRel` and `writeHeaderCallback` of
-- rootpa/Code/Common/seclient.c.
pub mod Roundtrip
use tee_mobicore_driver_daem.Base.{
  ℕ, ◌+◌, ◌-◌, ◌*◌, Bool, true, false, ◌&&◌, List, [], ◌∷◌, ◌++◌, Option, none, some, if◌then◌else◌,
  ◌==◌, leb, length, take, drop,
}
use tee_mobicore_driver_daem.SeClient.Text.{◌>>=◌, to_lower, as_is, begins, str_str}

-- HeaderStruct. A copy is the text before its zero.
pub record HeaderStruct : Type 0 where
  pub link : Option (List ℕ)
  pub link_size : ℕ
  pub rel : Option (List ℕ)
  pub rel_size : ℕ

-- `*headerP` after the call, with the result; `enough n` says whether `malloc(n)` has memory.
unfoldable pub copy_header : (ℕ → Bool) → List ℕ → ℕ → Bool × Option (List ℕ)
copy_header enough contents size =
    if enough (size + 1) then (true, some (take size contents)) else (false, none)

-- "link", "rel=" and "Link:"
abbrev link_word : List ℕ
link_word = 108 ∷ 105 ∷ 110 ∷ 107 ∷ []

abbrev rel_word : List ℕ
rel_word = 114 ∷ 101 ∷ 108 ∷ 61 ∷ []

abbrev pub link_header_word : List ℕ
link_header_word = 76 ∷ 105 ∷ 110 ∷ 107 ∷ 58 ∷ []

-- From `endP` on: the rel, whose copy may fail without harm.
unfoldable pub update_rel : (ℕ → Bool) → HeaderStruct → List ℕ → Option HeaderStruct
update_rel enough mem link_end = do
  found ← str_str to_lower rel_word link_end
  elim found [
    | none ↦ some mem
    | some at_rel ↦ (do
      let start = drop 5 at_rel
      closing ← str_str as_is (34 ∷ []) start
      elim closing [
        | none ↦ some mem
        | some end ↦
            let size = length start - length end in
            some (record mem { rel_size = size; rel = (copy_header enough start size).1 })
      ])
  ]

-- From `<` on: the link, then the rel.
unfoldable pub update_link : (ℕ → Bool) → HeaderStruct → List ℕ → Option (Bool × HeaderStruct)
update_link enough mem start = do
  closing ← str_str as_is (62 ∷ []) start
  elim closing [
    | none ↦ some (false, mem)
    | some end ↦
        let size = length start - length end in
        let (copied, link) = copy_header enough start size in
        let mem' = record mem { link_size = size; link = link } in
        if copied
        then (do mem'' ← update_rel enough mem' end; some (true, mem''))
        else some (false, mem')
  ]

unfoldable pub update_link_and_rel :
    (ℕ → Bool) → HeaderStruct → List ℕ → Option (Bool × HeaderStruct)
update_link_and_rel enough mem text = do
  named ← str_str to_lower link_word text
  elim named [
    | none ↦ some (false, mem)
    | some at_link ↦ (do
      opening ← str_str as_is (60 ∷ []) at_link
      elim opening [
        | none ↦ some (false, mem)
        | some at_opening ↦ update_link enough mem (drop 1 at_opening)
      ])
  ]

-- `memcmp(ptr, "Link:", 5)==0` looks at five bytes.
unfoldable pub write_header_callback :
    (ℕ → Bool) → List ℕ → ℕ → ℕ → HeaderStruct → Option (ℕ × HeaderStruct)
write_header_callback enough text size nmemb mem =
    let real_size = size * nmemb in
    if leb 6 real_size
    then (do
      is_link ← begins as_is link_header_word text
      if is_link
          then (do (updated, mem') ← update_link_and_rel enough mem text; some (real_size, mem'))
          else some (real_size, mem))
    else some (real_size, mem)
