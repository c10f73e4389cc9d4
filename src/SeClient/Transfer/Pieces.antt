-- ===== src/SeClient/Transfer/Pieces.antt =====
-- A response that goes out in pieces through `readResponseCallback` of
-- rootpa/Code/Common/seclient.c.
use tee_mobicore_driver_daem.Base.{
  ℕ, zero, suc, ◌+◌, ◌*◌, ◌≤◌, ◌<◌, ◌≡◌, refl, sym, ap, ◌∙◌, true, false, List, [], ◌∷◌, ◌++◌,
  Option, none, some, if◌then◌else◌, ltb, leb, ◌==◌, length, take, drop, length-append, length-take,
  length-drop, arith, ltb→lt, leb→le, Bool-cases, Option-cases, inl, inr, ◌⊎◌, ◌↔◌, drop-drop,
  add32, u32_mod, take-drop, take-all, append_nil, some-inj, drop-past,
}
use tee_mobicore_driver_daem.Base.Buffers.{slice-append_left}
use tee_mobicore_driver_daem.SeClient.Text.{◌>>=◌}
use tee_mobicore_driver_daem.SeClient.Transfer.{ResponseStruct, read_bytes, read_response_callback}

-- A response of `size` bytes in this memory.
abbrev pub at_offset : List ℕ → ℕ → ℕ → ResponseStruct
at_offset memory size offset = record { response = memory; size = size; offset = offset }

-- The callback again and again, with a buffer of `n` bytes, until it returns 0 or the fuel ends.
unfoldable pub send_all : ℕ → ℕ → ResponseStruct → Option (List ℕ)
send_all zero n rsp = none
send_all (suc fuel) n rsp = do
  (bytes, rsp') ← read_response_callback 1 n rsp
  let rest = send_all fuel n rsp'
  if length bytes == 0 then some [] else (do more ← rest; some (bytes ++ more))

-- A callback in the middle, with a buffer that is smaller than the response.
read_response_callback-middle :
    (memory : List ℕ) (size offset n : ℕ)
    → length memory < u32_mod
    → n < size
    → offset < size
    → read_response_callback 1 n (at_offset memory size offset)
      ≡ (do bytes ← read_bytes memory offset n; some (bytes, at_offset memory size (offset + n)))
unfolding read_response_callback
read_response_callback-middle memory size offset n small h k =
    let one : n * 1 ≡ n = omega arith in
    let open_ : leb size offset ≡ false = ground arith in
    let part : ltb n size ≡ true = ground arith in
    elim (Bool-cases (leb (offset + n) (length memory))) [
      | inl fits ↦
          let same : add32 offset n ≡ offset + n = ground arith in
          rw (one, open_, part, fits, same) refl
      | inr past ↦ rw (one, open_, part, past) refl
    ]

read_response_callback-end :
    (memory : List ℕ) (size offset n : ℕ)
    → size ≤ offset
    → read_response_callback 1 n (at_offset memory size offset)
      ≡ some ([], at_offset memory size offset)
unfolding read_response_callback
read_response_callback-end memory size offset n h =
    let closed : leb size offset ≡ true = ground arith in rw (closed) refl

-- With a buffer for the whole of it.
read_response_callback-whole :
    (memory : List ℕ) (size n : ℕ)
    → length memory < u32_mod
    → 0 < size
    → size ≤ n
    → read_response_callback 1 n (at_offset memory size 0)
      ≡ (do bytes ← read_bytes memory 0 size; some (bytes, at_offset memory size (0 + size)))
unfolding read_response_callback
read_response_callback-whole memory size n small h k =
    let one : n * 1 ≡ n = omega arith in
    let open_ : leb size 0 ≡ false = ground arith in
    let part : ltb n size ≡ false = ground arith in
    elim (Bool-cases (leb (0 + size) (length memory))) [
      | inl fits ↦
          let same : add32 0 size ≡ 0 + size = ground arith in
          rw (one, open_, part, fits, same) refl
      | inr past ↦ rw (one, open_, part, past) refl
    ]

length-read_bytes :
    (memory : List ℕ) (offset n : ℕ) (bytes : List ℕ)
    → read_bytes memory offset n ≡ some bytes
    → length bytes ≡ n
length-read_bytes memory offset n bytes h =
    ground (arith, length-take {0} n (drop offset memory), length-drop {0} offset memory)

send_all-end :
    (fuel n : ℕ) (memory : List ℕ) (size offset : ℕ)
    → size ≤ offset
    → send_all (suc fuel) n (at_offset memory size offset) ≡ some []
unfolding send_all
send_all-end fuel n memory size offset h =
    rw (read_response_callback-end memory size offset n h) refl

-- One piece in the middle, then the others.
send_all-middle :
    (fuel n : ℕ) (memory : List ℕ) (size offset : ℕ)
    → length memory < u32_mod
    → 0 < n
    → n < size
    → offset < size
    → send_all (suc fuel) n (at_offset memory size offset) ≡ (do
      bytes ← read_bytes memory offset n
      more ← send_all fuel n (at_offset memory size (offset + n))
      some (bytes ++ more))
unfolding send_all
send_all-middle fuel n memory size offset small o h k =
    rw (read_response_callback-middle memory size offset n small h k)
      (elim (Option-cases (read_bytes memory offset n)) [
        | inl e ↦ rw (e) refl
        | inr (bytes, e) ↦
            let some_bytes : (length bytes == 0) ≡ false =
              ground (arith, length-read_bytes memory offset n bytes e) in
            rw (e, some_bytes) refl
      ])

-- The response in memory, with the zero behind it.
abbrev pub in_memory : List ℕ → List ℕ
in_memory response = response ++ (0 ∷ [])

in_memory-small :
    (response : List ℕ) → length response + 1 < u32_mod → length (in_memory response) < u32_mod
in_memory-small response small = omega (arith, small, length-append {0} response (0 ∷ []))

read_bytes-inside :
    (response : List ℕ) (offset n : ℕ)
    → offset + n ≤ length response
    → read_bytes (in_memory response) offset n ≡ some (take n (drop offset response))
read_bytes-inside response offset n h =
    let inside : leb (offset + n) (length (in_memory response)) ≡ true =
      ground (arith, length-append {0} response (0 ∷ [])) in
    rw (inside, slice-append_left {0} offset n response (0 ∷ []) h) refl

take_then_drop :
    (n offset : ℕ) (xs : List ℕ) → take n (drop offset xs) ++ drop (offset + n) xs ≡ drop offset xs
take_then_drop n offset xs = rw (drop-drop {0} n offset xs) (take-drop n (drop offset xs))

-- So many whole pieces are left.
send_all-pieces :
    (k n : ℕ) (response : List ℕ) (offset fuel : ℕ)
    → length response + 1 < u32_mod
    → 0 < n
    → n < length response
    → offset + k * n ≡ length response
    → k < fuel
    → send_all fuel n (at_offset (in_memory response) (length response) offset)
      ≡ some (drop offset response)
send_all-pieces k n response offset zero small o h e f = absurd (omega arith)
send_all-pieces zero n response offset (suc fuel) small o h e f =
    let past : length response ≤ offset = omega arith in
    rw (drop-past {0} offset response past)
      (send_all-end fuel n (in_memory response) (length response) offset past)
send_all-pieces (suc k) n response offset (suc fuel) small o h e f =
    let more : (n + k * n) ≡ suc k * n = omega arith in
    rw
      (
        send_all-middle fuel n (in_memory response) (length response) offset
            (in_memory-small response small) o h (omega arith),
        read_bytes-inside response offset n (omega arith),
        send_all-pieces k n response (offset + n) fuel small o h (omega arith) (omega arith),
        take_then_drop n offset response,
      )
      refl

send_all-whole :
    (n : ℕ) (response : List ℕ) (fuel : ℕ)
    → length response + 1 < u32_mod
    → 0 < n
    → length response ≤ n
    → send_all (suc (suc fuel)) n (at_offset (in_memory response) (length response) 0)
      ≡ some response
unfolding send_all
send_all-whole n [] fuel small o h =
    rw (read_response_callback-end (in_memory []) 0 0 n (omega arith)) refl
send_all-whole n (x ∷ xs) fuel small o h =
    rw
      (
        read_response_callback-whole (in_memory (x ∷ xs)) (length (x ∷ xs)) n
            (in_memory-small (x ∷ xs) small) (omega arith) h,
        read_bytes-inside (x ∷ xs) 0 (length (x ∷ xs)) (omega arith),
      )
      (rw
        (send_all-end fuel n (in_memory (x ∷ xs)) (length (x ∷ xs)) (0 + length (x ∷ xs))
          (omega arith))
        (rw (take-all {0} xs, append_nil {0} xs) (ground arith)))

send_all-none :
    (n : ℕ) (memory : List ℕ) (size offset : ℕ) → send_all 0 n (at_offset memory size offset) ≡ none
unfolding send_all
send_all-none n memory size offset = refl

-- What goes out completely, goes out in whole pieces.
send_all-divides :
    (fuel n : ℕ) (memory : List ℕ) (size offset : ℕ) (bytes : List ℕ)
    → length memory < u32_mod
    → 0 < n
    → n < size
    → offset ≤ size
    → send_all fuel n (at_offset memory size offset) ≡ some bytes
    → offset + length bytes ≡ size
    → (k : ℕ) × (offset + k * n ≡ size)
send_all-divides zero n memory size offset bytes small o h k e l =
    let nothing : none ≡ some bytes = sym (send_all-none n memory size offset) ∙ e in cc
send_all-divides (suc fuel) n memory size offset bytes small o h k e l =
    elim (Bool-cases (ltb offset size)) [
      | inr past ↦ (0, ground arith)
      | inl before ↦
          let middle =
            send_all-middle fuel n memory size offset small o h (ltb→lt offset size before) in
          elim (Option-cases (read_bytes memory offset n)) [
            | inl r ↦ let nothing : none ≡ some bytes = sym (middle ∙ (rw (r) refl)) ∙ e in cc
            | inr (piece, r) ↦
                elim (Option-cases (send_all fuel n (at_offset memory size (offset + n)))) [
                  | inl t ↦
                      let nothing : none ≡ some bytes = sym (middle ∙ (rw (r, t) refl)) ∙ e in cc
                  | inr (more, t) ↦
                      let all : some (piece ++ more) ≡ some bytes =
                        sym (middle ∙ (rw (r, t) refl)) ∙ e in
                      let split : length (piece ++ more) ≡ length bytes =
                        ap length (some-inj {0} (piece ++ more) bytes all) in
                      let (k', e') =
                        send_all-divides fuel n memory size (offset + n) more small o h
                          (omega (
                            arith,
                            split,
                            length-append {0} piece more,
                            length-read_bytes memory offset n piece r,
                          ))
                          t
                          (omega (
                            arith,
                            split,
                            length-append {0} piece more,
                            length-read_bytes memory offset n piece r,
                          )) in
                      (suc k', omega (arith, e'))
                ]
          ]
    ]

pieces-le : (k n size : ℕ) → 0 < n → k * n ≡ size → k < suc (suc size)
pieces-le k (suc n) size o e = let more : k * suc n ≡ k + k * n = omega arith in omega (arith, more)
pieces-le k zero size o e = absurd (omega arith)

-- Called with a buffer of the same size until it returns 0, readResponseCallback hands out the
-- response and nothing else, within its memory, if and only if the buffer holds all of it or its
-- size divides the size of the response; given that the response and its zero are smaller than
-- 2^32 bytes.
pub send_all_complete :
    (n : ℕ) (response : List ℕ)
    → length response + 1 < u32_mod
    → 0 < n
    → ((length response ≤ n) ⊎ ((k : ℕ) × (k * n ≡ length response))) ↔ (
        send_all
          (suc (suc (length response)))
          n
          (at_offset (in_memory response) (length response) 0)
        ≡ some response)
send_all_complete n response small o = (
  (λ cases. elim cases [
    | inl whole ↦ send_all-whole n response (length response) small o whole
    | inr (k, e) ↦ elim (Bool-cases (leb (length response) n)) [
      | inl whole ↦
          send_all-whole n response (length response) small o (leb→le (length response) n whole)
      | inr part ↦
          send_all-pieces k n response 0 (suc (suc (length response))) small o (ground arith)
            (omega arith) (pieces-le k n (length response) o e)
    ]
  ]),
  (λ sent. elim (Bool-cases (leb (length response) n)) [
    | inl whole ↦ inl (leb→le (length response) n whole)
    | inr part ↦
        let (k, e) =
          send_all-divides (suc (suc (length response))) n (in_memory response) (length response) 0
            response (in_memory-small response small) o (ground arith) (omega arith) sent
            (omega arith) in
        inr (k, omega arith)
  ]),
)
