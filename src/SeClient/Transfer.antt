-- ===== src/SeClient/Transfer.antt =====
-- The bytes that go out and come in, `readResponseCallback` and `writeMemoryCallback` of
-- rootpa/Code/Common/seclient.c.
pub mod Pieces
use tee_mobicore_driver_daem.Base.{
  ℕ, zero, suc, ◌+◌, ◌*◌, Bool, true, false, List, [], ◌∷◌, ◌++◌, Option, none, some, if◌then◌else◌,
  ltb, leb, ◌==◌, length, slice, add32,
}
use tee_mobicore_driver_daem.SeClient.Text.{◌>>=◌}

-- ResponseStruct, whose offset has 32 bits. The memory of `responseP` holds its zero too.
pub record ResponseStruct : Type 0 where
  pub response : List ℕ
  pub size : ℕ
  pub offset : ℕ

-- `memcpy` of `n` bytes from `at` on, inside the memory.
abbrev pub read_bytes : List ℕ → ℕ → ℕ → Option (List ℕ)
read_bytes memory at n = if leb (at + n) (length memory) then some (slice at n memory) else none

-- The bytes copied to libcurl, whose number is the result, and the structure.
unfoldable pub read_response_callback : ℕ → ℕ → ResponseStruct → Option (List ℕ × ResponseStruct)
read_response_callback size nmemb rsp =
    let total_size = nmemb * size in
    let read_size = if ltb total_size rsp.size then total_size else rsp.size in
    if leb rsp.size rsp.offset then some ([], rsp) else (do
      bytes ← read_bytes rsp.response rsp.offset read_size
      some (bytes, record rsp { offset = add32 rsp.offset read_size }))

-- MemoryStruct. The bytes before the zero; NULL is `none`.
pub record MemoryStruct : Type 0 where
  pub memory : Option (List ℕ)
  pub size : ℕ

-- After a `realloc` that failed the bytes are lost: what stands before new ones is undefined.
abbrev bytes_before : MemoryStruct → Option (List ℕ)
bytes_before mem = elim mem.memory [
  | none ↦ (if mem.size == 0 then some [] else none)
  | some bytes ↦ some bytes
]

-- `realsize`, or 0 when the memory is out.
unfoldable pub write_memory_callback :
    (ℕ → Bool) → List ℕ → MemoryStruct → Option (ℕ × MemoryStruct)
write_memory_callback enough contents mem =
    let real_size = length contents in
    if enough (mem.size + real_size + 1)
    then (do
      bytes ← bytes_before mem
      some (real_size, record { memory = some (bytes ++ contents); size = mem.size + real_size }))
    else some (0, record mem { memory = none })
