-- ===== src/Pacmtl/Sizes.antt =====
-- The sizes of the commands, responses and containers in rootpa/Code/Common/pacmtl.c. The numbers
-- are those of `sizeof` at the types of common/MobiCore/inc/TlCm/3.0/cmpMap.h and mcContainer.h.
use tee_mobicore_driver_daem.Base.{
  ℕ, ◌+◌, List, [], ◌∷◌, Option, none, some, if◌then◌else◌, ◌==◌, ltb, add32,
}

-- cmpSizes_t
pub record CmpSizes : Type 0 where
  pub cmd_id : ℕ
  pub cmd_rsp_size : ℕ
  pub cmd_container_size : ℕ
  pub rsp_container_size : ℕ

abbrev pub sizeof_auth_token_container : ℕ
sizeof_auth_token_container = 152

abbrev pub sizeof_root_container : ℕ
sizeof_root_container = 220

abbrev pub sizeof_sp_container : ℕ
sizeof_sp_container = 396

abbrev pub sizeof_tlt_container : ℕ
sizeof_tlt_container = 192

abbrev sizes : ℕ → ℕ → ℕ → ℕ → CmpSizes
sizes id cmd_rsp cmd_container rsp_container = record {
  cmd_id = id;
  cmd_rsp_size = cmd_rsp;
  cmd_container_size = cmd_container;
  rsp_container_size = rsp_container;
}

abbrev root_plus_sp : ℕ
root_plus_sp = sizeof_root_container + sizeof_sp_container

abbrev sp_plus_tlt : ℕ
sp_plus_tlt = sizeof_sp_container + sizeof_tlt_container

unfoldable pub size_table : List CmpSizes
size_table =
    sizes 0 132 0 0
    ∷ sizes 1 72 sizeof_root_container 0
    ∷ sizes 2 72 sizeof_auth_token_container 0
    ∷ sizes 3 76 root_plus_sp 0
    ∷ sizes 4 312 0 0
    ∷ sizes 5 108 0 0
    ∷ sizes 7 272 0 sizeof_root_container
    ∷ sizes 9 272 0 sizeof_root_container
    ∷ sizes 10 272 0 sizeof_root_container
    ∷ sizes 11 84 0 0
    ∷ sizes 12 448 0 sizeof_sp_container
    ∷ sizes 13 448 sizeof_sp_container sizeof_sp_container
    ∷ sizes 14 448 0 sizeof_sp_container
    ∷ sizes 15 672 0 root_plus_sp
    ∷ sizes 16 672 0 root_plus_sp
    ∷ sizes 17 448 sizeof_sp_container sizeof_sp_container
    ∷ sizes 18 448 0 sizeof_sp_container
    ∷ sizes 19 272 0 sizeof_root_container
    ∷ sizes 20 244 sizeof_tlt_container sizeof_tlt_container
    ∷ sizes 21 244 sizeof_tlt_container sizeof_tlt_container
    ∷ sizes 22 2220 sizeof_tlt_container 0
    ∷ sizes 23 644 0 sp_plus_tlt
    ∷ sizes 24 644 0 sp_plus_tlt
    ∷ sizes 25 244 sizeof_tlt_container sizeof_tlt_container
    ∷ sizes 26 448 0 sizeof_sp_container
    ∷ sizes 27 24 0 0
    ∷ sizes 28 48 0 0
    ∷ []

unfoldable pub find_size_info : ℕ → List CmpSizes → Option CmpSizes
find_size_info id [] = none
find_size_info id (entry ∷ table) =
    if id == entry.cmd_id then some entry else find_size_info id table

unfoldable pub get_cmp_size_info : ℕ → Option CmpSizes
unfolding size_table find_size_info
get_cmp_size_info id = find_size_info id size_table

abbrev pub bigger : ℕ → ℕ → ℕ
bigger first second = if ltb second first then first else second

-- The size for a command id and a command length; 0 if the id is not in the table.
unfoldable pub get_total_mapped_buffer_size : ℕ → ℕ → ℕ
get_total_mapped_buffer_size id length = elim (get_cmp_size_info id) [
  | none ↦ 0
  | some e ↦ add32 (bigger e.cmd_rsp_size length) (bigger e.cmd_container_size e.rsp_container_size)
]
