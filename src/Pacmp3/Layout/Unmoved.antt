-- ===== src/Pacmp3/Layout/Unmoved.antt =====
-- The buffer that `getTotalMappedBufferSize` (rootpa/Code/Common/pacmtl.c) asks for is large enough
-- for a command and its containers: `prepareCommand` (rootpa/Code/Common/pacmp3.c) does not call
-- `realloc` for memory that is mapped to the secure world.
use tee_mobicore_driver_daem.Base.{
  ℕ, ◌+◌, ◌≤◌, ◌<◌, ◌≡◌, ◌≢◌, refl, sym, ◌∙◌, ap, List, arith, length, u32_mod, copy_to,
}
use tee_mobicore_driver_daem.Cmp.{
  Command, command_id, command_of, command_id-command_of, CmpMessage,
}
use tee_mobicore_driver_daem.Cmp
use tee_mobicore_driver_daem.World.{Platform}
use tee_mobicore_driver_daem.State.{Sys, Cmt}
use tee_mobicore_driver_daem.Registry.{
  Read, bytes_at, container_buffer_size, reg_read_auth_token, reg_read_root, reg_read_sp,
  reg_read_tlt,
}
use tee_mobicore_driver_daem.Pacmtl.{
  Build, set_cmd_element_info, get_total_mapped_buffer_size, get_cmp_size_info, find_size_info,
  size_table, sizeof_auth_token_container, sizeof_root_container, sizeof_sp_container,
  sizeof_tlt_container,
}
use tee_mobicore_driver_daem.Pacmp3.Prepare.{
  ensure_mapped_buffer_size, add_container, add_auth_token_container, add_root_container,
  add_sp_container, add_tlt_container, add_root_and_sp_containers, prepare_case, out_command,
  begin_command, prepare_command, command_bytes, spid_of,
}

-- The registry's containers are no larger than the types of mcContainer.h.
pub record ContainersFit {W : Type 0} (p : Platform W) : Type 0 where
  pub auth_token_fits : (w : W) → length (p.read_auth_token w).0.1 ≤ sizeof_auth_token_container
  pub root_fits : (w : W) → length (p.read_root w).0.1 ≤ sizeof_root_container
  pub sp_fits : (spid : ℕ) (w : W) → length (p.read_sp spid w).0.1 ≤ sizeof_sp_container
  pub tlt_fits :
      (uuid : List ℕ) (spid : ℕ) (w : W)
      → length (p.read_tlt uuid spid w).0.1 ≤ sizeof_tlt_container

-- How much a command needs for containers.
abbrev containers_size : Command → ℕ
containers_size Cmp.begin_soc_authentication = sizeof_auth_token_container
containers_size Cmp.begin_root_authentication = sizeof_root_container
containers_size Cmp.begin_sp_authentication = sizeof_root_container + sizeof_sp_container
containers_size Cmp.sp_cont_lock_by_root = sizeof_sp_container
containers_size Cmp.sp_cont_unlock_by_root = sizeof_sp_container
containers_size Cmp.tlt_cont_activate = sizeof_tlt_container
containers_size Cmp.tlt_cont_lock_by_sp = sizeof_tlt_container
containers_size Cmp.tlt_cont_personalize = sizeof_tlt_container
containers_size Cmp.tlt_cont_unlock_by_sp = sizeof_tlt_container
containers_size _ = 0

total_size-ge :
    (c : Command) (n : ℕ)
    → n + 2836 < u32_mod
    → get_total_mapped_buffer_size (command_id c) n ≢ 0
    → (n + containers_size c ≤ get_total_mapped_buffer_size (command_id c) n)
      × (get_total_mapped_buffer_size (command_id c) n < u32_mod)
unfolding get_total_mapped_buffer_size get_cmp_size_info find_size_info size_table command_id
total_size-ge c n small known = ground arith

-- A build with room for `n` bytes more.
abbrev HasRoom : ℕ → Build → Type 0
HasRoom n b = (b.element_offset + n ≤ b.handle.mapped_size) × (b.handle.mapped_size < u32_mod)

-- From a build to one in the same memory, with at most `n` bytes more in it.
pub record Unmoved (n : ℕ) (b b' : Build) : Type 0 where
  pub reallocs : b'.handle.reallocs ≡ b.handle.reallocs
  pub size : b'.handle.mapped_size ≡ b.handle.mapped_size
  pub offset : b'.element_offset ≤ b.element_offset + n

module _ {W : Type 0} (p : Platform W) where
  add_container-Unmoved :
      (r : Read) (b : Build) (s : Sys W) (n : ℕ)
      → length (bytes_at r.1) ≤ n
      → HasRoom n b
      → Unmoved n b (add_container p r b s).0.build
  unfolding add_container ensure_mapped_buffer_size set_cmd_element_info
  add_container-Unmoved r b s n fits room = ground arith

module _ {W : Type 0} (p : Platform W) (f : ContainersFit p) where
  read_auth_token-fits :
      (s : Sys W) → length (bytes_at (reg_read_auth_token p s).0.1) ≤ sizeof_auth_token_container
  unfolding reg_read_auth_token
  read_auth_token-fits s =
      ground (arith, f.auth_token_fits (p.alloc container_buffer_size s.world).1)

  add_auth_token_container-Unmoved :
      (b : Build) (s : Sys W)
      → HasRoom sizeof_auth_token_container b
      → Unmoved sizeof_auth_token_container b (add_auth_token_container p b s).0.build
  unfolding add_auth_token_container
  add_auth_token_container-Unmoved b s room =
      let (r, s') = reg_read_auth_token p s in
      add_container-Unmoved p r b s' sizeof_auth_token_container (read_auth_token-fits s) room

  read_root-fits : (s : Sys W) → length (bytes_at (reg_read_root p s).0.1) ≤ sizeof_root_container
  unfolding reg_read_root
  read_root-fits s = ground (arith, f.root_fits (p.alloc container_buffer_size s.world).1)

  add_root_container-Unmoved :
      (b : Build) (s : Sys W)
      → HasRoom sizeof_root_container b
      → Unmoved sizeof_root_container b (add_root_container p b s).0.build
  unfolding add_root_container
  add_root_container-Unmoved b s room =
      let (r, s') = reg_read_root p s in
      add_container-Unmoved p r b s' sizeof_root_container (read_root-fits s) room

  read_sp-fits :
      (spid : ℕ) (s : Sys W) → length (bytes_at (reg_read_sp p spid s).0.1) ≤ sizeof_sp_container
  unfolding reg_read_sp
  read_sp-fits spid s = ground (arith, f.sp_fits spid (p.alloc container_buffer_size s.world).1)

  add_sp_container-Unmoved :
      (spid : ℕ) (b : Build) (s : Sys W)
      → HasRoom sizeof_sp_container b
      → Unmoved sizeof_sp_container b (add_sp_container p spid b s).0.build
  unfolding add_sp_container
  add_sp_container-Unmoved spid b s room =
      let (r, s') = reg_read_sp p spid s in
      add_container-Unmoved p r b s' sizeof_sp_container (read_sp-fits spid s) room

  read_tlt-fits :
      (uuid : List ℕ) (spid : ℕ) (s : Sys W)
      → length (bytes_at (reg_read_tlt p uuid spid s).0.1) ≤ sizeof_tlt_container
  unfolding reg_read_tlt
  read_tlt-fits uuid spid s =
      ground (arith, f.tlt_fits uuid spid (p.alloc container_buffer_size s.world).1)

  add_tlt_container-Unmoved :
      (uuid : List ℕ) (spid : ℕ) (b : Build) (s : Sys W)
      → HasRoom sizeof_tlt_container b
      → Unmoved sizeof_tlt_container b (add_tlt_container p uuid spid b s).0.build
  unfolding add_tlt_container
  add_tlt_container-Unmoved uuid spid b s room =
      let (r, s') = reg_read_tlt p uuid spid s in
      add_container-Unmoved p r b s' sizeof_tlt_container (read_tlt-fits uuid spid s) room

  add_root_and_sp_containers-Unmoved :
      (saved : ℕ) (b : Build) (s : Sys W)
      → HasRoom (sizeof_root_container + sizeof_sp_container) b
      → (add_root_and_sp_containers p saved b s).0.build.handle.reallocs ≡ b.handle.reallocs
  unfolding add_root_and_sp_containers out_command
  add_root_and_sp_containers-Unmoved saved b s room =
      let (a, s') = add_root_container p b s in
      let command = (out_command p saved a.build.handle s'.world).0 in
      let first = add_root_container-Unmoved b s (omega arith) in
      let second =
        add_sp_container-Unmoved (spid_of command) a.build s'
          (omega (arith, first.offset, first.size)) in
      ground (arith, first.reallocs, second.reallocs)

  prepare_case-Unmoved :
      (c : Command) (saved : ℕ) (command : List ℕ) (b : Build) (s : Sys W)
      → HasRoom (containers_size c) b
      → (prepare_case p c saved command b s).0.build.handle.reallocs ≡ b.handle.reallocs
  unfolding prepare_case
  prepare_case-Unmoved Cmp.begin_soc_authentication saved command b s room =
      (add_auth_token_container-Unmoved b _ room).reallocs
  prepare_case-Unmoved Cmp.begin_root_authentication saved command b s room =
      (add_root_container-Unmoved b _ room).reallocs
  prepare_case-Unmoved Cmp.begin_sp_authentication saved command b s room =
      add_root_and_sp_containers-Unmoved _ b _ room
  prepare_case-Unmoved Cmp.sp_cont_lock_by_root saved command b s room =
      (add_sp_container-Unmoved _ b _ room).reallocs
  prepare_case-Unmoved Cmp.sp_cont_unlock_by_root saved command b s room =
      (add_sp_container-Unmoved _ b _ room).reallocs
  prepare_case-Unmoved Cmp.tlt_cont_activate saved command b s room =
      (add_tlt_container-Unmoved _ _ b _ room).reallocs
  prepare_case-Unmoved Cmp.tlt_cont_lock_by_sp saved command b s room =
      (add_tlt_container-Unmoved _ _ b _ room).reallocs
  prepare_case-Unmoved Cmp.tlt_cont_personalize saved command b s room =
      (add_tlt_container-Unmoved _ _ b _ room).reallocs
  prepare_case-Unmoved Cmp.tlt_cont_unlock_by_sp saved command b s room =
      (add_tlt_container-Unmoved _ _ b _ room).reallocs
  prepare_case-Unmoved _ saved command b s room = refl

  begin_command-HasRoom :
      (id : ℕ) (m : CmpMessage) (h : Cmt) (n : ℕ)
      → m.length + n ≤ h.mapped_size
      → h.mapped_size < u32_mod
      → HasRoom n (begin_command id m.length h)
  unfolding begin_command set_cmd_element_info
  begin_command-HasRoom id m h n fits small = ground arith

  begin_command-same :
      (id : ℕ) (m : CmpMessage) (h : Cmt)
      → ((begin_command id m.length h).handle.reallocs ≡ h.reallocs)
        × ((begin_command id m.length h).handle.mapped_size ≡ h.mapped_size)
  unfolding begin_command set_cmd_element_info
  begin_command-same id m h = ground arith

  -- Preparing a command in a buffer of the size that getTotalMappedBufferSize gives for it does
  -- not call realloc, if that size is not 0, the containers of the registry are no larger than
  -- their types, and the command with the largest sizes of the table fits 32 bits.
  pub prepare_command-unmoved :
      (id : ℕ) (m : CmpMessage) (h : Cmt) (r : CmpMessage) (s : Sys W)
      → h.mapped_size ≡ get_total_mapped_buffer_size id m.length
      → h.mapped_size ≢ 0
      → m.length + 2836 < u32_mod
      → (prepare_command p id m h r s).0.handle.reallocs ≡ h.reallocs
  unfolding prepare_command ensure_mapped_buffer_size out_command
  prepare_command-unmoved id m h r s size known small =
      let c = command_of id in
      let same = ap (λ i. get_total_mapped_buffer_size i m.length) (command_id-command_of id) in
      let enough = total_size-ge c m.length small (λ e. known (size ∙ sym same ∙ e)) in
      let b = begin_command id m.length h in
      let room =
        begin_command-HasRoom id m h (containers_size c) (omega (arith, enough))
          (omega (arith, enough)) in
      let filled : Cmt = record (b.handle) {
        mapped = copy_to 0 (command_bytes m) b.handle.mapped;
      } in
      let case =
        prepare_case-Unmoved c h.reallocs (out_command p h.reallocs filled s.world).0
          (record b { handle = filled }) s room in
      ground (arith, enough, case, begin_command-same id m h, room)
