-- ===== src/Pacmp3/Layout/Prepared.antt =====
-- A prepared command holds the command and the containers that it needs (`prepareCommand`,
-- rootpa/Code/Common/pacmp3.c).
use tee_mobicore_driver_daem.Base.{
  ℕ, ◌+◌, ◌*◌, ◌<◌, ◌≤◌, ◌≡◌, refl, sym, ◌∙◌, ap, ◌==◌, List, [], ◌∷◌, arith, length, u32_mod, true,
  copy_to,
}
use tee_mobicore_driver_daem.Base.Buffers.{slice-copy_to, length-copy_to}
use tee_mobicore_driver_daem.State.{Sys, Cmt}
use tee_mobicore_driver_daem.World.{Platform}
use tee_mobicore_driver_daem.Cmp.{command_of, CmpMessage, rootpa_ok}
use tee_mobicore_driver_daem.Cmp
use tee_mobicore_driver_daem.Registry.{ReadsFit, container_buffer_size}
use tee_mobicore_driver_daem.Pacmtl.{Build, set_cmd_element_info}
use tee_mobicore_driver_daem.Pacmp3.Prepare.{
  prepare_case, prepare_command, begin_command, command_bytes, ensure_mapped_buffer_size,
  out_command, spid_of,
}
use tee_mobicore_driver_daem.Pacmp3.Layout.Parts.{Builds, Holds}
use tee_mobicore_driver_daem.Pacmp3.Layout.Needs.{needs, HasRead, announced}
use tee_mobicore_driver_daem.Pacmp3.Layout.Fetched.{prepare_case-Gets, spid_of-take}

-- The first element, with the command's bytes in the buffer, is the first part.
begin_command-Builds :
    (id : ℕ) (m : CmpMessage) (h : Cmt)
    → m.length ≤ h.mapped_size
    → h.mapped_size ≤ length h.mapped
    → length (command_bytes m) ≡ m.length
    → m.length < u32_mod
    → let b = begin_command id m.length h in
      Builds
        (command_bytes m ∷ [])
        (record b { handle = record (b.handle) { mapped = copy_to 0 (command_bytes m) h.mapped } })
unfolding begin_command
begin_command-Builds id m h fits size len small =
    let bytes = command_bytes m in
    let same = length-copy_to 0 bytes h.mapped (omega arith) in
    record {
      number = omega arith;
      offset = omega arith;
      size = omega arith;
      holds = record {
        words = refl;
        room = omega arith;
        table = (refl, sym len, slice-copy_to 0 bytes h.mapped (omega arith), tt);
      };
    }

-- What the build of the first element has in its mapped buffer.
abbrev pub command_buffer : CmpMessage → Cmt → List ℕ
command_buffer m h = copy_to 0 (command_bytes m) h.mapped

abbrev pub first_build : ℕ → CmpMessage → Cmt → Build
first_build id m h =
    let b = begin_command id m.length h in
    record b { handle = record (b.handle) { mapped = command_buffer m h } }

command_buffer-spid :
    (m : CmpMessage) (h : Cmt)
    → 16 ≤ length (command_bytes m)
    → spid_of (command_bytes m) ≡ spid_of (command_buffer m h)
command_buffer-spid m h whole =
    sym (ap spid_of (slice-copy_to 0 (command_bytes m) h.mapped (omega arith)))
    ∙ spid_of-take (length (command_bytes m)) (command_buffer m h) whole

first_build-reallocs :
    (id : ℕ) (m : CmpMessage) (h : Cmt) → (first_build id m h).handle.reallocs ≡ h.reallocs
unfolding begin_command set_cmd_element_info
first_build-reallocs id m h = ground arith

first_build-size :
    (id : ℕ) (m : CmpMessage) (h : Cmt) → (first_build id m h).handle.mapped_size ≡ h.mapped_size
unfolding begin_command set_cmd_element_info
first_build-size id m h = ground arith

module _ {W : Type 0} (p : Platform W) where
  ensure_enough :
      (h : Cmt) (n : ℕ) (s : Sys W)
      → n ≤ h.mapped_size
      → ensure_mapped_buffer_size p h n s ≡ ((true, h), s)
  unfolding ensure_mapped_buffer_size
  ensure_enough h n s fits = ground arith

  -- Where the command fits the buffer, nothing is allocated for it.
  prepare_command-eq :
      (id : ℕ) (m : CmpMessage) (h : Cmt) (r : CmpMessage) (s : Sys W)
      → m.length ≤ h.mapped_size
      → let a =
          prepare_case p (command_of id) h.reallocs (command_buffer m h) (first_build id m h) s in
        let q = prepare_command p id m h r s in
        (q.0.ret ≡ a.0.ret) × (q.0.handle ≡ a.0.build.handle) × (q.1 ≡ a.1)
  unfolding prepare_command begin_command out_command set_cmd_element_info
  prepare_command-eq id m h r s fits =
      let here : (h.reallocs == h.reallocs) ≡ true = ground arith in
      rw (ensure_enough (begin_command id m.length h).handle m.length s fits, here)
        (refl, refl, refl)

  -- A command that was prepared without error holds, one behind the other in the mapped buffer,
  -- the bytes of the command and of exactly the containers that the command needs (root, service
  -- provider, trustlet or authentication token, for the ids in the command), as they were just
  -- read from the registry, and the element table of the TCI buffer has a row for each of them
  -- with its offset and length; given that the registry returns at most 4096 bytes a container,
  -- that the command fits the mapped buffer, that its content is as long as its length says,
  -- that the sum fits 32 bits, and, for the authentication of a service provider, that the
  -- command has at least sixteen bytes and the root container fits the mapped buffer behind it.
  pub prepare_command-Holds :
      ReadsFit p
      → (id : ℕ) (m : CmpMessage) (h : Cmt) (r : CmpMessage) (s : Sys W) → m.length ≤ h.mapped_size
      → h.mapped_size ≤ length h.mapped
      → length (command_bytes m) ≡ m.length
      → m.length + 2 * container_buffer_size < u32_mod
      → (command_of id ≡ Cmp.begin_sp_authentication
          → (16 ≤ m.length) × ((w : W) → m.length + length (p.read_root w).0.1 ≤ h.mapped_size))
      → (prepare_command p id m h r s).0.ret ≡ rootpa_ok
      → let c = command_of id in
        let (q, s') = prepare_command p id m h r s in
        (cs : List (List ℕ)) × HasRead (needs c) cs (command_buffer m h) (announced c s) s'.log
        × Holds (command_bytes m ∷ cs) q.handle
  prepare_command-Holds f id m h r s fits size len small behind e =
      let c = command_of id in
      let b = first_build id m h in
      let (ret, handle, next) = prepare_command-eq id m h r s fits in
      let v = begin_command-Builds id m h fits size len (omega arith) in
      let (cs, reads, done) =
        prepare_case-Gets p f h.reallocs (command_buffer m h) (command_bytes m) b v (omega arith) c
          s (λ whole. command_buffer-spid m h whole) (first_build-reallocs id m h)
          (λ k. (
            omega (arith, (behind k).0),
            λ w. omega (arith, (behind k).1 w, first_build-size id m h),
          ))
          (sym ret ∙ e) in
      (cs, rw next reads, rw handle done.holds)
