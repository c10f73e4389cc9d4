-- ===== src/Pacmp3/Layout/Grown.antt =====
-- Making room for a part and adding it (`ensureMappedBufferSize` and `addRootContainer` and its like,
-- rootpa/Code/Common/pacmp3.c).
use mathlib.Core.Path.{subst}
use tee_mobicore_driver_daem.Base.{
  ℕ, suc, ◌+◌, ◌*◌, ◌≤◌, ◌<◌, ◌≡◌, refl, ap, ◌∙◌, List, [], ◌∷◌, ◌++◌, true, arith, inl, inr, ◌⊎◌,
  Bool-cases, ltb, length, get_or, slice, add32, u32_mod,
}
use tee_mobicore_driver_daem.Base.Buffers.{slice-resize, length-resize}
use tee_mobicore_driver_daem.State.{Sys, Cmt}
use tee_mobicore_driver_daem.World.{Platform}
use tee_mobicore_driver_daem.Cmp.{rootpa_ok, mc_drv_ok}
use tee_mobicore_driver_daem.Registry.{Read, bytes_at}
use tee_mobicore_driver_daem.Pacmtl.{Build, set_cmd_element_info}
use tee_mobicore_driver_daem.Pacmp3.Prepare.{add_container, ensure_mapped_buffer_size, grown, put}
use tee_mobicore_driver_daem.Pacmp3.Layout.Parts.{total, Table, Builds, set_cmd_element_info-Builds}

-- A table goes on holding where its words are the same and its bytes are kept.
Table-kept :
    (k offset end : ℕ) (parts : List (List ℕ)) (h h' : Cmt)
    → end ≡ offset + total parts
    → Table k offset parts h
    → h'.wsm ≡ h.wsm
    → ((o n : ℕ) → o + n ≤ end → slice o n h'.mapped ≡ slice o n h.mapped)
    → Table k offset parts h'
Table-kept k offset end [] h h' e t w bytes = tt
Table-kept k offset end (part ∷ parts) h h' e t w bytes = (
  ap (λ (wsm : List ℕ). get_or wsm (4 + 2 * k) 0) w ∙ t.0,
  ap (λ (wsm : List ℕ). get_or wsm (5 + 2 * k) 0) w ∙ t.1,
  bytes offset (length part) (omega arith) ∙ t.2,
  Table-kept (suc k) (offset + length part) end parts h h' (omega arith) t.3 w bytes,
)

grown-Builds :
    (parts : List (List ℕ)) (b : Build) (n : ℕ)
    → Builds parts b
    → b.handle.mapped_size ≤ n
    → total parts ≤ n
    → Builds parts (record b { handle = grown n b.handle })
grown-Builds parts b n v h k =
    let long = length-resize n 0 b.handle.mapped in
    record {
      number = v.number;
      offset = v.offset;
      size = omega arith;
      holds = record {
        words = v.holds.words;
        room = omega arith;
        table =
            Table-kept 0 0 (total parts) parts b.handle (grown n b.handle) (omega arith)
              v.holds.table refl
              (λ o m le.
                slice-resize o m n 0 b.handle.mapped (omega (arith, v.holds.room)) (omega arith));
      };
    }

module _ {W : Type 0} (p : Platform W) where
  -- What is handed back: the same handle, if it is large enough, or the grown one.
  pub ensure_cases :
      (h : Cmt) (n : ℕ) (s : Sys W)
      → (ensure_mapped_buffer_size p h n s).0.0 ≡ true
      → (((ensure_mapped_buffer_size p h n s).0.1 ≡ h) × (n ≤ h.mapped_size))
        ⊎ (((ensure_mapped_buffer_size p h n s).0.1 ≡ grown n h) × (h.mapped_size < n))
  unfolding ensure_mapped_buffer_size
  ensure_cases h n s e = elim (Bool-cases (ltb h.mapped_size n)) [
    | inl small ↦ inr (ground arith, ground arith)
    | inr large ↦ inl (ground arith, ground arith)
  ]

  -- After room was made for `n` bytes the parts are there, and the room is.
  ensure-Builds :
      (parts : List (List ℕ)) (b : Build) (n : ℕ) (s : Sys W)
      → Builds parts b
      → total parts ≤ n
      → (ensure_mapped_buffer_size p b.handle n s).0.0 ≡ true
      → let h = (ensure_mapped_buffer_size p b.handle n s).0.1 in
        Builds parts (record b { handle = h }) × (n ≤ length h.mapped)
  ensure-Builds parts b n s v h e = elim (ensure_cases b.handle n s e) [
    | inl (same, large) ↦ rw same (v, omega (arith, v.size))
    | inr (more, small) ↦
        rw more (
          grown-Builds parts b n v (omega arith) h,
          omega (arith, length-resize n 0 b.handle.mapped),
        )
  ]

  -- A container that was added is the next part.
  pub add_container-Builds :
      (parts : List (List ℕ)) (r : Read) (b : Build) (s : Sys W)
      → length parts < 3
      → Builds parts b
      → total parts + length (bytes_at r.1) < u32_mod
      → (add_container p r b s).0.ret ≡ rootpa_ok
      → Builds (parts ++ bytes_at r.1 ∷ []) (add_container p r b s).0.build
  unfolding add_container
  add_container-Builds parts r b s few v fits e =
      let c = bytes_at r.1 in
      let need : ℕ = add32 b.element_offset (length c) in
      let got = ensure_mapped_buffer_size p b.handle need s in
      let same : need ≡ total parts + length c = omega (arith, v.offset) in
      let ok : (r.0 ≡ mc_drv_ok) × (got.0.0 ≡ true) = ground arith in
      let ready = ensure-Builds parts b need s v (omega arith) ok.1 in
      let done =
        set_cmd_element_info-Builds parts c (record b { handle = got.0.1 }) few ready.0 fits
          (omega (arith, ready.1)) in
      let built : set_cmd_element_info (put c got.0.1 b) (length c)
          ≡ (add_container p r b s).0.build =
        ground arith in
      subst (Builds (parts ++ c ∷ [])) built done

  pub add_container-ok :
      (r : Read) (b : Build) (s : Sys W)
      → (add_container p r b s).0.ret ≡ rootpa_ok
      → r.0 ≡ mc_drv_ok
  unfolding add_container ensure_mapped_buffer_size
  add_container-ok r b s e = ground arith

  pub add_container-log : (r : Read) (b : Build) (s : Sys W) → (add_container p r b s).1.log ≡ s.log
  unfolding add_container ensure_mapped_buffer_size
  add_container-log r b s = ground arith
