-- ===== src/CommandHandler/Queries/Structure.antt =====
-- What `getSpContainerStructure` (rootpa/Code/Common/commandhandler.c) tells of a service provider.
use mathlib.Core.Path.{subst}
use tee_mobicore_driver_daem.Base.{
  ap, ℕ, zero, suc, ◌≤◌, ◌≡◌, refl, sym, ◌∙◌, List, [], ◌∷◌, true, false, some, arith, length,
  length-append, inl, inr, Bool-cases,
}
use tee_mobicore_driver_daem.Cmp.{rootpa_ok, rootpa_error_registry, mc_drv_ok}
use tee_mobicore_driver_daem.World.{Platform}
use tee_mobicore_driver_daem.State.{Event, Sys}
use tee_mobicore_driver_daem.State
use tee_mobicore_driver_daem.Registry.{reg_read_tlt, reg_read_sp, bytes_at, container_buffer_size}
use tee_mobicore_driver_daem.CommandHandler.Queries.{
  container_exists, children_from, mc_cont_children_count, TltContainerData, state_of, collect_one,
  collect, get_sp_container_structure,
}

-- From the older log to the newer, the trustlet containers of these children were read, of those
-- only that are not free, and this is what they hold.
pub data Collected (spid : ℕ)
    : List (List ℕ) → List TltContainerData → List Event → List Event → Type 0 where
  done : {log : List Event} → Collected spid [] [] log log
  free :
      {uuid : List ℕ} {us : List (List ℕ)} {ts : List TltContainerData} {old new : List Event}
      → container_exists uuid ≡ false
      → Collected spid us ts old new
      → Collected spid (uuid ∷ us) ts old new
  taken :
      {uuid : List ℕ} {us : List (List ℕ)} {ts : List TltContainerData} {old new : List Event}
      → container_exists uuid ≡ true
      → (bytes : List ℕ) → Collected spid us ts (State.read_tlt uuid spid bytes mc_drv_ok ∷ old) new
      → Collected spid (uuid ∷ us) (record { uuid = uuid; state = state_of bytes } ∷ ts) old new

length-children_from : (sp : List ℕ) (i left : ℕ) → length (children_from sp i left) ≡ left
unfolding children_from
length-children_from sp i zero = refl
length-children_from sp i (suc left) = omega (arith, length-children_from sp (suc i) left)

module _ {W : Type 0} (p : Platform W) (spid : ℕ) where
  collect_one-length :
      (ret : ℕ) (uuid : List ℕ) (s : Sys W) → length (collect_one p spid ret uuid s).0.1 ≤ 1
  unfolding collect_one
  collect_one-length ret uuid s = ground arith

  collect-length :
      (ret : ℕ) (us : List (List ℕ)) (s : Sys W) → length (collect p spid ret us s).0.1 ≤ length us
  unfolding collect
  collect-length ret [] s = omega arith
  collect-length ret (u ∷ us) s =
      let ((ret', one), s') = collect_one p spid ret u s in
      let more = (collect p spid ret' us s').0.1 in
      omega
        (arith, length-append {0} one more, collect_one-length ret u s, collect-length ret' us s')

  -- An error stays.
  collect-error :
      (ret : ℕ) (us : List (List ℕ)) (s : Sys W)
      → (collect p spid ret us s).0.0 ≡ rootpa_ok
      → ret ≡ rootpa_ok
  unfolding collect collect_one
  collect-error ret [] s e = e
  collect-error ret (u ∷ us) s e =
      let ((ret', one), s') = collect_one p spid ret u s in ground (arith, collect-error ret' us s')

  collect-Collected :
      (us : List (List ℕ)) (s : Sys W)
      → let ((ret, ts), s') = collect p spid rootpa_ok us s in
        ret ≡ rootpa_ok → Collected spid us ts s.log s'.log
  unfolding collect collect_one reg_read_tlt
  collect-Collected [] s e = done
  collect-Collected (u ∷ us) s e = elim (Bool-cases (container_exists u)) [
    | inr vacant ↦
        let same : collect p spid rootpa_ok (u ∷ us) s ≡ collect p spid rootpa_ok us s =
          ground arith in
        subst (λ q. Collected spid (u ∷ us) q.0.1 s.log q.1.log) (sym same)
          (free vacant (collect-Collected us s (sym (ap (λ q. q.0.0) same) ∙ e)))
    | inl there ↦
        let w₀ = (p.alloc container_buffer_size s.world).1 in
        let ((r, bytes), w) = p.read_tlt u spid w₀ in
        let s' : Sys W = record s {
          world = w;
          log = State.read_tlt u spid bytes mc_drv_ok ∷ s.log;
        } in
        let rest = collect p spid rootpa_ok us s' in
        let t : TltContainerData = record { uuid = u; state = state_of bytes } in
        let broken = collect-error rootpa_error_registry us (collect_one p spid rootpa_ok u s).1 in
        let same : collect p spid rootpa_ok (u ∷ us) s ≡ ((rest.0.0, t ∷ rest.0.1), rest.1) =
          ground (arith, broken) in
        subst (λ q. Collected spid (u ∷ us) q.0.1 s.log q.1.log) (sym same)
          (taken there bytes (collect-Collected us s' (sym (ap (λ q. q.0.0) same) ∙ e)))
  ]

  -- The trustlets of a service provider that are counted are at most sixteen, for which the
  -- array has room, whichever way reading them ends.
  pub get_sp_container_structure-fits :
      (s : Sys W)
      → length (get_sp_container_structure p spid s).0.1.tlt_containers ≤ mc_cont_children_count
  unfolding get_sp_container_structure
  get_sp_container_structure-fits s =
      let (r, s') = reg_read_sp p spid s in
      let us = children_from (bytes_at r.1) 0 mc_cont_children_count in
      ground (
        arith,
        collect-length rootpa_ok us s',
        length-children_from (bytes_at r.1) 0 mc_cont_children_count,
      )

  -- If the structure of a service provider is returned with ROOTPA_OK, then its container was
  -- read from the registry, the state is that of the container, and the trustlets are those of
  -- its sixteen children that are not free, in their order, each with the state of the trustlet
  -- container that was read for it; nothing else was asked of the registry.
  pub get_sp_container_structure-Collected :
      (s : Sys W)
      → let ((ret, structure), s') = get_sp_container_structure p spid s in
        ret ≡ rootpa_ok
        → (sp : List ℕ) × (structure.state ≡ some (state_of sp))
          × Collected spid
              (children_from sp 0 mc_cont_children_count)
              structure.tlt_containers
              (State.read_sp spid sp mc_drv_ok ∷ s.log)
              s'.log
  unfolding get_sp_container_structure reg_read_sp
  get_sp_container_structure-Collected s e =
      let w₀ = (p.alloc container_buffer_size s.world).1 in
      let ((r, sp), w) = p.read_sp spid w₀ in
      let s' : Sys W = record s { world = w; log = State.read_sp spid sp mc_drv_ok ∷ s.log } in
      let us = children_from sp 0 mc_cont_children_count in
      let all = collect p spid rootpa_ok us s' in
      let same : get_sp_container_structure p spid s
          ≡ ((all.0.0, record { state = some (state_of sp); tlt_containers = all.0.1 }), all.1) =
        ground arith in
      (
        sp,
        ap (λ q. q.0.1.state) same,
        subst
            (λ q.
              Collected spid us q.0.1.tlt_containers (State.read_sp spid sp mc_drv_ok ∷ s.log)
                q.1.log)
            (sym same) (collect-Collected us s' (sym (ap (λ q. q.0.0) same) ∙ e)),
      )
