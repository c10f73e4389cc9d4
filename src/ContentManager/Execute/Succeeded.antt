-- ===== src/ContentManager/Execute/Succeeded.antt =====
-- What a success of `executeOneCmpCommand` (rootpa/Code/Common/contentmanager.c) says.
use mathlib.Core.Path.{subst}
use tee_mobicore_driver_daem.Base.{
  ap, ℕ, ◌≡◌, refl, ◌∙◌, ◌∷◌, Option, some, arith, inl, inr, Option-cases, read_u32, u32_mod,
}
use tee_mobicore_driver_daem.Cmp.{CmpMessage, rootpa_ok, mc_drv_ok}
use tee_mobicore_driver_daem.World.{Platform}
use tee_mobicore_driver_daem.State.{Sys, Cmt}
use tee_mobicore_driver_daem.State
use tee_mobicore_driver_daem.Registry.{bytes_at}
use tee_mobicore_driver_daem.Pacmtl.{get_total_mapped_buffer_size}
use tee_mobicore_driver_daem.Pacmp3.Response.{handle_response}
use tee_mobicore_driver_daem.Pacmp3.Accepted.{Accepted, handle_response-Accepted}
use tee_mobicore_driver_daem.ContentManager.Execute.{
  Exec, execute_loop, finish, execute_one_cmp_command,
}

module _ {W : Type 0} (p : Platform W) where
  -- From a state to another the loop of the function ended with the handle that is left, the
  -- response in it was accepted as one to the command, then the buffer was unmapped, and the
  -- caller has the content of that response.
  pub record Succeeded (id : ℕ) (start x : Exec) (s s' : Sys W) : Type 0 where
    pub response : CmpMessage
    pub looped : Exec
    pub before : Sys W
    pub after : Sys W
    pub loop : execute_loop p u32_mod id start s ≡ (some looped, before)
    pub same_handle : looped.handle ≡ x.handle
    pub accepted : Accepted p id x.handle response before after
    pub unmapped : s'.log ≡ State.unmap_buffer mc_drv_ok ∷ after.log
    pub content : x.response.content ≡ response.content
    pub size : x.response.length ≡ response.length

  finish-Succeeded :
      (id : ℕ) (start x : Exec) (s₀ s : Sys W)
      → execute_loop p u32_mod id start s₀ ≡ (some x, s)
      → (finish p id x s).0.ret ≡ rootpa_ok
      → Succeeded id start (finish p id x s).0 s₀ (finish p id x s).1
  unfolding finish
  finish-Succeeded id start x s₀ s loop ok =
      let (h, s') = handle_response p id x.response x.handle s in
      let good : x.ret ≡ rootpa_ok = ground arith in
      let handled : h.ret ≡ rootpa_ok = ground arith in
      record {
        response = h.response;
        looped = x;
        before = s;
        after = s';
        loop = loop;
        same_handle = refl;
        accepted = handle_response-Accepted p id x.response x.handle s handled;
        unmapped = ground arith;
        content = ground arith;
        size = ground arith;
      }

  -- What the loop of the function begins with.
  abbrev pub started : Cmt → CmpMessage → CmpMessage → Exec
  started handle command response = record {
    ret = rootpa_ok;
    handle = record handle {
      mapped_size =
          get_total_mapped_buffer_size (read_u32 (bytes_at command.content) 0) command.length;
    };
    command = command;
    response = response;
  }

  -- If executing one command returns ROOTPA_OK, then its loop of attempts ended with the handle
  -- that is left, and the response that this handle holds was accepted: it is a valid one to the
  -- id of the command, its return code is SUCCESSFUL and its containers were stored; the buffer
  -- was unmapped after that and nothing else was done; and the content and the length that the
  -- caller gets are those of the first element of this response.
  pub execute_one_cmp_command-Succeeded :
      (handle : Cmt) (command response : CmpMessage) (s : Sys W) {x : Exec}
      → (execute_one_cmp_command p handle command response s).0 ≡ some x
      → x.ret ≡ rootpa_ok
      → Succeeded
          (read_u32 (bytes_at command.content) 0)
          (started handle command response)
          x
          s
          (execute_one_cmp_command p handle command response s).1
  unfolding execute_one_cmp_command
  execute_one_cmp_command-Succeeded handle command response s {x} got ok =
      let id : ℕ = read_u32 (bytes_at command.content) 0 in
      let start : Exec = started handle command response in
      let (ran, s₁) = execute_loop p u32_mod id start s in
      elim (Option-cases ran) [
        | inl e ↦ ground arith
        | inr (y, e) ↦
            let same : (finish p id y s₁).0 ≡ x = ground arith in
            let end_ : (finish p id y s₁).1
                ≡ (execute_one_cmp_command p handle command response s).1 =
              ground arith in
            subst (λ t. Succeeded id start x s t) end_
              (subst (λ q. Succeeded id start q s (finish p id y s₁).1) same
                (finish-Succeeded id start y s s₁ (ap (λ (o : Option Exec). (o, s₁)) e)
                  (ap (λ (q : Exec). q.ret) same ∙ ok)))
      ]
