-- ===== src/Pacmp3/Layout/Parts.antt =====
-- What a prepared command looks like (`prepareCommand`, rootpa/Code/Common/pacmp3.c): parts one
-- behind the other in the mapped buffer, with a row for each in the element table.
use tee_mobicore_driver_daem.Base.{
  ℕ, suc, ◌+◌, ◌*◌, ◌-◌, ◌≤◌, ◌<◌, ◌≡◌, refl, ◌∙◌, List, [], ◌∷◌, ◌++◌, arith, length, get_or, set,
  slice, copy_to, add32, u32_mod, get_or-set_self, get_or-set_ne, length-set, length-append,
}
use tee_mobicore_driver_daem.Base.Buffers.{slice-copy_to, slice-copy_to_before, length-copy_to}
use tee_mobicore_driver_daem.State.{Cmt}
use tee_mobicore_driver_daem.Pacmtl.{Build, set_cmd_element_info, wsm_words}

abbrev pub total : List (List ℕ) → ℕ
total [] = 0
total (part ∷ parts) = length part + total parts

-- From row `k` on the table describes these parts, the first of them at this offset.
abbrev pub Table : ℕ → ℕ → List (List ℕ) → Cmt → Type 0
Table k offset [] h = Unit {0}
Table k offset (part ∷ parts) h =
    (get_or h.wsm (4 + 2 * k) 0 ≡ offset)
    × (get_or h.wsm (5 + 2 * k) 0 ≡ length part)
    × (slice offset (length part) h.mapped ≡ part)
    × Table (suc k) (offset + length part) parts h

-- The handle holds exactly these parts: they fit the buffer, and the table has their rows.
pub record Holds (parts : List (List ℕ)) (h : Cmt) : Type 0 where
  pub words : length h.wsm ≡ wsm_words
  pub room : total parts ≤ length h.mapped
  pub table : Table 0 0 parts h

-- A build that is about to add a part behind these.
pub record Builds (parts : List (List ℕ)) (b : Build) : Type 0 where
  pub number : b.element_nbr ≡ 1 + length parts
  pub offset : b.element_offset ≡ total parts
  pub size : b.handle.mapped_size ≤ length b.handle.mapped
  pub holds : Holds parts b.handle

total-snoc : (parts : List (List ℕ)) (c : List ℕ) → total (parts ++ c ∷ []) ≡ total parts + length c
total-snoc [] c = omega arith
total-snoc (part ∷ parts) c = omega (arith, total-snoc parts c)

-- A table goes on holding where its words and bytes are kept, and gets one row more.
Table-snoc :
    (k offset row next end : ℕ) (parts : List (List ℕ)) (c : List ℕ) (h h' : Cmt)
    → row ≡ 4 + 2 * (k + length parts)
    → next ≡ row + 1
    → end ≡ offset + total parts
    → Table k offset parts h
    → ((i : ℕ) → i < row → get_or h'.wsm i 0 ≡ get_or h.wsm i 0)
    → ((o n : ℕ) → o + n ≤ end → slice o n h'.mapped ≡ slice o n h.mapped)
    → get_or h'.wsm row 0 ≡ end
    → get_or h'.wsm next 0 ≡ length c
    → slice end (length c) h'.mapped ≡ c
    → Table k offset (parts ++ c ∷ []) h'
Table-snoc k offset row next end [] c h h' r n e t words bytes e₁ e₂ e₃ =
    let r₁ : row ≡ 4 + 2 * k = omega arith in
    let r₂ : next ≡ 5 + 2 * k = omega arith in
    let o : end ≡ offset = omega arith in (cc, cc, cc, tt)
Table-snoc k offset row next end (part ∷ parts) c h h' r n e t words bytes e₁ e₂ e₃ = (
  words (4 + 2 * k) (omega arith) ∙ t.0,
  words (5 + 2 * k) (omega arith) ∙ t.1,
  bytes offset (length part) (omega arith) ∙ t.2,
  Table-snoc (suc k) (offset + length part) row next end parts c h h' (omega arith) n (omega arith)
      t.3 words bytes e₁ e₂ e₃,
)

total-eq-zero : (parts : List (List ℕ)) → length parts ≡ 0 → total parts ≡ 0
total-eq-zero [] h = refl
total-eq-zero (part ∷ parts) h = absurd (omega arith)

-- The build behind a row that is written.
abbrev advanced : Build → ℕ → Build
advanced b n = record {
  element_nbr = add32 b.element_nbr 1;
  element_offset = add32 b.element_offset n;
  handle = record (b.handle) {
    wsm =
        set (set b.handle.wsm (4 + 2 * (b.element_nbr - 1)) b.element_offset)
          (5 + 2 * (b.element_nbr - 1)) n;
  };
}

set_cmd_element_info-eq-advanced :
    (parts : List (List ℕ)) (b : Build) (n : ℕ)
    → b.element_nbr ≡ 1 + length parts
    → b.element_offset ≡ total parts
    → set_cmd_element_info b n ≡ advanced b n
unfolding set_cmd_element_info
set_cmd_element_info-eq-advanced parts b n e o = ground (arith, total-eq-zero parts)

module _ (parts : List (List ℕ)) (c : List ℕ) (b : Build) (few : length parts < 3)
    (v : Builds parts b) (fits : total parts + length c < u32_mod)
    (room : total parts + length c ≤ length b.handle.mapped) where
  -- With the bytes in place.
  abbrev with_bytes : Build
  with_bytes = record b {
    handle = record (b.handle) { mapped = copy_to b.element_offset c b.handle.mapped };
  }

  same_length : length (copy_to b.element_offset c b.handle.mapped) ≡ length b.handle.mapped
  same_length = length-copy_to b.element_offset c b.handle.mapped (omega (arith, v.offset))

  words_kept :
      (i row next off n : ℕ) (wsm : List ℕ)
      → i < row
      → next ≡ row + 1
      → get_or (set (set wsm row off) next n) i 0 ≡ get_or wsm i 0
  words_kept i row next off n wsm h e =
      get_or-set_ne (set wsm row off) next i n 0 (omega arith)
      ∙ get_or-set_ne wsm row i off 0 (omega arith)

  added-Table : Table 0 0 (parts ++ c ∷ []) (advanced with_bytes (length c)).handle
  added-Table =
      let row : ℕ = 4 + 2 * (b.element_nbr - 1) in
      let next : ℕ = 5 + 2 * (b.element_nbr - 1) in
      let off = b.element_offset in
      let wsm = b.handle.wsm in
      let r : row ≡ 4 + 2 * length parts = omega (arith, v.number) in
      let l : length wsm ≡ 10 = v.holds.words in
      let l' : length (set wsm row off) ≡ 10 = length-set wsm row off ∙ l in
      Table-snoc 0 0 row next off parts c b.handle (advanced with_bytes (length c)).handle
        (omega arith) (omega arith) (omega (arith, v.offset)) v.holds.table
        (λ i h. words_kept i row next off (length c) wsm h (omega arith))
        (λ o n h. slice-copy_to_before o n off c b.handle.mapped h (omega (arith, v.offset)))
        (get_or-set_ne (set wsm row off) next row (length c) 0 (omega arith)
          ∙ get_or-set_self wsm row off 0 (omega arith))
        (get_or-set_self (set wsm row off) next (length c) 0 (omega arith))
        (slice-copy_to off c b.handle.mapped (omega (arith, v.offset)))

  advanced-Builds : Builds (parts ++ c ∷ []) (advanced with_bytes (length c))
  advanced-Builds =
      let wsm = b.handle.wsm in
      record {
        number = omega (arith, length-append {0} parts (c ∷ []), v.number);
        offset = omega (arith, total-snoc parts c, v.offset);
        size = omega (arith, same_length, v.size);
        holds = record {
          words = length-set (set wsm _ _) _ _ ∙ length-set wsm _ _ ∙ v.holds.words;
          room = omega (arith, total-snoc parts c, same_length);
          table = added-Table;
        };
      }

  -- Adding a part whose bytes are in place.
  pub set_cmd_element_info-Builds :
      Builds (parts ++ c ∷ []) (set_cmd_element_info with_bytes (length c))
  set_cmd_element_info-Builds =
      rw (set_cmd_element_info-eq-advanced parts with_bytes (length c) v.number v.offset)
        advanced-Builds
